-- ===== src/Middleware/Counts.antt =====
-- middleware/reqcounter/reqcounter.go: the counts after any requests, and their order in a snapshot.
use mathlib.Core.List.{Perm, Permᴰ}
use mathlib.Core.Logic.{∥∥₁_elim, ∥∥₁_prop, if_pos, if_neg}
use imagelet.Base.{ℕ, ◌+◌, ◌%◌, ◌^◌, ◌≡◌, ◌<◌, ap, arith, false, List, [], ◌∷◌, map, ite}
use imagelet.Base.Assoc.{lookup-insert}
use imagelet.Base.Sorting.{
  StrictOrder, IsSorted, sort_slice-IsSorted, sort_slice-Perm, sort_slice-perm,
}
use imagelet.Base.Text.{Text, Text-discrete}
use imagelet.HtmlCache.KeyOrder.{text_ltb_asym, text_ltb_trans, text_ltb_total}
use imagelet.Middleware.Counter.{
  Counter, RouteCount, route_key, counted_so_far, count_request, greater, before, to_route_count,
  snapshot,
}

RouteCount-eq : {a b : RouteCount} → a.route ≡ b.route → a.count ≡ b.count → a ≡ b
RouteCount-eq p q = cc

before_total : (a b : RouteCount) → before a b ≡ false → before b a ≡ false → a ≡ b
unfolding before greater
before_total a b h k =
    RouteCount-eq {a = a} {b = b} (ground (arith, text_ltb_total a.route b.route)) (ground arith)

before_order : StrictOrder RouteCount before
unfolding before greater
before_order = record {
  asym = λ a b h. ground (arith, text_ltb_asym a.route b.route);
  trans = λ a b c h k. ground (arith, text_ltb_trans a.route b.route c.route);
  total = before_total;
}

-- the requests of these routes, one after the other
unfoldable pub count_all : List Text → Counter → Counter
unfolding count_request
count_all [] ctr = ctr
count_all (path ∷ paths) ctr = count_all paths (count_request path ctr)

unfoldable pub requests_of : Text → List Text → ℕ
unfolding route_key
requests_of route [] = 0
requests_of route (path ∷ paths) =
    ite (Text-discrete (route_key path) route) 1 0 + requests_of route paths

counted_so_far-count_request :
    (route path : Text) (ctr : Counter)
    → counted_so_far route (count_request path ctr).counts
      ≡ ite
          (Text-discrete (route_key path) route)
          ((counted_so_far (route_key path) ctr.counts + 1) % 2 ^ 64)
          (counted_so_far route ctr.counts)
unfolding counted_so_far count_request
counted_so_far-count_request route path ctr = ground (
  arith,
  lookup-insert Text-discrete (route_key path) route
      ((counted_so_far (route_key path) ctr.counts + 1) % 2 ^ 64) ctr.counts,
)

-- After any requests the count of a route is the one before them plus the number of requests of that
-- route, modulo 2 ^ 64; a request that no route matches counts for no-route.
pub counted_so_far-count_all :
    (route : Text) (paths : List Text) (ctr : Counter)
    → counted_so_far route ctr.counts < 2 ^ 64
    → counted_so_far route (count_all paths ctr).counts
      ≡ (counted_so_far route ctr.counts + requests_of route paths) % 2 ^ 64
unfolding count_all requests_of
counted_so_far-count_all route [] ctr h = omega arith
counted_so_far-count_all route (path ∷ paths) ctr h =
    let this = counted_so_far-count_request route path ctr in
    elim (Text-discrete (route_key path) route) [
      | yes e ↦
          let same = ap (λ r. counted_so_far r ctr.counts) e in
          let now : counted_so_far route (count_request path ctr).counts
              ≡ (counted_so_far route ctr.counts + 1) % 2 ^ 64 =
            ground (arith, this, same) in
          rw (if_pos, e)
            (omega (
              arith,
              now,
              counted_so_far-count_all route paths (count_request path ctr) (omega (arith, now)),
            ))
      | no ne ↦
          let now : counted_so_far route (count_request path ctr).counts
              ≡ counted_so_far route ctr.counts =
            ground (arith, this) in
          rw (if_neg, ne)
            (omega (
              arith,
              now,
              counted_so_far-count_all route paths (count_request path ctr) (omega (arith, now)),
            ))
    ]

Counts_set : IsSet (List RouteCount)
Counts_set = hlevel

map-Permᴰ : {A B : Type 0} (f : A → B) {l m : List A} → Permᴰ l m → Permᴰ (map f l) (map f m)
map-Permᴰ f Permᴰ.nil = Permᴰ.nil
map-Permᴰ f (Permᴰ.cons e p) = Permᴰ.cons (ap f e) (map-Permᴰ f p)
map-Permᴰ f (Permᴰ.swap e e') = Permᴰ.swap (ap f e) (ap f e')
map-Permᴰ f (Permᴰ.trans p q) = Permᴰ.trans (map-Permᴰ f p) (map-Permᴰ f q)

map-perm : {A B : Type 0} (f : A → B) {l m : List A} → Perm l m → Perm (map f l) (map f m)
map-perm f p = ∥∥₁_elim p ∥∥₁_prop λ d. ∣ map-Permᴰ f d ∣₁

-- A snapshot is the entries of the map, the greater counts first and equal counts in the
-- order of their routes.
pub snapshot-IsSorted :
    (ctr : Counter)
    → IsSorted before (snapshot ctr) × Perm (snapshot ctr) (map to_route_count ctr.counts)
unfolding snapshot
snapshot-IsSorted ctr = (
  sort_slice-IsSorted before_order (map to_route_count ctr.counts),
  sort_slice-Perm before_order (map to_route_count ctr.counts),
)

-- A snapshot does not depend on the order in which the map is visited.
pub snapshot-perm :
    (ctr again : Counter) → Perm ctr.counts again.counts → snapshot ctr ≡ snapshot again
unfolding snapshot
snapshot-perm ctr again p = sort_slice-perm before_order Counts_set (map-perm to_route_count p)
