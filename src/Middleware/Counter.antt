-- ===== src/Middleware/Counter.antt =====
-- middleware/reqcounter/reqcounter.go. The map is in the order in which Range visits it; a count is
-- an int64 as its bit pattern, and the clock readings are arguments.
use imagelet.Base.{
  ℕ, ◌+◌, ◌-◌, ◌%◌, ◌^◌, Bool, true, false, List, [], ◌∷◌, none, some, ltb, ◌==◌, if◌then◌else◌,
  map, not,
}
use imagelet.Base.Assoc.{lookup, insert}
use imagelet.Base.Sorting.{sort_slice}
use imagelet.Base.Text.{Text, codes, Text-discrete}
use imagelet.HtmlCache.Key.{text_ltb}

pub record Counter : Type 0 where
  pub started : ℕ
  pub counts : List (Text × ℕ)

unfoldable pub new_counter : ℕ → Counter
new_counter now = record { started = now; counts = [] }

unfoldable pub route_key : Text → Text
route_key [] = codes "no-route"
route_key (c ∷ path) = c ∷ path

-- the counter that `LoadOrStore` finds or puts there
unfoldable pub counted_so_far : Text → List (Text × ℕ) → ℕ
unfolding lookup
counted_so_far key counts = elim (lookup Text-discrete key counts) [ none ↦ 0 | some n ↦ n ]

-- `Middleware`, after the handler: `full_path` is the pattern of the route, blank if there is none
unfoldable pub count_request : Text → Counter → Counter
unfolding route_key counted_so_far insert
count_request full_path ctr =
    let key = route_key full_path in
    record ctr {
      counts = insert Text-discrete key ((counted_so_far key ctr.counts + 1) % 2 ^ 64) ctr.counts;
    }

pub record RouteCount : Type 0 where
  pub route : Text
  pub count : ℕ

-- `a > b` on int64
unfoldable pub greater : ℕ → ℕ → Bool
greater a b =
    if ltb a (2 ^ 63)
    then (if ltb b (2 ^ 63) then ltb b a else true)
    else (if ltb b (2 ^ 63) then false else ltb b a)

-- the `less` of `Snapshot`
unfoldable pub before : RouteCount → RouteCount → Bool
unfolding greater text_ltb
before a b = if not (a.count == b.count) then greater a.count b.count else text_ltb a.route b.route

unfoldable pub to_route_count : Text × ℕ → RouteCount
to_route_count (route, count) = record { route = route; count = count }

unfoldable pub snapshot : Counter → List RouteCount
unfolding sort_slice before to_route_count
snapshot ctr = sort_slice before (map to_route_count ctr.counts)

-- `Uptime`
unfoldable pub uptime : ℕ → Counter → ℕ
uptime now ctr = now - ctr.started
