-- ===== src/Dns/Schedules.antt =====
-- service/dns/resolver/lookup.go: the goroutines of `Lookup` in any order.
use mathlib.Core.List.{Perm, Permᴰ}
use mathlib.Core.Logic.{∥∥₁_elim}
use imagelet.Base.{ℕ, ap, sym, ◌∙◌, is_some, none, some, Option, ◌≡◌, refl, arith, Bool, List}
use imagelet.Base.Text.{Text}
use imagelet.DnsCache.{LookupError, Records}
use imagelet.Dns.Names.{Checked, canonicalize}
use imagelet.Dns.Queries.{Exchange}
use imagelet.Dns.Records.{DnsQuery, Sets, QueryType}
use imagelet.Dns.Lookup.{
  Answers, Board, Section, row, ad, ttl, store_answer, store_row, note_ad, note_ttl, ttl_of,
  per_query, enter, enter_all, wait, returned, first_error, gather, lookup_result, to_records,
  answers, pick_resolver, on_name, on_resolver, empty_board, Schedule, lookup_records,
}

store_answer_comm :
    (r : Answers) (k j : QueryType) (s : Sets)
    → store_answer r k (store_answer r j s) ≡ store_answer r j (store_answer r k s)
unfolding store_answer store_row
store_answer_comm r k j s = ground arith

note_ad_comm : (x y : Bool) (b : Board) → note_ad x (note_ad y b) ≡ note_ad y (note_ad x b)
unfolding note_ad
note_ad_comm x y b = ground arith

note_ttl_comm : (x y : ℕ) (b : Board) → note_ttl x (note_ttl y b) ≡ note_ttl y (note_ttl x b)
unfolding note_ttl
note_ttl_comm x y b = ground arith

note_ad-note_ttl :
    (x : Bool) (n : ℕ) (b : Board) → note_ad x (note_ttl n b) ≡ note_ttl n (note_ad x b)
unfolding note_ad note_ttl
note_ad-note_ttl x n b = ground arith

-- Two critical sections do the same in either order.
enter_comm :
    (r : Answers) (s t : Section) (b : Board) → enter r s (enter r t b) ≡ enter r t (enter r s b)
unfolding enter note_ad note_ttl
enter_comm r (row k) (row j) b = ap (λ x. record b { sets = x }) (store_answer_comm r k j b.sets)
enter_comm r (row k) (ad j) b = ground arith
enter_comm r (row k) (ttl j) b = ground arith
enter_comm r (ad k) (row j) b = ground arith
enter_comm r (ad k) (ad j) b = note_ad_comm _ _ b
enter_comm r (ad k) (ttl j) b = note_ad-note_ttl _ _ b
enter_comm r (ttl k) (row j) b = ground arith
enter_comm r (ttl k) (ad j) b = sym (note_ad-note_ttl _ _ b)
enter_comm r (ttl k) (ttl j) b = note_ttl_comm (per_query ttl_of r k) (per_query ttl_of r j) b

Board_set : IsSet Board
Board_set = hlevel

enter_all-Permᴰ :
    (r : Answers) {l m : List Section} → Permᴰ l m → (b : Board) → enter_all r l b ≡ enter_all r m b
unfolding enter_all
enter_all-Permᴰ r Permᴰ.nil b = refl
enter_all-Permᴰ r (Permᴰ.cons e p) b = cc (enter_all-Permᴰ r p (enter r _ b))
enter_all-Permᴰ r (Permᴰ.swap {a = s} {b = t} {l = l} e e') b =
    ap (enter_all r l) (enter_comm r t s b) ∙ cc
enter_all-Permᴰ r (Permᴰ.trans p q) b = enter_all-Permᴰ r p b ∙ enter_all-Permᴰ r q b

-- The critical sections in any order leave the same board.
pub enter_all-perm :
    (r : Answers) {l m : List Section} → Perm l m → (b : Board) → enter_all r l b ≡ enter_all r m b
enter_all-perm r p b = ∥∥₁_elim p (Board_set _ _) λ d. enter_all-Permᴰ r d b

first_error_cong :
    (x y z : Option LookupError)
    → is_some y ≡ is_some z
    → is_some (first_error x y) ≡ is_some (first_error x z)
unfolding first_error
first_error_cong none y z e = e
first_error_cong (some err) y z e = refl

first_error_swap :
    (x y z : Option LookupError)
    → is_some (first_error x (first_error y z)) ≡ is_some (first_error y (first_error x z))
unfolding first_error
first_error_swap x y z = ground arith

wait-Permᴰ :
    (r : Answers) {l m : List QueryType} → Permᴰ l m → is_some (wait r l) ≡ is_some (wait r m)
unfolding wait
wait-Permᴰ r Permᴰ.nil = refl
wait-Permᴰ r (Permᴰ.cons {a = k} {b = j} {l₂ = m} e p) =
    first_error_cong (returned r k) _ _ (wait-Permᴰ r p)
    ∙ ap (λ i. is_some (first_error (returned r i) (wait r m))) e
wait-Permᴰ r (Permᴰ.swap {a = k} {b = j} {a' = j'} {l = l} e e') =
    first_error_swap (returned r k) (returned r j) (wait r l)
    ∙ ap (λ i. is_some (first_error (returned r i) (first_error (returned r k) (wait r l)))) e'
    ∙ ap (λ i. is_some (first_error (returned r j') (first_error (returned r i) (wait r l)))) e
wait-Permᴰ r (Permᴰ.trans p q) = wait-Permᴰ r p ∙ wait-Permᴰ r q

Bool_set : IsSet Bool
Bool_set = hlevel

-- Whether a goroutine returned an error does not depend on the order.
pub wait-perm :
    (r : Answers) {l m : List QueryType} → Perm l m → is_some (wait r l) ≡ is_some (wait r m)
wait-perm r p = ∥∥₁_elim p (Bool_set _ _) λ d. wait-Permᴰ r d

lookup_result_eq :
    {x y : Records Sets} (v w : Option LookupError)
    → x ≡ y
    → is_some v ≡ is_some w
    → (lookup_result x v).1 ≡ none
    → lookup_result y w ≡ lookup_result x v
unfolding lookup_result
lookup_result_eq none none e same h = ap (λ rec. (rec, none)) (sym e)
lookup_result_eq none (some err) e same h = absurd (ground arith)
lookup_result_eq (some err) w e same h = absurd (ground arith)

pub gather-perm :
    (host : Text) (r : Answers) (s t : Schedule)
    → Perm s.entered t.entered
    → Perm s.returns t.returns
    → (gather host r s).1 ≡ none
    → gather host r t ≡ gather host r s
unfolding gather
gather-perm host r s t p q success =
    lookup_result_eq (wait r s.returns) (wait r t.returns)
      (ap (to_records host) (enter_all-perm r p empty_board)) (wait-perm r q) success

module _ (fqdn : Text → Text) (ask : Text → DnsQuery → Exchange) (dials : Text → Bool)
    (resolvers : List Text) (s t : Schedule) (p : Perm s.entered t.entered)
    (q : Perm s.returns t.returns) where
  on_resolver-perm :
      (host : Text) (picked : Option Text)
      → (on_resolver fqdn ask host picked s).1 ≡ none
      → on_resolver fqdn ask host picked t ≡ on_resolver fqdn ask host picked s
  unfolding on_resolver
  on_resolver-perm host none success = refl
  on_resolver-perm host (some addr) success =
      gather-perm host (answers fqdn ask addr host) s t p q success

  on_name-perm :
      (name : Checked Text)
      → (on_name fqdn ask dials resolvers name s).1 ≡ none
      → on_name fqdn ask dials resolvers name t ≡ on_name fqdn ask dials resolvers name s
  unfolding on_name
  on_name-perm (Checked.wrong err) success = refl
  on_name-perm (Checked.right host) success =
      on_resolver-perm host (pick_resolver dials resolvers) success

  -- A lookup that succeeds returns the same records in whatever order its goroutines enter their
  -- critical sections and return, the queries being answered alike.
  pub lookup_records-perm :
      (to_ascii : Text → Option Text) (hostname : Text)
      → (lookup_records fqdn ask to_ascii dials resolvers hostname s).1 ≡ none
      → lookup_records fqdn ask to_ascii dials resolvers hostname t
        ≡ lookup_records fqdn ask to_ascii dials resolvers hostname s
  unfolding lookup_records
  lookup_records-perm to_ascii hostname success =
      on_name-perm (canonicalize to_ascii hostname) success
