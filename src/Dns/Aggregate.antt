-- ===== src/Dns/Aggregate.antt =====
-- service/dns/resolver/lookup.go: what a lookup makes of the nine answers, against a reading of
-- them one by one.
use imagelet.Base.{
  ℕ, ◌≡◌, refl, ap, sym, ◌∙◌, ◌≤◌, ◌<◌, ◌⊎◌, inl, inr, arith, Bool, false, ◌||◌, not, List, [], ◌∷◌,
  none, ltb, ◌==◌, if◌then◌else◌, Bool-cases, All,
}
use imagelet.Dns.Records.{Sets, QueryType}
use imagelet.Dns.Queries.{QueryResult, fail, ok, RowAnswer, no_txt}
use imagelet.Dns.Lookup.{
  Answers, Board, Section, row, ad, ttl, store_answer, store_row, note_ad, note_ttl, ad_of, ttl_of,
  per_query, enter, enter_all, query_types, no_sets,
}

-- the value of an answer, or that of a row which is not filled
unfoldable pub value_or : {A : Type 0} → A → QueryResult (RowAnswer A) → A
value_or d (fail err) = d
value_or d (ok r) = r.value

-- The rows that the answers give.
unfoldable pub rows_of : Answers → Sets
unfolding value_or
rows_of r = record {
  a = value_or [] r.a;
  aaaa = value_or [] r.aaaa;
  cname = value_or [] r.cname;
  mx = value_or [] r.mx;
  ns = value_or [] r.ns;
  txt = value_or no_txt r.txt;
  soa = value_or none r.soa;
  caa = value_or [] r.caa;
  srv = value_or [] r.srv;
  dnssec_verified = false;
}

-- the sections of one kind, in order
unfoldable pub stored : List Section → List QueryType
stored [] = []
stored (row k ∷ l) = k ∷ stored l
stored (ad k ∷ l) = stored l
stored (ttl k ∷ l) = stored l

unfoldable pub noted_ad : List Section → List QueryType
noted_ad [] = []
noted_ad (row k ∷ l) = noted_ad l
noted_ad (ad k ∷ l) = k ∷ noted_ad l
noted_ad (ttl k ∷ l) = noted_ad l

unfoldable pub noted_ttl : List Section → List QueryType
noted_ttl [] = []
noted_ttl (row k ∷ l) = noted_ttl l
noted_ttl (ad k ∷ l) = noted_ttl l
noted_ttl (ttl k ∷ l) = k ∷ noted_ttl l

unfoldable pub store_all : Answers → List QueryType → Sets → Sets
store_all r [] s = s
store_all r (k ∷ ks) s = store_all r ks (store_answer r k s)

unfoldable pub any : (QueryType → Bool) → List QueryType → Bool
any f [] = false
any f (k ∷ ks) = f k || any f ks

-- the least of the numbers that are not 0, and of `m`
unfoldable pub least_of : (QueryType → ℕ) → List QueryType → ℕ → ℕ
least_of f [] m = m
least_of f (k ∷ ks) m = least_of f ks (if f k == 0 then m else if ltb (f k) m then f k else m)

unfoldable pub is_positive : (QueryType → ℕ) → QueryType → Bool
is_positive f k = not (f k == 0)

pub enter_all-sets :
    (r : Answers) (l : List Section) (b : Board)
    → (enter_all r l b).sets ≡ store_all r (stored l) b.sets
unfolding enter_all enter note_ad note_ttl store_all stored
enter_all-sets r [] b = refl
enter_all-sets r (row k ∷ l) b = enter_all-sets r l (enter r (row k) b)
enter_all-sets r (ad k ∷ l) b = ground (arith, enter_all-sets r l (enter r (ad k) b))
enter_all-sets r (ttl k ∷ l) b = ground (arith, enter_all-sets r l (enter r (ttl k) b))

pub enter_all-ad_any :
    (r : Answers) (l : List Section) (b : Board)
    → (enter_all r l b).ad_any ≡ b.ad_any || any (per_query ad_of r) (noted_ad l)
unfolding enter_all enter note_ad note_ttl any noted_ad
enter_all-ad_any r [] b = ground arith
enter_all-ad_any r (row k ∷ l) b = enter_all-ad_any r l (enter r (row k) b)
enter_all-ad_any r (ad k ∷ l) b = ground (arith, enter_all-ad_any r l (enter r (ad k) b))
enter_all-ad_any r (ttl k ∷ l) b = ground (arith, enter_all-ad_any r l (enter r (ttl k) b))

pub enter_all-min_ttl :
    (r : Answers) (l : List Section) (b : Board)
    → (enter_all r l b).min_ttl ≡ least_of (per_query ttl_of r) (noted_ttl l) b.min_ttl
unfolding enter_all enter note_ad note_ttl least_of noted_ttl
enter_all-min_ttl r [] b = refl
enter_all-min_ttl r (row k ∷ l) b = enter_all-min_ttl r l (enter r (row k) b)
enter_all-min_ttl r (ad k ∷ l) b = ground (arith, enter_all-min_ttl r l (enter r (ad k) b))
enter_all-min_ttl r (ttl k ∷ l) b = ground (arith, enter_all-min_ttl r l (enter r (ttl k) b))

pub enter_all-populated :
    (r : Answers) (l : List Section) (b : Board)
    → (enter_all r l b).populated
      ≡ b.populated || any (is_positive (per_query ttl_of r)) (noted_ttl l)
unfolding enter_all enter note_ad note_ttl any noted_ttl is_positive
enter_all-populated r [] b = ground arith
enter_all-populated r (row k ∷ l) b = enter_all-populated r l (enter r (row k) b)
enter_all-populated r (ad k ∷ l) b = ground (arith, enter_all-populated r l (enter r (ad k) b))
enter_all-populated r (ttl k ∷ l) b = ground (arith, enter_all-populated r l (enter r (ttl k) b))

-- A row is stored over a blank one.
store_over :
    {A : Type 0} {s t : Sets} (x : QueryResult (RowAnswer A)) (set : A → Sets → Sets) (d : A)
    → s ≡ t
    → set d t ≡ t
    → store_row x set s ≡ set (value_or d x) t
unfolding store_row value_or
store_over (fail err) set d e blank = e ∙ sym blank
store_over (ok r) set d e blank = ap (set r.value) e

pub store_all-rows_of : (r : Answers) → store_all r query_types no_sets ≡ rows_of r
unfolding store_all store_answer rows_of
store_all-rows_of r =
    let a = store_over r.a (λ v s. record s { a = v }) [] refl refl in
    let aaaa = store_over r.aaaa (λ v s. record s { aaaa = v }) [] a refl in
    let cname = store_over r.cname (λ v s. record s { cname = v }) [] aaaa refl in
    let mx = store_over r.mx (λ v s. record s { mx = v }) [] cname refl in
    let ns = store_over r.ns (λ v s. record s { ns = v }) [] mx refl in
    let txt = store_over r.txt (λ v s. record s { txt = v }) no_txt ns refl in
    let soa = store_over r.soa (λ v s. record s { soa = v }) none txt refl in
    let caa = store_over r.caa (λ v s. record s { caa = v }) [] soa refl in
    store_over r.srv (λ v s. record s { srv = v }) [] caa refl

least_of_le : (f : QueryType → ℕ) (ks : List QueryType) (m : ℕ) → least_of f ks m ≤ m
unfolding least_of
least_of_le f [] m = omega arith
least_of_le f (k ∷ ks) m =
    ground (arith, least_of_le f ks (if f k == 0 then m else if ltb (f k) m then f k else m))

pub least_of_le-All :
    (f : QueryType → ℕ) (ks : List QueryType) (m : ℕ)
    → All (λ k. 0 < f k → least_of f ks m ≤ f k) ks
unfolding least_of
least_of_le-All f [] m = tt
least_of_le-All f (k ∷ ks) m =
    let m' = if f k == 0 then m else if ltb (f k) m then f k else m in
    (λ h. ground (arith, least_of_le f ks m'), least_of_le-All f ks m')

pub least_of_attained :
    (f : QueryType → ℕ) (ks : List QueryType) (m : ℕ)
    → (least_of f ks m ≡ m) ⊎ ((k : QueryType) × (0 < f k) × (least_of f ks m ≡ f k))
unfolding least_of
least_of_attained f [] m = inl refl
least_of_attained f (k ∷ ks) m =
    let m' = if f k == 0 then m else if ltb (f k) m then f k else m in
    elim (least_of_attained f ks m') [
      | inl e ↦ elim (Bool-cases (f k == 0)) [
        | inl z ↦ inl (ground arith)
        | inr p ↦ elim (Bool-cases (ltb (f k) m)) [
          | inl q ↦ inr (k, ground arith, ground arith)
          | inr q ↦ inl (ground arith)
        ]
      ]
      | inr (j, p, e) ↦ inr (j, p, e)
    ]
