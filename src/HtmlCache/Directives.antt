-- ===== src/HtmlCache/Directives.antt =====
-- internal/htmlcache/htmlcache.go: `parseMaxAge` and `shouldStore` against a reading of the header as
-- a list of directives.
use imagelet.Base.{
  ℕ, ◌≡◌, ◌≢◌, ◌<◌, ◌≤◌, ◌*◌, ◌^◌, ◌∙◌, ap, leb, All, refl, Bool, true, false, List, [], ◌∷◌,
  Option, none, some, arith, ◌==◌, Bool-cases, Option-cases, inl, inr, if◌then◌else◌, ◌⊎◌,
}
use imagelet.Base.Int.{ℤ, pos, negsuc}
use imagelet.Base.Text.{Text, codes, has_prefix, trim_space, to_lower, split, text_eq, text_eq_refl}
use imagelet.HtmlCache.Policy.{
  is_max_age, age_of, seconds, is_forbidden, positive, max_age_from, parse_max_age, Captured,
  should_store,
}

pub data Directive : Type 0 where
  -- no-store, no-cache, private, and a max-age that is no positive number
  reject : Directive
  max_age : ℕ → Directive
  other : Directive

abbrev number_of : Option ℕ → Directive
number_of none = reject
number_of (some n) = max_age n

abbrev pub directive_of : Text → Directive
directive_of low =
    if is_forbidden low then reject else if is_max_age low then number_of (age_of low) else other

-- The directives of a header, in order.
unfoldable pub directives : List Text → List Directive
directives [] = []
directives (raw ∷ rest) = directive_of (to_lower (trim_space raw)) ∷ directives rest

unfoldable pub rejected : List Directive → Bool
rejected [] = false
rejected (reject ∷ ds) = true
rejected (max_age n ∷ ds) = rejected ds
rejected (other ∷ ds) = rejected ds

-- the last max-age, in seconds
unfoldable pub last_max_age : List Directive → Option ℕ → Option ℕ
last_max_age [] acc = acc
last_max_age (reject ∷ ds) acc = last_max_age ds acc
last_max_age (max_age n ∷ ds) acc = last_max_age ds (some n)
last_max_age (other ∷ ds) acc = last_max_age ds acc

abbrev pub to_duration : Option ℕ → Option ℕ
to_duration none = none
to_duration (some n) = some (seconds n)

max_age_from-eq :
    (l : List Text) (acc : Option ℕ)
    → max_age_from l (to_duration acc)
      ≡ (if rejected (directives l) then none else to_duration (last_max_age (directives l) acc))
unfolding max_age_from directives rejected last_max_age
max_age_from-eq [] acc = refl
max_age_from-eq (raw ∷ rest) acc = elim (Option-cases (age_of (to_lower (trim_space raw)))) [
  | inl e ↦ ground (arith, max_age_from-eq rest acc)
  | inr (n, e) ↦ ground (arith, max_age_from-eq rest acc, max_age_from-eq rest (some n))
]

-- One directive that forbids storing, or one bad max-age, decides alone, wherever it stands; else the
-- last max-age counts.
pub parse_max_age_lem :
    (cc : Text)
    → parse_max_age cc ≡ (
        if rejected (directives (split b',' cc))
        then none
        else to_duration (last_max_age (directives (split b',' cc)) none))
unfolding parse_max_age directives rejected last_max_age
parse_max_age_lem [] = refl
parse_max_age_lem (c ∷ cc) = max_age_from-eq (split b',' (c ∷ cc)) none

positive_pos : (o : Option ℤ) {n : ℕ} → positive o ≡ some n → 0 < n
unfolding positive
positive_pos none h = ground arith
positive_pos (some (negsuc m)) h = ground arith
positive_pos (some (pos m)) h = ground arith

age_of_pos : (low : Text) {n : ℕ} → age_of low ≡ some n → 0 < n
unfolding age_of
age_of_pos low h = positive_pos _ h

last_max_age_pos :
    (l : List Text) (acc : ℕ) {n : ℕ}
    → last_max_age (directives l) (some acc) ≡ some n
    → 0 < acc
    → 0 < n
unfolding directives last_max_age
last_max_age_pos [] acc h p = ground arith
last_max_age_pos (raw ∷ rest) acc {n} h p =
    elim (Option-cases (age_of (to_lower (trim_space raw)))) [
      | inl e ↦ ground (arith, last_max_age_pos rest acc {n = n})
      | inr (m, e) ↦ ground (
        arith,
        last_max_age_pos rest acc {n = n},
        last_max_age_pos rest m {n = n},
        age_of_pos (to_lower (trim_space raw)) e,
      )
    ]

last_max_age-none_pos : (l : List Text) {n : ℕ} → last_max_age (directives l) none ≡ some n → 0 < n
unfolding directives last_max_age
last_max_age-none_pos [] h = ground arith
last_max_age-none_pos (raw ∷ rest) {n} h =
    elim (Option-cases (age_of (to_lower (trim_space raw)))) [
      | inl e ↦ ground (arith, last_max_age-none_pos rest {n = n})
      | inr (m, e) ↦ ground (
        arith,
        last_max_age-none_pos rest {n = n},
        last_max_age_pos rest m {n = n},
        age_of_pos (to_lower (trim_space raw)) e,
      )
    ]

-- a directive that says that a response must not be stored
abbrev pub Forbids : Text → Type 0
Forbids raw =
    (to_lower (trim_space raw) ≡ codes "no-store")
    ⊎ (to_lower (trim_space raw) ≡ codes "no-cache")
    ⊎ (to_lower (trim_space raw) ≡ codes "private")

not_forbidden : (low word : Text) → text_eq low word ≡ false → low ≢ word
not_forbidden low word h e = ground (arith, ap (λ x. text_eq x word) e, text_eq_refl word)

is_forbidden-words :
    (low : Text)
    → is_forbidden low ≡ false
    → (low ≢ codes "no-store") × (low ≢ codes "no-cache") × (low ≢ codes "private")
unfolding is_forbidden
is_forbidden-words low h = (
  not_forbidden low (codes "no-store") (ground arith),
  not_forbidden low (codes "no-cache") (ground arith),
  not_forbidden low (codes "private") (ground arith),
)

rejected-cons :
    (d : Directive) (ds : List Directive)
    → rejected (d ∷ ds) ≡ false
    → (d ≢ reject) × (rejected ds ≡ false)
unfolding rejected
rejected-cons reject ds h = absurd (ground arith)
rejected-cons (max_age n) ds h = (λ e. cc, h)
rejected-cons other ds h = (λ e. cc, h)

rejected-Forbids :
    (l : List Text) → rejected (directives l) ≡ false → All (λ raw. Forbids raw → ⊥) l
unfolding directives
rejected-Forbids [] h = tt
rejected-Forbids (raw ∷ l) h =
    let low = to_lower (trim_space raw) in
    let (kept, rest) = rejected-cons (directive_of low) (directives l) h in
    elim (Bool-cases (is_forbidden low)) [
      | inl e ↦ absurd (kept (rw e refl))
      | inr e ↦
          let (a, b, c) = is_forbidden-words low e in
          (
            (λ f. elim f [ inl x ↦ a x | inr (inl x) ↦ b x | inr (inr x) ↦ c x ]),
            rejected-Forbids l rest,
          )
    ]

seconds-exact : (n : ℕ) → ((n ≤ 9_223_372_036) × (seconds n ≡ n * 10 ^ 9)) ⊎ (9_223_372_036 < n)
seconds-exact n = elim (Bool-cases (leb n 9_223_372_036)) [
  | inl e ↦ inl (ground arith, ground arith)
  | inr e ↦ inr (ground arith)
]

-- What a stored response must be: a success, HTML, with no directive no-store, no-cache or private in
-- any case, and a positive max-age, the last one of which is its lifetime in seconds if it is at most
-- 9,223,372,036; of a greater one nothing is said.
pub should_store_sound :
    (w : Captured) {d : ℕ}
    → should_store w ≡ some d
    → (n : ℕ) × ((w.status_code ≡ 0) ⊎ ((200 ≤ w.status_code) × (w.status_code < 300)))
      × (has_prefix w.content_type (codes "text/html") ≡ true)
      × All (λ raw. Forbids raw → ⊥) (split b',' w.cache_control)
      × (last_max_age (directives (split b',' w.cache_control)) none ≡ some n)
      × (0 < n)
      × (((n ≤ 9_223_372_036) × (d ≡ n * 10 ^ 9)) ⊎ (9_223_372_036 < n))
unfolding should_store
should_store_sound w {d} h =
    let e = parse_max_age_lem w.cache_control in
    elim (Option-cases (last_max_age (directives (split b',' w.cache_control)) none)) [
      | inl z ↦ absurd (ground (arith, e))
      | inr (n, z) ↦
          let age : d ≡ seconds n = ground (arith, e) in
          (
            n,
            status (Bool-cases (w.status_code == 0)),
            ground arith,
            rejected-Forbids (split b',' w.cache_control) (ground (arith, e)),
            z,
            last_max_age-none_pos (split b',' w.cache_control) z,
            elim (seconds-exact n) [
              | inl (small, exact) ↦ inl (small, age ∙ exact)
              | inr big ↦ inr big
            ],
          )
    ]
  where
    status :
        ((w.status_code == 0) ≡ true) ⊎ ((w.status_code == 0) ≡ false)
        → (w.status_code ≡ 0) ⊎ ((200 ≤ w.status_code) × (w.status_code < 300))
    status (inl z) = inl (ground arith)
    status (inr z) = inr (ground arith)
