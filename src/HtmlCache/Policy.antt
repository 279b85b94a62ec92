-- ===== src/HtmlCache/Policy.antt =====
-- internal/htmlcache/htmlcache.go: which responses are stored, and for how long.
use imagelet.Base.{
  ℕ, ◌+◌, ◌-◌, ◌*◌, ◌%◌, ◌^◌, Bool, true, false, List, [], ◌∷◌, Option, none, some, ltb, leb, ◌==◌,
  if◌then◌else◌, not, ◌||◌, ◌&&◌,
}
use imagelet.Base.Int.{ℤ, pos, negsuc}
use imagelet.Base.Text.{Text, codes, text_eq, has_prefix, trim_prefix, trim_space, to_lower, split}

unfoldable pub digits_value : Text → ℕ → Option ℕ
digits_value [] n = some n
digits_value (c ∷ s) n =
    let rest = digits_value s (n * 10 + (c - b'0')) in
    if leb b'0' c && leb c b'9' then rest else none

unfoldable pub unsigned : Text → Option ℕ
unfolding digits_value
unsigned [] = none
unsigned (c ∷ s) = digits_value (c ∷ s) 0

unfoldable pub bounded_pos : Option ℕ → Option ℤ
bounded_pos none = none
bounded_pos (some n) = if ltb n (2 ^ 63) then some (pos n) else none

unfoldable pub bounded_neg : Option ℕ → Option ℤ
bounded_neg none = none
bounded_neg (some n) =
    if n == 0 then some (pos 0) else if leb n (2 ^ 63) then some (negsuc (n - 1)) else none

-- `strconv.Atoi` on a 64-bit platform
unfoldable pub atoi : Text → Option ℤ
unfolding unsigned bounded_pos bounded_neg
atoi [] = none
atoi (c ∷ s) =
    if c == b'-'
    then bounded_neg (unsigned s)
    else if c == b'+'
    then bounded_pos (unsigned s)
    else bounded_pos (unsigned (c ∷ s))

abbrev pub second : ℕ
second = 1_000_000_000

-- An int64 of nanoseconds as its bit pattern: `time.Duration(n) * time.Second` wraps around.
abbrev pub seconds : ℕ → ℕ
seconds n = (n * second) % 2 ^ 64

-- `now.Add(d)`
unfoldable pub add_duration : ℕ → ℕ → ℕ
add_duration now d = if ltb d (2 ^ 63) then now + d else now - (2 ^ 64 - d)

unfoldable pub is_forbidden : Text → Bool
is_forbidden low =
    text_eq low (codes "no-store")
    || text_eq low (codes "no-cache")
    || text_eq low (codes "private")

abbrev pub max_age_prefix : Text
max_age_prefix = codes "max-age="

-- the number of a `max-age=` directive, if it is one that is accepted
unfoldable pub positive : Option ℤ → Option ℕ
positive none = none
positive (some (negsuc n)) = none
positive (some (pos n)) = if leb n 0 then none else some n

unfoldable pub is_max_age : Text → Bool
is_max_age low = has_prefix low max_age_prefix

unfoldable pub age_of : Text → Option ℕ
age_of low = positive (atoi (trim_prefix low max_age_prefix))

-- the loop of `parseMaxAge`; `acc` is `maxAge`, once there is one
unfoldable pub max_age_from : List Text → Option ℕ → Option ℕ
max_age_from [] acc = acc
max_age_from (raw ∷ rest) acc =
    let low = to_lower (trim_space raw) in
    elim (is_forbidden low) [
      | true ↦ none
      | false ↦ elim (is_max_age low) [
        | true ↦ elim (age_of low) [ none ↦ none | some n ↦ max_age_from rest (some (seconds n)) ]
        | false ↦ max_age_from rest acc
      ]
    ]

unfoldable pub parse_max_age : Text → Option ℕ
unfolding max_age_from is_forbidden is_max_age age_of positive atoi trim_space to_lower split
parse_max_age [] = none
parse_max_age (c ∷ cc) = max_age_from (split b',' (c ∷ cc)) none

-- What `captureWriter` has recorded, with the two headers that `shouldStore` reads.
pub record Captured : Type 0 where
  pub status_code : ℕ
  pub content_type : Text
  pub cache_control : Text

unfoldable pub should_store : Captured → Option ℕ
should_store w =
    let status = if w.status_code == 0 then 200 else w.status_code in
    if ltb status 200 || leb 300 status
    then none
    else if not (has_prefix w.content_type (codes "text/html"))
    then none
    else parse_max_age w.cache_control
