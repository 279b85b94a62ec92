-- ===== src/Render/Sanitize.antt =====
-- render/sanitize.go: `StripPylonSyntax`.
use imagelet.Base.{
  ℕ, zero, suc, Bool, false, ◌||◌, ◌&&◌, List, [], ◌∷◌, Option, none, some, leb, ◌==◌,
  if◌then◌else◌,
}
use imagelet.Base.Text.{Text, codes, is_space, join}

-- How many characters `[^()]*\)` takes, or the same with square brackets.
unfoldable pub closing : (opens closes : ℕ) → Text → Option ℕ
closing opens closes [] = none
closing opens closes (c ∷ s) =
    let rest = counted (closing opens closes s) in
    if c == closes then some 1 else if c == opens then none else rest
  where
    counted : Option ℕ → Option ℕ
    counted none = none
    counted (some n) = some (suc n)

-- what a match of `pylonBracketRe` that begins with `c` takes of the text after it
unfoldable pub bracketed : ℕ → Text → Option ℕ
unfolding closing
bracketed c s =
    if c == b'(' then closing b'(' b')' s else if c == b'[' then closing b'[' b']' s else none

-- `pylonBracketRe.ReplaceAllString(s, "")`, with `skip` characters left of the last match
unfoldable pub strip_brackets : ℕ → Text → Text
unfolding bracketed
strip_brackets skip [] = []
strip_brackets (suc skip) (c ∷ s) = strip_brackets skip s
strip_brackets zero (c ∷ s) = elim (bracketed c s) [
  | none ↦ c ∷ strip_brackets zero s
  | some n ↦ strip_brackets n s
]

-- `[A-Za-z_]`
unfoldable pub is_ref_start : Text → Bool
is_ref_start [] = false
is_ref_start (c ∷ s) = (leb b'A' c && leb c b'Z') || (leb b'a' c && leb c b'z') || c == b'_'

-- `pylonAmpRefRe.ReplaceAllString(s, " & $1")`
unfoldable pub space_refs : Text → Text
unfolding is_ref_start
space_refs [] = []
space_refs (c ∷ s) =
    let rest = space_refs s in
    if c == b'&' && is_ref_start s then b' ' ∷ b'&' ∷ b' ' ∷ rest else c ∷ rest

-- A word that is read is put before the ones that follow it.
unfoldable pub add_field : Text → List Text → List Text
add_field [] words = words
add_field (c ∷ cur) words = (c ∷ cur) ∷ words

-- the words after the one that the text begins with, and that word
unfoldable pub fields_from : Text → Text × List Text
unfolding add_field
fields_from [] = ([], [])
fields_from (c ∷ s) =
    let (cur, words) = fields_from s in
    if is_space c then ([], add_field cur words) else (c ∷ cur, words)

-- `strings.Fields`
unfoldable pub fields : Text → List Text
unfolding fields_from add_field
fields s = let (cur, words) = fields_from s in add_field cur words

unfoldable pub strip_pylon_syntax : Text → Text
unfolding strip_brackets space_refs fields join
strip_pylon_syntax s = join (codes " ") (fields (space_refs (strip_brackets zero s)))
