-- ===== src/Dns/Safety.antt =====
-- service/dns/dns.go and render/sanitize.go: what `sanitize` leaves of a text from outside.
use imagelet.Base.{
  ℕ, zero, suc, ◌+◌, ◌≡◌, ◌≢◌, ◌≤◌, arith, Bool, true, false, ◌||◌, ◌&&◌, List, [], ◌∷◌, ◌++◌, inl,
  inr, ltb, leb, ◌==◌, if◌then◌else◌, length, take, All, Bool-cases, Option-cases,
}
use imagelet.Base.Text.{Text, is_space, codes, join}
use imagelet.Render.Sanitize.{
  bracketed, strip_brackets, is_ref_start, space_refs, add_field, fields_from, fields,
  strip_pylon_syntax,
}
use imagelet.Dns.Captions.{replacement, replace_all, truncate_runes, fit_caption, sanitize}

pub All-append : {A : Type 0} (P : A → Type 0) (l m : List A) → All P l → All P m → All P (l ++ m)
All-append P [] m p q = q
All-append P (x ∷ l) m p q = (p.0, All-append P l m p.1 q)

pub All-take : {A : Type 0} (P : A → Type 0) (n : ℕ) (l : List A) → All P l → All P (take n l)
All-take P zero l p = tt
All-take P (suc n) [] p = tt
All-take P (suc n) (x ∷ l) p = (p.0, All-take P n l p.1)

if_both : {A : Type 0} (P : A → Type 0) (b : Bool) (x y : A) → P x → P y → P (if b then x else y)
if_both P true x y p q = p
if_both P false x y p q = q

pub length-append : {A : Type 0} (l m : List A) → length (l ++ m) ≡ length l + length m
length-append [] m = omega arith
length-append (x ∷ l) m = omega (arith, length-append l m)

pub length-take-le : {A : Type 0} (n : ℕ) (l : List A) → length (take n l) ≤ n
length-take-le zero l = omega arith
length-take-le (suc n) [] = omega arith
length-take-le (suc n) (x ∷ l) = omega (arith, length-take-le n l)

module _ (P : ℕ → Type 0) where
  strip_brackets-All : (skip : ℕ) (s : Text) → All P s → All P (strip_brackets skip s)
  unfolding strip_brackets
  strip_brackets-All skip [] p = tt
  strip_brackets-All (suc skip) (c ∷ s) p = strip_brackets-All skip s p.1
  strip_brackets-All zero (c ∷ s) p = elim (Option-cases (bracketed c s)) [
    | inl e ↦ rw (e, All) (p.0, strip_brackets-All zero s p.1)
    | inr (n, e) ↦ rw (e, All) (strip_brackets-All n s p.1)
  ]

  space_refs-All : P b' ' → P b'&' → (s : Text) → All P s → All P (space_refs s)
  unfolding space_refs
  space_refs-All blank amp [] p = tt
  space_refs-All blank amp (c ∷ s) p =
      let rest = space_refs-All blank amp s p.1 in
      if_both (All P) (c == b'&' && is_ref_start s) _ _ (blank, (amp, (blank, rest))) (p.0, rest)

  add_field-All :
      (w : Text) (ws : List Text) → All P w → All (All P) ws → All (All P) (add_field w ws)
  unfolding add_field
  add_field-All [] ws p q = q
  add_field-All (c ∷ w) ws p q = (p, q)

  fields_from-All : (s : Text) → All P s → All P (fields_from s).0 × All (All P) (fields_from s).1
  unfolding fields_from
  fields_from-All [] p = (tt, tt)
  fields_from-All (c ∷ s) p =
      let (cur, words) = fields_from-All s p.1 in
      if_both (λ (w, ws). All P w × All (All P) ws) (is_space c) _ _
        (tt, add_field-All (fields_from s).0 (fields_from s).1 cur words) ((p.0, cur), words)

  join-All : (sep : Text) (ws : List Text) → All P sep → All (All P) ws → All P (join sep ws)
  unfolding join
  join-All sep [] p q = tt
  join-All sep (w ∷ []) p q = q.0
  join-All sep (w ∷ v ∷ ws) p q =
      All-append P (w ++ sep) (join sep (v ∷ ws)) (All-append P w sep q.0 p)
        (join-All sep (v ∷ ws) p q.1)

  -- what holds of a text, of a blank and of an ampersand holds of what is left of it
  pub strip_pylon_syntax-All : P b' ' → P b'&' → (s : Text) → All P s → All P (strip_pylon_syntax s)
  unfolding strip_pylon_syntax fields
  strip_pylon_syntax-All blank amp s p =
      let (cur, words) =
        fields_from-All _ (space_refs-All blank amp _ (strip_brackets-All 0 s p)) in
      join-All (codes " ") _ (blank, tt) (add_field-All _ _ cur words)

-- A character that means nothing to the banner's layout.
unfoldable pub IsPlain : ℕ → Type 0
IsPlain c = (c ≢ b':') × (c ≢ b'%') × (c ≢ b',') × (c ≢ 0x25b2) × (c ≢ 0x25bc)

kept-IsPlain :
    (c : ℕ)
    → (c == b':') ≡ false
    → (c == b'%') ≡ false
    → (c == b',' || c == 0x25b2 || c == 0x25bc) ≡ false
    → IsPlain c
unfolding IsPlain
kept-IsPlain c e f g =
    (λ h. ground arith, λ h. ground arith, λ h. ground arith, λ h. ground arith, λ h. ground arith)

replacement-IsPlain : (c : ℕ) → All IsPlain (replacement c)
unfolding replacement IsPlain
replacement-IsPlain c = elim (Bool-cases (c == b':')) [
  | inl e ↦ rw (e, All) (omega arith)
  | inr e ↦ elim (Bool-cases (c == b'%')) [
    | inl f ↦ rw (e, f, All) (omega arith)
    | inr f ↦ elim (Bool-cases (c == b',' || c == 0x25b2 || c == 0x25bc)) [
      | inl g ↦ rw (e, f, g, All) (omega arith)
      | inr g ↦ rw (e, f, g, All) (kept-IsPlain c e f g, tt)
    ]
  ]
]

replace_all-IsPlain : (s : Text) → All IsPlain (replace_all s)
unfolding replace_all
replace_all-IsPlain [] = tt
replace_all-IsPlain (c ∷ s) =
    All-append IsPlain (replacement c) (replace_all s) (replacement-IsPlain c)
      (replace_all-IsPlain s)

fit_caption-IsPlain : (s : Text) → All IsPlain s → All IsPlain (fit_caption s)
unfolding fit_caption truncate_runes IsPlain
fit_caption-IsPlain s p =
    if_both (All IsPlain) (ltb 60 (length s)) _ s
      (All-append IsPlain (if leb (length s) 59 then s else take 59 s) (0x2026 ∷ [])
        (if_both (All IsPlain) (leb (length s) 59) s _ p (All-take IsPlain 59 s p)) (omega arith))
      p

length-truncate_runes : (s : Text) (n : ℕ) → length (truncate_runes s n) ≤ n
unfolding truncate_runes
length-truncate_runes s n = elim (Bool-cases (leb (length s) n)) [
  | inl e ↦ rw e (ground arith)
  | inr e ↦ rw e (length-take-le n s)
]

length-fit_caption : (s : Text) → length (fit_caption s) ≤ 60
unfolding fit_caption
length-fit_caption s = elim (Bool-cases (ltb 60 (length s))) [
  | inl e ↦
      rw e (
        omega
          (arith, length-append (truncate_runes s 59) (0x2026 ∷ []), length-truncate_runes s 59))
  | inr e ↦ rw e (ground arith)
]

-- Whatever one text comes from outside, what `sanitize` returns for it is at most 60 characters long
-- and holds no colon, no percent sign, no comma and none of the two triangles that colour a row. A
-- whole row may join several such values and a label.
pub sanitize-IsPlain : (s : Text) → (length (sanitize s) ≤ 60) × All IsPlain (sanitize s)
unfolding sanitize IsPlain
sanitize-IsPlain s =
    let cleaned = strip_pylon_syntax (replace_all s) in
    (
      length-fit_caption cleaned,
      fit_caption-IsPlain cleaned (
          strip_pylon_syntax-All IsPlain (omega arith) (omega arith) (replace_all s)
            (replace_all-IsPlain s)),
    )
