-- ===== src/Dns/HostNames.antt =====
-- service/dns/dns.go: what holds of a host that `validateAndCanonicalize` accepts.
use imagelet.Base.{
  ℕ, ◌≡◌, ◌≢◌, ◌≤◌, ap, ◌∙◌, ◌++◌, refl, subst, ◌⊎◌, inl, inr, arith, Bool, true, false, not, ◌||◌,
  List, [], ◌∷◌, Option, none, some, All, All-map, Bool-cases, if◌then◌else◌, ltb, ◌==◌,
}
use mathlib.Core.List.{reverse, reverse-append}
use imagelet.Base.Text.{Text, codes, has_prefix, to_lower, trim_suffix}
use imagelet.Dns.Names.{is_ascii, is_empty}
use imagelet.Dns.Hosts.{
  Place, start, underscore, word, hyphen, dot, lost, begin_label, next_place, accepts, match_from,
  matches_host_re, is_digit, is_alnum, byte_length, hostname_max_len, has_suffix, is_refused,
  refused_suffixes, all_digits, digits_only, label_after, last_label, checked_host, checked_some,
  translate, validate_and_canonicalize,
}

-- A letter, a digit, a hyphen, an underscore or a dot.
unfoldable pub IsHostChar : ℕ → Type 0
IsHostChar c =
    ((b'A' ≤ c) × (c ≤ b'Z'))
    ⊎ ((b'a' ≤ c) × (c ≤ b'z'))
    ⊎ ((b'0' ≤ c) × (c ≤ b'9'))
    ⊎ (c ≡ b'-')
    ⊎ (c ≡ b'_')
    ⊎ (c ≡ b'.')

match_from-lost : (s : Text) → match_from lost s ≡ false
unfolding match_from accepts next_place
match_from-lost [] = refl
match_from-lost (c ∷ s) = match_from-lost s

is_host_char : ℕ → Bool
is_host_char c = is_alnum c || c == b'-' || c == b'_' || c == b'.'

is_host_char-IsHostChar : (c : ℕ) → is_host_char c ≡ true → IsHostChar c
unfolding is_host_char is_alnum is_digit IsHostChar
is_host_char-IsHostChar c h = ground arith

next_place-lost : (p : Place) (c : ℕ) → is_host_char c ≡ false → next_place p c ≡ lost
unfolding next_place begin_label is_host_char
next_place-lost start c h = ground arith
next_place-lost underscore c h = ground arith
next_place-lost word c h = ground arith
next_place-lost hyphen c h = ground arith
next_place-lost dot c h = ground arith
next_place-lost lost c h = refl

match_from-All : (p : Place) (s : Text) → match_from p s ≡ true → All IsHostChar s
unfolding match_from
match_from-All p [] h = tt
match_from-All p (c ∷ s) h = elim (Bool-cases (is_host_char c)) [
  | inl e ↦ (is_host_char-IsHostChar c e, match_from-All (next_place p c) s h)
  | inr e ↦ absurd (ground (arith, next_place-lost p c e, match_from-lost s))
]

is_refused-All :
    (host : Text) (sufs : List Text)
    → is_refused host sufs ≡ false
    → All (λ suf. has_suffix host suf ≡ false) sufs
unfolding is_refused
is_refused-All host [] h = tt
is_refused-All host (suf ∷ sufs) h = elim (Bool-cases (has_suffix host suf)) [
  | inl e ↦ absurd (ground arith)
  | inr e ↦ (e, is_refused-All host sufs (ground arith))
]

-- what an accepted host passed
pub if_none :
    {A : Type 0} (b : Bool) (x : Option A) (y : A)
    → (if b then none else x) ≡ some y
    → (b ≡ false) × (x ≡ some y)
if_none true x y h = absurd (ground arith)
if_none false x y h = (refl, h)

or_false : (a b : Bool) → (a || b) ≡ false → (a ≡ false) × (b ≡ false)
or_false a b h = ground arith

not-false : (b : Bool) → not b ≡ false → b ≡ true
not-false b h = ground arith

-- the reserved endings
abbrev pub reserved : List Text
reserved =
    codes ".local"
    ∷ codes ".localhost"
    ∷ codes ".internal"
    ∷ codes ".lan"
    ∷ codes ".example"
    ∷ codes ".test"
    ∷ codes ".invalid"
    ∷ codes ".arpa"
    ∷ []

abbrev pub EndsIn : Text → Text → Type 0
EndsIn host suf = (front : Text) × (host ≡ front ++ suf)

unfoldable pub IsNumber : Text → Type 0
IsNumber s = (s ≢ []) × All (λ c. (b'0' ≤ c) × (c ≤ b'9')) s

-- What is promised of an accepted host: its length and its characters, none of the reserved endings,
-- and no number as the whole or behind the last dot.
unfoldable pub IsAccepted : Text → Type 0
IsAccepted host =
    (byte_length host ≤ 253)
    × All IsHostChar host
    × All (λ suf. EndsIn host suf → ⊥) reserved
    × (IsNumber host → ⊥)
    × ((front number : Text) → IsNumber number → host ≢ front ++ (b'.' ∷ number))

has_prefix-append : (s t : Text) → has_prefix (s ++ t) s ≡ true
has_prefix-append [] t = refl
has_prefix-append (c ∷ s) t = ground (arith, has_prefix-append s t)

not_ending : (host suf : Text) → has_suffix host suf ≡ false → EndsIn host suf → ⊥
unfolding has_suffix
not_ending host suf h (front, e) =
    let found : has_prefix (reverse host) (reverse suf) ≡ true =
      ap (λ x. has_prefix (reverse x) (reverse suf)) e
      ∙ ap (λ x. has_prefix x (reverse suf)) (reverse-append front suf)
      ∙ has_prefix-append (reverse suf) (reverse front) in
    ground arith

label_after-IsNumber :
    (last s : Text) → All (λ c. (b'0' ≤ c) × (c ≤ b'9')) s → label_after last s ≡ last
unfolding label_after
label_after-IsNumber last [] d = refl
label_after-IsNumber last (c ∷ s) d = ground (arith, label_after-IsNumber last s d.1)

label_after-append :
    (last front s : Text)
    → All (λ c. (b'0' ≤ c) × (c ≤ b'9')) s
    → label_after last (front ++ (b'.' ∷ s)) ≡ s
unfolding label_after
label_after-append last [] s d = label_after-IsNumber s s d
label_after-append last (c ∷ front) s d =
    ground
      (arith, label_after-append last front s d, label_after-append (front ++ (b'.' ∷ s)) front s d)

digits_only-IsNumber : (s : Text) → All (λ c. (b'0' ≤ c) × (c ≤ b'9')) s → digits_only s ≡ true
unfolding digits_only is_digit
digits_only-IsNumber [] d = refl
digits_only-IsNumber (c ∷ s) d = ground (arith, digits_only-IsNumber s d.1)

all_digits-IsNumber : (s : Text) → IsNumber s → all_digits s ≡ true
unfolding all_digits IsNumber
all_digits-IsNumber [] n = absurd (n.0 refl)
all_digits-IsNumber (c ∷ s) n = digits_only-IsNumber (c ∷ s) n.1

no-IsNumber :
    (host : Text)
    → all_digits (last_label host) ≡ false
    → (IsNumber host → ⊥)
      × ((front number : Text) → IsNumber number → host ≢ front ++ (b'.' ∷ number))
unfolding last_label IsNumber
no-IsNumber host h = (
  λ n.
      let e = ap all_digits (label_after-IsNumber host host n.1) ∙ all_digits-IsNumber host n in
      ground arith,
  λ front number n e.
      let f =
        ap (λ x. all_digits (label_after x x)) e
        ∙ ap all_digits (label_after-append (front ++ (b'.' ∷ number)) front number n.1)
        ∙ all_digits-IsNumber number n in
      ground arith,
)

checked_host-IsAccepted : (h : Text) {host : Text} → checked_host h ≡ some host → IsAccepted host
unfolding checked_host IsAccepted
checked_host-IsAccepted h {host} e =
    let (first, e₁) =
      if_none (is_empty h || ltb hostname_max_len (byte_length h) || not (matches_host_re h)) _ host
        e in
    let (allowed, e₂) = if_none (is_refused h refused_suffixes) _ host e₁ in
    let (top, e₃) = if_none (all_digits (last_label h)) (some h) host e₂ in
    let (sizes, unmatched) = or_false _ (not (matches_host_re h)) first in
    let long = (or_false (is_empty h) _ sizes).1 in
    subst IsAccepted (ground arith) (
      ground arith,
      match_from-All start h (not-false _ unmatched),
      All-map (not_ending h) refused_suffixes (is_refused-All h refused_suffixes allowed),
      (no-IsNumber h top).0,
      (no-IsNumber h top).1,
    )

checked_some-IsAccepted :
    (o : Option Text) {host : Text} → checked_some o ≡ some host → IsAccepted host
unfolding checked_some
checked_some-IsAccepted none e = absurd (ground arith)
checked_some-IsAccepted (some h) e = checked_host-IsAccepted h e

module _ (parses_as_addr : Text → Bool) (to_ascii : Text → Option Text) where
  translate-IsAccepted :
      (h : Text) {host : Text} → translate parses_as_addr to_ascii h ≡ some host → IsAccepted host
  unfolding translate
  translate-IsAccepted h {host} e =
      let e₁ = (if_none (is_empty h) _ host e).1 in
      let e₂ = (if_none (parses_as_addr h) _ host e₁).1 in
      elim (Bool-cases (not (is_ascii h))) [
        | inl b ↦ checked_some-IsAccepted (to_ascii h) (rw b at e₂)
        | inr b ↦ checked_host-IsAccepted h (rw b at e₂)
      ]

  -- A host that is accepted has at most 253 bytes, is made of letters, digits, hyphens, underscores
  -- and dots, does not end in .local, .localhost, .internal, .lan, .example, .test, .invalid or
  -- .arpa, is no number and does not end in a dot and a number. A dot at the end of an accepted host
  -- counts as part of it.
  pub validate_and_canonicalize-IsAccepted :
      (raw : Text) {host : Text}
      → validate_and_canonicalize parses_as_addr to_ascii raw ≡ some host
      → IsAccepted host
  unfolding validate_and_canonicalize
  validate_and_canonicalize-IsAccepted raw {host} e =
      translate-IsAccepted (to_lower (trim_suffix raw (codes ".")))
        (if_none (is_empty raw || ltb hostname_max_len (byte_length raw)) _ host e).1
