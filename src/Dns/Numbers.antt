-- ===== src/Dns/Numbers.antt =====
-- service/dns/dns.go writes numbers with %d, and internal/htmlcache/htmlcache.go reads them with
-- strconv.Atoi.
use imagelet.Base.{
  ℕ, zero, suc, ◌+◌, ◌-◌, ◌*◌, ◌/◌, ◌%◌, ◌^◌, ◌≡◌, ◌<◌, refl, ◌∙◌, sym, ap, arith, [], ◌∷◌, some,
  ◌==◌, Bool-cases, inl, inr,
}
use imagelet.Base.Int.{pos}
use imagelet.Base.Text.{Text}
use imagelet.HtmlCache.Policy.{digits_value, unsigned, bounded_pos, atoi}
use imagelet.Dns.Captions.{digits, decimal}

digits_value-cons :
    (m d : ℕ) (acc : Text)
    → d < 10
    → digits_value ((b'0' + d) ∷ acc) m ≡ digits_value acc (m * 10 + d)
unfolding digits_value
digits_value-cons m d acc h =
    let e : (m * 10 + ((b'0' + d) - b'0')) ≡ m * 10 + d = omega arith in
    ground (arith, ap (digits_value acc) e)

digits_value-digits :
    (fuel n : ℕ) (acc : Text) → n < fuel → digits_value (digits fuel n acc) 0 ≡ digits_value acc n
unfolding digits
digits_value-digits zero n acc h = absurd (omega arith)
digits_value-digits (suc fuel) n acc h =
    let last = digits_value-cons (n / 10) (n % 10) acc (omega arith) in
    let whole : n / 10 * 10 + n % 10 ≡ n = omega arith in
    elim (Bool-cases (n / 10 == 0)) [
      | inl e ↦
          let small : n / 10 ≡ 0 = ground arith in
          rw e (
            ap (digits_value ((b'0' + n % 10) ∷ acc)) (sym small)
            ∙ last
            ∙ ap (digits_value acc) whole)
      | inr e ↦ rw e (
          digits_value-digits fuel (n / 10) ((b'0' + n % 10) ∷ acc) (ground arith)
          ∙ last
          ∙ ap (digits_value acc) whole)
    ]

digits_cons :
    (fuel n : ℕ) (acc : Text) → n < fuel → (c : ℕ) × (s : Text) × (digits fuel n acc ≡ c ∷ s)
unfolding digits
digits_cons zero n acc h = absurd (omega arith)
digits_cons (suc fuel) n acc h = elim (Bool-cases (n / 10 == 0)) [
  | inl e ↦ (b'0' + n % 10, acc, ground arith)
  | inr e ↦
      let (c, s, f) = digits_cons fuel (n / 10) ((b'0' + n % 10) ∷ acc) (ground arith) in
      (c, s, ground (arith, f))
]

atoi_digits :
    (c : ℕ) (s : Text) {n : ℕ}
    → digits_value (c ∷ s) 0 ≡ some n
    → n < 2 ^ 63
    → atoi (c ∷ s) ≡ some (pos n)
unfolding digits_value atoi unsigned bounded_pos
atoi_digits c s h p = ground arith

none_left : (n : ℕ) → digits_value [] n ≡ some n
unfolding digits_value
none_left n = refl

-- A number below 2 ^ 63 that is written is the number that is read.
pub atoi-decimal : (n : ℕ) → n < 2 ^ 63 → atoi (decimal n) ≡ some (pos n)
unfolding decimal
atoi-decimal n h =
    let (c, s, e) = digits_cons (suc n) n [] (omega arith) in
    let value =
      ap (λ t. digits_value t 0) (sym e) ∙ digits_value-digits (suc n) n [] (omega arith) in
    ap atoi e ∙ atoi_digits c s {n = n} (value ∙ none_left n) h
