-- ===== src/Twse/Latest.antt =====
-- service/stock/twse/cached_walkback.go: which day's report a walk back finds.
use imagelet.Base.{
  ℕ, zero, suc, ◌+◌, ◌≡◌, ◌<◌, ◌⊎◌, true, false, Option, none, some, refl, arith, inl, inr,
  Bool-cases, ap, ◌∙◌, sym, subst,
}
use imagelet.Base.Text.{Text}
use imagelet.TtlCache.{Outcome, ok, fail}
use imagelet.Twse.Calendar.{format_date, days_before, is_weekend, clamp_as_of, max_lookback_days}
use imagelet.Twse.WalkBack.{
  Visit, walk_from, walk_back_trading_days, walk_over, walk_weekend, walk_fail, walk_stop, walk_on,
}
use imagelet.Twse.Direct.{probe_direct, Outcome-cases}

module _ {E V : Type 0} (unavailable : E) (blank : V) (key_of : Text → Text)
    (provider : Text → Outcome E V) where
  -- the provider's answer for a day before `as_of`
  abbrev pub report : ℕ → ℕ → Outcome E V
  report as_of k = provider (format_date (days_before k as_of))

  -- A weekend, or a day without a report.
  abbrev pub IsQuiet : ℕ → ℕ → Type 0
  IsQuiet as_of k =
      (is_weekend (days_before k as_of) ≡ true) ⊎ ((v : V) × (report as_of k ≡ ok v false))

  -- So are `n` days in a row, going back.
  abbrev pub AllQuiet : ℕ → ℕ → ℕ → Type 0
  AllQuiet as_of zero k = Unit {0}
  AllQuiet as_of (suc n) k = IsQuiet as_of k × AllQuiet as_of n (suc k)

  abbrev walk : ℕ → ℕ → ℕ → V → V × Option E
  walk = walk_from unavailable (probe_direct unavailable blank key_of provider)

  -- how a walk of `left` rounds from day `k` on ends
  abbrev pub Ends : ℕ → ℕ → ℕ → V → V × Option E → Type 0
  Ends as_of left k s result =
      ((n : ℕ) × (v : V) × (n < left)
        × AllQuiet as_of n k
        × (is_weekend (days_before (n + k) as_of) ≡ false)
        × (report as_of (n + k) ≡ ok v true)
        × (result ≡ (v, none)))
      ⊎ ((n : ℕ) × (err : E) × (n < left)
          × AllQuiet as_of n k
          × (is_weekend (days_before (n + k) as_of) ≡ false)
          × (report as_of (n + k) ≡ fail err)
          × (result ≡ (s, some err)))
      ⊎ (AllQuiet as_of left k × (result ≡ (s, some unavailable)))

  suc_shift : (n k : ℕ) → n + suc k ≡ suc n + k
  suc_shift n k = omega arith

  Ends-suc :
      (as_of left k : ℕ) (s : V) (result : V × Option E)
      → IsQuiet as_of k
      → Ends as_of left (suc k) s result
      → Ends as_of (suc left) k s result
  Ends-suc as_of left k s result q (inl (n, v, l, a, w, r, e)) = inl (
    suc n,
    v,
    omega arith,
    (q, a),
    ap (λ m. is_weekend (days_before m as_of)) (sym (suc_shift n k)) ∙ w,
    ap (report as_of) (sym (suc_shift n k)) ∙ r,
    e,
  )
  Ends-suc as_of left k s result q (inr (inl (n, err, l, a, w, r, e))) = inr (
      inl (
        suc n,
        err,
        omega arith,
        (q, a),
        ap (λ m. is_weekend (days_before m as_of)) (sym (suc_shift n k)) ∙ w,
        ap (report as_of) (sym (suc_shift n k)) ∙ r,
        e,
      ))
  Ends-suc as_of left k s result q (inr (inr (a, e))) = inr (inr ((q, a), e))

  here : (k : ℕ) → 0 + k ≡ k
  here k = omega arith

  -- the callback on each answer of the provider
  probe_direct_lem :
      (probe : ℕ) (s : V) (o : Outcome E V)
      → provider (format_date probe) ≡ o
      → probe_direct unavailable blank key_of provider probe s ≡ (elim o [
        | fail err ↦ (s, Visit.fail err)
        | ok v found ↦ elim found [ true ↦ (v, Visit.ok true) | false ↦ (s, Visit.ok false) ]
      ])
  unfolding probe_direct
  probe_direct_lem probe s (fail err) h = rw (h, probe_direct) refl
  probe_direct_lem probe s (ok v true) h = rw (h, probe_direct) refl
  probe_direct_lem probe s (ok v false) h = rw (h, probe_direct) refl

  abbrev visit : ℕ → V → V × Visit E
  visit = probe_direct unavailable blank key_of provider

  walk-Ends : (as_of left k : ℕ) (s : V) → Ends as_of left k s (walk as_of left k s)
  walk-Ends as_of zero k s = inr (inr (tt, walk_over unavailable visit as_of k s))
  walk-Ends as_of (suc left) k s = elim (Bool-cases (is_weekend (days_before k as_of))) [
    | inl w ↦
        subst (Ends as_of (suc left) k s) (sym (walk_weekend unavailable visit as_of left k s w))
          (Ends-suc as_of left k s _ (inl w) (walk-Ends as_of left (suc k) s))
    | inr w ↦ elim (Outcome-cases (report as_of k)) [
      | inl (err, h) ↦
          let p = probe_direct_lem (days_before k as_of) s (fail err) h in
          inr (
            inl (
              0,
              err,
              omega arith,
              tt,
              ap (λ m. is_weekend (days_before m as_of)) (here k) ∙ w,
              ap (report as_of) (here k) ∙ h,
              walk_fail unavailable visit as_of left k s err w (ap (λ o. o.1) p)
                  ∙ ap (λ o. (o.0, some err)) p,
            ))
      | inr (inl (v, h)) ↦
          let p = probe_direct_lem (days_before k as_of) s (ok v true) h in
          inl (
            0,
            v,
            omega arith,
            tt,
            ap (λ m. is_weekend (days_before m as_of)) (here k) ∙ w,
            ap (report as_of) (here k) ∙ h,
            walk_stop unavailable visit as_of left k s w (ap (λ o. o.1) p)
                ∙ ap (λ o. (o.0, none)) p,
          )
      | inr (inr (v, h)) ↦
          let p = probe_direct_lem (days_before k as_of) s (ok v false) h in
          subst (Ends as_of (suc left) k s)
            (sym (
              walk_on unavailable visit as_of left k s w (ap (λ o. o.1) p)
              ∙ ap (λ o. walk as_of left (suc k) o.0) p))
            (Ends-suc as_of left k s _ (inr (v, h)) (walk-Ends as_of left (suc k) s))
    ]
  ]

  -- A walk back that asks the provider for every day ends in one of three ways: with the report of
  -- a weekday at most six days back, where every later day is a weekend or has no report; with the
  -- provider's error for such a day; or, where no day of the last seven is a weekday with a report,
  -- as unavailable.
  pub walk_back_trading_days-Ends :
      (as_of now : ℕ) (s : V)
      → Ends (clamp_as_of as_of now) max_lookback_days 0 s (
          walk_back_trading_days unavailable
            (probe_direct unavailable blank key_of provider)
            as_of
            now
            s)
  unfolding walk_back_trading_days
  walk_back_trading_days-Ends as_of now s = walk-Ends (clamp_as_of as_of now) max_lookback_days 0 s
