-- ===== src/Twse/WalkBack.antt =====
-- service/stock/twse/cached_walkback.go: `walkBackTradingDays`, with the state that its callback
-- changes as an argument and a result.
use imagelet.Base.{
  ℕ, zero, suc, ◌≡◌, ◌⊎◌, Bool, true, false, Option, none, some, refl, inl, inr, Bool-cases, ◌∙◌,
}
use imagelet.Twse.Calendar.{max_lookback_days, is_weekend, clamp_as_of, days_before}

-- What the callback returns: whether to stop, or an error.
pub data Visit (E : Type 0) : Type 0 where
  ok : Bool → Visit E
  fail : E → Visit E

module _ {E : Type 0} (unavailable : E) where
  module _ {S : Type 0} (visit : ℕ → S → S × Visit E) where
    -- the loop from `daysBack` on, for as many rounds as are left
    unfoldable pub walk_from : ℕ → ℕ → ℕ → S → S × Option E
    walk_from as_of zero days_back s = (s, some unavailable)
    walk_from as_of (suc left) days_back s =
        let probe = days_before days_back as_of in
        elim (is_weekend probe) [
          | true ↦ walk_from as_of left (suc days_back) s
          | false ↦
              let (s', result) = visit probe s in
              elim result [
                | fail err ↦ (s', some err)
                | ok true ↦ (s', none)
                | ok false ↦ walk_from as_of left (suc days_back) s'
              ]
        ]

    unfoldable pub walk_back_trading_days : ℕ → ℕ → S → S × Option E
    unfolding walk_from
    walk_back_trading_days as_of now = walk_from (clamp_as_of as_of now) max_lookback_days 0

    pub walk_over :
        (as_of days_back : ℕ) (s : S) → walk_from as_of zero days_back s ≡ (s, some unavailable)
    unfolding walk_from
    walk_over as_of days_back s = refl

    pub walk_weekend :
        (as_of left days_back : ℕ) (s : S)
        → is_weekend (days_before days_back as_of) ≡ true
        → walk_from as_of (suc left) days_back s ≡ walk_from as_of left (suc days_back) s
    unfolding walk_from
    walk_weekend as_of left days_back s w = rw (w, walk_from) refl

    pub walk_fail :
        (as_of left days_back : ℕ) (s : S) (err : E)
        → is_weekend (days_before days_back as_of) ≡ false
        → (visit (days_before days_back as_of) s).1 ≡ fail err
        → walk_from as_of (suc left) days_back s
          ≡ ((visit (days_before days_back as_of) s).0, some err)
    unfolding walk_from
    walk_fail as_of left days_back s err w v = rw (w, v, walk_from) refl

    pub walk_stop :
        (as_of left days_back : ℕ) (s : S)
        → is_weekend (days_before days_back as_of) ≡ false
        → (visit (days_before days_back as_of) s).1 ≡ ok true
        → walk_from as_of (suc left) days_back s ≡ ((visit (days_before days_back as_of) s).0, none)
    unfolding walk_from
    walk_stop as_of left days_back s w v = rw (w, v, walk_from) refl

    pub walk_on :
        (as_of left days_back : ℕ) (s : S)
        → is_weekend (days_before days_back as_of) ≡ false
        → (visit (days_before days_back as_of) s).1 ≡ ok false
        → walk_from as_of (suc left) days_back s
          ≡ walk_from as_of left (suc days_back) (visit (days_before days_back as_of) s).0
    unfolding walk_from
    walk_on as_of left days_back s w v = rw (w, v, walk_from) refl

  Visit-cases : (v : Visit E) → ((err : E) × (v ≡ fail err)) ⊎ (v ≡ ok true) ⊎ (v ≡ ok false)
  Visit-cases (fail err) = inl (err, refl)
  Visit-cases (ok true) = inr (inl refl)
  Visit-cases (ok false) = inr (inr refl)

  module _ {S T : Type 0} (visit : ℕ → S → S × Visit E) (visit' : ℕ → T → T × Visit E)
      (Related : S → T → Type 0)
      (step : (probe : ℕ) (s : S) (t : T)
        → Related s t
        → Related (visit probe s).0 (visit' probe t).0
          × ((visit probe s).1 ≡ (visit' probe t).1)) where
    -- Walks whose callbacks do the same on related states end the same way, in related states.
    pub walk_from_related :
        (as_of left days_back : ℕ) (s : S) (t : T)
        → Related s t
        → Related
            (walk_from visit as_of left days_back s).0
            (walk_from visit' as_of left days_back t).0
          × ((walk_from visit as_of left days_back s).1
              ≡ (walk_from visit' as_of left days_back t).1)
    unfolding walk_from
    walk_from_related as_of zero days_back s t r = (r, refl)
    walk_from_related as_of (suc left) days_back s t r =
        let probe = days_before days_back as_of in
        let (r', same) = step probe s t r in
        elim (Bool-cases (is_weekend probe)) [
          | inl w ↦
              rw
                (
                  walk_weekend visit as_of left days_back s w,
                  walk_weekend visit' as_of left days_back t w,
                )
                (walk_from_related as_of left (suc days_back) s t r)
          | inr w ↦ elim (Visit-cases (visit' probe t).1) [
            | inl (err, v) ↦
                rw
                  (
                    walk_fail visit as_of left days_back s err w (same ∙ v),
                    walk_fail visit' as_of left days_back t err w v,
                  )
                  (r', refl)
            | inr (inl v) ↦
                rw
                  (
                    walk_stop visit as_of left days_back s w (same ∙ v),
                    walk_stop visit' as_of left days_back t w v,
                  )
                  (r', refl)
            | inr (inr v) ↦
                rw
                  (
                    walk_on visit as_of left days_back s w (same ∙ v),
                    walk_on visit' as_of left days_back t w v,
                  )
                  (walk_from_related as_of left (suc days_back) _ _ r')
          ]
        ]
