-- ===== src/IpLimit/Buckets.antt =====
-- middleware/iplimit/iplimit.go: what a request leaves of the buckets.
use imagelet.Base.{
  ℕ, [], ◌∷◌, ◌≡◌, List, Bool, false, Option, none, some, if◌then◌else◌, refl, arith, ap, ◌∙◌, ite,
}
use imagelet.Base.Assoc.{lookup, lookup-insert}
use imagelet.Base.Order.{Distinct, has}
use imagelet.Base.Text.{Text, Text-discrete}
use imagelet.Recency.{keys}
use imagelet.Recency.Invariant.{has-keys, keys-insert-Distinct}
use imagelet.IpLimit.{Bucket, Limiter, is_stale, collect, take_token, allow}

module _ {L : Type 0} (fresh : L) (allow_n : ℕ → L → L × Bool) where
  -- A bucket that is not stale.
  abbrev pub unless_stale : ℕ → ℕ → Option (Bucket L) → Option (Bucket L)
  unless_stale cleanup now none = none
  unless_stale cleanup now (some b) = if is_stale fresh allow_n cleanup now b then none else some b

  lookup-collect :
      (cleanup now : ℕ) (ip : Text) (l : List (Text × Bucket L))
      → Distinct Text-discrete (keys l)
      → lookup Text-discrete ip (collect fresh allow_n cleanup now l)
        ≡ unless_stale cleanup now (lookup Text-discrete ip l)
  unfolding collect lookup
  lookup-collect cleanup now ip [] d = refl
  lookup-collect cleanup now ip ((j, b) ∷ l) d = ground (
    arith,
    lookup-collect cleanup now ip l d.1,
    lookup-collect cleanup now j l d.1,
    has-keys Text-discrete j l,
  )

  has-collect :
      (cleanup now : ℕ) (j : Text) (l : List (Text × Bucket L))
      → has Text-discrete j (keys l) ≡ false
      → has Text-discrete j (keys (collect fresh allow_n cleanup now l)) ≡ false
  unfolding collect
  has-collect cleanup now j [] h = refl
  has-collect cleanup now j ((i, b) ∷ l) h = ground (arith, has-collect cleanup now j l)

  collect-Distinct :
      (cleanup now : ℕ) (l : List (Text × Bucket L))
      → Distinct Text-discrete (keys l)
      → Distinct Text-discrete (keys (collect fresh allow_n cleanup now l))
  unfolding collect
  collect-Distinct cleanup now [] d = tt
  collect-Distinct cleanup now ((j, b) ∷ l) d =
      ground (arith, has-collect cleanup now j l d.0, collect-Distinct cleanup now l d.1)

  abbrev pub limiter : Option (Bucket L) → L
  limiter none = fresh
  limiter (some b) = b.lim

  -- The limiter that a request from an address meets: its own if that is not stale, a full one
  -- otherwise.
  abbrev pub met : Text → ℕ → Limiter L → L
  met ip now l = limiter (unless_stale l.cleanup now (lookup Text-discrete ip l.buckets))

  -- Where no address has two buckets, a request from a known address is answered by its own token
  -- bucket, or by a full one if it has none or a stale one; it leaves its bucket as seen now, no
  -- stale bucket, the others as they were, and one bucket for an address at most.
  pub allow_lem :
      (c : ℕ) (ip other : Text) (now : ℕ) (l : Limiter L)
      → Distinct Text-discrete (keys l.buckets)
      → ((allow fresh allow_n (c ∷ ip) now l).1 ≡ (allow_n now (met (c ∷ ip) now l)).1)
        × (lookup Text-discrete other (allow fresh allow_n (c ∷ ip) now l).0.buckets
            ≡ ite
                (Text-discrete (c ∷ ip) other)
                (some (record { lim = (allow_n now (met (c ∷ ip) now l)).0; last_seen = now }))
                (unless_stale l.cleanup now (lookup Text-discrete other l.buckets)))
        × Distinct Text-discrete (keys (allow fresh allow_n (c ∷ ip) now l).0.buckets)
  unfolding allow take_token
  allow_lem c ip other now l d =
      let e = lookup-collect l.cleanup now (c ∷ ip) l.buckets d in
      (
        ap (λ o. (allow_n now (limiter o)).1) e,
        lookup-insert Text-discrete (c ∷ ip) other _ (collect fresh allow_n l.cleanup now l.buckets)
            ∙ ap
                (λ o.
                  ite (Text-discrete (c ∷ ip) other)
                    (some (record { lim = (allow_n now (limiter o)).0; last_seen = now }))
                    (lookup Text-discrete other (collect fresh allow_n l.cleanup now l.buckets)))
                e
            ∙ ap
                (ite (Text-discrete (c ∷ ip) other)
                  (some (record { lim = (allow_n now (met (c ∷ ip) now l)).0; last_seen = now })))
                (lookup-collect l.cleanup now other l.buckets d),
        keys-insert-Distinct Text-discrete (c ∷ ip) _ _
            (collect-Distinct l.cleanup now l.buckets d),
      )
