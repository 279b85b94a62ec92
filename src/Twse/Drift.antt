-- ===== src/Twse/Drift.antt =====
-- service/stock/twse/cached_walkback.go: the weeks of the two dumps of `CachedHolders`.
use imagelet.Base.{
  ℕ, ◌==◌, ◌≡◌, ◌≢◌, ◌⊎◌, true, false, Option, none, some, inl, inr, refl, arith, Option-cases,
  Bool-cases, sym, subst,
}
use imagelet.Base.Text.{Text, Text-discrete}
use imagelet.TtlCache.{Flight, Outcome, ok, fail}
use imagelet.Twse.Dumps.{latest_key}
use imagelet.Twse.Fetching.{ran_fetch}
use imagelet.Twse.Holders.{
  HoldersDistribution, HoldersDump, CachedHolders, rotate, fetch_dump, holders_lookup, serve_dump,
  get_holders_distribution,
}

-- There is no dump of the week before, or it is of another day than the last one, which is dated.
abbrev pub IsDrift : {T : Type 0} → CachedHolders T → Type 0
IsDrift h =
    (h.previous.as_of ≡ 0) ⊎ ((h.last_dump.as_of ≢ 0) × (h.previous.as_of ≢ h.last_dump.as_of))

-- The dumps that the provider sends are dated.
abbrev pub IsDated : {E T : Type 0} → Option (Outcome E (HoldersDump T)) → Type 0
IsDated none = Unit {0}
IsDated (some (fail err)) = Unit {0}
IsDated (some (ok d found)) = d.as_of ≢ 0

rotate-IsDrift :
    {T : Type 0} (d : HoldersDump T) (h : CachedHolders T)
    → d.as_of ≢ 0
    → IsDrift h
    → IsDrift (rotate d h)
unfolding rotate
rotate-IsDrift d h n i = elim (Bool-cases (h.last_dump.as_of == 0)) [
  | inl z ↦ rw (z, rotate) (ground arith)
  | inr z ↦ elim (Bool-cases (h.last_dump.as_of == d.as_of)) [
    | inl e ↦ rw (z, e, rotate) (ground arith)
    | inr e ↦ rw (z, e, rotate) (inr (n, λ p. ground arith))
  ]
]

module _ {E T : Type 0} (unavailable : E) (blank : HoldersDistribution T) where
  fetch_dump-IsDrift :
      (now : ℕ) (flight : Flight E (HoldersDump T)) (h : CachedHolders T)
      → IsDated (ran_fetch Text-discrete latest_key now flight h.cache)
      → IsDrift h
      → IsDrift (fetch_dump unavailable blank now flight h).0
  unfolding fetch_dump
  fetch_dump-IsDrift now flight h dated i =
      elim (Option-cases (ran_fetch Text-discrete latest_key now flight h.cache)) [
        | inl e ↦ rw (e, fetch_dump) i
        | inr (fail err, e) ↦ rw (e, fetch_dump) i
        | inr (ok d false, e) ↦ rw (e, fetch_dump) i
        | inr (ok d true, e) ↦ rw (e, fetch_dump) (rotate-IsDrift d _ (subst IsDated e dated) i)
      ]

  serve_dump-same :
      (stock : Text) (h : CachedHolders T) (o : Outcome E (HoldersDump T))
      → (serve_dump unavailable blank stock h o).0 ≡ h
  unfolding serve_dump
  serve_dump-same stock h (fail err) = refl
  serve_dump-same stock h (ok dump false) = refl
  serve_dump-same stock h (ok dump true) =
      elim (Option-cases (holders_lookup unavailable blank dump stock).1) [
        | inl e ↦ rw (e, serve_dump) refl
        | inr (x, e) ↦ rw (e, serve_dump) refl
      ]

  -- Every request keeps this: the dump that drift is computed from is of another week than the last
  -- one, if the provider's dumps are dated.
  pub get_holders_distribution-IsDrift :
      (stock : Text) (now : ℕ) (flight : Flight E (HoldersDump T)) (h : CachedHolders T)
      → IsDated (ran_fetch Text-discrete latest_key now flight h.cache)
      → IsDrift h
      → IsDrift (get_holders_distribution unavailable blank stock now flight h).0
  unfolding get_holders_distribution
  get_holders_distribution-IsDrift stock now flight h dated i =
      let out = fetch_dump unavailable blank now flight h in
      subst IsDrift (sym (serve_dump-same stock out.0 out.1))
        (fetch_dump-IsDrift now flight h dated i)
