-- ===== src/StaleCache/Answers.antt =====
-- service/dns/resolver/cached and service/github/profile/cached: what a call stores and what later
-- calls see of it.
use imagelet.Base.{
  ℕ, ◌≡◌, ◌≤◌, ◌<◌, ◌⊎◌, Option, none, some, arith, refl, Option-cases, inl, inr, Bool-cases, ite,
  ltb, if◌then◌else◌,
}
use imagelet.Base.Assoc.{lookup, lookup-insert}
use imagelet.StaleCache.{Entry, Cache, Policy, Started, missed, increment, answer, publish, start}
use imagelet.StaleCache.Invariant.{IsValid}

-- What a cache answers from an entry, if it has a fresh one.
abbrev pub reply : {R E : Type 0} → Policy R E → ℕ → Option (Entry R E) → Option (Started R E)
reply policy now none = none
reply policy now (some e) = if ltb now e.deadline then some (answer policy e) else none

module _ {K R E : Type 0} (dec : Discrete K) (policy : Policy R E) where
  -- The entry at a pointer, and the entry under a key.
  abbrev pub entry_at : Option ℕ → Cache K R E → Option (Entry R E)
  entry_at none c = none
  entry_at (some p) c = some (c.heap p)

  abbrev pub held : K → Cache K R E → Option (Entry R E)
  held k c = entry_at (lookup dec k c.entries) c

  -- `start` answers from the entry under the key if that is fresh, asks otherwise, and counts one
  -- hit or one miss.
  pub start-held :
      (key : K) (now : ℕ) (c : Cache K R E)
      → ((e : Entry R E) × (held key c ≡ some e)
          × (now < e.deadline)
          × ((start dec policy key now c).1 ≡ answer policy e)
          × ((start dec policy key now c).0 ≡ record c { hits = increment c.hits }))
        ⊎ (((e : Entry R E) → held key c ≡ some e → e.deadline ≤ now)
            × ((start dec policy key now c).1 ≡ missed (lookup dec key c.entries))
            × ((start dec policy key now c).0 ≡ record c { misses = increment c.misses }))
  unfolding start
  start-held key now c = elim (Option-cases (lookup dec key c.entries)) [
    | inl e ↦ inr (λ x h. ground arith, ground arith, rw (e, start) refl)
    | inr (p, e) ↦ elim (Bool-cases (ltb now (c.heap p).deadline)) [
      | inl fresh ↦
          inl (c.heap p, ground arith, ground arith, ground arith, rw (e, fresh, start) refl)
      | inr stale ↦ inr (λ x h. ground arith, ground arith, rw (e, stale, start) refl)
    ]
  ]

  pub entry_at_congr :
      (o : Option ℕ) (c d : Cache K R E) → c.heap ≡ d.heap → entry_at o c ≡ entry_at o d
  entry_at_congr none c d h = refl
  entry_at_congr (some p) c d h = ground arith

  -- counting leaves the entries alone
  pub held-start :
      (key k : K) (now : ℕ) (c : Cache K R E) → held k (start dec policy key now c).0 ≡ held k c
  unfolding start
  held-start key k now c = elim (Option-cases (lookup dec k c.entries)) [
    | inl e ↦ ground arith
    | inr (p, e) ↦ ground arith
  ]

  pub held-publish :
      (key k : K) (e : Entry R E) {c : Cache K R E}
      → IsValid dec policy c
      → held k (publish dec policy key e c) ≡ ite (dec key k) (some e) (held k c)
  unfolding publish
  held-publish key k e {c} i = elim (Option-cases (lookup dec k c.entries)) [
    | inl h ↦ ground (arith, lookup-insert dec key k c.next c.entries)
    | inr (p, h) ↦ ground (arith, lookup-insert dec key k c.next c.entries, i.allocated k p h)
  ]
