-- ===== src/HtmlCache/Store.antt =====
-- internal/htmlcache/htmlcache.go: the bounded store under `lookup` and `store`.
use imagelet.Base.{
  ℕ, ◌≡◌, ◌≤◌, ◌<◌, true, Option, none, some, List, ◌∷◌, length, take, arith, Option-cases,
  Bool-cases, inl, inr, ltb, if◌then◌else◌,
}
use imagelet.Base.Int.{ℤ, pos, negsuc}
use imagelet.Base.Assoc
use imagelet.Base.Assoc.{delete, lookup-delete}
use imagelet.Base.Order.{has}
use imagelet.Recency
use imagelet.Recency.{IsSynced, view}
use imagelet.Recency.Invariant.{
  empty-IsSynced, touch-IsSynced, discard-IsSynced, put-IsSynced, put-bounded, length-touch,
  length-discard-le,
}
use imagelet.Recency.View.{lookup-view, touch-view, discard-view, put-view}
use imagelet.Recency.Eviction.{lookup-put_self}
use imagelet.HtmlCache
use imagelet.HtmlCache.{Entry, Cache, new_with_capacity, lookup}

module _ {K : Type 0} (dec : Discrete K) where
  -- Room for an entry, never more entries than that, and map and list in step.
  pub record IsValid (c : Cache K) : Type 0 where
    pub positive : 0 < c.max
    pub bounded : length c.store.lru ≤ c.max
    pub synced : IsSynced dec c.store

  pub new_with_capacity-IsValid : (n : ℤ) → IsValid (new_with_capacity n)
  unfolding new_with_capacity
  new_with_capacity-IsValid (pos n) = record {
    positive = ground arith;
    bounded = omega arith;
    synced = empty-IsSynced dec;
  }
  new_with_capacity-IsValid (negsuc n) = record {
    positive = omega arith;
    bounded = omega arith;
    synced = empty-IsSynced dec;
  }

  pub lookup-IsValid :
      (key : K) (now : ℕ) {c : Cache K} → IsValid c → IsValid (lookup dec key now c).0
  unfolding lookup
  lookup-IsValid key now {c} i = elim (Option-cases (Assoc.lookup dec key c.store.items)) [
    | inl e ↦ rw (e, lookup) i
    | inr (x, e) ↦ elim (Bool-cases (ltb now x.deadline)) [
      | inr dead ↦
          rw (e, lookup, dead)
            (record {
              positive = i.positive;
              bounded = omega (arith, length-discard-le dec key c.store, i.bounded);
              synced = discard-IsSynced dec key i.synced;
            })
      | inl live ↦
          let present : has dec key c.store.lru ≡ true = ground (arith, i.synced.covers key) in
          rw (e, lookup, live)
            (record {
              positive = i.positive;
              bounded =
                  omega (arith, i.bounded, length-touch dec key c.store i.synced.distinct present);
              synced = touch-IsSynced dec key i.synced present;
            })
    ]
  ]

  pub store-IsValid : (e : Entry K) {c : Cache K} → IsValid c → IsValid (HtmlCache.store dec e c)
  unfolding HtmlCache.store
  store-IsValid e {c} i = record {
    positive = i.positive;
    bounded = put-bounded dec c.max e.key e i.synced i.bounded;
    synced = put-IsSynced dec c.max e.key e i.synced;
  }

  -- The list of entries in the order of use under a lookup: an expired entry is dropped, a live
  -- one moves to the front.
  unfoldable pub spec_lookup : K → ℕ → List (K × Entry K) → List (K × Entry K) × Option (Entry K)
  spec_lookup key now l = elim (Assoc.lookup dec key l) [
    | none ↦ (l, none)
    | some e ↦
        if ltb now e.deadline
        then ((key, e) ∷ delete dec key l, some e)
        else (delete dec key l, none)
  ]

  -- On a valid cache, a lookup does to the entries in the order of use, and returns, what the
  -- specification says: a live entry moves to the front, an expired one is dropped.
  pub view-lookup :
      (key : K) (now : ℕ) {c : Cache K}
      → IsValid c
      → ◌≡◌ {A = List (K × Entry K) × Option (Entry K)}
          (view dec (lookup dec key now c).0.store, (lookup dec key now c).1)
          (spec_lookup key now (view dec c.store))
  unfolding lookup spec_lookup
  view-lookup key now {c} i =
      let e = lookup-view dec key i.synced in
      elim (Option-cases (Assoc.lookup dec key c.store.items)) [
        | inl miss ↦ ground (arith, e)
        | inr (x, hit) ↦
            ground (arith, e, touch-view dec key x c.store hit, discard-view dec key c.store)
      ]

  -- On a valid cache, a store puts its entry at the front and keeps what fits: the least recently
  -- used go first.
  pub view-store :
      (e : Entry K) {c : Cache K}
      → IsValid c
      → view dec (HtmlCache.store dec e c).store
        ≡ take c.max ((e.key, e) ∷ delete dec e.key (view dec c.store))
  unfolding HtmlCache.store
  view-store e {c} i = put-view dec c.max e.key e i.synced i.bounded

  -- What is served is stored under the key and has not expired.
  pub lookup_sound :
      (key : K) (now : ℕ) (c : Cache K) {e : Entry K}
      → (lookup dec key now c).1 ≡ some e
      → (Assoc.lookup dec key c.store.items ≡ some e) × (now < e.deadline)
  unfolding lookup
  lookup_sound key now c h = ground arith

  -- On a valid cache, a stored entry is served until its deadline, and dropped by a lookup from then
  -- on.
  pub lookup-store :
      (e : Entry K) (now : ℕ) {c : Cache K}
      → IsValid c
      → ((lookup dec e.key now (HtmlCache.store dec e c)).1
          ≡ (if ltb now e.deadline then some e else none))
        × (Assoc.lookup dec e.key (lookup dec e.key now (HtmlCache.store dec e c)).0.store.items
            ≡ (if ltb now e.deadline then some e else none))
  unfolding lookup HtmlCache.store Recency.touch Recency.discard
  lookup-store e now {c} i =
      let s = Recency.put dec c.max e.key e c.store in
      ground (
        arith,
        lookup-put_self dec c.max e.key e c.store i.positive i.bounded i.synced,
        lookup-delete dec e.key e.key s.items,
      )
