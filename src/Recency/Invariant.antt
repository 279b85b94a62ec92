-- ===== src/Recency/Invariant.antt =====
-- Each operation keeps map and list in step.
use imagelet.Base.{
  ℕ, zero, suc, ◌≡◌, ◌≤◌, true, false, List, [], ◌∷◌, some, arith, length, back, refl, drop_last,
  is_some, Option-cases, Bool-cases, ltb, inl, inr, length_of_back, length-drop_last_of_back,
}
use imagelet.Base.Assoc.{lookup, insert, delete, lookup-insert, lookup-delete}
use imagelet.Base.Order.{
  length-remove-le, has, remove, Distinct, has-remove, Distinct-remove, length-remove,
  has-drop_last, Distinct-drop_last,
}
use imagelet.Recency.{Store, keys, touch, discard, evict, put, IsSynced, empty}

module _ {K : Type 0} (dec : Discrete K) where
  -- Two lists of distinct keys with the same members are equally long.
  length-eq_of_same :
      (l m : List K)
      → Distinct dec l
      → Distinct dec m
      → ((k : K) → has dec k l ≡ has dec k m)
      → length l ≡ length m
  length-eq_of_same [] [] d d' same = refl
  length-eq_of_same [] (k ∷ m) d d' same = absurd (ground (arith, same k))
  length-eq_of_same (k ∷ l) m d d' same =
      let e =
        length-eq_of_same l (remove dec k m) d.1 (Distinct-remove dec k m d')
          (λ j. ground (arith, same j, has-remove dec k j m, d.0)) in
      let p : has dec k m ≡ true = ground (arith, same k) in
      omega (arith, e, length-remove dec k m d' p)

module _ {K V : Type 0} (dec : Discrete K) where
  pub has-keys : (k : K) (m : List (K × V)) → has dec k (keys m) ≡ is_some (lookup dec k m)
  unfolding lookup
  has-keys k [] = refl
  has-keys k ((j, v) ∷ m) = ground (arith, has-keys k m)

  pub keys-insert-Distinct :
      (k : K) (v : V) (m : List (K × V))
      → Distinct dec (keys m)
      → Distinct dec (keys (insert dec k v m))
  unfolding insert
  keys-insert-Distinct k v [] d = (refl, tt)
  keys-insert-Distinct k v ((j, w) ∷ m) d = ground (
    arith,
    keys-insert-Distinct k v m d.1,
    has-keys j m,
    has-keys j (insert dec k v m),
    lookup-insert dec k j v m,
  )

  keys-delete-Distinct :
      (k : K) (m : List (K × V)) → Distinct dec (keys m) → Distinct dec (keys (delete dec k m))
  unfolding delete
  keys-delete-Distinct k [] d = tt
  keys-delete-Distinct k ((j, w) ∷ m) d = ground (
    arith,
    keys-delete-Distinct k m d.1,
    has-keys j m,
    has-keys j (delete dec k m),
    lookup-delete dec k j m,
  )

  pub length-items : {s : Store K V} → IsSynced dec s → length (keys s.items) ≡ length s.lru
  length-items {s} i =
      length-eq_of_same dec (keys s.items) s.lru i.keyed i.distinct
        (λ k. ground (arith, has-keys k s.items, i.covers k))

  pub empty-IsSynced : IsSynced dec (empty {K = K} {V = V})
  unfolding lookup
  empty-IsSynced = record { distinct = tt; keyed = tt; covers = λ k. refl }

  pub touch-IsSynced :
      (k : K) {s : Store K V}
      → IsSynced dec s
      → has dec k s.lru ≡ true
      → IsSynced dec (touch dec k s)
  unfolding touch
  touch-IsSynced k {s} i h = record {
    distinct = ground (arith, has-remove dec k k s.lru, Distinct-remove dec k s.lru i.distinct);
    keyed = i.keyed;
    covers = λ j. ground (arith, i.covers j, has-remove dec k j s.lru);
  }

  pub discard-IsSynced : (k : K) {s : Store K V} → IsSynced dec s → IsSynced dec (discard dec k s)
  unfolding discard
  discard-IsSynced k {s} i = record {
    distinct = Distinct-remove dec k s.lru i.distinct;
    keyed = keys-delete-Distinct k s.items i.keyed;
    covers =
        λ j. ground (arith, i.covers j, has-remove dec k j s.lru, lookup-delete dec k j s.items);
  }

  -- a present key: its entry is replaced
  pub update-IsSynced :
      (k : K) (v : V) {s : Store K V}
      → IsSynced dec s
      → has dec k s.lru ≡ true
      → IsSynced dec (record s { items = insert dec k v s.items })
  update-IsSynced k v {s} i h = record {
    distinct = i.distinct;
    keyed = keys-insert-Distinct k v s.items i.keyed;
    covers = λ j. ground (arith, i.covers j, lookup-insert dec k j v s.items);
  }

  pub push-IsSynced :
      (k : K) (v : V) {s : Store K V}
      → IsSynced dec s
      → has dec k s.lru ≡ false
      → IsSynced dec (record { items = insert dec k v s.items; lru = k ∷ s.lru })
  push-IsSynced k v {s} i h = record {
    distinct = (h, i.distinct);
    keyed = keys-insert-Distinct k v s.items i.keyed;
    covers = λ j. ground (arith, i.covers j, lookup-insert dec k j v s.items);
  }

  pub drop-IsSynced :
      (k : K) {s : Store K V}
      → IsSynced dec s
      → back s.lru ≡ some k
      → IsSynced dec (record { items = delete dec k s.items; lru = drop_last s.lru })
  drop-IsSynced k {s} i h = record {
    distinct = Distinct-drop_last dec s.lru i.distinct;
    keyed = keys-delete-Distinct k s.items i.keyed;
    covers = λ j. ground (
      arith,
      i.covers j,
      has-drop_last dec k j s.lru i.distinct h,
      lookup-delete dec k j s.items,
    );
  }

  pub evict-IsSynced :
      (fuel limit : ℕ) {s : Store K V} → IsSynced dec s → IsSynced dec (evict dec fuel limit s)
  unfolding evict
  evict-IsSynced zero limit i = i
  evict-IsSynced (suc fuel) limit {s} i = elim (Bool-cases (ltb limit (length s.lru))) [
    | inr fits ↦ rw (fits, evict) i
    | inl over ↦ elim (Option-cases (back s.lru)) [
      | inl e ↦ rw (over, e, evict) i
      | inr (k, e) ↦ rw (over, e, evict) (evict-IsSynced fuel limit (drop-IsSynced k i e))
    ]
  ]

  pub evict-bounded :
      (fuel limit : ℕ) (s : Store K V)
      → length s.lru ≤ fuel
      → length (evict dec fuel limit s).lru ≤ limit
  unfolding evict
  evict-bounded zero limit s h = omega arith
  evict-bounded (suc fuel) limit s h = elim (Bool-cases (ltb limit (length s.lru))) [
    | inr fits ↦ rw (fits, evict) (ground arith)
    | inl over ↦ elim (Option-cases (back s.lru)) [
      | inl e ↦ absurd (ground (arith, length_of_back s.lru))
      | inr (k, e) ↦
          rw (over, e, evict)
            (evict-bounded fuel limit _ (omega (arith, length-drop_last_of_back k s.lru e)))
    ]
  ]

  pub put-IsSynced :
      (limit : ℕ) (k : K) (v : V) {s : Store K V}
      → IsSynced dec s
      → IsSynced dec (put dec limit k v s)
  unfolding put
  put-IsSynced limit k v {s} i = elim (Option-cases (lookup dec k s.items)) [
    | inl e ↦
        rw (e, put) (evict-IsSynced _ limit (push-IsSynced k v i (ground (arith, i.covers k))))
    | inr (w, e) ↦
        let h : has dec k s.lru ≡ true = ground (arith, i.covers k) in
        rw (e, put) (touch-IsSynced k (update-IsSynced k v i h) h)
  ]

  pub length-touch :
      (k : K) (s : Store K V)
      → Distinct dec s.lru
      → has dec k s.lru ≡ true
      → length (touch dec k s).lru ≡ length s.lru
  unfolding touch
  length-touch k s d h = length-remove dec k s.lru d h

  pub length-discard-le : (k : K) (s : Store K V) → length (discard dec k s).lru ≤ length s.lru
  unfolding discard
  length-discard-le k s = length-remove-le dec k s.lru

  pub put-bounded :
      (limit : ℕ) (k : K) (v : V) {s : Store K V}
      → IsSynced dec s
      → length s.lru ≤ limit
      → length (put dec limit k v s).lru ≤ limit
  unfolding put
  put-bounded limit k v {s} i h = elim (Option-cases (lookup dec k s.items)) [
    | inl e ↦ rw (e, put) (evict-bounded _ limit _ (omega arith))
    | inr (w, e) ↦
        let present : has dec k s.lru ≡ true = ground (arith, i.covers k) in
        rw (e, put)
          (omega (
            arith,
            length-touch k (record s { items = insert dec k v s.items }) i.distinct present,
          ))
  ]
