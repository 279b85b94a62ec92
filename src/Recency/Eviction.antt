-- ===== src/Recency/Eviction.antt =====
-- What a store under a key does to the other keys, and which one it evicts.
use imagelet.Base.{
  ℕ, zero, suc, ◌≡◌, ◌≢◌, ◌≤◌, ◌<◌, ◌⊎◌, refl, none, some, List, [], ◌∷◌, length, back, drop_last,
  arith, Option-cases, inl, inr, ltb, ap, ◌∙◌, Bool-cases, length-drop_last_of_back, length_of_back,
}
use imagelet.Base.Assoc.{lookup, insert, delete, lookup-insert, lookup-delete}
use imagelet.Base.Order.{has-back}
use imagelet.Recency.{Store, touch, evict, put, IsSynced}
use imagelet.Recency.Invariant.{length-touch}
use imagelet.Recency.View.{evict_fits, evict_over}

back-cons_some : {A : Type 0} (x o : A) (l : List A) → back l ≡ some o → back (x ∷ l) ≡ some o
back-cons_some x o [] h = absurd (ground arith)
back-cons_some x o (y ∷ l) h = h

drop_last-cons_some :
    {A : Type 0} (x o : A) (l : List A) → back l ≡ some o → drop_last (x ∷ l) ≡ x ∷ drop_last l
drop_last-cons_some x o [] h = absurd (ground arith)
drop_last-cons_some x o (y ∷ l) h = refl

module _ {K V : Type 0} (dec : Discrete K) where
  evict_within :
      (fuel limit : ℕ) (s : Store K V) → length s.lru ≤ limit → evict dec fuel limit s ≡ s
  unfolding evict
  evict_within zero limit s h = refl
  evict_within (suc fuel) limit s h = evict_fits dec fuel limit s (ground arith)

module _ {K V : Type 0} (dec : Discrete K) (limit : ℕ) (k : K) (v : V) (s : Store K V) where
  put_present :
      (w : V)
      → lookup dec k s.items ≡ some w
      → put dec limit k v s ≡ touch dec k (record s { items = insert dec k v s.items })
  unfolding put
  put_present w h = ground arith

  put_room :
      lookup dec k s.items ≡ none
      → length s.lru < limit
      → put dec limit k v s ≡ record { items = insert dec k v s.items; lru = k ∷ s.lru }
  unfolding put
  put_room h r =
      let s' : Store K V = record { items = insert dec k v s.items; lru = k ∷ s.lru } in
      ground (arith, evict_fits dec (length s.lru) limit s')

  put_full :
      (o : K)
      → lookup dec k s.items ≡ none
      → length s.lru ≡ limit
      → back s.lru ≡ some o
      → put dec limit k v s
        ≡ record { items = delete dec o (insert dec k v s.items); lru = k ∷ drop_last s.lru }
  unfolding put
  put_full o h r e =
      let s' : Store K V = record { items = insert dec k v s.items; lru = k ∷ s.lru } in
      let d = drop_last-cons_some k o s.lru e in
      let t : Store K V = record { items = delete dec o s'.items; lru = drop_last s'.lru } in
      let fits : length t.lru ≤ limit =
        omega (arith, ap length d, length-drop_last_of_back o s.lru e) in
      rw (h, put)
        (evict_over dec (length s.lru) limit s' o (ground arith) (back-cons_some k o s.lru e)
          ∙ evict_within dec (length s.lru) limit t fits
          ∙ ap (λ l. record { items = t.items; lru = l }) d)

  -- A store under `k` leaves another key alone, unless `k` is new, the store is full, and that key
  -- is the least recently used one.
  pub lookup-put_ne :
      (q : K)
      → 0 < limit
      → length s.lru ≤ limit
      → q ≢ k
      → (lookup dec k s.items ≢ none) ⊎ (length s.lru < limit) ⊎ (back s.lru ≢ some q)
      → lookup dec q (put dec limit k v s).items ≡ lookup dec q s.items
  unfolding touch
  lookup-put_ne q p b n c = elim (Option-cases (lookup dec k s.items)) [
    | inr (w, e) ↦ rw (put_present w e) (ground (arith, lookup-insert dec k q v s.items))
    | inl e ↦ elim (Option-cases (back s.lru)) [
      | inl z ↦
          rw (put_room e (omega (arith, length_of_back s.lru z)))
            (ground (arith, lookup-insert dec k q v s.items))
      | inr (o, z) ↦ elim (Bool-cases (ltb (length s.lru) limit)) [
        | inl room ↦
            rw (put_room e (ground arith)) (ground (arith, lookup-insert dec k q v s.items))
        | inr full ↦ rw (put_full o e (ground arith) z) (
            ground (
              arith,
              lookup-insert dec k q v s.items,
              lookup-delete dec o q (insert dec k v s.items),
            ))
      ]
    ]
  ]

  pub lookup-put_self :
      0 < limit
      → length s.lru ≤ limit
      → IsSynced dec s
      → lookup dec k (put dec limit k v s).items ≡ some v
  unfolding touch
  lookup-put_self p b i = elim (Option-cases (lookup dec k s.items)) [
    | inr (w, e) ↦ rw (put_present w e) (ground (arith, lookup-insert dec k k v s.items))
    | inl e ↦ elim (Option-cases (back s.lru)) [
      | inl z ↦
          rw (put_room e (omega (arith, length_of_back s.lru z)))
            (ground (arith, lookup-insert dec k k v s.items))
      | inr (o, z) ↦ elim (Bool-cases (ltb (length s.lru) limit)) [
        | inl room ↦
            rw (put_room e (ground arith)) (ground (arith, lookup-insert dec k k v s.items))
        | inr full ↦ rw (put_full o e (ground arith) z) (
            ground (
              arith,
              lookup-insert dec k k v s.items,
              lookup-delete dec o k (insert dec k v s.items),
              has-back dec o s.lru z,
              i.covers k,
            ))
      ]
    ]
  ]

  pub length-put-le :
      length s.lru < limit → IsSynced dec s → length (put dec limit k v s).lru ≤ suc (length s.lru)
  length-put-le r i = elim (Option-cases (lookup dec k s.items)) [
    | inl e ↦ rw (put_room e r) (omega arith)
    | inr (w, e) ↦ rw (put_present w e) (
        omega (
          arith,
          length-touch dec k (record s { items = insert dec k v s.items }) i.distinct
              (ground (arith, i.covers k)),
        ))
  ]
