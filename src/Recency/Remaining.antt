-- ===== src/Recency/Remaining.antt =====
-- The entries that a store can leave behind.
use imagelet.Base.{
  ℕ, zero, suc, ◌≡◌, ◌⊎◌, ◌∷◌, some, arith, inl, inr, Bool-cases, Option-cases, ap, ◌∙◌, sym,
  length, back, ltb, drop_last, length_of_back,
}
use imagelet.Base.Assoc.{lookup, insert, delete, lookup-insert, lookup-delete}
use imagelet.Recency.{Store, evict, put, touch}
use imagelet.Recency.View.{evict_fits, evict_over}

module _ {K V : Type 0} (dec : Discrete K) where
  -- Eviction only takes entries away.
  lookup-evict :
      (fuel limit : ℕ) (s : Store K V) (k : K) (v : V)
      → lookup dec k (evict dec fuel limit s).items ≡ some v
      → lookup dec k s.items ≡ some v
  unfolding evict
  lookup-evict zero limit s k v h = h
  lookup-evict (suc fuel) limit s k v h = elim (Bool-cases (ltb limit (length s.lru))) [
    | inr fits ↦ sym (ap (λ t. lookup dec k t.items) (evict_fits dec fuel limit s fits)) ∙ h
    | inl over ↦ elim (Option-cases (back s.lru)) [
      | inl e ↦ absurd (ground (arith, length_of_back s.lru))
      | inr (j, e) ↦
          let s' : Store K V = record { items = delete dec j s.items; lru = drop_last s.lru } in
          let kept =
            lookup-evict fuel limit s' k v
              (sym (ap (λ t. lookup dec k t.items) (evict_over dec fuel limit s j over e)) ∙ h) in
          ground (arith, lookup-delete dec j k s.items)
    ]
  ]

  pub lookup-put :
      (limit : ℕ) (key : K) (w : V) (s : Store K V) (k : K) (v : V)
      → lookup dec k (put dec limit key w s).items ≡ some v
      → ((key ≡ k) × (w ≡ v)) ⊎ (lookup dec k s.items ≡ some v)
  unfolding put touch
  lookup-put limit key w s k v h = elim (Option-cases (lookup dec key s.items)) [
    | inl e ↦ ground (
      arith,
      lookup-insert dec key k w s.items,
      lookup-evict (suc (length s.lru)) limit
          (record { items = insert dec key w s.items; lru = key ∷ s.lru }) k v,
    )
    | inr (x, e) ↦ ground (arith, lookup-insert dec key k w s.items)
  ]
