-- ===== src/Recency/View.antt =====
-- What each operation does to the entries in the order of use.
use imagelet.Base.{
  ℕ, zero, suc, ◌≡◌, ◌≤◌, true, false, List, [], ◌∷◌, none, some, arith, length, back, refl,
  drop_last, is_some, Option-cases, Bool-cases, sym, ltb, inl, inr, if◌then◌else◌, take, ap, ◌∙◌,
  take_of_length-le, take-drop_last, length_of_back, length-drop_last_of_back,
}
use imagelet.Base.Assoc.{lookup, insert, delete, lookup-insert, lookup-delete}
use imagelet.Base.Order.{has, remove, Distinct, has-remove, has-back}
use imagelet.Recency.{Store, touch, discard, evict, put, IsSynced, view, view_of}
use imagelet.Recency.Invariant.{
  push-IsSynced, drop-IsSynced, touch-IsSynced, update-IsSynced, length-touch,
}

module _ {K V : Type 0} (dec : Discrete K) where
  lookup-view_of :
      (j : K) (l : List K) (m : List (K × V))
      → lookup dec j (view_of dec l m) ≡ (if has dec j l then lookup dec j m else none)
  unfolding lookup
  lookup-view_of j [] m = refl
  lookup-view_of j (k ∷ l) m = ground (arith, lookup-view_of j l m)

  pub lookup-view :
      (j : K) {s : Store K V} → IsSynced dec s → lookup dec j (view dec s) ≡ lookup dec j s.items
  lookup-view j {s} i = ground (arith, lookup-view_of j s.lru s.items, i.covers j)

  view_of-insert_absent :
      (k : K) (v : V) (l : List K) (m : List (K × V))
      → has dec k l ≡ false
      → view_of dec l (insert dec k v m) ≡ view_of dec l m
  view_of-insert_absent k v [] m h = refl
  view_of-insert_absent k v (j ∷ l) m h =
      ground (arith, view_of-insert_absent k v l m, lookup-insert dec k j v m)

  view_of-delete_absent :
      (k : K) (l : List K) (m : List (K × V))
      → has dec k l ≡ false
      → view_of dec l (delete dec k m) ≡ view_of dec l m
  view_of-delete_absent k [] m h = refl
  view_of-delete_absent k (j ∷ l) m h =
      ground (arith, view_of-delete_absent k l m, lookup-delete dec k j m)

  view_of-remove :
      (k : K) (l : List K) (m : List (K × V))
      → view_of dec (remove dec k l) m ≡ delete dec k (view_of dec l m)
  unfolding remove delete
  view_of-remove k [] m = refl
  view_of-remove k (j ∷ l) m = ground (arith, view_of-remove k l m)

  delete_absent : (k : K) (m : List (K × V)) → lookup dec k m ≡ none → delete dec k m ≡ m
  unfolding lookup delete
  delete_absent k [] h = refl
  delete_absent k ((j, w) ∷ m) h = ground (arith, delete_absent k m)

  abbrev IsPresent : List K → List (K × V) → Type 0
  IsPresent [] m = Unit {0}
  IsPresent (k ∷ l) m = (is_some (lookup dec k m) ≡ true) × IsPresent l m

  IsPresent-of :
      (l : List K) (m : List (K × V))
      → ((j : K) → has dec j l ≡ true → is_some (lookup dec j m) ≡ true)
      → IsPresent l m
  IsPresent-of [] m h = tt
  IsPresent-of (k ∷ l) m h = (h k (ground arith), IsPresent-of l m (λ j p. h j (ground arith)))

  synced-IsPresent : {s : Store K V} → IsSynced dec s → IsPresent s.lru s.items
  synced-IsPresent {s} i = IsPresent-of s.lru s.items (λ j p. ground (arith, i.covers j))

  length-view_of :
      (l : List K) (m : List (K × V)) → IsPresent l m → length (view_of dec l m) ≡ length l
  length-view_of [] m h = refl
  length-view_of (k ∷ l) m h = ground (arith, length-view_of l m h.1)

  pub length-view : {s : Store K V} → IsSynced dec s → length (view dec s) ≡ length s.lru
  length-view {s} i = length-view_of s.lru s.items (synced-IsPresent i)

  view_of-drop_last :
      (k : K) (l : List K) (m : List (K × V))
      → Distinct dec l
      → IsPresent l m
      → back l ≡ some k
      → view_of dec (drop_last l) (delete dec k m) ≡ drop_last (view_of dec l m)
  view_of-drop_last k [] m d p h = refl
  view_of-drop_last k (j ∷ []) m d p h = ground arith
  view_of-drop_last k (j ∷ i ∷ l) m d p h = ground (
    arith,
    view_of-drop_last k (i ∷ l) m d.1 p.1 h,
    lookup-delete dec k j m,
    has-back dec k (i ∷ l) h,
  )

  pub evict_fits :
      (fuel limit : ℕ) (s : Store K V)
      → ltb limit (length s.lru) ≡ false
      → evict dec (suc fuel) limit s ≡ s
  unfolding evict
  evict_fits fuel limit s h = rw (h, evict)

  pub evict_over :
      (fuel limit : ℕ) (s : Store K V) (k : K)
      → ltb limit (length s.lru) ≡ true
      → back s.lru ≡ some k
      → evict dec (suc fuel) limit s
        ≡ evict dec fuel limit (record { items = delete dec k s.items; lru = drop_last s.lru })
  unfolding evict
  evict_over fuel limit s k h e = rw (h, e, evict)

  evict-view :
      (fuel limit : ℕ) {s : Store K V}
      → IsSynced dec s
      → length s.lru ≤ fuel
      → view dec (evict dec fuel limit s) ≡ take limit (view dec s)
  evict-view zero limit {s} i h =
      unfold evict in sym (take_of_length-le limit (view dec s) (omega (arith, length-view i)))
  evict-view (suc fuel) limit {s} i h = elim (Bool-cases (ltb limit (length s.lru))) [
    | inr fits ↦
        rw (evict_fits fuel limit s fits)
          (sym (take_of_length-le limit (view dec s) (ground (arith, length-view i))))
    | inl over ↦ elim (Option-cases (back s.lru)) [
      | inl e ↦ absurd (ground (arith, length_of_back s.lru))
      | inr (k, e) ↦ rw (evict_over fuel limit s k over e) (
          evict-view fuel limit (drop-IsSynced dec k i e)
            (omega (arith, length-drop_last_of_back k s.lru e))
          ∙ ap (take limit) (view_of-drop_last k s.lru s.items i.distinct (synced-IsPresent i) e)
          ∙ take-drop_last limit (view dec s) (ground (arith, length-view i)))
    ]
  ]

  view_of-cons_some :
      (k : K) (v : V) (l : List K) (m : List (K × V))
      → lookup dec k m ≡ some v
      → view_of dec (k ∷ l) m ≡ (k, v) ∷ view_of dec l m
  view_of-cons_some k v l m h = ground arith

  pub touch-view :
      (k : K) (v : V) (s : Store K V)
      → lookup dec k s.items ≡ some v
      → view dec (touch dec k s) ≡ (k, v) ∷ delete dec k (view dec s)
  unfolding touch
  touch-view k v s h =
      view_of-cons_some k v _ s.items h ∙ ap (◌∷◌ (k, v)) (view_of-remove k s.lru s.items)

  pub discard-view :
      (k : K) (s : Store K V) → view dec (discard dec k s) ≡ delete dec k (view dec s)
  unfolding discard
  discard-view k s =
      view_of-delete_absent k (remove dec k s.lru) s.items
        (ground (arith, has-remove dec k k s.lru))
      ∙ view_of-remove k s.lru s.items

  -- after the entry of `k` was replaced, a move to the front
  refresh-view :
      (k : K) (v : V) (s : Store K V)
      → view dec (touch dec k (record s { items = insert dec k v s.items }))
        ≡ (k, v) ∷ delete dec k (view dec s)
  unfolding touch
  refresh-view k v s =
      view_of-cons_some k v _ _ (ground (arith, lookup-insert dec k k v s.items))
      ∙ ap (◌∷◌ (k, v)) (
          view_of-insert_absent k v (remove dec k s.lru) s.items
            (ground (arith, has-remove dec k k s.lru))
          ∙ view_of-remove k s.lru s.items)

  push-view :
      (k : K) (v : V) {s : Store K V}
      → IsSynced dec s
      → lookup dec k s.items ≡ none
      → view_of dec (k ∷ s.lru) (insert dec k v s.items) ≡ (k, v) ∷ delete dec k (view dec s)
  push-view k v {s} i h =
      view_of-cons_some k v _ _ (ground (arith, lookup-insert dec k k v s.items))
      ∙ ap (◌∷◌ (k, v)) (
          view_of-insert_absent k v s.lru s.items (ground (arith, i.covers k))
          ∙ sym (delete_absent k (view dec s) (lookup-view k i ∙ h)))

  pub put-view :
      (limit : ℕ) (k : K) (v : V) {s : Store K V}
      → IsSynced dec s
      → length s.lru ≤ limit
      → view dec (put dec limit k v s) ≡ take limit ((k, v) ∷ delete dec k (view dec s))
  unfolding put
  put-view limit k v {s} i h = elim (Option-cases (lookup dec k s.items)) [
    | inl e ↦
        rw (e, put)
          (evict-view _ limit (push-IsSynced dec k v i (ground (arith, i.covers k))) (omega arith)
            ∙ ap (take limit) (push-view k v i e))
    | inr (w, e) ↦
        let present : has dec k s.lru ≡ true = ground (arith, i.covers k) in
        let s' : Store K V = record s { items = insert dec k v s.items } in
        let synced = touch-IsSynced dec k (update-IsSynced dec k v i present) present in
        rw (e, put)
          (sym (
              take_of_length-le limit (view dec (touch dec k s'))
                (omega (arith, length-view synced, length-touch dec k s' i.distinct present)))
            ∙ ap (take limit) (refresh-view k v s))
  ]
