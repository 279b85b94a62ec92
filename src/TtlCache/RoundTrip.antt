-- ===== src/TtlCache/RoundTrip.antt =====
-- internal/ttlcache/snapshot.go: what a saved cache holds after it is loaded.
use imagelet.Base.{
  ℕ, suc, ◌≡◌, ◌≤◌, ◌+◌, refl, List, [], ◌∷◌, Option, none, some, map, length, arith, Bool-cases,
  Option-cases, inl, inr, ap, ◌∙◌, ite, sym,
}
use imagelet.Base.Assoc.{lookup, insert}
use imagelet.Base.Order.{Distinct}
use imagelet.Recency.{keys}
use imagelet.Recency.Eviction.{length-put-le}
use imagelet.Recency.Invariant.{has-keys, keys-insert-Distinct}
use imagelet.TtlCache.{Entry, Cache, is_live, set, all_from, all}
use imagelet.TtlCache.Invariant.{IsValid, set-IsValid}
use imagelet.TtlCache.Fetch.{live_entry, lookup-set_self, lookup-set_ne, lookup-all}
use imagelet.TtlCache.Snapshot.{
  loaded, to_snapshot_entry, save_json, load_entries, load_json, max_snapshot_bytes,
}

abbrev pub or_else : {A : Type 0} → Option A → Option A → Option A
or_else none b = b
or_else (some a) b = some a

module _ {K V : Type 0} (dec : Discrete K) where
  -- room for `n` more entries
  abbrev HasRoom : ℕ → Cache K V → Type 0
  HasRoom n c = length c.store.lru + n ≤ c.capacity

  set-HasRoom :
      (n : ℕ) (k : K) (e : Entry V) (c : Cache K V)
      → IsValid dec c
      → HasRoom (suc n) c
      → HasRoom n (set dec k e c)
  unfolding set
  set-HasRoom n k e c i h =
      omega (arith, length-put-le dec c.capacity k e c.store (omega arith) i.synced)

  lookup-set_room :
      (n : ℕ) (k q : K) (e : Entry V) {c : Cache K V}
      → IsValid dec c
      → HasRoom (suc n) c
      → lookup dec q (set dec k e c).store.items
        ≡ ite (dec k q) (some e) (lookup dec q c.store.items)
  lookup-set_room n k q e {c} i h =
      elim (dec k q)
        as (λ d.
          lookup dec q (set dec k e c).store.items ≡ ite d (some e) (lookup dec q c.store.items)) [
            | yes p ↦ rw (← p) (lookup-set_self dec k e i)
            | no p ↦ lookup-set_ne dec k q e i (λ x. p (sym x)) (inr (inl (omega arith)))
          ]

  lookup-load_entries :
      (now : ℕ) (l : List (K × Entry V)) {c : Cache K V} (q : K)
      → IsValid dec c
      → HasRoom (length l) c
      → Distinct dec (keys l)
      → lookup dec q (load_entries dec now (map to_snapshot_entry l) c).store.items
        ≡ or_else (live_entry now (lookup dec q l)) (lookup dec q c.store.items)
  unfolding load_entries lookup
  lookup-load_entries now [] q i r d = refl
  lookup-load_entries now ((k, e) ∷ l) {c} q i r d = ground (
    arith,
    lookup-load_entries now l q (set-IsValid dec k e i) (set-HasRoom (length l) k e c i r) d.1,
    lookup-load_entries now l q i (omega arith) d.1,
    lookup-set_room (length l) k q e i r,
    has-keys dec k l,
  )

  -- What Go's iteration over a map may be: the same pairs in some order.
  pub record IsRange (range : List (K × Entry V) → List (K × Entry V)) : Type 0 where
    pub distinct : (m : List (K × Entry V)) → Distinct dec (keys m) → Distinct dec (keys (range m))
    pub same :
        (m : List (K × Entry V)) (k : K)
        → Distinct dec (keys m)
        → lookup dec k (range m) ≡ lookup dec k m

  all_from-Distinct :
      (now : ℕ) (items : List (K × Entry V)) (l : List K) (out : List (K × Entry V))
      → Distinct dec (keys out)
      → Distinct dec (keys (all_from dec now items l out))
  unfolding all_from
  all_from-Distinct now items [] out d = d
  all_from-Distinct now items (k ∷ l) out d = elim (Option-cases (lookup dec k items)) [
    | inl e ↦ rw (e, all_from) (all_from-Distinct now items l out d)
    | inr (x, e) ↦ elim (Bool-cases (is_live now x)) [
      | inl live ↦
          rw (e, all_from, live)
            (all_from-Distinct now items l (insert dec k x out)
              (keys-insert-Distinct dec k x out d))
      | inr dead ↦ rw (e, all_from, dead) (all_from-Distinct now items l out d)
    ]
  ]

  live_entry_twice :
      (now later : ℕ) (o : Option (Entry V))
      → now ≤ later
      → live_entry later (live_entry now o) ≡ live_entry later o
  live_entry_twice now later none h = refl
  live_entry_twice now later (some e) h = ground arith

  -- A valid cache that is saved and then loaded, not earlier, into a valid cache with room for all of
  -- its entries: the load succeeds if the file is no longer than the limit, and each key then has
  -- the entry that was saved if that has not expired by the load, else the entry that it had.
  pub load_json-save_json :
      (range : List (K × Entry V) → List (K × Entry V)) (read saved_at now consumed : ℕ)
      {c c' : Cache K V}
      → IsRange range
      → IsValid dec c
      → IsValid dec c'
      → read ≤ now
      → consumed ≤ max_snapshot_bytes
      → length c'.store.lru + length (range (all dec read c)) ≤ c'.capacity
      → (d : Cache K V) × (load_json dec now
            (some (save_json dec range read saved_at c))
            consumed
            c'
          ≡ loaded d)
        × ((q : K)
            → lookup dec q d.store.items
              ≡ or_else (live_entry now (lookup dec q c.store.items)) (lookup dec q c'.store.items))
  unfolding load_json save_json all
  load_json-save_json range read saved_at now consumed {c} {c'} r i i' later small room =
      let m = all dec read c in
      let d = all_from-Distinct read c.store.items c.store.lru [] tt in
      (
        load_entries dec now (map to_snapshot_entry (range m)) c',
        ground arith,
        λ q.
            lookup-load_entries now (range m) q i' room (r.distinct m d)
            ∙ ap (λ o. or_else (live_entry now o) (lookup dec q c'.store.items))
                (r.same m q d ∙ lookup-all dec read q i)
            ∙ ap (λ o. or_else o (lookup dec q c'.store.items))
                (live_entry_twice read now (lookup dec q c.store.items) later),
      )
