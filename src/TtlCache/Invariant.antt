-- ===== src/TtlCache/Invariant.antt =====
-- internal/ttlcache/ttlcache.go: the cache's invariant.
use imagelet.Base.{
  ℕ, ◌≡◌, ◌≤◌, ◌<◌, refl, true, List, [], ◌∷◌, length, arith, Option-cases, Bool-cases, inl, inr,
}
use imagelet.Base.Int.{ℤ, pos, negsuc}
use imagelet.Base.Assoc.{lookup}
use imagelet.Base.Order.{has}
use imagelet.Recency.{IsSynced, keys}
use imagelet.Recency.Invariant.{
  empty-IsSynced, touch-IsSynced, put-IsSynced, put-bounded, length-touch, length-items,
}
use imagelet.TtlCache.{
  Entry, Cache, Outcome, Flight, joined, led, ok, fail, is_live, new, len, get, set, load,
  get_or_fetch,
}

module _ {K V : Type 0} (dec : Discrete K) where
  -- Room for an entry, never more entries than that, and map and list in step.
  pub record IsValid (c : Cache K V) : Type 0 where
    pub positive : 0 < c.capacity
    pub bounded : length c.store.lru ≤ c.capacity
    pub synced : IsSynced dec c.store

  pub new-IsValid : (n : ℤ) → IsValid (new n)
  unfolding new
  new-IsValid (pos n) = record {
    positive = ground arith;
    bounded = omega arith;
    synced = empty-IsSynced dec;
  }
  new-IsValid (negsuc n) = record {
    positive = omega arith;
    bounded = omega arith;
    synced = empty-IsSynced dec;
  }

  pub get-IsValid : (key : K) (now : ℕ) {c : Cache K V} → IsValid c → IsValid (get dec key now c).0
  unfolding get
  get-IsValid key now {c} i = elim (Option-cases (lookup dec key c.store.items)) [
    | inl e ↦ rw (e, get) i
    | inr (x, e) ↦ elim (Bool-cases (is_live now x)) [
      | inr dead ↦ rw (e, get, dead) i
      | inl live ↦
          let present : has dec key c.store.lru ≡ true = ground (arith, i.synced.covers key) in
          rw (e, get, live)
            (record {
              positive = i.positive;
              bounded =
                  omega (arith, i.bounded, length-touch dec key c.store i.synced.distinct present);
              synced = touch-IsSynced dec key i.synced present;
            })
    ]
  ]

  pub set-IsValid : (key : K) (e : Entry V) {c : Cache K V} → IsValid c → IsValid (set dec key e c)
  unfolding set
  set-IsValid key e {c} i = record {
    positive = i.positive;
    bounded = put-bounded dec c.capacity key e i.synced i.bounded;
    synced = put-IsSynced dec c.capacity key e i.synced;
  }

  module _ {E : Type 0} where
    load-IsValid :
        (key : K) (ttl again stored : ℕ) (fetched : Outcome E V) {c : Cache K V}
        → IsValid c
        → IsValid (load dec key ttl again stored fetched c).0
    unfolding load
    load-IsValid key ttl again stored (fail err) {c} i =
        elim (Option-cases (get dec key again c).1) [
          | inl miss ↦ rw (miss, load) (get-IsValid key again i)
          | inr (e, hit) ↦ rw (hit, load) (get-IsValid key again i)
        ]
    load-IsValid key ttl again stored (ok v found) {c} i =
        elim (Option-cases (get dec key again c).1) [
          | inl miss ↦ rw (miss, load) (set-IsValid key _ (get-IsValid key again i))
          | inr (e, hit) ↦ rw (hit, load) (get-IsValid key again i)
        ]

    pub get_or_fetch-IsValid :
        (key : K) (ttl now : ℕ) (flight : Flight E V) {c : Cache K V}
        → IsValid c
        → IsValid (get_or_fetch dec key ttl now flight c).0
    unfolding get_or_fetch
    get_or_fetch-IsValid key ttl now (joined out) {c} i =
        elim (Option-cases (get dec key now c).1) [
          | inl miss ↦ rw (miss, get_or_fetch) (get-IsValid key now i)
          | inr (e, hit) ↦ rw (hit, get_or_fetch) (get-IsValid key now i)
        ]
    get_or_fetch-IsValid key ttl now (led again stored fetched) {c} i =
        elim (Option-cases (get dec key now c).1) [
          | inl miss ↦
              rw (miss, get_or_fetch)
                (load-IsValid key ttl again stored fetched (get-IsValid key now i))
          | inr (e, hit) ↦ rw (hit, get_or_fetch) (get-IsValid key now i)
        ]

  length-keys : (m : List (K × Entry V)) → length (keys m) ≡ length m
  length-keys [] = refl
  length-keys (x ∷ m) = omega (arith, length-keys m)

  -- `Len` of a valid cache never passes the capacity.
  pub len-le : {c : Cache K V} → IsValid c → len dec c ≤ c.capacity
  unfolding len
  len-le {c} i = omega (arith, length-keys c.store.items, length-items dec i.synced, i.bounded)
