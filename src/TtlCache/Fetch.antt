-- ===== src/TtlCache/Fetch.antt =====
-- internal/ttlcache/ttlcache.go: what later reads see after `Set`, `GetOrFetch` and `All`.
use imagelet.Base.{
  ℕ, ◌≡◌, ◌≢◌, ◌≤◌, ◌<◌, ◌+◌, ◌⊎◌, Bool, refl, Option, none, some, List, [], ◌∷◌, arith,
  Option-cases, inl, inr, if◌then◌else◌, length, back, is_some, ◌&&◌,
}
use imagelet.Base.Assoc.{lookup, insert, lookup-insert}
use imagelet.Base.Order.{has}
use imagelet.Recency
use imagelet.Recency.Eviction.{lookup-put_ne, lookup-put_self}
use imagelet.TtlCache.{
  Entry, Cache, Flight, led, ok, fail, is_live, get, set, load, get_or_fetch, all_from, all,
}
use imagelet.TtlCache.Invariant.{IsValid, get-IsValid}

-- An entry as long as it has not expired.
abbrev pub live_entry : {V : Type 0} → ℕ → Option (Entry V) → Option (Entry V)
live_entry now none = none
live_entry now (some e) = if is_live now e then some e else none

module _ {K V : Type 0} (dec : Discrete K) where
  -- `get` returns the stored entry unless it has expired, and changes no entry.
  pub get-live_entry :
      (key : K) (now : ℕ) (c : Cache K V)
      → ((get dec key now c).1 ≡ live_entry now (lookup dec key c.store.items))
        × ((get dec key now c).0.store.items ≡ c.store.items)
        × ((get dec key now c).0.capacity ≡ c.capacity)
  unfolding get Recency.touch
  get-live_entry key now c = ground arith

  pub lookup-set_self :
      (key : K) (e : Entry V) {c : Cache K V}
      → IsValid dec c
      → lookup dec key (set dec key e c).store.items ≡ some e
  unfolding set
  lookup-set_self key e {c} i =
      lookup-put_self dec c.capacity key e c.store i.positive i.bounded i.synced

  -- On a valid cache, `set` leaves another key alone unless the key is new, the cache is full, and
  -- the other key is the least recently used one.
  pub lookup-set_ne :
      (key q : K) (e : Entry V) {c : Cache K V}
      → IsValid dec c
      → q ≢ key
      → (lookup dec key c.store.items ≢ none)
        ⊎ (length c.store.lru < c.capacity)
        ⊎ (back c.store.lru ≢ some q)
      → lookup dec q (set dec key e c).store.items ≡ lookup dec q c.store.items
  unfolding set
  lookup-set_ne key q e {c} i n room =
      lookup-put_ne dec c.capacity key e c.store q i.positive i.bounded n room

  -- an expired entry stays expired
  pub live_entry_mono :
      (now later : ℕ) (o : Option (Entry V))
      → now ≤ later
      → live_entry now o ≡ none
      → live_entry later o ≡ none
  live_entry_mono now later none h e = refl
  live_entry_mono now later (some x) h e = ground arith

  module _ {E : Type 0} where
    -- Where the key has no live entry, a failed fetch is handed to the caller and changes no entry.
    pub get_or_fetch_fail :
        (key : K) (ttl now again stored : ℕ) (err : E) (c : Cache K V)
        → now ≤ again
        → live_entry now (lookup dec key c.store.items) ≡ none
        → ((get_or_fetch dec key ttl now (led again stored (fail err)) c).1 ≡ fail err)
          × ((get_or_fetch dec key ttl now (led again stored (fail err)) c).0.store.items
              ≡ c.store.items)
    unfolding get_or_fetch load
    get_or_fetch_fail key ttl now again stored err c h miss =
        let g = get-live_entry key now c in
        let g' = get-live_entry key again (get dec key now c).0 in
        ground (
          arith,
          g.0,
          g.1,
          g'.0,
          g'.1,
          live_entry_mono now again (lookup dec key c.store.items) h miss,
        )

    -- What the leader of a miss fetched is stored, found or not, with its deadline.
    lookup-get_or_fetch :
        (key : K) (ttl now again stored : ℕ) (v : V) (found : Bool) {c : Cache K V}
        → IsValid dec c
        → now ≤ again
        → live_entry now (lookup dec key c.store.items) ≡ none
        → ((get_or_fetch dec {E = E} key ttl now (led again stored (ok v found)) c).1 ≡ ok v found)
          × (lookup dec key
                (get_or_fetch dec {E = E} key ttl now
                  (led again stored (ok v found))
                  c).0.store.items
              ≡ some (record { value = v; found = found; expires_at = stored + ttl }))
    unfolding get_or_fetch load
    lookup-get_or_fetch key ttl now again stored v found {c} i h miss =
        let g = get-live_entry key now c in
        let g' = get-live_entry key again (get dec key now c).0 in
        let i' = get-IsValid dec key again (get-IsValid dec key now i) in
        ground (
          arith,
          g.0,
          g.1,
          g'.0,
          g'.1,
          live_entry_mono now again (lookup dec key c.store.items) h miss,
          lookup-set_self key (record { value = v; found = found; expires_at = stored + ttl }) i',
        )

    -- A live entry answers, whatever the upstream would have said.
    pub get_or_fetch_hit :
        (key : K) (ttl now : ℕ) (flight : Flight E V) (c : Cache K V) (e : Entry V)
        → live_entry now (lookup dec key c.store.items) ≡ some e
        → ((get_or_fetch dec key ttl now flight c).1 ≡ ok e.value e.found)
          × ((get_or_fetch dec key ttl now flight c).0.store.items ≡ c.store.items)
    unfolding get_or_fetch
    get_or_fetch_hit key ttl now flight c e h =
        let g = get-live_entry key now c in ground (arith, g.0, g.1)

    -- After the leader of a miss on a valid cache fetched an answer, found or not, the next call before
    -- its deadline gives that answer, whatever the upstream would say.
    pub get_or_fetch_again :
        (key : K) (ttl ttl' now again stored later : ℕ) (v : V) (found : Bool) (flight : Flight E V)
        {c : Cache K V}
        → IsValid dec c
        → now ≤ again
        → live_entry now (lookup dec key c.store.items) ≡ none
        → later < stored + ttl
        → (get_or_fetch dec key ttl' later flight
            (get_or_fetch dec {E = E} key ttl now (led again stored (ok v found)) c).0).1
          ≡ ok v found
    get_or_fetch_again key ttl ttl' now again stored later v found flight {c} i h miss fresh =
        let e : Entry V = record { value = v; found = found; expires_at = stored + ttl } in
        let (_, kept) = lookup-get_or_fetch key ttl now again stored v found i h miss in
        (get_or_fetch_hit key ttl' later flight _ e (rw kept (ground arith))).0

  lookup-all_from :
      (now : ℕ) (items : List (K × Entry V)) (l : List K) (out : List (K × Entry V)) (q : K)
      → lookup dec q (all_from dec now items l out) ≡ (
          if has dec q l && is_some (live_entry now (lookup dec q items))
          then lookup dec q items
          else lookup dec q out)
  unfolding all_from
  lookup-all_from now items [] out q = refl
  lookup-all_from now items (k ∷ l) out q = elim (Option-cases (lookup dec k items)) [
    | inl e ↦ ground (arith, lookup-all_from now items l out q)
    | inr (x, e) ↦ ground (
      arith,
      lookup-all_from now items l out q,
      lookup-all_from now items l (insert dec k x out) q,
      lookup-insert dec k q x out,
    )
  ]

  -- `all` of a valid cache holds exactly the entries that have not expired.
  pub lookup-all :
      (now : ℕ) {c : Cache K V} (q : K)
      → IsValid dec c
      → lookup dec q (all dec now c) ≡ live_entry now (lookup dec q c.store.items)
  unfolding all lookup
  lookup-all now {c} q i =
      ground (arith, lookup-all_from now c.store.items c.store.lru [] q, i.synced.covers q)
