-- ===== src/TtlCache/Refinement.antt =====
-- internal/ttlcache/ttlcache.go: `Get`, `Set` and `GetOrFetch` on the map and the list, against one
-- list of entries in the order of use.
use imagelet.Base.{
  ℕ, ◌≡◌, ◌+◌, refl, Option, none, some, List, [], ◌∷◌, ap, arith, Option-cases, inl, inr, take,
  if◌then◌else◌,
}
use imagelet.Base.Assoc.{lookup, delete}
use imagelet.Recency.{view}
use imagelet.Recency.View.{lookup-view, touch-view, put-view}
use imagelet.TtlCache
use imagelet.TtlCache.{
  Entry, Cache, Outcome, Flight, joined, led, ok, fail, is_live, load, get_or_fetch,
}
use imagelet.TtlCache.Invariant.{IsValid, get-IsValid, set-IsValid, get_or_fetch-IsValid}

-- The requests that callers make, with the clock readings and the upstream's answers.
pub data Call (K E V : Type 0) : Type 0 where
  get : K → ℕ → Call K E V
  set : K → Entry V → Call K E V
  fetch : K → ℕ → ℕ → Flight E V → Call K E V

pub data Answer (E V : Type 0) : Type 0 where
  entry : Option (Entry V) → Answer E V
  done : Answer E V
  outcome : Outcome E V → Answer E V

module _ {K V : Type 0} (dec : Discrete K) where
  -- The specification: one list of at most `limit` entries, the most recently used first.
  unfoldable pub spec_get : K → ℕ → List (K × Entry V) → List (K × Entry V) × Option (Entry V)
  spec_get key now l = elim (lookup dec key l) [
    | none ↦ (l, none)
    | some e ↦ if is_live now e then ((key, e) ∷ delete dec key l, some e) else (l, none)
  ]

  unfoldable pub spec_set : ℕ → K → Entry V → List (K × Entry V) → List (K × Entry V)
  spec_set limit key e l = take limit ((key, e) ∷ delete dec key l)

  -- What can be seen of a cache beside a result.
  abbrev pub seen {ℓ} : {A : Type ℓ} → Cache K V × A → List (K × Entry V) × A
  seen r = (view dec r.0.store, r.1)

  pub view-get :
      (key : K) (now : ℕ) {c : Cache K V}
      → IsValid dec c
      → seen (TtlCache.get dec key now c) ≡ spec_get key now (view dec c.store)
  unfolding TtlCache.get spec_get
  view-get key now {c} i =
      let e = lookup-view dec key i.synced in
      elim (Option-cases (lookup dec key c.store.items)) [
        | inl miss ↦ ground (arith, e)
        | inr (x, hit) ↦ ground (arith, e, touch-view dec key x c.store hit)
      ]

  pub view-set :
      (key : K) (e : Entry V) {c : Cache K V}
      → IsValid dec c
      → view dec (TtlCache.set dec key e c).store ≡ spec_set c.capacity key e (view dec c.store)
  unfolding TtlCache.set spec_set
  view-set key e {c} i = put-view dec c.capacity key e i.synced i.bounded

  capacity-get :
      (key : K) (now : ℕ) (c : Cache K V) → (TtlCache.get dec key now c).0.capacity ≡ c.capacity
  unfolding TtlCache.get
  capacity-get key now c = ground arith

  module _ {E : Type 0} where
    unfoldable pub spec_load :
        ℕ → K → ℕ → ℕ → ℕ → Outcome E V → List (K × Entry V) → List (K × Entry V) × Outcome E V
    spec_load limit key ttl again stored fetched l =
        let (l', hit) = spec_get key again l in
        elim hit [
          | some e ↦ (l', ok e.value e.found)
          | none ↦ elim fetched [
            | fail err ↦ (l', fail err)
            | ok v found ↦ (
              spec_set limit key (record { value = v; found = found; expires_at = stored + ttl })
                  l',
              ok v found,
            )
          ]
        ]

    unfoldable pub spec_fetch :
        ℕ → K → ℕ → ℕ → Flight E V → List (K × Entry V) → List (K × Entry V) × Outcome E V
    spec_fetch limit key ttl now flight l =
        let (l', hit) = spec_get key now l in
        elim hit [
          | some e ↦ (l', ok e.value e.found)
          | none ↦ elim flight [
            | joined out ↦ (l', out)
            | led again stored fetched ↦ spec_load limit key ttl again stored fetched l'
          ]
        ]

    view-load :
        (key : K) (ttl again stored : ℕ) (fetched : Outcome E V) {c : Cache K V}
        → IsValid dec c
        → seen (load dec key ttl again stored fetched c)
          ≡ spec_load c.capacity key ttl again stored fetched (view dec c.store)
    unfolding load spec_load
    view-load key ttl again stored (fail err) {c} i = ground (arith, view-get key again i)
    view-load key ttl again stored (ok v found) {c} i =
        (ground (
          arith,
          view-get key again i,
          capacity-get key again c,
          view-set key (record { value = v; found = found; expires_at = stored + ttl })
              (get-IsValid dec key again i),
        ))

    pub view-get_or_fetch :
        (key : K) (ttl now : ℕ) (flight : Flight E V) {c : Cache K V}
        → IsValid dec c
        → seen (get_or_fetch dec key ttl now flight c)
          ≡ spec_fetch c.capacity key ttl now flight (view dec c.store)
    unfolding get_or_fetch spec_fetch
    view-get_or_fetch key ttl now (joined out) {c} i = ground (arith, view-get key now i)
    view-get_or_fetch key ttl now (led again stored fetched) {c} i =
        (ground (
          arith,
          view-get key now i,
          capacity-get key now c,
          view-load key ttl again stored fetched (get-IsValid dec key now i),
        ))

    -- One request, on the cache and on the specification, and a sequence of them.
    step : Call K E V → Cache K V → Cache K V × Answer E V
    step (Call.get key now) c = let (c', e) = TtlCache.get dec key now c in (c', entry e)
    step (Call.set key e) c = (TtlCache.set dec key e c, done)
    step (fetch key ttl now flight) c =
        let (c', out) = get_or_fetch dec key ttl now flight c in (c', outcome out)

    spec_step : ℕ → Call K E V → List (K × Entry V) → List (K × Entry V) × Answer E V
    spec_step limit (Call.get key now) l = let (l', e) = spec_get key now l in (l', entry e)
    spec_step limit (Call.set key e) l = (spec_set limit key e l, done)
    spec_step limit (fetch key ttl now flight) l =
        let (l', out) = spec_fetch limit key ttl now flight l in (l', outcome out)

    unfoldable pub run : List (Call K E V) → Cache K V → Cache K V × List (Answer E V)
    unfolding step
    run [] c = (c, [])
    run (q ∷ qs) c = let (c', a) = step q c in let (c'', rest) = run qs c' in (c'', a ∷ rest)

    unfoldable pub spec_run :
        ℕ → List (Call K E V) → List (K × Entry V) → List (K × Entry V) × List (Answer E V)
    unfolding spec_step
    spec_run limit [] l = (l, [])
    spec_run limit (q ∷ qs) l =
        let (l', a) = spec_step limit q l in
        let (l'', rest) = spec_run limit qs l' in (l'', a ∷ rest)

    step-IsValid : (q : Call K E V) {c : Cache K V} → IsValid dec c → IsValid dec (step q c).0
    unfolding step
    step-IsValid (Call.get key now) i = get-IsValid dec key now i
    step-IsValid (Call.set key e) i = set-IsValid dec key e i
    step-IsValid (fetch key ttl now flight) i = get_or_fetch-IsValid dec key ttl now flight i

    capacity-load :
        (key : K) (ttl again stored : ℕ) (fetched : Outcome E V) (c : Cache K V)
        → (load dec key ttl again stored fetched c).0.capacity ≡ c.capacity
    unfolding load TtlCache.set
    capacity-load key ttl again stored fetched c = ground (arith, capacity-get key again c)

    capacity-step : (q : Call K E V) (c : Cache K V) → (step q c).0.capacity ≡ c.capacity
    unfolding step get_or_fetch TtlCache.set
    capacity-step (Call.get key now) c = capacity-get key now c
    capacity-step (Call.set key e) c = refl
    capacity-step (fetch key ttl now (joined out)) c = ground (arith, capacity-get key now c)
    capacity-step (fetch key ttl now (led again stored fetched)) c = ground (
      arith,
      capacity-get key now c,
      capacity-load key ttl again stored fetched (TtlCache.get dec key now c).0,
    )

    view-step :
        (q : Call K E V) {c : Cache K V}
        → IsValid dec c
        → seen (step q c) ≡ spec_step c.capacity q (view dec c.store)
    unfolding step spec_step
    view-step (Call.get key now) i = ap (λ r. (r.0, entry r.1)) (view-get key now i)
    view-step (Call.set key e) i = ap (λ l. (l, done)) (view-set key e i)
    view-step (fetch key ttl now flight) i =
        ap (λ r. (r.0, outcome r.1)) (view-get_or_fetch key ttl now flight i)

    -- Any sequence of Get, Set and GetOrFetch keeps a valid cache valid: map and list hold the
    -- same keys, each once, and never more than the capacity.
    pub run-IsValid :
        (qs : List (Call K E V)) {c : Cache K V} → IsValid dec c → IsValid dec (run qs c).0
    unfolding run
    run-IsValid [] i = i
    run-IsValid (q ∷ qs) {c} i = run-IsValid qs (step-IsValid q i)

    -- On a valid cache, any sequence of Get, Set and GetOrFetch gives the answers of the
    -- specification, and leaves the entries that it keeps in the order of use: one list, cut to
    -- the capacity at its least recently used end.
    pub view-run :
        (qs : List (Call K E V)) {c : Cache K V}
        → IsValid dec c
        → seen (run qs c) ≡ spec_run c.capacity qs (view dec c.store)
    unfolding run spec_run
    view-run [] i = refl
    view-run (q ∷ qs) {c} i =
        ground (arith, view-run qs (step-IsValid q i), capacity-step q c, view-step q i)
