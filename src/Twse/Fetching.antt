-- ===== src/Twse/Fetching.antt =====
-- internal/ttlcache/ttlcache.go: which calls of `GetOrFetch` run the closure that they are given.
use imagelet.Base.{ℕ, Option, none, some}
use imagelet.TtlCache.{Cache, Flight, Outcome, joined, led, get}

-- The answer of the closure, if this call runs it: no other call leads, and the entry is missing
-- both before and inside the singleflight call.
unfoldable pub ran_fetch :
    {K V E : Type 0} → Discrete K → K → ℕ → Flight E V → Cache K V → Option (Outcome E V)
ran_fetch dec key now flight c =
    let (c', hit) = get dec key now c in
    elim hit [
      | some _ ↦ none
      | none ↦ elim flight [
        | joined _ ↦ none
        | led again stored fetched ↦ elim (get dec key again c').1 [
          | some _ ↦ none
          | none ↦ some fetched
        ]
      ]
    ]
