-- ===== src/TtlCache.antt =====
-- internal/ttlcache/ttlcache.go: `Cache`, with its clock readings as arguments. A time is a number
-- of nanoseconds since the zero `time.Time`, which is 0.
pub mod Invariant
pub mod Refinement
pub mod Fetch
pub mod Snapshot
pub mod RoundTrip
pub mod SaveFile
mod Tests
use imagelet.Base.{
  ℕ, zero, suc, ◌+◌, Bool, true, false, List, [], ◌∷◌, Option, none, some, length, ltb, leb, ◌==◌,
  if◌then◌else◌, ◌||◌,
}
use imagelet.Base.Assoc.{lookup, insert}
use imagelet.Base.Int.{ℤ, pos, negsuc}
use imagelet.Recency
use imagelet.Recency.{Store, empty}

pub record Entry (V : Type 0) : Type 0 where
  pub value : V
  pub found : Bool
  pub expires_at : ℕ

pub record Cache (K V : Type 0) : Type 0 where
  pub capacity : ℕ
  pub store : Store K (Entry V)

abbrev pub default_cap : ℕ
default_cap = 4096

unfoldable pub new : {K V : Type 0} → ℤ → Cache K V
new (pos n) = record { capacity = if leb n 0 then default_cap else n; store = empty }
new (negsuc n) = record { capacity = default_cap; store = empty }

-- `!(!ExpiresAt.IsZero() && !ExpiresAt.After(now))`: an entry with no deadline never expires
abbrev pub is_live : {V : Type 0} → ℕ → Entry V → Bool
is_live now e = e.expires_at == 0 || ltb now e.expires_at

-- What an upstream call returned: a value with its `found` flag, or an error.
pub data Outcome (E V : Type 0) : Type 0 where
  ok : V → Bool → Outcome E V
  fail : E → Outcome E V

-- How `singleflight.Group.Do` answers a caller: it runs the closure for the caller who leads, with
-- the clock at the second `Get` and at the `Set`, and hands the others the leader's outcome.
pub data Flight (E V : Type 0) : Type 0 where
  joined : Outcome E V → Flight E V
  led : ℕ → ℕ → Outcome E V → Flight E V

module _ {K V : Type 0} (dec : Discrete K) where
  unfoldable pub len : Cache K V → ℕ
  len c = length c.store.items

  unfoldable pub get : K → ℕ → Cache K V → Cache K V × Option (Entry V)
  get key now c = elim (lookup dec key c.store.items) [
    | none ↦ (c, none)
    | some e ↦
        if is_live now e
        then (record c { store = Recency.touch dec key c.store }, some e)
        else (c, none)
  ]

  unfoldable pub set : K → Entry V → Cache K V → Cache K V
  set key e c = record c { store = Recency.put dec c.capacity key e c.store }

  -- the loop of `All`, from the front of the list
  unfoldable pub all_from :
      ℕ → List (K × Entry V) → List K → List (K × Entry V) → List (K × Entry V)
  all_from now items [] out = out
  all_from now items (k ∷ l) out = all_from now items l (elim (lookup dec k items) [
    | none ↦ out
    | some e ↦ if is_live now e then insert dec k e out else out
  ])

  unfoldable pub all : ℕ → Cache K V → List (K × Entry V)
  unfolding all_from
  all now c = all_from now c.store.items c.store.lru []

  module _ {E : Type 0} where
    -- the closure given to `Do`: look again, then fetch and store
    unfoldable pub load : K → ℕ → ℕ → ℕ → Outcome E V → Cache K V → Cache K V × Outcome E V
    load key ttl again stored fetched c =
        let (c', hit) = get key again c in
        elim hit [
          | some e ↦ (c', ok e.value e.found)
          | none ↦ elim fetched [
            | fail err ↦ (c', fail err)
            | ok v found ↦ (
              set key (record { value = v; found = found; expires_at = stored + ttl }) c',
              ok v found,
            )
          ]
        ]

    unfoldable pub get_or_fetch : K → ℕ → ℕ → Flight E V → Cache K V → Cache K V × Outcome E V
    get_or_fetch key ttl now flight c =
        let (c', hit) = get key now c in
        elim hit [
          | some e ↦ (c', ok e.value e.found)
          | none ↦ elim flight [
            | joined out ↦ (c', out)
            | led again stored fetched ↦ load key ttl again stored fetched c'
          ]
        ]
