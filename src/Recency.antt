-- ===== src/Recency.antt =====
-- The pair that internal/ttlcache and internal/htmlcache both keep: a map from keys to entries and
-- a container/list of the same keys, front = most recently used. The list's elements are known by
-- their keys.
pub mod Invariant
pub mod View
pub mod Eviction
pub mod Remaining
use imagelet.Base.{
  ℕ, zero, suc, ◌≡◌, ◌≤◌, ◌<◌, Bool, true, false, List, [], ◌∷◌, Option, none, some, map, arith,
  length, back, drop_last, ltb, if◌then◌else◌, is_some,
}
use imagelet.Base.Assoc.{lookup, insert, delete}
use imagelet.Base.Order.{has, remove, Distinct}

pub record Store (K V : Type 0) : Type 0 where
  pub items : List (K × V)
  pub lru : List K

abbrev pub keys : {K V : Type 0} → List (K × V) → List K
keys = map (λ e. e.0)

abbrev pub empty : {K V : Type 0} → Store K V
empty = record { items = []; lru = [] }

module _ {K V : Type 0} (dec : Discrete K) where
  -- `MoveToFront` of the element of a present key
  unfoldable pub touch : K → Store K V → Store K V
  touch k s = record s { lru = k ∷ remove dec k s.lru }

  -- remove the element and delete the key
  unfoldable pub discard : K → Store K V → Store K V
  discard k s = record { items = delete dec k s.items; lru = remove dec k s.lru }

  -- `for lru.Len() > cap { oldest := lru.Back() … }`, the rounds bounded by fuel
  unfoldable pub evict : ℕ → ℕ → Store K V → Store K V
  evict zero limit s = s
  evict (suc fuel) limit s = elim (ltb limit (length s.lru)) [
    | true ↦ elim (back s.lru) [
      | none ↦ s
      | some oldest ↦
          evict fuel limit (record { items = delete dec oldest s.items; lru = drop_last s.lru })
    ]
    | false ↦ s
  ]

  -- store under a key: refresh in place and move to front, or push and evict
  unfoldable pub put : ℕ → K → V → Store K V → Store K V
  put limit k v s =
      let pushed : Store K V = record { items = insert dec k v s.items; lru = k ∷ s.lru } in
      elim (lookup dec k s.items) [
        | some _ ↦ touch k (record s { items = insert dec k v s.items })
        | none ↦ evict (length pushed.lru) limit pushed
      ]

  -- Map and list hold the same keys, each of them once.
  pub record IsSynced (s : Store K V) : Type 0 where
    pub distinct : Distinct dec s.lru
    pub keyed : Distinct dec (keys s.items)
    pub covers : (k : K) → has dec k s.lru ≡ is_some (lookup dec k s.items)

  -- The entries in the order of use, most recent first.
  abbrev pub view_of : List K → List (K × V) → List (K × V)
  view_of [] m = []
  view_of (k ∷ l) m = elim (lookup dec k m) [ none ↦ view_of l m | some v ↦ (k, v) ∷ view_of l m ]

  abbrev pub view : Store K V → List (K × V)
  view s = view_of s.lru s.items
