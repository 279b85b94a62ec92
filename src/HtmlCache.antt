-- ===== src/HtmlCache.antt =====
-- internal/htmlcache/htmlcache.go: the store, and the channels of the requests in flight. A channel
-- is a number; `fresh` is the one that `make` returns.
pub mod Policy
pub mod Directives
pub mod Headers
pub mod Key
pub mod KeyOrder
pub mod Store
pub mod Flight
pub mod Singleflight
pub mod Interleavings
mod Tests
use imagelet.Base.{
  ℕ, ◌≡◌, Bool, true, false, List, [], ◌∷◌, Option, none, some, length, ltb, leb, if◌then◌else◌,
  not,
}
use imagelet.Base.Assoc
use imagelet.Base.Int.{ℤ, pos, negsuc}
use imagelet.Base.Text.{Text}
use imagelet.Recency
use imagelet.Recency.{empty}

abbrev pub Header : Type 0
Header = List (Text × List Text)

pub record Entry (K : Type 0) : Type 0 where
  pub key : K
  pub status : ℕ
  pub headers : Header
  pub body : Text
  pub deadline : ℕ

pub record Cache (K : Type 0) : Type 0 where
  pub store : Recency.Store K (Entry K)
  pub flight : List (K × ℕ)
  pub max : ℕ

abbrev pub default_max_entries : ℕ
default_max_entries = 256

unfoldable pub new_with_capacity : {K : Type 0} → ℤ → Cache K
new_with_capacity (pos n) = record {
  store = empty;
  flight = [];
  max = if leb n 0 then default_max_entries else n;
}
new_with_capacity (negsuc n) = record { store = empty; flight = []; max = default_max_entries }

module _ {K : Type 0} (dec : Discrete K) where
  unfoldable pub len : Cache K → ℕ
  len c = length c.store.lru

  unfoldable pub lookup : K → ℕ → Cache K → Cache K × Option (Entry K)
  lookup key now c = elim (Assoc.lookup dec key c.store.items) [
    | none ↦ (c, none)
    | some e ↦
        if not (ltb now e.deadline)
        then (record c { store = Recency.discard dec key c.store }, none)
        else (record c { store = Recency.touch dec key c.store }, some e)
  ]

  unfoldable pub store : Entry K → Cache K → Cache K
  store e c = record c { store = Recency.put dec c.max e.key e c.store }

  -- the channel, and whether the caller leads
  unfoldable pub acquire_flight : K → ℕ → Cache K → Cache K × ℕ × Bool
  acquire_flight key fresh c = elim (Assoc.lookup dec key c.flight) [
    | some ch ↦ (c, ch, false)
    | none ↦ (record c { flight = Assoc.insert dec key fresh c.flight }, fresh, true)
  ]

  -- the channel that is closed, if any
  unfoldable pub release_flight : K → Cache K → Cache K × Option ℕ
  release_flight key c =
      (record c { flight = Assoc.delete dec key c.flight }, Assoc.lookup dec key c.flight)
