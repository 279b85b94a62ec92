-- ===== src/Twse/Futures.antt =====
-- service/stock/twse/cached_walkback.go: `CachedRetailFutures`. An answer that lacks a contract is
-- partial, and its entry is stored again with a shorter time to live.
use imagelet.Base.{ℕ, ◌+◌, ◌&&◌, Bool, true, false, Option, none, some, if◌then◌else◌, ltb}
use imagelet.Base.Text.{Text, Text-discrete}
use imagelet.TtlCache.{Cache, Outcome, ok, fail, set, get_or_fetch}
use imagelet.Twse.Calendar.{min_today_ttl, ttl_for_as_of, format_date}
use imagelet.Twse.Daily.{Turn}
use imagelet.Twse.Fetching.{ran_fetch}
use imagelet.Twse.WalkBack.{Visit, walk_back_trading_days}

abbrev pub partial_entry_ttl : ℕ
partial_entry_ttl = min_today_ttl

abbrev pub least : ℕ → ℕ → ℕ
least a b = if ltb b a then b else a

abbrev pub is_some_fetch : {A : Type 0} → Option A → Bool
is_some_fetch none = false
is_some_fetch (some a) = true

-- A probe's clocks are those of `Turn`, and the one at the second `Set`.
pub record FuturesTurn (E V : Type 0) : Type 0 where
  pub turn : Turn E V
  pub restamped_at : ℕ

-- `is_partial` is the field `Partial` of `RetailFutures`.
module _ {E V : Type 0} (unavailable : E) (blank : V) (is_partial : V → Bool) where
  -- the entry of a partial answer that this call fetched is stored again
  unfoldable pub restamp :
      Text → ℕ → ℕ → Option (Outcome E V) → V → Bool → Cache Text V → Cache Text V
  restamp key ttl at ran v found c =
      if is_some_fetch ran && found && is_partial v
      then set Text-discrete key
          (record { value = v; found = found; expires_at = at + least ttl partial_entry_ttl }) c
      else c

  -- from the answer of the cache to the result of the callback
  unfoldable pub settle :
      Text
      → ℕ
      → ℕ
      → Option (Outcome E V)
      → Cache Text V × Outcome E V
      → V
      → (Cache Text V × V) × Visit E
  unfolding restamp
  settle key ttl at ran (c, fail err) out = ((c, out), Visit.fail err)
  settle key ttl at ran (c, ok v true) out = ((restamp key ttl at ran v true c, v), Visit.ok true)
  settle key ttl at ran (c, ok v false) out =
      ((restamp key ttl at ran v false c, out), Visit.ok false)

  unfoldable pub probe_futures :
      (ℕ → FuturesTurn E V) → ℕ → Cache Text V × V → (Cache Text V × V) × Visit E
  unfolding settle
  probe_futures turns probe (c, out) =
      let t = (turns probe).turn in
      let key = format_date probe in
      let ttl = ttl_for_as_of probe t.chosen_at in
      settle key ttl (turns probe).restamped_at (ran_fetch Text-discrete key t.now t.flight c)
        (get_or_fetch Text-discrete key ttl t.now t.flight c) out

  -- `GetRetailFutures`
  unfoldable pub get_retail_futures :
      ℕ → ℕ → (ℕ → FuturesTurn E V) → Cache Text V → (Cache Text V × V) × Option E
  unfolding probe_futures
  get_retail_futures as_of now turns c =
      walk_back_trading_days unavailable (probe_futures turns) as_of now (c, blank)
