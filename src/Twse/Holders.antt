-- ===== src/Twse/Holders.antt =====
-- service/stock/twse/cached_walkback.go: `CachedHolders`, a cache of one dump with the dump of the
-- week before beside it.
use imagelet.Base.{ℕ, ◌*◌, true, false, not, ◌&&◌, ◌==◌, Option, none, some, if◌then◌else◌}
use imagelet.Base.Assoc.{lookup}
use imagelet.Base.Text.{Text, Text-discrete, trim_space}
use imagelet.TtlCache.{Cache, Flight, Outcome, ok, fail, get, get_or_fetch}
use imagelet.Twse.Calendar.{hour}
use imagelet.Twse.Dumps.{Rows, latest_key}
use imagelet.Twse.Fetching.{ran_fetch}

abbrev pub holders_success_ttl : ℕ
holders_success_ttl = 24 * hour

-- `T` is the array of tiers.
pub record HoldersDistribution (T : Type 0) : Type 0 where
  pub stock_id : Text
  pub as_of : ℕ
  pub tiers : T
  pub total_count : ℕ
  pub total_share : ℕ
  pub prev_as_of : ℕ
  pub prev_tiers : T
  pub prev_total_count : ℕ
  pub prev_total_share : ℕ

pub record HoldersDump (T : Type 0) : Type 0 where
  pub as_of : ℕ
  pub rows : Rows (HoldersDistribution T)

pub record CachedHolders (T : Type 0) : Type 0 where
  pub cache : Cache Text (HoldersDump T)
  pub last_dump : HoldersDump T
  pub previous : HoldersDump T

-- a fetched dump takes the place of the last one, which is kept if it is of another week
unfoldable pub rotate : {T : Type 0} → HoldersDump T → CachedHolders T → CachedHolders T
rotate d h =
    let c : CachedHolders _ =
      if not (h.last_dump.as_of == 0) && not (h.last_dump.as_of == d.as_of)
      then record h { previous = h.last_dump }
      else h in
    record c { last_dump = d }

module _ {E T : Type 0} (unavailable : E) (blank : HoldersDistribution T) where
  unfoldable pub holders_lookup : HoldersDump T → Text → HoldersDistribution T × Option E
  holders_lookup dump stock = elim (lookup Text-discrete (trim_space stock) dump.rows) [
    | none ↦ (blank, some unavailable)
    | some d ↦ (d, none)
  ]

  -- the fields that the week before fills in
  unfoldable pub with_previous :
      HoldersDump T → Text → HoldersDistribution T → HoldersDistribution T
  with_previous prev stock out =
      if prev.as_of == 0 then out else elim (lookup Text-discrete stock prev.rows) [
        | none ↦ out
        | some pr ↦ record out {
          prev_as_of = prev.as_of;
          prev_tiers = pr.tiers;
          prev_total_count = pr.total_count;
          prev_total_share = pr.total_share;
        }
      ]

  -- `GetOrFetch`, with what its closure does to the two dumps
  unfoldable pub fetch_dump :
      ℕ → Flight E (HoldersDump T) → CachedHolders T → CachedHolders T × Outcome E (HoldersDump T)
  fetch_dump now flight h =
      let (cache', answer) =
        get_or_fetch Text-discrete latest_key holders_success_ttl now flight h.cache in
      let h' = record h { cache = cache' } in
      elim (ran_fetch Text-discrete latest_key now flight h.cache) [
        | none ↦ (h', answer)
        | some fetched ↦ elim fetched [
          | fail err ↦ (h', answer)
          | ok d found ↦ elim found [ true ↦ (rotate d h', answer) | false ↦ (h', answer) ]
        ]
      ]

  -- from the answer of the cache to the answer of the request
  unfoldable pub serve_dump :
      Text
      → CachedHolders T
      → Outcome E (HoldersDump T)
      → CachedHolders T × HoldersDistribution T × Option E
  unfolding holders_lookup with_previous
  serve_dump stock h (fail err) = (h, blank, some err)
  serve_dump stock h (ok dump false) = (h, blank, some unavailable)
  serve_dump stock h (ok dump true) =
      let (out, err) = holders_lookup dump stock in
      elim err [ some e ↦ (h, out, some e) | none ↦ (h, with_previous h.previous stock out, none) ]

  unfoldable pub get_holders_distribution :
      Text
      → ℕ
      → Flight E (HoldersDump T)
      → CachedHolders T
      → CachedHolders T × HoldersDistribution T × Option E
  unfolding fetch_dump serve_dump
  get_holders_distribution stock now flight h =
      let (h', answer) = fetch_dump now flight h in serve_dump stock h' answer

-- `loadFrom` after the entries of the file are in the cache
unfoldable pub restore : {T : Type 0} → ℕ → CachedHolders T → CachedHolders T
restore now h =
    let (cache', hit) = get Text-discrete latest_key now h.cache in
    let h' = record h { cache = cache' } in
    elim hit [ none ↦ h' | some e ↦ if e.found then record h' { last_dump = e.value } else h' ]
