-- ===== src/Twse/Daily.antt =====
-- service/stock/twse/cached_walkback.go: the caches keyed by day. Each request walks back over the
-- days, asking the cache for each.
use imagelet.Base.{ℕ, ◌++◌, ◌∷◌, true, false, Option}
use imagelet.Base.Text.{Text, Text-discrete}
use imagelet.TtlCache.{Cache, Flight, ok, fail, get_or_fetch}
use imagelet.Twse.Calendar.{ttl_for_as_of, format_date}
use imagelet.Twse.WalkBack.{Visit, walk_back_trading_days}

-- What a probe meets: the clock when the time to live is chosen and when the cache is asked, and
-- the singleflight call.
pub record Turn (E V : Type 0) : Type 0 where
  pub chosen_at : ℕ
  pub now : ℕ
  pub flight : Flight E V

-- `stockID + "|" + date`
abbrev pub stock_key : Text → Text → Text
stock_key stock date = stock ++ (b'|' ∷ date)

-- `date` alone
abbrev pub market_key : Text → Text
market_key date = date

-- `unavailable` is `ErrUnavailable`, and `blank` the zero value of the report.
module _ {E V : Type 0} (unavailable : E) (blank : V) where
  -- the callback: ask the cache for the day, keep a report that is there
  unfoldable pub probe_day :
      (Text → Text) → (ℕ → Turn E V) → ℕ → Cache Text V × V → (Cache Text V × V) × Visit E
  probe_day key_of turns probe (c, out) =
      let turn = turns probe in
      let (c', answer) =
        get_or_fetch Text-discrete (key_of (format_date probe)) (ttl_for_as_of probe turn.chosen_at)
          turn.now turn.flight c in
      elim answer [
        | fail err ↦ ((c', out), Visit.fail err)
        | ok v found ↦ elim found [
          | true ↦ ((c', v), Visit.ok true)
          | false ↦ ((c', out), Visit.ok false)
        ]
      ]

  unfoldable pub get_daily :
      (Text → Text) → ℕ → ℕ → (ℕ → Turn E V) → Cache Text V → (Cache Text V × V) × Option E
  unfolding probe_day
  get_daily key_of as_of now turns c =
      walk_back_trading_days unavailable (probe_day key_of turns) as_of now (c, blank)

  -- `CachedT86.GetForStock`
  unfoldable pub get_for_stock :
      Text → ℕ → ℕ → (ℕ → Turn E V) → Cache Text V → (Cache Text V × V) × Option E
  unfolding get_daily
  get_for_stock stock = get_daily (stock_key stock)

  -- `CachedSecuritiesLending.GetSecuritiesLending`
  unfoldable pub get_securities_lending :
      Text → ℕ → ℕ → (ℕ → Turn E V) → Cache Text V → (Cache Text V × V) × Option E
  unfolding get_daily
  get_securities_lending stock = get_daily (stock_key stock)

  -- `CachedStockMargin.GetStockMargin`
  unfoldable pub get_stock_margin :
      Text → ℕ → ℕ → (ℕ → Turn E V) → Cache Text V → (Cache Text V × V) × Option E
  unfolding get_daily
  get_stock_margin stock = get_daily (stock_key stock)

  -- `CachedForeign.GetForeign`
  unfoldable pub get_foreign :
      Text → ℕ → ℕ → (ℕ → Turn E V) → Cache Text V → (Cache Text V × V) × Option E
  unfolding get_daily
  get_foreign stock = get_daily (stock_key stock)

  -- `CachedOptionsPCR.GetOptionsPCR`
  unfoldable pub get_options_pcr :
      ℕ → ℕ → (ℕ → Turn E V) → Cache Text V → (Cache Text V × V) × Option E
  unfolding get_daily
  get_options_pcr = get_daily market_key

  -- `CachedVIX.GetVIX`
  unfoldable pub get_vix : ℕ → ℕ → (ℕ → Turn E V) → Cache Text V → (Cache Text V × V) × Option E
  unfolding get_daily
  get_vix = get_daily market_key
