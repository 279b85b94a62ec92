-- ===== src/Twse/Dumps.antt =====
-- service/stock/twse/cached_walkback.go: the caches of one key, whose entry is a dump of every
-- stock or industry.
use imagelet.Base.{ℕ, [], ◌∷◌, ◌*◌, List, true, false, Option, none, some, if◌then◌else◌}
use imagelet.Base.Assoc.{lookup}
use imagelet.Base.Text.{Text, Text-discrete, text_eq, trim_space, trim_suffix}
use imagelet.TtlCache.{Cache, Flight, ok, fail, get_or_fetch}
use imagelet.Twse.Calendar.{hour, ttl_for_as_of, clamp_as_of}

-- "latest"
abbrev pub latest_key : Text
latest_key = b'l' ∷ b'a' ∷ b't' ∷ b'e' ∷ b's' ∷ b't' ∷ []

abbrev pub listing_info_success_ttl : ℕ
listing_info_success_ttl = 24 * hour

abbrev pub industry_foreign_success_ttl : ℕ
industry_foreign_success_ttl = 24 * hour

abbrev pub revenue_success_ttl : ℕ
revenue_success_ttl = 24 * hour

-- the rows of a dump, by stock or industry
abbrev pub Rows : Type 0 → Type 0
Rows V = List (Text × V)

-- `lookupIndustryForeign`: the name, or the name without a final 業 (U+696D)
unfoldable pub lookup_industry_foreign : {V : Type 0} → Rows V → Text → Option V
lookup_industry_foreign rows name =
    let industry = trim_space name in
    let stripped = trim_suffix industry (0x696d ∷ []) in
    elim (lookup Text-discrete industry rows) [
      | some row ↦ some row
      | none ↦ if text_eq stripped industry then none else lookup Text-discrete stripped rows
    ]

-- `unavailable` is `ErrUnavailable`, and `blank` the zero value of a row.
module _ {E V : Type 0} (unavailable : E) (blank : V) where
  -- one dump, and the row that `find` takes from it
  unfoldable pub get_row :
      (Rows V → Option V)
      → ℕ
      → ℕ
      → Flight E (Rows V)
      → Cache Text (Rows V)
      → Cache Text (Rows V) × V × Option E
  get_row find ttl now flight c =
      let (c', answer) = get_or_fetch Text-discrete latest_key ttl now flight c in
      elim answer [
        | fail err ↦ (c', blank, some err)
        | ok dump found ↦ elim found [
          | false ↦ (c', blank, some unavailable)
          | true ↦ elim (find dump) [
            | none ↦ (c', blank, some unavailable)
            | some row ↦ (c', row, none)
          ]
        ]
      ]

  -- `dump.Rows[strings.TrimSpace(stockID)]`
  abbrev pub by_stock : Text → Rows V → Option V
  by_stock stock rows = lookup Text-discrete (trim_space stock) rows

  -- `CachedListingInfo.GetListingInfo`
  unfoldable pub get_listing_info :
      Text → ℕ → Flight E (Rows V) → Cache Text (Rows V) → Cache Text (Rows V) × V × Option E
  unfolding get_row
  get_listing_info stock = get_row (by_stock stock) listing_info_success_ttl

  -- `CachedOTCListingInfo.GetOTCListingInfo`
  unfoldable pub get_otc_listing_info :
      Text → ℕ → Flight E (Rows V) → Cache Text (Rows V) → Cache Text (Rows V) × V × Option E
  unfolding get_row
  get_otc_listing_info stock = get_row (by_stock stock) listing_info_success_ttl

  -- `CachedIndustryForeign.GetIndustryForeign`
  unfoldable pub get_industry_foreign :
      Text → ℕ → Flight E (Rows V) → Cache Text (Rows V) → Cache Text (Rows V) × V × Option E
  unfolding get_row
  get_industry_foreign industry =
      get_row (λ rows. lookup_industry_foreign rows industry) industry_foreign_success_ttl

  -- `CachedRevenue.GetRevenue`
  unfoldable pub get_revenue :
      Text → ℕ → Flight E (Rows V) → Cache Text (Rows V) → Cache Text (Rows V) × V × Option E
  unfolding get_row
  get_revenue stock = get_row (by_stock stock) revenue_success_ttl

  -- `CachedOTCRevenue.GetOTCRevenue`
  unfoldable pub get_otc_revenue :
      Text → ℕ → Flight E (Rows V) → Cache Text (Rows V) → Cache Text (Rows V) × V × Option E
  unfolding get_row
  get_otc_revenue stock = get_row (by_stock stock) revenue_success_ttl

  -- `CachedFundamentals.GetFundamentals`, with the clock when `asOf` is clamped and when the time
  -- to live is chosen
  unfoldable pub get_fundamentals :
      Text
      → ℕ
      → ℕ
      → ℕ
      → ℕ
      → Flight E (Rows V)
      → Cache Text (Rows V)
      → Cache Text (Rows V) × V × Option E
  unfolding get_row
  get_fundamentals stock as_of clamped_at chosen_at =
      get_row (by_stock stock) (ttl_for_as_of (clamp_as_of as_of clamped_at) chosen_at)

-- the trades of a day, by stock, and when the day was
pub record BlockTradesDay (T : Type 0) : Type 0 where
  pub as_of : ℕ
  pub rows : Rows (List T)

abbrev pub no_trades : {T : Type 0} → BlockTradesDay T
no_trades = record { as_of = 0; rows = [] }

-- `day.Rows[stock]`, nil for a stock that is not there
abbrev pub trades_of : {T : Type 0} → Text → Rows (List T) → List T
trades_of stock rows = elim (lookup Text-discrete (trim_space stock) rows) [
  | none ↦ []
  | some l ↦ l
]

-- `CachedBlockTrades.GetBlockTrades`
unfoldable pub get_block_trades :
    {E T : Type 0}
    → Text
    → ℕ
    → ℕ
    → ℕ
    → ℕ
    → Flight E (BlockTradesDay T)
    → Cache Text (BlockTradesDay T)
    → Cache Text (BlockTradesDay T) × BlockTradesDay T × List T × Option E
get_block_trades stock as_of clamped_at chosen_at now flight c =
    let (c', answer) =
      get_or_fetch Text-discrete latest_key (ttl_for_as_of (clamp_as_of as_of clamped_at) chosen_at)
        now flight c in
    elim answer [
      | fail err ↦ (c', no_trades, [], some err)
      | ok found_day found ↦ elim found [
        | false ↦ (c', found_day, [], none)
        | true ↦ (c', found_day, trades_of stock found_day.rows, none)
      ]
    ]
