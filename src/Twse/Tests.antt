-- ===== src/Twse/Tests.antt =====
-- Runs of service/stock/twse/cached_walkback.go, and each theorem at an input that meets its
-- hypotheses.
use imagelet.Base.{
  ℕ, [], ◌∷◌, ◌+◌, ◌*◌, ◌≡◌, ◌≤◌, Bool, true, false, none, some, refl, arith, inr, ◌==◌,
  if◌then◌else◌,
}
use imagelet.Base.Assoc.{lookup, insert}
use imagelet.Base.Int.{pos}
use imagelet.Base.Text.{Text, Text-discrete, codes, text_eq, trim_left, trim_space, trim_suffix}
use imagelet.Recency
use imagelet.TtlCache.{Cache, Flight, Outcome, ok, led, new, get, set, load, get_or_fetch}
use imagelet.TtlCache.Fetch.{live_entry}
use imagelet.TtlCache.Invariant
use imagelet.Twse.Calendar.{day, hour, min_today_ttl, ttl_for_as_of, clamp_as_of, format_date}
use imagelet.Twse.Daily.{Turn, stock_key, get_daily, get_for_stock, probe_day}
use imagelet.Twse.Direct
use imagelet.Twse.Direct.{probe_direct}
use imagelet.Twse.Drift
use imagelet.Twse.Drift.{IsDrift}
use imagelet.Twse.Dumps.{latest_key, lookup_industry_foreign}
use imagelet.Twse.Fetching.{ran_fetch}
use imagelet.Twse.Futures.{FuturesTurn, probe_futures, restamp, settle}
use imagelet.Twse.Holders.{
  HoldersDump, CachedHolders, HoldersDistribution, rotate, fetch_dump, get_holders_distribution,
}
use imagelet.Twse.Latest
use imagelet.Twse.Partial
use imagelet.Twse.WalkBack.{walk_from, walk_back_trading_days}

program : Unit {0}
unfolding walk_from walk_back_trading_days probe_direct probe_day get_daily get_for_stock
    ttl_for_as_of clamp_as_of format_date get set load get_or_fetch new lookup insert Recency.touch
    Recency.put Recency.evict Text-discrete ran_fetch probe_futures restamp settle rotate fetch_dump
    get_holders_distribution lookup_industry_foreign
program = tt

-- Friday, January 2, 2026, 10:00 in Taipei, and the Sunday after it
abbrev friday : ℕ
friday = 739617 * day + 2 * hour

abbrev sunday : ℕ
sunday = 739619 * day + 2 * hour

friday_text : format_date friday ≡ codes "20260102"
unfolding program
friday_text = refl

march_text : format_date (739676 * day) ≡ codes "20260302"
unfolding program
march_text = refl

abbrev stock : Text
stock = codes "2330"

-- There is a report for Friday alone.
abbrev provider : Text → Outcome ℕ ℕ
provider date = if text_eq date (codes "20260102") then ok 7 true else ok 0 false

abbrev turns : ℕ → Turn ℕ ℕ
turns probe = record {
  chosen_at = sunday;
  now = sunday;
  flight = led sunday sunday (provider (format_date probe));
}

abbrev empty : Cache Text ℕ
empty = new (pos 100)

empty-IsAccurate : Direct.IsAccurate 9 0 (stock_key stock) provider empty
unfolding program
empty-IsAccurate date e h = absurd (ground arith)

finds_friday : (get_for_stock 9 0 stock sunday sunday turns empty).0.1 ≡ 7
unfolding program
finds_friday = refl

get_daily-direct_example :
    Direct.IsAccurate 9 0
      (stock_key stock)
      provider
      (get_daily 9 0 (stock_key stock) sunday sunday turns empty).0.0
    × ((get_daily 9 0 (stock_key stock) sunday sunday turns empty).0.1
        ≡ (walk_back_trading_days 9
            (probe_direct 9 0 (stock_key stock) provider)
            sunday
            sunday
            0).0)
    × ((get_daily 9 0 (stock_key stock) sunday sunday turns empty).1
        ≡ (walk_back_trading_days 9
            (probe_direct 9 0 (stock_key stock) provider)
            sunday
            sunday
            0).1)
get_daily-direct_example =
    Direct.get_daily-direct 9 0 (stock_key stock) provider (Direct.stock_key_apart stock) turns
      (λ probe. refl) sunday sunday empty empty-IsAccurate

walk_back_trading_days-Ends_example :
    Latest.Ends 9 0
      (stock_key stock)
      provider
      (clamp_as_of sunday sunday)
      7
      0
      0
      (walk_back_trading_days 9 (probe_direct 9 0 (stock_key stock) provider) sunday sunday 0)
walk_back_trading_days-Ends_example =
    Latest.walk_back_trading_days-Ends 9 0 (stock_key stock) provider sunday sunday 0

-- the futures of Friday, fetched on Sunday, without one of the contracts
abbrev futures_turns : ℕ → FuturesTurn ℕ ℕ
futures_turns probe = record {
  turn = record { chosen_at = sunday; now = sunday; flight = led sunday sunday (ok 5 true) };
  restamped_at = sunday;
}

abbrev is_odd : ℕ → Bool
is_odd v = v == 5

empty-IsValid : Invariant.IsValid Text-discrete empty
empty-IsValid = Invariant.new-IsValid Text-discrete (pos 100)

nothing_live :
    live_entry sunday (lookup Text-discrete (format_date friday) empty.store.items) ≡ none
unfolding program
nothing_live = refl

probe_futures-partial_example :
    (ttl : ℕ) × (ttl ≤ min_today_ttl)
    × (ttl ≤ ttl_for_as_of friday sunday)
    × (lookup Text-discrete
          (format_date friday)
          (probe_futures 9 0 is_odd futures_turns friday (empty, 0)).0.0.store.items
        ≡ some (record { value = 5; found = true; expires_at = sunday + ttl }))
probe_futures-partial_example =
    Partial.probe_futures-partial 9 0 is_odd futures_turns friday sunday sunday 5 empty 0 refl
      (omega arith) empty-IsValid nothing_live refl

-- dumps of two weeks
abbrev week : ℕ → HoldersDump ℕ
week n = record { as_of = n; rows = [] }

abbrev blank : HoldersDistribution ℕ
blank = record {
  stock_id = [];
  as_of = 0;
  tiers = 0;
  total_count = 0;
  total_share = 0;
  prev_as_of = 0;
  prev_tiers = 0;
  prev_total_count = 0;
  prev_total_share = 0;
}

abbrev holders : CachedHolders ℕ
holders = record { cache = new (pos 1); last_dump = week 100; previous = week 93 }

abbrev next_week : Flight ℕ (HoldersDump ℕ)
next_week = led sunday sunday (ok (week 107) true)

dated : Drift.IsDated (ran_fetch Text-discrete latest_key sunday next_week holders.cache)
unfolding program
dated e = ground arith

rotates : (get_holders_distribution 9 blank stock sunday next_week holders).0.previous ≡ week 100
unfolding program
rotates = refl

get_holders_distribution-IsDrift_example :
    IsDrift (get_holders_distribution 9 blank stock sunday next_week holders).0
get_holders_distribution-IsDrift_example =
    Drift.get_holders_distribution-IsDrift 9 blank stock sunday next_week holders dated
      (inr ((λ e. ground arith), (λ e. ground arith)))

-- 金融保險業 is looked up as 金融保險
strips_suffix : lookup_industry_foreign {V = ℕ} ((codes "金融保險", 3) ∷ []) (codes " 金融保險業") ≡ some 3
unfolding program trim_space trim_suffix trim_left
strips_suffix = refl
