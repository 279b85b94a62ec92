-- ===== src/Twse/Direct.antt =====
-- service/stock/twse/cached_walkback.go: what a walk back over a cache returns, compared with a walk
-- that asks the provider for every day.
use imagelet.Base.{
  ℕ, ◌≡◌, ◌⊎◌, [], ◌∷◌, true, false, Option, none, some, refl, arith, inl, inr, Option-cases, ap,
  ◌∙◌, sym,
}
use imagelet.Base.Assoc.{lookup}
use imagelet.Base.Text.{Text, Text-discrete}
use imagelet.Recency.Remaining.{lookup-put}
use imagelet.TtlCache.{
  Cache, Entry, Flight, Outcome, ok, fail, joined, led, get, set, load, get_or_fetch,
}
use imagelet.TtlCache.Fetch.{get-live_entry, live_entry}
use imagelet.Twse.Calendar.{ttl_for_as_of, format_date, clamp_as_of, max_lookback_days}
use imagelet.Twse.WalkBack.{Visit, walk_back_trading_days, walk_from_related}
use imagelet.Twse.Daily.{Turn, probe_day, get_daily, stock_key}

-- The keys of one stock tell the days apart.
pub stock_key_apart : (stock d e : Text) → stock_key stock d ≡ stock_key stock e → d ≡ e
stock_key_apart [] d e h = ground arith
stock_key_apart (c ∷ s) d e h = stock_key_apart s d e (ground arith)

pub Outcome-cases :
    {E V : Type 0} (o : Outcome E V)
    → ((err : E) × (o ≡ fail err)) ⊎ ((v : V) × (o ≡ ok v true)) ⊎ ((v : V) × (o ≡ ok v false))
Outcome-cases (fail err) = inl (err, refl)
Outcome-cases (ok v true) = inr (inl (v, refl))
Outcome-cases (ok v false) = inr (inr (v, refl))

live_found :
    {V : Type 0} (now : ℕ) (e : Entry V) (o : Option (Entry V))
    → live_entry now o ≡ some e
    → o ≡ some e
live_found now e none h = absurd (ground arith)
live_found now e (some x) h = ground arith

module _ {E V : Type 0} (unavailable : E) (blank : V) (key_of : Text → Text)
    (provider : Text → Outcome E V) where
  -- Every entry of a day, expired or not, is what the provider answers for the day.
  abbrev pub IsAccurate : Cache Text V → Type 0
  IsAccurate c =
      (date : Text) (e : Entry V)
      → lookup Text-discrete (key_of date) c.store.items ≡ some e
      → provider date ≡ ok e.value e.found

  -- The singleflight call of a probe returns what the provider answers for its day.
  abbrev pub IsHonest : ℕ → Flight E V → Type 0
  IsHonest probe (joined out) = out ≡ provider (format_date probe)
  IsHonest probe (led again stored fetched) = fetched ≡ provider (format_date probe)

  -- the callback of a walk that asks the provider
  unfoldable pub probe_direct : ℕ → V → V × Visit E
  probe_direct probe out = elim (provider (format_date probe)) [
    | fail err ↦ (out, Visit.fail err)
    | ok v found ↦ elim found [ true ↦ (v, Visit.ok true) | false ↦ (out, Visit.ok false) ]
  ]

  module _ (apart : (d e : Text) → key_of d ≡ key_of e → d ≡ e) where
    set-IsAccurate :
        (date : Text) (e : Entry V) (c : Cache Text V)
        → IsAccurate c
        → provider date ≡ ok e.value e.found
        → IsAccurate (set Text-discrete (key_of date) e c)
    unfolding set
    set-IsAccurate date e c a p date' e' h =
        elim (lookup-put Text-discrete c.capacity (key_of date) e c.store (key_of date') e' h) [
          | inl (k, same) ↦
              ap provider (sym (apart date date' k)) ∙ p ∙ ap (λ x. ok x.value x.found) same
          | inr old ↦ a date' e' old
        ]

    get-IsAccurate :
        (date : Text) (now : ℕ) (c : Cache Text V)
        → IsAccurate c
        → IsAccurate (get Text-discrete (key_of date) now c).0
    get-IsAccurate date now c a = rw ((get-live_entry Text-discrete (key_of date) now c).1) a

    get_hit :
        (date : Text) (now : ℕ) (e : Entry V) (c : Cache Text V)
        → IsAccurate c
        → (get Text-discrete (key_of date) now c).1 ≡ some e
        → provider date ≡ ok e.value e.found
    get_hit date now e c a h = a date e (
        live_found now e (lookup Text-discrete (key_of date) c.store.items)
          (sym (get-live_entry Text-discrete (key_of date) now c).0 ∙ h))

    load-IsAccurate :
        (date : Text) (ttl now again stored : ℕ) (fetched : Outcome E V) (c : Cache Text V)
        → IsAccurate c
        → fetched ≡ provider date
        → ((load Text-discrete (key_of date) ttl again stored fetched c).1 ≡ provider date)
          × IsAccurate (load Text-discrete (key_of date) ttl again stored fetched c).0
    unfolding load
    load-IsAccurate date ttl now again stored (fail err) c a f =
        elim (Option-cases (get Text-discrete (key_of date) again c).1) [
          | inl n ↦ rw (n, load) (f, get-IsAccurate date again c a)
          | inr (e, h) ↦
              rw (h, load) (sym (get_hit date again e c a h), get-IsAccurate date again c a)
        ]
    load-IsAccurate date ttl now again stored (ok v found) c a f =
        elim (Option-cases (get Text-discrete (key_of date) again c).1) [
          | inl n ↦
              rw (n, load) (f, set-IsAccurate date _ _ (get-IsAccurate date again c a) (sym f))
          | inr (e, h) ↦
              rw (h, load) (sym (get_hit date again e c a h), get-IsAccurate date again c a)
        ]

    fetch-IsAccurate :
        (probe ttl now : ℕ) (flight : Flight E V) (c : Cache Text V)
        → IsAccurate c
        → IsHonest probe flight
        → ((get_or_fetch Text-discrete (key_of (format_date probe)) ttl now flight c).1
            ≡ provider (format_date probe))
          × IsAccurate (get_or_fetch Text-discrete (key_of (format_date probe)) ttl now flight c).0
    unfolding get_or_fetch
    fetch-IsAccurate probe ttl now (joined out) c a f =
        elim (Option-cases (get Text-discrete (key_of (format_date probe)) now c).1) [
          | inl n ↦ rw (n, get_or_fetch) (f, get-IsAccurate (format_date probe) now c a)
          | inr (e, h) ↦
              rw (h, get_or_fetch)
                (
                  sym (get_hit (format_date probe) now e c a h),
                  get-IsAccurate (format_date probe) now c a,
                )
        ]
    fetch-IsAccurate probe ttl now (led again stored fetched) c a f =
        elim (Option-cases (get Text-discrete (key_of (format_date probe)) now c).1) [
          | inl n ↦
              rw (n, get_or_fetch)
                (load-IsAccurate (format_date probe) ttl now again stored fetched _
                  (get-IsAccurate (format_date probe) now c a) f)
          | inr (e, h) ↦
              rw (h, get_or_fetch)
                (
                  sym (get_hit (format_date probe) now e c a h),
                  get-IsAccurate (format_date probe) now c a,
                )
        ]

    abbrev IsAlike : Cache Text V × V → V → Type 0
    IsAlike s t = IsAccurate s.0 × (s.1 ≡ t)

    module _ (turns : ℕ → Turn E V)
        (honest : (probe : ℕ) → IsHonest probe (turns probe).flight) where
      probe_day-probe_direct :
          (probe : ℕ) (s : Cache Text V × V) (t : V)
          → IsAlike s t
          → IsAlike (probe_day unavailable blank key_of turns probe s).0 (probe_direct probe t).0
            × ((probe_day unavailable blank key_of turns probe s).1 ≡ (probe_direct probe t).1)
      unfolding probe_day probe_direct
      probe_day-probe_direct probe (c, out) t (a, same) =
          let (p, a') =
            fetch-IsAccurate probe (ttl_for_as_of probe (turns probe).chosen_at) (turns probe).now
              (turns probe).flight c a (honest probe) in
          elim (Outcome-cases (provider (format_date probe))) [
            | inl (err, h) ↦ rw (p ∙ h, h, probe_day, probe_direct) ((a', same), refl)
            | inr (inl (v, h)) ↦ rw (p ∙ h, h, probe_day, probe_direct) ((a', refl), refl)
            | inr (inr (v, h)) ↦ rw (p ∙ h, h, probe_day, probe_direct) ((a', same), refl)
          ]

      -- On an accurate cache, with honest calls upstream and keys that tell the days apart, a
      -- cached walk back returns the report and the error of a walk back that asks the provider
      -- for every day, and leaves the cache accurate.
      pub get_daily-direct :
          (as_of now : ℕ) (c : Cache Text V)
          → IsAccurate c
          → IsAccurate (get_daily unavailable blank key_of as_of now turns c).0.0
            × ((get_daily unavailable blank key_of as_of now turns c).0.1
                ≡ (walk_back_trading_days unavailable probe_direct as_of now blank).0)
            × ((get_daily unavailable blank key_of as_of now turns c).1
                ≡ (walk_back_trading_days unavailable probe_direct as_of now blank).1)
      unfolding get_daily walk_back_trading_days
      get_daily-direct as_of now c a =
          let ((x, y), z) =
            walk_from_related unavailable (probe_day unavailable blank key_of turns) probe_direct
              IsAlike probe_day-probe_direct (clamp_as_of as_of now) max_lookback_days 0 (c, blank)
              blank (a, refl) in
          (x, y, z)
