-- ===== src/Twse/Calendar.antt =====
-- service/stock/twse/cached_walkback.go: days in Taipei, how long a day's report is kept, and the
-- days that a request probes. An instant is a number of nanoseconds since the zero time.Time
-- (Monday, January 1 of year 1, UTC), which is 0; Taipei is eight hours ahead, as it has been since 1980.
use imagelet.Base.{
  ℕ, ◌+◌, ◌-◌, ◌*◌, ◌/◌, ◌%◌, ◌^◌, ◌≡◌, ◌≤◌, ◌<◌, ◌⊎◌, Bool, [], ◌∷◌, ◌||◌, ltb, ◌==◌,
  if◌then◌else◌, arith,
}
use imagelet.Base.Text.{Text}

abbrev pub hour : ℕ
hour = 3600 * 10 ^ 9

abbrev pub day : ℕ
day = 24 * hour

abbrev pub tw_publish_hour : ℕ
tw_publish_hour = 17

abbrev pub min_today_ttl : ℕ
min_today_ttl = 1800 * 10 ^ 9

abbrev pub closed_session_ttl : ℕ
closed_session_ttl = 24 * hour

abbrev pub max_lookback_days : ℕ
max_lookback_days = 7

-- `t.In(twLoc)` as nanoseconds of the local clock, and the local day
abbrev pub local : ℕ → ℕ
local t = t + 8 * hour

abbrev pub day_of : ℕ → ℕ
day_of t = local t / day

-- `t.Weekday()`, Sunday = 0
abbrev pub weekday : ℕ → ℕ
weekday t = (day_of t + 1) % 7

abbrev pub is_weekend : ℕ → Bool
is_weekend t = weekday t == 6 || weekday t == 0

unfoldable pub ttl_for_as_of : ℕ → ℕ → ℕ
ttl_for_as_of as_of now =
    let today = day_of now in
    let publish = today * day + tw_publish_hour * hour in
    if ltb (day_of as_of) today
    then closed_session_ttl
    else if ltb (local now) publish
    then (if ltb (publish - local now) min_today_ttl then publish - local now else min_today_ttl)
    else closed_session_ttl

unfoldable pub clamp_as_of : ℕ → ℕ → ℕ
clamp_as_of as_of now = if as_of == 0 || ltb now as_of then now else as_of

-- `asOf.AddDate(0, 0, -daysBack)`; a time before the zero time does not occur
abbrev pub days_before : ℕ → ℕ → ℕ
days_before days_back as_of = as_of - days_back * day

-- Year, month and day of month of a local day, counted from March 1 of year 0 in eras of 400 years.
abbrev era_day : ℕ → ℕ
era_day d = (d + 306) % 146097

abbrev era_year : ℕ → ℕ
era_year e = (e - e / 1460 + e / 36524 - e / 146096) / 365

abbrev year_day : ℕ → ℕ
year_day e = e - (365 * era_year e + era_year e / 4 - era_year e / 100)

abbrev march_month : ℕ → ℕ
march_month e = (5 * year_day e + 2) / 153

abbrev pub month_of : ℕ → ℕ
month_of d = let m = march_month (era_day d) in if ltb m 10 then m + 3 else m - 9

abbrev pub date_of_month : ℕ → ℕ
date_of_month d = year_day (era_day d) - (153 * march_month (era_day d) + 2) / 5 + 1

abbrev pub year_of : ℕ → ℕ
year_of d = (d + 306) / 146097 * 400 + era_year (era_day d) + (if ltb (month_of d) 3 then 1 else 0)

abbrev digit : ℕ → ℕ
digit n = 48 + n % 10

-- `probe.Format("20060102")`, for the years below 10000
unfoldable pub format_date : ℕ → Text
format_date t =
    let d = day_of t in
    digit (year_of d / 1000)
    ∷ digit (year_of d / 100)
    ∷ digit (year_of d / 10)
    ∷ digit (year_of d)
    ∷ digit (month_of d / 10)
    ∷ digit (month_of d)
    ∷ digit (date_of_month d / 10)
    ∷ digit (date_of_month d)
    ∷ []

-- A report is kept for a positive time, for 24 hours at most. One of today or later that is stored
-- before 17:00 is kept for 30 minutes at most and not beyond 17:00, and any other one for 24 hours.
pub ttl_for_as_of_bounds :
    (as_of now : ℕ)
    → (0 < ttl_for_as_of as_of now)
      × (ttl_for_as_of as_of now ≤ closed_session_ttl)
      × ((ttl_for_as_of as_of now ≡ closed_session_ttl)
          ⊎ ((day_of now ≤ day_of as_of)
              × (ttl_for_as_of as_of now ≤ min_today_ttl)
              × (local now + ttl_for_as_of as_of now ≤ day_of now * day + tw_publish_hour * hour)))
      × ((day_of as_of < day_of now)
          ⊎ (day_of now * day + tw_publish_hour * hour ≤ local now)
          ⊎ (ttl_for_as_of as_of now ≤ min_today_ttl))
unfolding ttl_for_as_of
ttl_for_as_of_bounds as_of now = (ground arith, ground arith, ground arith, ground arith)
