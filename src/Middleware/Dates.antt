-- ===== src/Middleware/Dates.antt =====
-- middleware/date.go. An instant is its nanoseconds since the zero time; `parse_date` is
-- time.ParseInLocation with the layout 2006-01-02, and `set_date` what `NowFor` makes of the date of
-- one instant and the clock of another: time.Date with the fields of both.
use imagelet.Base.{ℕ, ◌+◌, ◌*◌, ◌^◌, ◌||◌, [], ◌∷◌, Option, none, some, ltb, ◌==◌, if◌then◌else◌}
use imagelet.Base.Text.{Text, codes}
use imagelet.Middleware.Context.{Inbound, Context}
use imagelet.Middleware.Zones.{get_location}

abbrev pub hour : ℕ
hour = 3600 * 10 ^ 9

abbrev pub date_override_min_age : ℕ
date_override_min_age = 15 * 365 * 24 * hour

abbrev pub date_override_max_future : ℕ
date_override_max_future = 24 * hour

module _ {L : Type 0} (local : L) (load : Text → Option L) (parse_date : Text → L → Option ℕ)
    (set_date : (override now : ℕ) → L → ℕ) where
  -- the test of the range and what follows it; `t + age < now` is `t.Before(now.Add(-age))`
  unfoldable pub stash_date : Option ℕ → ℕ → Context L → Context L
  stash_date none now c = c
  stash_date (some t) now c =
      if ltb (t + date_override_min_age) now || ltb (now + date_override_max_future) t
      then c
      else record c { date = some (t + 12 * hour) }

  unfoldable pub parsed : Text → Context L → Option ℕ
  unfolding get_location
  parsed v c = parse_date v (get_location load local c)

  unfoldable pub dated : Text → ℕ → Context L → Context L
  unfolding stash_date parsed
  dated [] now c = c
  dated (d ∷ v) now c = stash_date (parsed (d ∷ v) c) now c

  -- `DateOverrideDetector`
  unfoldable pub detect_date : Inbound → ℕ → Context L → Context L
  unfolding dated
  detect_date r now c = dated (r.query (codes "date")) now c

  unfoldable pub not_zero : Option ℕ → Option ℕ
  not_zero none = none
  not_zero (some t) = if t == 0 then none else some t

  unfoldable pub get_date : Context L → Option ℕ
  unfolding not_zero
  get_date c = not_zero c.date

  on_day : Option ℕ → ℕ → L → ℕ
  on_day none now loc = now
  on_day (some override) now loc = set_date override now loc

  unfoldable pub now_for : ℕ → Context L → ℕ
  unfolding get_date on_day get_location
  now_for now c = on_day (get_date c) now (get_location load local c)
