-- ===== src/Timer.antt =====
-- src/daemon/application/AppTimer.h and .cpp, and the record of src/daemon/DailyLimitation.h.
-- A `system_clock::time_point` is the number of nanoseconds since the epoch, so that `to_time_t`
-- is a division; times before the epoch do not occur. A time of day is in whole seconds, as
-- `DateTime::pickDayTimeUtcDuration` gives it, and `EPOCH_ZERO_TIME` is 0.
pub mod Bounds
pub mod Window
mod Examples
use app_mesh.Prelude.{
  ℕ, ◌+◌, ◌-◌, ◌*◌, ◌/◌, ◌%◌, Bool, true, false, not, ◌&&◌, ◌||◌, Option, none, some, String, ltb,
  leb, ◌==◌, if◌then◌else◌, str_eq,
}

abbrev pub second : ℕ
second = 1000000000

abbrev pub day_seconds : ℕ
day_seconds = 86400

abbrev pub epoch_zero_time : ℕ
epoch_zero_time = 0

pub record DailyLimitation : Type 0 where
  pub start_time : String
  pub end_time : String
  pub start_time_value : ℕ
  pub end_time_value : ℕ

-- DailyLimitation::operator==, whose argument may be null.
unfoldable pub daily_eq : DailyLimitation → Option DailyLimitation → Bool
daily_eq d none = false
daily_eq d (some o) = str_eq d.start_time o.start_time && str_eq d.end_time o.end_time

-- `intervalSeconds` of a periodic timer is positive: `Application::FromJson` asserts it.
-- The cron timer carries the function `cron::cron_next(m_cron, _)` of croncpp, over `time_t`.
pub data Kind : Type 0 where
  plain : Kind
  period : ℕ → Kind
  cron : (ℕ → ℕ) → Kind

pub record AppTimer : Type 0 where
  pub start_time : ℕ
  pub end_time : ℕ
  pub daily_limit : Option DailyLimitation
  pub kind : Kind

-- The constructors; `now` and `now'` are the two readings of the clock.
unfoldable pub make_timer : ℕ → ℕ → ℕ → ℕ → Option DailyLimitation → Kind → AppTimer
make_timer now now' start end limit kind = record {
  start_time = if start == epoch_zero_time then now else start;
  end_time = if end == epoch_zero_time then now' + 24 * 365 * 10 * 3600 * second else end;
  daily_limit = limit;
  kind = kind;
}

unfoldable pub to_time_t : ℕ → ℕ
to_time_t t = t / second

unfoldable pub from_time_t : ℕ → ℕ
from_time_t t = t * second

unfoldable pub pick_day_time_utc_duration : ℕ → ℕ
unfolding to_time_t
pick_day_time_utc_duration t = to_time_t t % day_seconds

-- The branch for a window inside one day.
unfoldable pub adjust_day_window : DailyLimitation → ℕ → ℕ → ℕ
adjust_day_window d now target =
    if ltb now d.start_time_value || leb d.end_time_value now
    then (if ltb now d.start_time_value
        then target + (d.start_time_value - now) * second
        else if ltb d.end_time_value now
        then target + (day_seconds + (now - d.end_time_value)) * second
        else target)
    else target

-- The branch for a window across midnight. The last sum is `target` plus a difference of seconds
-- that may be negative; `target` holds `now` seconds and more, so it stays above the epoch.
unfoldable pub adjust_night_window : DailyLimitation → ℕ → ℕ → ℕ
adjust_night_window d now target =
    if leb d.end_time_value now || ltb now d.start_time_value
    then (if ltb now d.start_time_value
        then target + (d.start_time_value - now) * second
        else if ltb d.end_time_value now
        then target + day_seconds * second - (d.end_time_value + now) * second
        else target)
    else target

unfoldable pub adjust_daily_time_range : Option DailyLimitation → ℕ → ℕ
unfolding adjust_day_window adjust_night_window pick_day_time_utc_duration
adjust_daily_time_range none target = target
adjust_daily_time_range (some d) target =
    let now = pick_day_time_utc_duration target in
    if ltb d.start_time_value d.end_time_value
    then adjust_day_window d now target
    else if ltb d.end_time_value d.start_time_value
    then adjust_night_window d now target
    else target

-- Step 2 of `isInDailyTimeRange`.
unfoldable pub in_daily_window : Option DailyLimitation → ℕ → Bool
unfolding pick_day_time_utc_duration
in_daily_window none target = true
in_daily_window (some d) target =
    let now = pick_day_time_utc_duration target in
    if ltb d.start_time_value d.end_time_value
    then leb d.start_time_value now && ltb now d.end_time_value
    else if ltb d.end_time_value d.start_time_value
    then not (leb d.end_time_value now && ltb now d.start_time_value)
    else true

unfoldable pub is_in_daily_time_range : AppTimer → ℕ → Bool
unfolding in_daily_window
is_in_daily_time_range t target =
    if ltb target t.start_time || ltb t.end_time target
    then false
    else in_daily_window t.daily_limit target

unfoldable pub check_start_time : AppTimer → ℕ → ℕ
check_start_time t target =
    let next = if ltb target t.start_time then t.start_time else target in
    adjust_daily_time_range t.daily_limit next

unfoldable pub next_time_plain : AppTimer → ℕ → ℕ
next_time_plain t now =
    let next = check_start_time t now in if ltb t.end_time next then epoch_zero_time else next

-- `none` is the division by zero for a timer that starts within the first second of the epoch.
unfoldable pub next_time_period : AppTimer → ℕ → ℕ → Option ℕ
unfolding to_time_t from_time_t
next_time_period t interval now =
    let next = check_start_time t now in
    if ltb next t.end_time
    then (if to_time_t t.start_time == 0
        then none
        else let later =
            adjust_daily_time_range t.daily_limit
              (from_time_t (to_time_t next + interval % to_time_t t.start_time)) in
          some (if leb later t.end_time then later else epoch_zero_time))
    else some epoch_zero_time

-- std::abs(a - b)
unfoldable pub abs_diff : ℕ → ℕ → ℕ
abs_diff a b = (a - b) + (b - a)

unfoldable pub next_time_cron : AppTimer → (ℕ → ℕ) → ℕ → ℕ
unfolding to_time_t from_time_t abs_diff
next_time_cron t cron_next now =
    let next = check_start_time t now in
    if ltb next t.end_time
    then (let first = cron_next (to_time_t next) in
        let chosen =
          if abs_diff first (to_time_t next) == 1
          then cron_next (to_time_t (next + 60 * second))
          else first in
        let later = adjust_daily_time_range t.daily_limit (from_time_t chosen) in
        if leb later t.end_time then later else epoch_zero_time)
    else epoch_zero_time

-- The virtual `nextTime`.
unfoldable pub next_time_of : Kind → AppTimer → ℕ → Option ℕ
next_time_of plain t now = some (next_time_plain t now)
next_time_of (period interval) t now = next_time_period t interval now
next_time_of (cron cron_next) t now = some (next_time_cron t cron_next now)

unfoldable pub next_time : AppTimer → ℕ → Option ℕ
unfolding next_time_of
next_time t now = next_time_of t.kind t now
