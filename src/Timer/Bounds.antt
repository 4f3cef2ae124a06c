-- ===== src/Timer/Bounds.antt =====
-- When the timers of src/daemon/application/AppTimer.cpp fire: bounds and exact times.
use app_mesh.Prelude.{ℕ, ◌+◌, ◌*◌, ◌/◌, ◌≤◌, ◌<◌, ◌≡◌, ◌≢◌, none, some, ltb, if◌then◌else◌, arith}
use native.Mathlib.Nat.{mod-eq_of_lt}
use app_mesh.Timer.{
  epoch_zero_time, adjust_daily_time_range, check_start_time, second, AppTimer, Kind, plain, period,
  cron, second, check_start_time, next_time, next_time_of, next_time_plain, next_time_period,
  next_time_cron, adjust_daily_time_range,
}

next_time_of-bound :
    (k : Kind) (t : AppTimer) (now : ℕ) {r : ℕ} → next_time_of k t now ≡ some r → r ≤ t.end_time
unfolding next_time_of next_time_plain next_time_period next_time_cron
next_time_of-bound plain t now e = ground arith
next_time_of-bound (period i) t now e = ground arith
next_time_of-bound (cron f) t now e = ground arith

-- Whatever the kind of timer, the launch time that it gives is never past the end time.
pub next_time-le-end : (t : AppTimer) (now : ℕ) {r : ℕ} → next_time t now ≡ some r → r ≤ t.end_time
unfolding next_time
next_time-le-end t now e = next_time_of-bound t.kind t now e

-- A periodic timer with no daily window launches a whole interval after the second in which it
-- is asked, or after the start time if that is still to come: unless it does not launch at all,
-- the launches are not aligned to the start time.
pub next_time_period_lem :
    (t : AppTimer) (interval now : ℕ) {r : ℕ}
    → t.kind ≡ period interval
    → t.daily_limit ≡ none
    → interval < t.start_time / second
    → next_time t now ≡ some r
    → r ≢ epoch_zero_time
    → (now < t.end_time)
      × (r
          ≡ (if ltb now t.start_time then t.start_time else now) / second * second
            + interval * second)
unfolding next_time next_time_of next_time_period check_start_time adjust_daily_time_range
next_time_period_lem t interval now k l b e n = ground (arith, mod-eq_of_lt b)

next_time_of-ne-none :
    (k : Kind) (t : AppTimer) (now : ℕ) → second ≤ t.start_time → next_time_of k t now ≢ none
unfolding next_time_of next_time_period
next_time_of-ne-none plain t now h = ground arith
next_time_of-ne-none (period i) t now h = ground arith
next_time_of-ne-none (cron f) t now h = ground arith

-- No timer that starts after the first second of the epoch divides by zero.
pub next_time-ne-none : (t : AppTimer) (now : ℕ) → second ≤ t.start_time → next_time t now ≢ none
unfolding next_time
next_time-ne-none t now h = next_time_of-ne-none t.kind t now h
