-- ===== src/Timer/Window.antt =====
-- How `AppTimer::adjustDailyTimeRange` and `isInDailyTimeRange` fit together.
use app_mesh.Prelude.{ℕ, ◌+◌, ◌*◌, ◌≤◌, ◌<◌, ◌≡◌, ◌⊎◌, ◌↔◌, some, true, false, arith}
use app_mesh.Timer.{
  AppTimer, DailyLimitation, plain, second, day_seconds, check_start_time, next_time, next_time_of,
  next_time_plain, adjust_daily_time_range, pick_day_time_utc_duration, in_daily_window,
  is_in_daily_time_range,
}

-- A window that opens and closes on the same day.
abbrev pub IsDayWindow : DailyLimitation → Type 0
IsDayWindow d = (d.start_time_value < d.end_time_value) × (d.end_time_value ≤ day_seconds)

-- A window that lasts over midnight.
abbrev pub IsNightWindow : DailyLimitation → Type 0
IsNightWindow d = (d.end_time_value < d.start_time_value) × (d.start_time_value ≤ day_seconds)

module _ (d : DailyLimitation) (target : ℕ) where
  -- With a window inside one day and before it opens, the target moves to the second of the same day in which it opens, which is in the window.
  pub adjust-opening :
      IsDayWindow d
      → pick_day_time_utc_duration target < d.start_time_value
      → (pick_day_time_utc_duration (adjust_daily_time_range (some d) target) ≡ d.start_time_value)
        × (target ≤ adjust_daily_time_range (some d) target)
        × (adjust_daily_time_range (some d) target < target + day_seconds * second)
        × (in_daily_window (some d) (adjust_daily_time_range (some d) target) ≡ true)
  unfolding adjust_daily_time_range in_daily_window
  adjust-opening w h = ground arith

  -- With a window inside one day, a target stays as it is exactly when it is in the window, or at
  -- the very second in which the window closes, which is outside of it.
  pub adjust_fixed_iff :
      IsDayWindow d
      → (adjust_daily_time_range (some d) target ≡ target) ↔ (
          (in_daily_window (some d) target ≡ true)
          ⊎ (pick_day_time_utc_duration target ≡ d.end_time_value))
  unfolding adjust_daily_time_range in_daily_window
  adjust_fixed_iff w = (λ e. ground arith, λ h. ground arith)

  -- With a window inside one day, a target after the closing time is moved to a time that is
  -- outside the window again, as long as twice its time of day less the closing time is under a day.
  pub adjust-past_closing :
      IsDayWindow d
      → d.end_time_value < pick_day_time_utc_duration target
      → 2 * pick_day_time_utc_duration target < day_seconds + d.end_time_value
      → in_daily_window (some d) (adjust_daily_time_range (some d) target) ≡ false
  unfolding adjust_daily_time_range in_daily_window
  adjust-past_closing w h k = ground arith

  -- With a window over midnight, a target that is in the window and after its opening is moved into
  -- the past, once its time of day and the closing time make up more than a day.
  pub adjust_night-backwards :
      IsNightWindow d
      → d.start_time_value ≤ pick_day_time_utc_duration target
      → day_seconds < d.end_time_value + pick_day_time_utc_duration target
      → (in_daily_window (some d) target ≡ true)
        × (adjust_daily_time_range (some d) target < target)
  unfolding adjust_daily_time_range in_daily_window
  adjust_night-backwards w h k = ground arith

-- A plain timer with a window inside one day launches at once when it is asked inside its range.
pub next_time_launches :
    (t : AppTimer) (d : DailyLimitation) (now : ℕ)
    → t.kind ≡ plain
    → t.daily_limit ≡ some d
    → IsDayWindow d
    → is_in_daily_time_range t now ≡ true
    → next_time t now ≡ some now
unfolding next_time next_time_of next_time_plain check_start_time is_in_daily_time_range
    adjust_daily_time_range in_daily_window
next_time_launches t d now k l w h = ground arith
