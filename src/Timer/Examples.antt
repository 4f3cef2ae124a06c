-- ===== src/Timer/Examples.antt =====
-- The theorems on timers at concrete times.
use app_mesh.Prelude.{ℕ, ◌+◌, ◌*◌, ◌≤◌, none, some, refl}
use app_mesh.Timer.{
  AppTimer, DailyLimitation, plain, period, second, day_seconds, next_time, next_time_of,
  next_time_plain, check_start_time, adjust_daily_time_range,
}
use app_mesh.Timer.Bounds.{next_time-le-end}

abbrev office_hours : DailyLimitation
office_hours = record {
  start_time = "09:00:00";
  end_time = "17:00:00";
  start_time_value = 32400;
  end_time_value = 61200;
}

abbrev night_shift : DailyLimitation
night_shift = record {
  start_time = "22:00:00";
  end_time = "06:00:00";
  start_time_value = 79200;
  end_time_value = 21600;
}

-- hour h of the hundredth day
abbrev hour : ℕ → ℕ
hour h = (100 * day_seconds + h * 3600) * second

abbrev office : AppTimer
office = record {
  start_time = hour 0;
  end_time = hour 1000;
  daily_limit = some office_hours;
  kind = plain;
}

abbrev hourly : AppTimer
hourly = record {
  start_time = hour 0;
  end_time = hour 1000;
  daily_limit = none;
  kind = period 3600;
}

next_time-le-end_example : hour 9 ≤ hour 1000
unfolding next_time next_time_of next_time_plain check_start_time adjust_daily_time_range
next_time-le-end_example = next_time-le-end office (hour 8) refl
