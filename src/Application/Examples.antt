-- ===== src/Application/Examples.antt =====
-- The theorems on an application that runs every hour.
use app_mesh.Prelude.{
  ℕ, ◌≤◌, ◌*◌, ◌≡◌, Bool, true, false, none, some, [], ◌∷◌, refl, arith, length, ◌+◌,
}
use app_mesh.Prelude.Int.{ℤ, pos}
use app_mesh.Timer.{
  AppTimer, period, next_time, is_in_daily_time_range, second, check_start_time, next_time_of,
  next_time_period, adjust_daily_time_range, in_daily_window,
}
use app_mesh.Application.State.{
  enabled, restart, Processes, Timers, Application, spawning, invalid_pid, exit_action,
  remove_timer, cancel_timer, is_status, is_enabled, available, enable, check_and_update_health,
  register_timer, set_next_launch,
}
use app_mesh.Application.Actions.{
  schedule_next, on_exit, act_on_exit, kill_process, process_running, refresh_process,
  refresh_buffer, refresh_status, stop_invalid_run, check_run, execute, clean_old_process,
  start_process, spawn, disable, destroy,
}
use app_mesh.Application.Stop.{execute-stops}
use app_mesh.Application.Launch.{schedule_next_lem}
use app_mesh.Application.Lifetime.{next}

-- A process is whether it runs.
abbrev os : Processes Bool
os = record {
  running = λ p. p;
  wait = λ p. (p, false);
  return_value = λ p. pos 0;
  getpid = λ p. pos 100;
  killgroup = λ p. false;
  delay_kill = λ n p. p;
}

abbrev reactor : Timers → ℤ
reactor timers = pos (length timers + 1)

abbrev hourly : AppTimer
hourly = record {
  start_time = 7200 * second;
  end_time = 1000000 * second;
  daily_limit = none;
  kind = period 3600;
}

abbrev idle : Application Bool
idle = record {
  timer = hourly;
  status = enabled;
  end_time_value = 0;
  start_interval = 3600;
  buffer_time = 0;
  behavior = record { exit_event = restart; exit_code_event = [] };
  return = none;
  process = none;
  buffer_process = none;
  pid = invalid_pid;
  next_launch_time = none;
  next_start_timer_id = pos 0;
  suicide_timer_id = pos 0;
  health_check_cmd = "";
  health = true;
  timers = [];
}

abbrev launched : Application Bool
launched = record idle {
  next_launch_time = some (10800 * second);
  next_start_timer_id = pos 1;
  timers = (pos 1, spawning) ∷ [];
}

abbrev restarted : Application Bool
restarted = record launched {
  next_launch_time = some (11800 * second);
  next_start_timer_id = pos 2;
  timers = (pos 2, spawning) ∷ (pos 1, spawning) ∷ [];
}

abbrev over : Application Bool
over = record idle { process = some true; pid = pos 100; end_time_value = 5 }

abbrev over_stopped : Application Bool
over_stopped = record over { process = some false; pid = invalid_pid; health = false }

daemon : Unit {0}
unfolding next_time next_time_of next_time_period check_start_time adjust_daily_time_range
    is_in_daily_time_range in_daily_window exit_action remove_timer cancel_timer is_status
    is_enabled available enable check_and_update_health register_timer set_next_launch schedule_next
    on_exit act_on_exit kill_process refresh_process refresh_buffer refresh_status stop_invalid_run
    check_run execute clean_old_process start_process spawn disable destroy
daemon = tt

first_launch : schedule_next os reactor 0 idle ≡ some launched
unfolding daemon
first_launch = refl

second_launch : schedule_next os reactor (8200 * second) launched ≡ some restarted
unfolding daemon
second_launch = refl

over_executed : execute os reactor 10 10 over ≡ some over_stopped
unfolding daemon
over_executed = refl

schedule_next_lem_example :
    (next : ℕ) × (launched.next_launch_time ≡ some next)
    × (next ≤ 1000000 * second)
    × (launched.next_start_timer_id ≡ pos 1)
    × (launched.timers ≡ ((pos 1, spawning) ∷ []))
schedule_next_lem_example = schedule_next_lem os reactor 0 idle first_launch (λ e. ground arith)

execute-stops_example : process_running os reactor over_stopped ≡ false
unfolding daemon
execute-stops_example = execute-stops os reactor 10 10 over (λ p. refl) refl refl over_executed

abbrev started : Application Bool
started = record launched { process = some true; pid = pos 7 }
