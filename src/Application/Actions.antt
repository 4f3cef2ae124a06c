-- ===== src/Application/Actions.antt =====
-- The operations of src/daemon/application/Application.cpp that handle the process or register timers.
use app_mesh.Prelude.{ℕ, ◌+◌, Bool, false, not, ◌&&◌, Option, none, some, ltb, if◌then◌else◌}
use app_mesh.Prelude.Int.{ℤ, pos, pos_part}
use app_mesh.Timer.{next_time, is_in_daily_time_range, second}
use app_mesh.Application.State.{
  Action, disabled, not_available, standby, restart, keepalive, remove, exit_action, Processes,
  spawning, suicide, Timers, Application, invalid_pid, is_positive, is_none, ◌>>=◌, cancel_timer,
  is_status, is_enabled, available, check_and_update_health, register_timer, set_next_launch,
}

-- `schedule_timer` is the call of the reactor, which gives the id of a new timer.
module _ {P : Type 0} (os : Processes P) (schedule_timer : Timers → ℤ) where
  -- `none` is the division by zero of a periodic timer.
  unfoldable pub schedule_next : ℕ → Application P → Option (Application P)
  unfolding set_next_launch
  schedule_next now a = elim (next_time a.timer now) [
    | none ↦ none
    | some next ↦ some (set_next_launch (schedule_timer a.timers) next a)
  ]

  unfoldable pub reg_suicide_timer : Application P → Application P
  unfolding register_timer
  reg_suicide_timer a =
      let id = schedule_timer a.timers in
      record (register_timer id suicide a) { suicide_timer_id = id }

  -- The cases of onExit.
  unfoldable pub act_on_exit : Action → ℕ → Application P → Option (Application P)
  unfolding register_timer
  act_on_exit standby now a = some a
  act_on_exit restart now a = schedule_next now a
  act_on_exit keepalive now a =
      some (
        register_timer (schedule_timer a.timers) spawning
          (record a { next_launch_time = some now }))
  act_on_exit remove now a = some (reg_suicide_timer a)

  unfoldable pub on_exit : ℕ → ℤ → Application P → Option (Application P)
  unfolding exit_action
  on_exit now code a = act_on_exit (exit_action a.behavior code) now a

  unfoldable pub kill_process : Application P → Application P
  kill_process a = elim a.process [
    | none ↦ a
    | some p ↦ record a { process = some (os.killgroup p) }
  ]

  abbrev pub process_running : Application P → Bool
  process_running a = elim a.process [ none ↦ false | some p ↦ os.running p ]

  -- Step 1 of refreshStatus, for the process that there is.
  unfoldable pub refresh_process : ℕ → P → Application P → Option (Application P)
  unfolding on_exit
  refresh_process now p a =
      if os.running p
      then (let waited = os.wait p in
          let seen = record a { pid = os.getpid p; process = some waited.0 } in
          if waited.1
          then on_exit now (os.return_value waited.0)
              (record seen { return = some (os.return_value waited.0); pid = invalid_pid })
          else some seen)
      else if is_positive a.pid
      then on_exit now (os.return_value p)
          (record a { return = some (os.return_value p); pid = invalid_pid })
      else some a

  -- Step 2, which reads the return value of the process, not of the buffer process.
  unfoldable pub refresh_buffer : Application P → Application P
  refresh_buffer a = elim a.buffer_process [
    | none ↦ a
    | some b ↦
        if os.running b
        then (let waited = os.wait b in
            let seen = record a { buffer_process = some waited.0 } in
            if waited.1
            then record seen {
              return = elim a.process [ none ↦ none | some p ↦ some (os.return_value p) ];
            }
            else seen)
        else a
  ]

  unfoldable pub refresh_status : ℕ → Application P → Option (Application P)
  unfolding refresh_process refresh_buffer check_and_update_health
  refresh_status now a = do
    refreshed ← elim a.process [ none ↦ some a | some p ↦ refresh_process now p a ]
    some (check_and_update_health (refresh_buffer refreshed))

  -- The kill in the two first branches of execute.
  unfoldable pub stop_invalid_run : Application P → Application P
  unfolding kill_process
  stop_invalid_run a = record (kill_process a) { pid = invalid_pid; next_launch_time = none }

  -- The branches of execute before it schedules, and whether it does.
  unfoldable pub check_run : ℕ → Application P → Application P × Bool
  unfolding available stop_invalid_run is_status
  check_run now a =
      if available now a
      then (let b =
            if process_running a && not (is_in_daily_time_range a.timer now)
            then stop_invalid_run a
            else a in
          (b, is_none b.next_launch_time))
      else (
        if not (is_status a.status not_available) && process_running a
            then stop_invalid_run a
            else a,
        false,
      )

  -- `now` is read at the start, and `later` by the refresh at the end.
  unfoldable pub execute : ℕ → ℕ → Application P → Option (Application P)
  unfolding check_run schedule_next refresh_status
  execute now later a = do
    let checked = check_run now a
    scheduled ← if checked.1 then schedule_next now checked.0 else some checked.0
    refresh_status later scheduled

  -- The old process goes on for the buffer time, if there is one.
  unfoldable pub clean_old_process : Application P → Application P
  unfolding kill_process
  clean_old_process a =
      if process_running a
      then (if ltb 0 a.buffer_time
          then record a {
            buffer_process = elim a.process [
              | none ↦ none
              | some p ↦ some (os.delay_kill a.buffer_time p)
            ];
          }
          else kill_process a)
      else a

  -- Steps 1 to 3 of spawn. `started` is the process object once it was spawned, and `pid` what the
  -- spawn gave.
  unfoldable pub start_process : P → ℤ → Application P → Application P
  unfolding clean_old_process
  start_process started pid a = record (clean_old_process a) { process = some started; pid = pid }

  -- The callback of a timer.
  unfoldable pub spawn : P → ℤ → ℕ → Application P → Option (Application P)
  unfolding start_process schedule_next is_enabled
  spawn started pid now a =
      if is_enabled a
      then (let b = start_process started pid a in
          if ltb 0 a.start_interval then schedule_next (now + second) b else some b)
      else some a

  unfoldable pub disable : Application P → Application P
  unfolding cancel_timer kill_process is_enabled
  disable a =
      let cancelled = record a {
        next_start_timer_id = pos 0;
        timers = cancel_timer a.next_start_timer_id a.timers;
      } in
      let stopped =
        if is_enabled cancelled
        then record cancelled { status = disabled; return = none }
        else cancelled in
      record (kill_process stopped) { next_launch_time = none }

  unfoldable pub destroy : Application P → Application P
  unfolding disable
  destroy a =
      let b = disable a in
      record b {
        status = not_available;
        suicide_timer_id = pos 0;
        next_start_timer_id = pos 0;
        timers = cancel_timer b.next_start_timer_id (cancel_timer b.suicide_timer_id b.timers);
      }

  -- runAsyncrize and runSyncrize with runApp: a docker application is refused once its process object
  -- is there, and the others are spawned. `started` is the object after that, with its delayed kill.
  unfoldable pub run_app : Bool → P → P → ℤ → Application P → Application P
  run_app is_docker allocated started pid a =
      if is_docker
      then record a { process = some allocated }
      else record a { process = some started; pid = pid }

module _ {P : Type 0} (os : Processes P) (attach_process : ℤ → P) where
  -- The old process is killed, and its object given up.
  unfoldable pub attach : ℤ → Application P → Application P
  attach pid a =
      if ltb 1 (pos_part pid)
      then record a { process = some (attach_process pid); pid = os.getpid (attach_process pid) }
      else a
