-- ===== src/Application/Lifetime.antt =====
-- The application as a state machine: its operations, its timers and the end of its process happen in
-- any order (src/daemon/application/Application.cpp).
use app_mesh.Prelude.{ℕ, Bool, true, false, some, ◌≡◌}
use app_mesh.Prelude.Int.{ℤ}
use app_mesh.Application.State.{
  Processes, Timers, Application, enable, is_status, disabled, not_available,
}
use app_mesh.Application.Actions.{
  process_running, execute, spawn, disable, destroy, run_app, attach,
}
use app_mesh.Application.Stop.{disable-process_running, disable-buffer_process}

module _ {P : Type 0} (os : Processes P) (schedule_timer : Timers → ℤ) where
  -- One step: the regular `execute`, a timer that starts a process, the requests, or the process
  -- changing by itself. A single run is asked for an application that is not available, as
  -- parseAndRegRunApp makes it, and a process is attached to an application that is not disabled.
  pub data Step : Application P → Application P → Type 0 where
    executes :
        {a b : Application P} (now later : ℕ)
        → execute os schedule_timer now later a ≡ some b
        → Step a b
    spawns :
        {a b : Application P} (started : P) (pid : ℤ) (now : ℕ)
        → spawn os schedule_timer started pid now a ≡ some b
        → Step a b
    enables : {a : Application P} → Step a (enable a)
    disables : {a : Application P} → Step a (disable os schedule_timer a)
    destroys : {a : Application P} → Step a (destroy os schedule_timer a)
    ends :
        {a : Application P} (p : P) → os.running p ≡ false → Step a (record a { process = some p })
    runs :
        {a : Application P} (is_docker : Bool) (allocated started : P) (pid : ℤ)
        → is_status a.status not_available ≡ true
        → Step a (run_app os schedule_timer is_docker allocated started pid a)
    attaches :
        {a : Application P} (attach_process : ℤ → P) (pid : ℤ)
        → is_status a.status disabled ≡ false
        → Step a (attach os attach_process pid a)

  pub data Reaches : Application P → Application P → Type 0 where
    here : {a : Application P} → Reaches a a
    next : {a b c : Application P} → Reaches a b → Step b c → Reaches a c

  -- The current process of an application that is disabled does not run.
  abbrev pub Quiet : Application P → Type 0
  Quiet a = is_status a.status disabled ≡ true → process_running os schedule_timer a ≡ false

  pub destroy-process_running :
      (a : Application P)
      → ((p : P) → os.running (os.killgroup p) ≡ false)
      → process_running os schedule_timer (destroy os schedule_timer a) ≡ false
  unfolding destroy
  destroy-process_running a killed = disable-process_running os schedule_timer a killed

  pub destroy-buffer_process :
      (a : Application P) → (destroy os schedule_timer a).buffer_process ≡ a.buffer_process
  unfolding destroy
  destroy-buffer_process a = disable-buffer_process os schedule_timer a
