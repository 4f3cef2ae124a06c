-- ===== src/Application/Stop.antt =====
-- When an application's process is stopped: disable, destroy and execute of
-- src/daemon/application/Application.cpp.
use app_mesh.Prelude.{
  inl, inr, ℕ, Bool, true, false, ◌&&◌, some, [], ◌∷◌, if◌then◌else◌, ◌≡◌, refl, arith,
  Option-cases,
}
use app_mesh.Prelude.Int.{ℤ, eqb_ℤ}
use app_mesh.Timer.{is_in_daily_time_range}
use app_mesh.Application.State.{
  not_available, Processes, Timers, Application, is_status, is_enabled, available,
}
use app_mesh.Application.Actions.{
  kill_process, process_running, stop_invalid_run, check_run, execute, spawn, disable,
}
use app_mesh.Application.Frames.{execute-Calms}

-- A timer of that id is in the table.
abbrev pub pending : ℤ → Timers → Bool
pending id [] = false
pending id ((i, c) ∷ timers) = if eqb_ℤ i id then true else pending id timers

module _ {P : Type 0} (os : Processes P) (schedule_timer : Timers → ℤ) where
  pub disable-is_enabled : (a : Application P) → is_enabled (disable os schedule_timer a) ≡ false
  unfolding disable kill_process is_enabled is_status
  disable-is_enabled a = elim (Option-cases a.process) [
    | inl n ↦ ground arith
    | inr (p, n) ↦ ground arith
  ]

  pub disable-buffer_process :
      (a : Application P) → (disable os schedule_timer a).buffer_process ≡ a.buffer_process
  unfolding disable kill_process
  disable-buffer_process a = ground arith

  pub spawn-idle :
      (started : P) (pid : ℤ) (now : ℕ) (a : Application P)
      → is_enabled a ≡ false
      → spawn os schedule_timer started pid now a ≡ some a
  unfolding spawn
  spawn-idle started pid now a e = rw (e) refl

  pub disable-process_running :
      (a : Application P)
      → ((p : P) → os.running (os.killgroup p) ≡ false)
      → process_running os schedule_timer (disable os schedule_timer a) ≡ false
  unfolding disable kill_process
  disable-process_running a killed = elim (Option-cases a.process) [
    | inl n ↦ ground arith
    | inr (p, n) ↦ ground (arith, killed p)
  ]

  check_run-stops :
      (now : ℕ) (a : Application P)
      → ((p : P) → os.running (os.killgroup p) ≡ false)
      → (available now a && is_in_daily_time_range a.timer now) ≡ false
      → is_status a.status not_available ≡ false
      → process_running os schedule_timer (check_run os schedule_timer now a).0 ≡ false
  unfolding check_run stop_invalid_run kill_process
  check_run-stops now a killed out s = elim (Option-cases a.process) [
    | inl n ↦ ground arith
    | inr (p, n) ↦ ground (arith, killed p)
  ]

  -- Where killing a process ends it: after an application that is not about to go away was executed
  -- at a time when it is disabled, over, or out of its daily range, its current process (m_process) does not run.
  pub execute-stops :
      (now later : ℕ) (a : Application P) {b : Application P}
      → ((p : P) → os.running (os.killgroup p) ≡ false)
      → (available now a && is_in_daily_time_range a.timer now) ≡ false
      → is_status a.status not_available ≡ false
      → execute os schedule_timer now later a ≡ some b
      → process_running os schedule_timer b ≡ false
  execute-stops now later a killed out s e =
      (execute-Calms os schedule_timer now later a e).0 (check_run-stops now a killed out s)
