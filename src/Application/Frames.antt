-- ===== src/Application/Frames.antt =====
-- What the operations of an application leave alone, and what they do to its process.
use app_mesh.Prelude.{◌+◌, ltb, inl, inr, ℕ, false, some, ◌≡◌, ◌∙◌, arith, Bool-cases, Option-cases}
use app_mesh.Prelude.Int.{ℤ}
use app_mesh.Timer.{second, next_time}
use app_mesh.Application.State.{
  is_enabled, Action, standby, restart, keepalive, remove, exit_action, Processes, Timers,
  Application, check_and_update_health, register_timer, set_next_launch, is_positive, invalid_pid,
}
use app_mesh.Application.Actions.{
  spawn, start_process, clean_old_process, schedule_next, reg_suicide_timer, act_on_exit, on_exit,
  kill_process, process_running, refresh_process, refresh_buffer, refresh_status, stop_invalid_run,
  check_run, execute,
}

module _ {P : Type 0} (os : Processes P) (schedule_timer : Timers → ℤ) where
  -- The process and the status are those of the other application.
  abbrev pub Same : Application P → Application P → Type 0
  Same a b = (b.process ≡ a.process) × (b.status ≡ a.status)

  set_next_launch-Same :
      (id : ℤ) (next : ℕ) (a : Application P) → Same a (set_next_launch id next a)
  unfolding set_next_launch register_timer
  set_next_launch-Same id next a = (ground arith, ground arith)

  pub schedule_next-Same :
      (now : ℕ) (a : Application P) {b : Application P}
      → schedule_next os schedule_timer now a ≡ some b
      → Same a b
  unfolding schedule_next
  schedule_next-Same now a {b} e = elim (Option-cases (next_time a.timer now)) [
    | inl n ↦ absurd (ground arith)
    | inr (next, n) ↦
        let same = set_next_launch-Same (schedule_timer a.timers) next a in
        (ground (arith, same.0), ground (arith, same.1))
  ]

  act_on_exit-Same :
      (action : Action) (now : ℕ) (a : Application P) {b : Application P}
      → act_on_exit os schedule_timer action now a ≡ some b
      → Same a b
  unfolding act_on_exit reg_suicide_timer register_timer
  act_on_exit-Same standby now a e = (ground arith, ground arith)
  act_on_exit-Same restart now a e = schedule_next-Same now a e
  act_on_exit-Same keepalive now a e = (ground arith, ground arith)
  act_on_exit-Same remove now a e = (ground arith, ground arith)

  on_exit-Same :
      (now : ℕ) (code : ℤ) (a : Application P) {b : Application P}
      → on_exit os schedule_timer now code a ≡ some b
      → Same a b
  unfolding on_exit
  on_exit-Same now code a e = act_on_exit-Same (exit_action a.behavior code) now a e

  -- No process runs in the second application unless one runs in the first, and the status is the
  -- same.
  abbrev pub Calms : Application P → Application P → Type 0
  Calms a b =
      (process_running os schedule_timer a ≡ false → process_running os schedule_timer b ≡ false)
      × (b.status ≡ a.status)

  Same-Calms : (a b : Application P) → Same a b → Calms a b
  Same-Calms a b same = (λ h. rw (same.0) h, same.1)

  refresh_process-Calms :
      (now : ℕ) (p : P) (a : Application P) {b : Application P}
      → a.process ≡ some p
      → refresh_process os schedule_timer now p a ≡ some b
      → Calms a b
  unfolding refresh_process
  refresh_process-Calms now p a {b} q e = elim (Bool-cases (os.running p)) [
    | inl r ↦ (
      λ h. absurd (ground arith),
      let waited = os.wait p in
          let seen : Application P = record a {
            return = some (os.return_value waited.0);
            pid = invalid_pid;
            process = some waited.0;
          } in
          elim (Bool-cases waited.1) [
            | inl w ↦
                let same =
                  on_exit-Same now (os.return_value waited.0) seen {b = b} (ground arith) in
                ground (arith, same.1)
            | inr w ↦ ground arith
          ],
    )
    | inr r ↦ elim (Bool-cases (is_positive a.pid)) [
      | inl i ↦
          let seen : Application P = record a {
            return = some (os.return_value p);
            pid = invalid_pid;
          } in
          let same = on_exit-Same now (os.return_value p) seen {b = b} (ground arith) in
          Same-Calms a b (ground (arith, same.0), ground (arith, same.1))
      | inr i ↦ (λ h. ground arith, ground arith)
    ]
  ]

  refresh_buffer-Same : (a : Application P) → Same a (refresh_buffer os schedule_timer a)
  unfolding refresh_buffer
  refresh_buffer-Same a = elim (Option-cases a.buffer_process) [
    | inl n ↦ (ground arith, ground arith)
    | inr (p, n) ↦ (ground arith, ground arith)
  ]

  check_and_update_health-Same : (a : Application P) → Same a (check_and_update_health a)
  unfolding check_and_update_health
  check_and_update_health-Same a = (ground arith, ground arith)

  pub refresh_status-Calms :
      (now : ℕ) (a : Application P) {b : Application P}
      → refresh_status os schedule_timer now a ≡ some b
      → Calms a b
  unfolding refresh_status
  refresh_status-Calms now a {b} e = elim (Option-cases a.process) [
    | inl n ↦
        let buffer = refresh_buffer-Same a in
        let health = check_and_update_health-Same (refresh_buffer os schedule_timer a) in
        Same-Calms a b (ground (arith, buffer.0, health.0), ground (arith, buffer.1, health.1))
    | inr (p, n) ↦ elim (Option-cases (refresh_process os schedule_timer now p a)) [
      | inl r ↦ absurd (ground arith)
      | inr (c, r) ↦
          let calm = refresh_process-Calms now p a {b = c} n r in
          let buffer = refresh_buffer-Same c in
          let health = check_and_update_health-Same (refresh_buffer os schedule_timer c) in
          let last =
            Same-Calms c b
              (ground (arith, buffer.0, health.0), ground (arith, buffer.1, health.1)) in
          (λ h. last.0 (calm.0 h), last.1 ∙ calm.1)
    ]
  ]

  pub check_run-Calms :
      (now : ℕ) (a : Application P)
      → ((p : P) → os.running (os.killgroup p) ≡ false)
      → Calms a (check_run os schedule_timer now a).0
  unfolding check_run stop_invalid_run kill_process
  check_run-Calms now a killed = elim (Option-cases a.process) [
    | inl n ↦ (λ h. ground arith, ground arith)
    | inr (p, n) ↦ (λ h. ground (arith, killed p), ground arith)
  ]

  pub execute-Calms :
      (now later : ℕ) (a : Application P) {b : Application P}
      → execute os schedule_timer now later a ≡ some b
      → Calms (check_run os schedule_timer now a).0 b
  unfolding execute
  execute-Calms now later a {b} e =
      let checked = check_run os schedule_timer now a in
      elim (Bool-cases checked.1) [
        | inr f ↦ refresh_status-Calms later checked.0 {b = b} (ground arith)
        | inl f ↦ elim (Option-cases (schedule_next os schedule_timer now checked.0)) [
          | inl n ↦ absurd (ground arith)
          | inr (c, n) ↦
              let same = Same-Calms checked.0 c (schedule_next-Same now checked.0 n) in
              let calm = refresh_status-Calms later c {b = b} (ground arith) in
              (λ h. calm.0 (same.0 h), calm.1 ∙ same.1)
        ]
      ]

  start_process-status :
      (started : P) (pid : ℤ) (a : Application P)
      → (start_process os schedule_timer started pid a).status ≡ a.status
  unfolding start_process clean_old_process kill_process
  start_process-status started pid a = ground arith

  -- A timer that starts a process leaves the status as it is.
  pub spawn-status :
      (started : P) (pid : ℤ) (now : ℕ) (a : Application P) {b : Application P}
      → spawn os schedule_timer started pid now a ≡ some b
      → b.status ≡ a.status
  unfolding spawn
  spawn-status started pid now a {b} e =
      let begun = start_process os schedule_timer started pid a in
      let status = start_process-status started pid a in
      elim (Bool-cases (is_enabled a)) [
        | inr d ↦ ground arith
        | inl d ↦ elim (Bool-cases (ltb 0 a.start_interval)) [
          | inl i ↦ (schedule_next-Same (now + second) begun {b = b} (ground arith)).1 ∙ status
          | inr i ↦ ground arith
        ]
      ]
