-- ===== src/Application/Launch.antt =====
-- The next launch of an application and its timers: scheduleNext and disable of
-- src/daemon/application/Application.cpp.
use app_mesh.Prelude.{
  inl, inr, ℕ, ◌≤◌, true, false, none, some, [], ◌∷◌, ◌≡◌, ◌≢◌, ◌∙◌, refl, arith, ap, Bool-cases,
  Option-cases, sym, ◌==◌,
}
use app_mesh.Prelude.Int.{ℤ, eqb_ℤ}
use app_mesh.Timer.{next_time, epoch_zero_time}
use app_mesh.Timer.Bounds.{next_time-le-end}
use app_mesh.Application.State.{
  Processes, Timers, Application, Callback, spawning, is_positive, cancel_timer, remove_timer,
  register_timer, set_next_launch,
}
use app_mesh.Application.Actions.{schedule_next, kill_process, disable}
use app_mesh.Application.Stop.{pending}

pending-remove_timer :
    (id other : ℤ) (timers : Timers)
    → eqb_ℤ id other ≡ false
    → pending other (remove_timer id timers) ≡ pending other timers
unfolding remove_timer
pending-remove_timer id other [] n = refl
pending-remove_timer id other ((i, c) ∷ timers) n =
    ground (arith, pending-remove_timer id other timers)

pending-head :
    (id other : ℤ) (callback : Callback) (timers : Timers)
    → id ≡ other
    → pending other ((id, callback) ∷ timers) ≡ true
pending-head id other callback timers e = rw (e) (ground arith)

pending-second :
    (id other : ℤ) (callback : Callback) (timers : Timers)
    → pending other timers ≡ true
    → pending other ((id, callback) ∷ timers) ≡ true
pending-second id other callback timers e = ground arith

module _ {P : Type 0} (os : Processes P) (schedule_timer : Timers → ℤ) where
  -- When an application is scheduled and has a next launch after that, the launch is no later than
  -- the end time of its timer, and a timer of the id that the reactor gave is there to start it, beside
  -- all the timers that there were.
  pub schedule_next_lem :
      (now : ℕ) (a : Application P) {b : Application P}
      → schedule_next os schedule_timer now a ≡ some b
      → b.next_launch_time ≢ none
      → (next : ℕ) × (b.next_launch_time ≡ some next)
        × (next ≤ a.timer.end_time)
        × (b.next_start_timer_id ≡ schedule_timer a.timers)
        × (b.timers ≡ ((schedule_timer a.timers, spawning) ∷ a.timers))
  unfolding schedule_next set_next_launch register_timer
  schedule_next_lem now a {b} e launches = elim (Option-cases (next_time a.timer now)) [
    | inl n ↦ absurd (ground arith)
    | inr (next, n) ↦ elim (Bool-cases (next == epoch_zero_time)) [
      | inl z ↦ absurd (ground arith)
      | inr z ↦ elim (Bool-cases (is_positive (schedule_timer a.timers))) [
        | inl i ↦ (next, ground arith, next_time-le-end a.timer now n, ground arith, ground arith)
        | inr i ↦ absurd (ground arith)
      ]
    ]
  ]

  pub disable-pending :
      (a : Application P) (other : ℤ)
      → eqb_ℤ a.next_start_timer_id other ≡ false
      → pending other (disable os schedule_timer a).timers ≡ pending other a.timers
  unfolding disable kill_process cancel_timer
  disable-pending a other n = elim (Option-cases a.process) [
    | inl m ↦ ground (arith, pending-remove_timer a.next_start_timer_id other a.timers)
    | inr (p, m) ↦ ground (arith, pending-remove_timer a.next_start_timer_id other a.timers)
  ]

  -- An application that is scheduled while a launch is pending, as a periodic one is when it exits
  -- and is restarted, forgets the first timer: where the reactor gives two ids, disabling it leaves
  -- the first timer in the table.
  pub disable-leak :
      (now later : ℕ) (a : Application P) {b c : Application P}
      → schedule_next os schedule_timer now a ≡ some b
      → b.next_launch_time ≢ none
      → schedule_next os schedule_timer later b ≡ some c
      → c.next_launch_time ≢ none
      → eqb_ℤ (schedule_timer b.timers) (schedule_timer a.timers) ≡ false
      → pending b.next_start_timer_id (disable os schedule_timer c).timers ≡ true
  disable-leak now later a {b} {c} e launches e' launches' n =
      let first = schedule_next_lem now a e launches in
      let second = schedule_next_lem later b e' launches' in
      disable-pending c b.next_start_timer_id (ground (arith, first.3, second.3))
      ∙ ap (pending b.next_start_timer_id) (second.4)
      ∙ pending-second (schedule_timer b.timers) b.next_start_timer_id spawning b.timers (
          rw (first.4) (
            pending-head (schedule_timer a.timers) b.next_start_timer_id spawning a.timers
              (sym first.3)))
