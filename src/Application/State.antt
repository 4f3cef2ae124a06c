-- ===== src/Application/State.antt =====
-- The state of an application (src/daemon/application/Application.h), its behaviour on exit
-- (src/daemon/application/AppBehavior.cpp), its timers (src/daemon/TimerHandler.cpp), and the operations on it that
-- need neither a process nor the reactor.
use app_mesh.Prelude.{
  ℕ, Bool, true, false, not, ◌&&◌, ◌||◌, Option, none, some, List, [], ◌∷◌, String, str_eq, ltb,
  leb, ◌==◌, if◌then◌else◌,
}
use app_mesh.Prelude.Int.{ℤ, pos, negsuc, eqb_ℤ, pos_part}
use app_mesh.Timer.{AppTimer, epoch_zero_time}

pub data Status : Type 0 where
  disabled enabled not_available : Status

-- AppBehavior::Action
pub data Action : Type 0 where
  standby restart keepalive remove : Action

pub record AppBehavior : Type 0 where
  pub exit_event : Action
  pub exit_code_event : List (ℤ × Action)

unfoldable pub find_action : ℤ → List (ℤ × Action) → Action → Action
find_action code [] default = default
find_action code ((c, action) ∷ rest) default =
    if eqb_ℤ c code then action else find_action code rest default

unfoldable pub exit_action : AppBehavior → ℤ → Action
unfolding find_action
exit_action b code = find_action code b.exit_code_event b.exit_event

-- What an application asks of a process (AppProcess over ACE_Process and the operating system).
-- `wait` is the call with a short timeout, and tells whether it gave the process.
pub record Processes (P : Type 0) : Type 0 where
  pub running : P → Bool
  pub wait : P → P × Bool
  pub return_value : P → ℤ
  pub getpid : P → ℤ
  pub killgroup : P → P
  pub delay_kill : ℕ → P → P

-- The callback of a timer.
pub data Callback : Type 0 where
  spawning suicide : Callback

-- The entries of `m_timers` that are for the application: the id and the callback.
abbrev pub Timers : Type 0
Timers = List (ℤ × Callback)

pub record Application (P : Type 0) : Type 0 where
  pub timer : AppTimer
  pub status : Status
  pub end_time_value : ℕ
  pub start_interval : ℕ
  pub buffer_time : ℕ
  pub behavior : AppBehavior
  pub return : Option ℤ
  pub process : Option P
  pub buffer_process : Option P
  pub pid : ℤ
  pub next_launch_time : Option ℕ
  pub next_start_timer_id : ℤ
  pub suicide_timer_id : ℤ
  pub health_check_cmd : String
  pub health : Bool
  pub timers : Timers

abbrev pub invalid_pid : ℤ
invalid_pid = negsuc 0

abbrev pub is_positive : ℤ → Bool
is_positive z = ltb 0 (pos_part z)

abbrev pub is_none {ℓ} : {A : Type ℓ} → Option A → Bool
is_none none = true
is_none (some a) = false

infixl 5 ◌>>=◌
abbrev pub ◌>>=◌ {ℓ κ} : {A : Type ℓ} {B : Type κ} → Option A → (A → Option B) → Option B
none >>= f = none
some a >>= f = f a

unfoldable pub remove_timer : ℤ → Timers → Timers
remove_timer id [] = []
remove_timer id ((i, c) ∷ timers) =
    let rest = remove_timer id timers in if eqb_ℤ i id then timers else (i, c) ∷ rest

-- TimerHandler::cancelTimer
unfoldable pub cancel_timer : ℤ → Timers → Timers
unfolding remove_timer
cancel_timer id timers = if eqb_ℤ id (pos 0) then timers else remove_timer id timers

unfoldable pub is_status : Status → Status → Bool
is_status disabled disabled = true
is_status enabled enabled = true
is_status not_available not_available = true
is_status _ _ = false

module _ {P : Type 0} where
  unfoldable pub is_enabled : Application P → Bool
  unfolding is_status
  is_enabled a = is_status a.status enabled

  unfoldable pub available : ℕ → Application P → Bool
  unfolding is_enabled
  available now a =
      if not (a.end_time_value == epoch_zero_time) && leb a.end_time_value now
      then false
      else is_enabled a

  unfoldable pub enable : Application P → Application P
  unfolding is_status
  enable a = if is_status a.status disabled then record a { status = enabled } else a

  unfoldable pub check_and_update_health : Application P → Application P
  check_and_update_health a =
      if str_eq a.health_check_cmd ""
      then record a {
        health = is_positive a.pid || (elim a.return [ none ↦ false | some r ↦ eqb_ℤ r (pos 0) ]);
      }
      else a

  -- TimerHandler::registerTimer, with the id that the reactor gave.
  unfoldable pub register_timer : ℤ → Callback → Application P → Application P
  register_timer id callback a = record a { timers = (id, callback) ∷ a.timers }

  -- What is done once the time of the next launch is known.
  unfoldable pub set_next_launch : ℤ → ℕ → Application P → Application P
  unfolding register_timer
  set_next_launch id next a =
      if next == epoch_zero_time
      then record a { next_launch_time = none }
      else (let registered =
            register_timer id spawning (record a { next_launch_time = some next }) in
          if is_positive id
          then record registered { next_start_timer_id = id }
          else record registered { next_launch_time = none })
