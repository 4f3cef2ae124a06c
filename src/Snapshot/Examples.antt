-- ===== src/Snapshot/Examples.antt =====
-- The theorems on snapshots at an application whose process outlives the daemon.
use app_mesh.Prelude.{
  ◌≡◌, ◌⊎◌, subst, ℕ, true, false, Option, none, some, [], ◌∷◌, refl, arith, if◌then◌else◌,
}
use app_mesh.Prelude.Int.{ℤ, pos, eqb_ℤ}
use app_mesh.Dict.{get, member}
use app_mesh.Text.{std_string_trim}
use app_mesh.Application.State.{
  enabled, standby, Processes, Application, invalid_pid, is_enabled, is_status,
}
use app_mesh.Timer.{plain}
use app_mesh.Registry.{Entry, find_app}
use app_mesh.Snapshot.{
  AppSnap, Snapshot, PersistManager, empty_snapshot, capture_snapshot, as_json, from_json, recover,
  persist_snapshot, snapshot_eq,
}
use app_mesh.Snapshot.RoundTrip.{HasInts, captured, from_json-as_json}
use app_mesh.Snapshot.Recovery.{IsSame, attached, recover_lem}
use app_mesh.Snapshot.Saving.{IsSaved, persist_snapshot_lem}

-- A process is its id.
abbrev os : Processes ℤ
os = record {
  running = λ p. true;
  wait = λ p. (p, false);
  return_value = λ p. pos 0;
  getpid = λ p. p;
  killgroup = λ p. p;
  delay_kill = λ n p. p;
}

abbrev fresh : Application ℤ
fresh = record {
  timer = record { start_time = 0; end_time = 0; daily_limit = none; kind = plain };
  status = enabled;
  end_time_value = 0;
  start_interval = 0;
  buffer_time = 0;
  behavior = record { exit_event = standby; exit_code_event = [] };
  return = none;
  process = none;
  buffer_process = none;
  pid = invalid_pid;
  next_launch_time = none;
  next_start_timer_id = pos 0;
  suicide_timer_id = pos 0;
  health_check_cmd = "";
  health = true;
  timers = [];
}

abbrev web : Entry ℤ
web = record {
  name = "web";
  owner = none;
  owner_permission = pos 0;
  is_cloud_app = false;
  spec = record {
    shell_app = false;
    command_line = "httpd";
    docker_image = "";
    version = pos 0;
    workdir = "";
    stdout_file = "";
    start_time = "";
    end_time = "";
    start_time_value = 0;
    start_interval_value = "";
    is_cron_expr = false;
    buffer_time_value = "";
    daily_limit = none;
    resource_limit = none;
  };
  app = fresh;
}

abbrev running : Entry ℤ
running = record web { app = record fresh { process = some (pos 42); pid = pos 42 } }

-- Process 42 started at 7.
abbrev status : ℤ → Option ℕ
status pid = if eqb_ℤ pid (pos 42) then some 7 else none

abbrev manager : PersistManager
manager = record { persisted_snapshot = empty_snapshot; file = some (as_json empty_snapshot) }

abbrev taken : Snapshot
taken = record {
  apps = ("web", record { pid = pos 42; start_time = pos 7 }) ∷ [];
  consul_session_id = "s1";
}

facts : Unit {0}
unfolding get find_app member is_enabled is_status std_string_trim persist_snapshot snapshot_eq
    capture_snapshot
facts = tt

recover_lem_example :
    (o : Entry ℤ) × (find_app "web" (
        recover os
          (λ p. p)
          status
          (from_json (as_json (capture_snapshot status "s1" (running ∷ []) manager)))
          (web ∷ []))
      ≡ some o)
    × ((IsSame os (λ p. p) status (pos 42) 7 × (o ≡ attached os (λ p. p) (pos 42) web))
        ⊎ ((¬ IsSame os (λ p. p) status (pos 42) 7) × (o ≡ web)))
recover_lem_example =
    recover_lem os (λ p. p) status status "s1" (running ∷ []) (web ∷ []) manager "web" running web 7
      (unfold facts in (refl, tt)) (unfold facts in refl) (unfold facts in refl)
      (unfold facts in refl) (omega arith) refl (λ snap e p. unfold facts in absurd (ground arith))

persist_snapshot_lem_example :
    IsSaved (persist_snapshot status true "s1" (running ∷ []) manager)
    × ((persist_snapshot status true "s1"
          (running ∷ [])
          manager).persisted_snapshot.consul_session_id
        ≡ "s1")
    × (get "web" (persist_snapshot status true "s1" (running ∷ []) manager).persisted_snapshot.apps
        ≡ captured status none (some running))
unfolding facts
persist_snapshot_lem_example =
    persist_snapshot_lem status "s1" (running ∷ []) manager "web" (refl, tt) tt refl

taken-HasInts : (snap : AppSnap) → get "web" taken.apps ≡ some snap → HasInts snap
unfolding get
taken-HasInts snap e =
    let same : record { pid = pos 42; start_time = pos 7 } ≡ snap = ground arith in
    subst HasInts same (omega arith, omega arith)

from_json-as_json_example :
    (get "web" (from_json (as_json taken)).apps ≡ get "web" taken.apps)
    × ((from_json (as_json taken)).consul_session_id ≡ "s1")
from_json-as_json_example =
    from_json-as_json taken "web" (unfold facts in (refl, tt)) taken-HasInts (unfold facts in refl)
