-- ===== src/Consul/HostExamples.antt =====
-- The theorems on a host at the cluster of Consul/Examples.antt.
use app_mesh.Dict.{Dict, get, has, Distinct}
use app_mesh.Registry.Names.{names}
use app_mesh.Consul.Lead.{retrieve_task, new_topology, do_schedule}
use app_mesh.Text.{std_string_trim}
use app_mesh.Prelude.{
  ℕ, ◌+◌, ◌*◌, Bool, true, false, Option, none, some, [], ◌∷◌, String, str_eq, eq_iff, length,
  if◌then◌else◌, ◌≡◌, refl, arith, inl, inr, Bool-cases, subst,
}
use app_mesh.Prelude.Int.{ℤ, pos}
use app_mesh.Timer.{
  plain, second, next_time, next_time_of, next_time_plain, check_start_time,
  adjust_daily_time_range, is_in_daily_time_range, in_daily_window, make_timer,
}
use app_mesh.Application.State.{
  enabled, standby, Processes, Timers, Application, invalid_pid, is_status, is_enabled, available,
  exit_action, cancel_timer, remove_timer, check_and_update_health, register_timer, set_next_launch,
}
use app_mesh.Application.Actions.{
  process_running, kill_process, execute, check_run, stop_invalid_run, schedule_next,
  refresh_status, refresh_process, refresh_buffer, on_exit,
}
use app_mesh.Security.Model.{Security, User}
use app_mesh.Registry.{Entry, find_app}
use app_mesh.Cluster.Quota.{runs}
use app_mesh.Consul.Apps.{reload, reload_owner, fresh_entry, fresh_app, reload_spec, is_rejected}
use app_mesh.Consul.Follow.{CloudTask, Follower, sync_topology}
use app_mesh.Consul.Settled.{added}
use app_mesh.Consul.Synced.{WellNamed, Gives}
use app_mesh.Consul.Host.{settled, sync_topology_lem}
use app_mesh.Consul.Examples.{star, cluster, noon, scheduling, has_node, cluster-IsStore}
use app_mesh.Consul.Converge.{Stands, AreAddable, do_schedule-sync_topology}
use app_mesh.Consul.Lead.{host_topology}

-- A process is whether it runs.
abbrev os : Processes Bool
os = record {
  running = λ p. p;
  wait = λ p. (p, false);
  return_value = λ p. pos 0;
  getpid = λ p. pos 100;
  killgroup = λ p. false;
  delay_kill = λ n p. p;
}

abbrev reactor : Timers → ℤ
reactor timers = pos (length timers + 1)

abbrev clock : String → ℕ → ℕ
clock name i = i

abbrev same_owner : Option User → Option User → Bool
same_owner a b = true

abbrev site : Security
site = record { encrypt_key = false; roles = []; users = [] }

abbrev fresh : Application Bool
fresh = record {
  timer = record {
    start_time = 5 * second;
    end_time = 100 * second;
    daily_limit = none;
    kind = plain;
  };
  status = enabled;
  end_time_value = 0;
  start_interval = 0;
  buffer_time = 0;
  behavior = record { exit_event = standby; exit_code_event = [] };
  return = none;
  process = none;
  buffer_process = none;
  pid = invalid_pid;
  next_launch_time = none;
  next_start_timer_id = pos 0;
  suicide_timer_id = pos 0;
  health_check_cmd = "";
  health = true;
  timers = [];
}

abbrev db : Entry Bool
db = record {
  name = "db";
  owner = none;
  owner_permission = pos 0;
  is_cloud_app = false;
  spec = record {
    shell_app = false;
    command_line = "db";
    docker_image = "";
    version = pos 0;
    workdir = "";
    stdout_file = "";
    start_time = "";
    end_time = "";
    start_time_value = 0;
    start_interval_value = "";
    is_cron_expr = false;
    buffer_time_value = "";
    daily_limit = none;
    resource_limit = none;
  };
  app = fresh;
}

abbrev stale : Entry Bool
stale = record db { name = "stale"; is_cloud_app = true }

abbrev web : Entry Bool
web = record db { name = "web"; is_cloud_app = true }

abbrev follower : Follower Bool
follower = record { registry = record { apps = db ∷ stale ∷ []; retired = [] }; requests = [] }

abbrev cloud_tasks : Dict (CloudTask Bool)
cloud_tasks = ("web", record { app = web; consul_service_port = pos 80 }) ∷ []

abbrev topology : Option (Dict ℕ)
topology = some (("web", 7) ∷ [])

abbrev web_added : Option (Entry Bool)
web_added = elim (added os reactor clock same_owner site "web" web) [ none ↦ none | some o ↦ o ]

-- Of the host's own application db and the cloud applications stale and web.
abbrev found : String → Option (Entry Bool)
found j = if str_eq "web" j then web_added else if str_eq "db" j then some db else none

following : Unit {0}
unfolding scheduling next_time next_time_of next_time_plain check_start_time adjust_daily_time_range
    is_in_daily_time_range in_daily_window make_timer is_status is_enabled available exit_action
    cancel_timer remove_timer check_and_update_health register_timer set_next_launch kill_process
    process_running execute check_run stop_invalid_run schedule_next refresh_status refresh_process
    refresh_buffer on_exit find_app reload reload_owner fresh_entry fresh_app reload_spec
    is_rejected
following = tt

web_was_added : added os reactor clock same_owner site "web" web ≡ some web_added
unfolding following
web_was_added = refl

web_settled :
    settled os reactor clock same_owner site topology cloud_tasks follower "web"
    ≡ some (found "web")
unfolding following
web_settled = refl

trimmed :
    (std_string_trim (std_string_trim "db") ≡ "db")
    × (std_string_trim (std_string_trim "stale") ≡ "stale")
    × (std_string_trim (std_string_trim "web") ≡ "web")
unfolding scheduling
trimmed = (refl, refl, refl)

settled-found :
    (j : String)
    → settled os reactor clock same_owner site topology cloud_tasks follower j ≡ some (found j)
unfolding has get find_app
settled-found j = elim (Bool-cases (str_eq "web" j)) [
  | inl e ↦
      subst
        (λ x.
          settled os reactor clock same_owner site topology cloud_tasks follower x ≡ some (found x))
        ((eq_iff "web" j).0 e) web_settled
  | inr e ↦ ground arith
]

follower-WellNamed : WellNamed follower.registry.apps cloud_tasks
unfolding get find_app
follower-WellNamed = (
  λ j e h. ground (arith, trimmed, eq_iff "db" j, eq_iff "stale" j),
  λ j task h. ground (arith, trimmed, eq_iff "web" j),
)

sync_topology_lem_example :
    Gives (sync_topology os reactor clock same_owner site topology cloud_tasks follower) found
sync_topology_lem_example =
    sync_topology_lem os reactor clock same_owner site topology cloud_tasks follower found
      (unfold following in (refl, tt)) (unfold following in (refl, (refl, tt))) follower-WellNamed
      settled-found

same_tasks : (n : String) → has n cloud_tasks ≡ has n (retrieve_task cluster.tasks [])
unfolding scheduling
same_tasks n = refl

-- The application can be added under that name.
abbrev IsAddable : String → Entry Bool → Type 0
IsAddable name e =
    (e' : Entry Bool) × (added os reactor clock same_owner site name e ≡ some (some e'))

addable : IsAddable "db" db × IsAddable "stale" stale × IsAddable "web" web
unfolding following
addable = ((_, refl), (_, refl), (_, refl))

same-IsAddable :
    (name j : String) (e e' : Entry Bool)
    → str_eq name j ≡ true
    → Path (Option (Entry Bool)) (some e) (some e')
    → IsAddable name e
    → IsAddable j e'
same-IsAddable name j e e' s h a =
    let same : e ≡ e' = ground arith in
    subst (λ x. IsAddable x e') ((eq_iff name j).0 s) (subst (IsAddable name) same a)

follower-AreAddable : AreAddable os reactor clock same_owner site cloud_tasks follower.registry.apps
unfolding get find_app
follower-AreAddable = (
  λ j task h. elim (Bool-cases (str_eq "web" j)) [
    | inl e ↦ same-IsAddable "web" j web task.app e (ground arith) addable.2
    | inr e ↦ absurd (ground arith)
  ],
  λ j running h. elim (Bool-cases (str_eq "db" j)) [
    | inl e ↦ same-IsAddable "db" j db running e (ground arith) addable.0
    | inr e ↦ elim (Bool-cases (str_eq "stale" j)) [
      | inl x ↦ same-IsAddable "stale" j stale running x (ground arith) addable.1
      | inr x ↦ absurd (ground arith)
    ]
  ],
)

do_schedule-sync_topology_example :
    (f' : Follower Bool) × (sync_topology os reactor clock same_owner site
        (host_topology "a" (do_schedule star noon true cluster).topology)
        cloud_tasks
        follower
      ≡ some f')
    × Distinct (names f'.registry.apps)
    × ((j : String)
        → Stands
            (runs "a" j (new_topology star noon cluster))
            (find_app j follower.registry.apps)
            (find_app j f'.registry.apps))
do_schedule-sync_topology_example =
    do_schedule-sync_topology star noon os reactor clock same_owner site cluster "a" cloud_tasks
      follower cluster-IsStore has_node same_tasks (unfold following in (refl, (refl, tt)))
      follower-WellNamed follower-AreAddable
