-- ===== src/Registry/Examples.antt =====
-- The theorems on the registry of applications at two applications.
use app_mesh.Prelude.{◌≡◌, Bool, true, false, none, some, [], ◌∷◌, refl, str_eq, ◌*◌, length, ◌+◌}
use app_mesh.Prelude.Int.{ℤ, pos}
use app_mesh.Dict.{Distinct, member, get, add}
use app_mesh.Text.{std_string_trim, start_with}
use app_mesh.Timer.{
  plain, second, next_time, next_time_of, next_time_plain, check_start_time,
  adjust_daily_time_range, is_in_daily_time_range, in_daily_window,
}
use app_mesh.Application.State.{
  enabled, standby, Processes, Timers, Application, spawning, invalid_pid, is_status, is_enabled,
  available, exit_action, cancel_timer, remove_timer, check_and_update_health, register_timer,
  set_next_launch,
}
use app_mesh.Application.Actions.{
  process_running, kill_process, execute, check_run, stop_invalid_run, schedule_next,
  refresh_status, refresh_process, refresh_buffer, on_exit, disable, destroy,
}
use app_mesh.Security.Model.{
  returns, Role, User, Security, get_user, get_user_permissions, permission_set,
}
use app_mesh.Security.Owner.{check_owner_permission, owner_bypass, level_allows}
use app_mesh.Security.Access.{
  Outside, HttpRequest, get_jwt_token, get_jwt_user_name, permission_check, verify_token,
}
use app_mesh.Security.Api.{regex_search}
use app_mesh.Registry.{
  Entry, Registry, find_app, get_app, is_app_exist, add_app_to_map, replace_app, named, without,
  update_app, disable_all, destroy_last, add_app, remove_app, disable_app, check_app_access,
  api_app_disable, api_app_delete,
}
use app_mesh.Registry.Names.{names}
use app_mesh.Registry.Removal.{remove_app_lem}
use app_mesh.Registry.Access.{api_app_delete-unverified}

-- A process is whether it runs.
abbrev pub os : Processes Bool
os = record {
  running = λ p. p;
  wait = λ p. (p, false);
  return_value = λ p. pos 0;
  getpid = λ p. pos 100;
  killgroup = λ p. false;
  delay_kill = λ n p. p;
}

abbrev pub reactor : Timers → ℤ
reactor timers = pos (length timers + 1)

abbrev long_running : Application Bool
long_running = record {
  timer = record {
    start_time = 5 * second;
    end_time = 100 * second;
    daily_limit = none;
    kind = plain;
  };
  status = enabled;
  end_time_value = 0;
  start_interval = 0;
  buffer_time = 0;
  behavior = record { exit_event = standby; exit_code_event = [] };
  return = none;
  process = none;
  buffer_process = none;
  pid = invalid_pid;
  next_launch_time = none;
  next_start_timer_id = pos 0;
  suicide_timer_id = pos 0;
  health_check_cmd = "";
  health = true;
  timers = [];
}

abbrev pub operator : Role
operator = record { name = "operator"; permissions = "app-control" ∷ [] }

abbrev pub alice : User
alice = record {
  name = "alice";
  key = "";
  group = "staff";
  exec_user = "";
  metadata = "";
  locked = false;
  roles = operator ∷ [];
}

abbrev pub site : Security
site = record { encrypt_key = false; roles = []; users = ("alice", alice) ∷ [] }

abbrev pub web : Entry Bool
web = record {
  name = "web";
  owner = some alice;
  owner_permission = pos 11;
  is_cloud_app = false;
  spec = record {
    shell_app = false;
    command_line = "httpd";
    docker_image = "";
    version = pos 0;
    workdir = "";
    stdout_file = "appmesh.web.out";
    start_time = "";
    end_time = "";
    start_time_value = 0;
    start_interval_value = "";
    is_cron_expr = false;
    buffer_time_value = "";
    daily_limit = none;
    resource_limit = none;
  };
  app = long_running;
}

abbrev pub db : Entry Bool
db = record web { name = "db"; owner = none }

abbrev pub known : Registry Bool
known = record { apps = web ∷ []; retired = [] }

abbrev scheduled : Application Bool
scheduled = record long_running {
  next_launch_time = some (5 * second);
  next_start_timer_id = pos 1;
  timers = (pos 1, spawning) ∷ [];
  health = false;
}

abbrev both : Registry Bool
both = record { apps = web ∷ record db { app = scheduled } ∷ []; retired = [] }

unfoldable pub registry : Unit {0}
unfolding next_time next_time_of next_time_plain check_start_time adjust_daily_time_range
    is_in_daily_time_range in_daily_window is_status is_enabled available exit_action cancel_timer
    remove_timer check_and_update_health register_timer set_next_launch kill_process execute
    check_run stop_invalid_run schedule_next refresh_status refresh_process refresh_buffer on_exit
    disable destroy find_app get_app is_app_exist add_app_to_map replace_app named without
    update_app disable_all destroy_last add_app remove_app disable_app check_app_access
    api_app_disable api_app_delete member get add get_user get_user_permissions permission_set
    check_owner_permission owner_bypass level_allows get_jwt_token get_jwt_user_name
    permission_check verify_token regex_search std_string_trim start_with
registry = tt

db_added : add_app os reactor 0 0 db known ≡ some both
unfolding registry
db_added = refl

remove_app_lem_example :
    (find_app "web" (remove_app os reactor "web" known).apps ≡ none)
    × Distinct (names (remove_app os reactor "web" known).apps)
    × ((remove_app os reactor "web" known).retired
        ≡ record web { app = destroy os reactor long_running } ∷ [])
    × (process_running os reactor (destroy os reactor long_running) ≡ false)
    × ((destroy os reactor long_running).buffer_process ≡ long_running.buffer_process)
remove_app_lem_example =
    remove_app_lem os reactor "web" "web" web known (λ p. refl) (unfold registry in (refl, tt))
      (unfold registry in refl)

-- The token "a" is decoded and verified, "b" only decoded; every path names web.
abbrev pub env : Outside
env = record {
  hash = λ s. s;
  decode64 = λ s. s;
  decode = λ s. some (record { name = some "alice"; group = some "staff" });
  verify = λ s. str_eq s "a";
  search = λ expr path. some "web";
}

abbrev pub request : HttpRequest
request = record {
  path = "/appmesh/app/web";
  headers = ("Authorization", "Bearer a") ∷ [];
  user_json = returns none;
  role_json = returns [];
}

abbrev forged : HttpRequest
forged = record request { headers = ("Authorization", "Bearer b") ∷ [] }

abbrev web_disabled : Registry Bool
web_disabled = record known { apps = record web { app = disable os reactor long_running } ∷ [] }

disable_request : api_app_disable os reactor env true request site known ≡ returns web_disabled
unfolding registry
disable_request = refl

api_app_delete-unverified_example :
    api_app_delete os reactor env true forged site known
    ≡ returns (remove_app os reactor "web" known)
api_app_delete-unverified_example =
    api_app_delete-unverified os reactor env forged "web" web alice site known
      (record { name = some "alice"; group = some "staff" }, refl, refl) (unfold registry in refl)
      (unfold registry in refl) refl refl refl
