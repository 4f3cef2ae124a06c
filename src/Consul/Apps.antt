-- ===== src/Consul/Apps.antt =====
-- Application::operator== of src/daemon/application/Application.cpp, and what an application is after
-- `parseApp(app->AsJson(false))`, as ConsulConnection::syncTopology adds it. The fields that were
-- parsed from texts are parsed from the same texts again, and so stay; the environment variables,
-- which the comparison does not read, are left out. `same_owner` tells whether two
-- pointers to users are equal. A call that throws is `none`: the thread that runs syncTopology has no
-- handler.
use app_mesh.Prelude.{
  ℕ, Bool, true, false, not, ◌&&◌, ◌||◌, Option, none, some, [], String, str_eq, ltb, leb, ◌==◌,
  if◌then◌else◌,
}
use app_mesh.Prelude.Int.{pos, eqb_ℤ}
use app_mesh.Dict.{get}
use app_mesh.Text.{std_string_trim, text_length}
use app_mesh.Text.Search.{un_escape}
use app_mesh.Timer.{DailyLimitation, daily_eq, make_timer}
use app_mesh.Application.State.{Application, is_status, invalid_pid, ◌>>=◌}
use app_mesh.Security.Model.{Security, User}
use app_mesh.Registry.{ResourceLimitation, Spec, Entry}

-- ResourceLimitation::operator==
unfoldable pub limit_eq : ResourceLimitation → Option ResourceLimitation → Bool
limit_eq l none = false
limit_eq l (some obj) =
    eqb_ℤ l.cpu_shares obj.cpu_shares
    && eqb_ℤ l.memory_mb obj.memory_mb
    && eqb_ℤ l.memory_virt_mb obj.memory_virt_mb
    && str_eq l.name obj.name

-- `p != nullptr && !p->operator==(q)`
unfoldable pub differs : {A : Type 0} → (A → Option A → Bool) → Option A → Option A → Bool
differs eq none q = false
differs eq (some l) q = not (eq l q)

-- ResourceLimitation::FromJson of what AsJson gives.
unfoldable pub reload_limit : String → Option ResourceLimitation → Option ResourceLimitation
reload_limit name none = none
reload_limit name (some l) =
    if eqb_ℤ (pos 0) l.memory_mb && eqb_ℤ (pos 0) l.memory_virt_mb && eqb_ℤ (pos 0) l.cpu_shares
    then none
    else some (record l { name = name })

-- The owner by the name in the JSON: Security::getUserInfo throws for a user that is gone.
unfoldable pub reload_owner : Security → Option User → Option (Option User)
unfolding std_string_trim
reload_owner s none = some none
reload_owner s (some u) =
    let owner_str = std_string_trim (std_string_trim u.name) in
    if ltb 0 (text_length owner_str)
    then (get owner_str s.users >>= λ user. some (some user))
    else some none

-- MAX_COMMAND_LINE_LENGTH
abbrev pub max_command_line_length : ℕ
max_command_line_length = 2048

-- The new object that FromJson fills: it runs nothing yet and has no timer. `now` and `now'` are the
-- readings of the clock in the constructor of its timer.
unfoldable pub fresh_app :
    {P : Type 0} → ℕ → ℕ → Option DailyLimitation → ℕ → Application P → Application P
unfolding make_timer std_string_trim
fresh_app now now' limit start a = record {
  timer = make_timer now now' start a.end_time_value limit a.timer.kind;
  status = a.status;
  end_time_value = a.end_time_value;
  start_interval = a.start_interval;
  buffer_time = a.buffer_time;
  behavior = a.behavior;
  return = none;
  process = none;
  buffer_process = none;
  pid = invalid_pid;
  next_launch_time = none;
  next_start_timer_id = pos 0;
  suicide_timer_id = pos 0;
  health_check_cmd = std_string_trim (std_string_trim a.health_check_cmd);
  health = true;
  timers = [];
}

unfoldable pub reload_spec : String → ℕ → ℕ → Spec → Spec
unfolding std_string_trim un_escape reload_limit
reload_spec name end_time_value buffer_time spec = record spec {
  command_line = un_escape (std_string_trim (std_string_trim spec.command_line));
  docker_image = std_string_trim spec.docker_image;
  workdir = std_string_trim (std_string_trim spec.workdir);
  start_time = if spec.start_time_value == 0 then "" else std_string_trim spec.start_time;
  end_time = if end_time_value == 0 then "" else std_string_trim spec.end_time;
  buffer_time_value = if buffer_time == 0 then "" else std_string_trim spec.buffer_time_value;
  start_interval_value = std_string_trim spec.start_interval_value;
  resource_limit = reload_limit name spec.resource_limit;
}

module _ {P : Type 0} where
  unfoldable pub application_eq : (Option User → Option User → Bool) → Entry P → Entry P → Bool
  unfolding differs daily_eq limit_eq is_status
  application_eq same_owner this app =
      if differs daily_eq app.spec.daily_limit this.spec.daily_limit
        || differs daily_eq this.spec.daily_limit app.spec.daily_limit
        || differs limit_eq app.spec.resource_limit this.spec.resource_limit
        || differs limit_eq this.spec.resource_limit app.spec.resource_limit
      then false
      else str_eq this.name app.name
        && (not this.spec.shell_app || app.spec.shell_app)
        && (this.spec.shell_app || not app.spec.shell_app)
        && str_eq this.spec.command_line app.spec.command_line
        && same_owner this.owner app.owner
        && eqb_ℤ this.owner_permission app.owner_permission
        && str_eq this.spec.docker_image app.spec.docker_image
        && eqb_ℤ this.spec.version app.spec.version
        && str_eq this.spec.workdir app.spec.workdir
        && str_eq this.spec.stdout_file app.spec.stdout_file
        && str_eq this.app.health_check_cmd app.app.health_check_cmd
        && str_eq this.spec.start_time app.spec.start_time
        && str_eq this.spec.end_time app.spec.end_time
        && str_eq this.spec.start_interval_value app.spec.start_interval_value
        && str_eq this.spec.buffer_time_value app.spec.buffer_time_value
        && (not this.spec.is_cron_expr || app.spec.is_cron_expr)
        && (this.spec.is_cron_expr || not app.spec.is_cron_expr)
        && is_status this.app.status app.app.status

  -- The checks at which FromJson throws.
  unfoldable pub is_rejected : Entry P → Bool
  unfolding text_length
  is_rejected e =
      leb max_command_line_length (text_length e.spec.command_line)
      || leb max_command_line_length (text_length e.app.health_check_cmd)
      || (text_length e.spec.docker_image == 0 && text_length e.spec.command_line == 0)
      || (not (e.app.end_time_value == 0) && ltb e.app.end_time_value e.spec.start_time_value)

  -- The new application, but for its owner. GET_JSON_STR_VALUE trims every text, and FromJson trims
  -- some of them again.
  unfoldable pub fresh_entry : ℕ → ℕ → Entry P → Entry P
  unfolding std_string_trim reload_spec fresh_app
  fresh_entry now now' e =
      let name = std_string_trim (std_string_trim e.name) in
      let spec = reload_spec name e.app.end_time_value e.app.buffer_time e.spec in
      record e {
        name = name;
        spec = spec;
        app = fresh_app now now' spec.daily_limit spec.start_time_value e.app;
      }

  unfoldable pub reload : ℕ → ℕ → Security → Entry P → Option (Entry P)
  unfolding fresh_entry reload_owner is_rejected
  reload now now' s e =
      let fresh = fresh_entry now now' e in
      if is_rejected fresh
      then none
      else (reload_owner s e.owner >>= λ owner. some (record fresh { owner = owner }))
