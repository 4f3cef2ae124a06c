-- ===== src/Registry/Running.antt =====
-- RestHandler::parseAndRegRunApp of src/daemon/rest/RestHandler.cpp, by which a request runs a new
-- application, or a copy of one that is there. Of several exceptions the first need not be the same.
use app_mesh.Prelude.{
  ℕ, Bool, false, not, Option, some, List, String, str_eq, eq_iff, if◌then◌else◌, ◌≡◌, arith, inl,
  inr, Bool-cases, Option-cases, ap, ◌∙◌,
}
use app_mesh.Prelude.Int.{ℤ}
use app_mesh.Dict.{Distinct}
use app_mesh.Text.{std_string_trim}
use app_mesh.Application.State.{Processes, Timers, not_available}
use app_mesh.Security.Model.{
  Outcome, returns, throws, ◌>>=◌, ◌>>◌, or_throw, throw_if, Outcome-cases, Security, User,
  bad_json, no_command, has_command, division_by_zero,
}
use app_mesh.Security.Access.{Outside, HttpRequest, get_jwt_user_name}
use app_mesh.Consul.Apps.{fresh_entry, is_rejected}
use app_mesh.Registry.{Entry, Registry, find_app, is_app_exist, get_app, check_app_access, add_app}
use app_mesh.Registry.Names.{names, add_app_lem}
use app_mesh.Registry.Adding.{owner_named}

-- The body of a request: its name as it is read, trimmed once, whether it has a command, the retention
-- and what DurationParse makes of it, the default if the request has none, and what
-- Application::FromJson makes of the rest.
pub record RunJson (P : Type 0) : Type 0 where
  pub name : String
  pub with_command : Bool
  pub retention : String
  pub retention_seconds : ℕ
  pub read_app : Outcome (Entry P)

module _ {P : Type 0} where
  -- The name and the status that the handler writes into the JSON.
  abbrev pub to_run : String → Entry P → Entry P
  to_run name e = record e { name = name; app = record e.app { status = not_available } }

  -- The retention of a request, and the seconds that it says.
  abbrev pub retained : RunJson P → Entry P → Entry P
  retained json e = record e {
    spec = record e.spec { buffer_time_value = json.retention };
    app = record e.app { buffer_time = json.retention_seconds };
  }

  -- What Application::FromJson makes of the JSON of an application with another name and retention; the
  -- name is trimmed twice by `fresh_entry`. The environment and the metadata that a request may
  -- replace, and the output file that has the name in its own, are not modelled.
  unfoldable pub copied : ℕ → ℕ → String → RunJson P → Entry P → Outcome (Entry P)
  unfolding fresh_entry is_rejected
  copied now now' uuid json e =
      let fresh = retained json (fresh_entry now now' (to_run uuid e)) in
      if is_rejected fresh then throws bad_json else returns fresh

  -- What Application::FromJson makes of a request with a command under a name that was read. It is
  -- trimmed a second time.
  unfoldable pub with_command_only : String → RunJson P → Outcome (Entry P)
  unfolding std_string_trim
  with_command_only name json = do
    throw_if (not json.with_command) no_command
    e ← json.read_app
    returns (to_run (std_string_trim name) e)

module _ {P : Type 0} (os : Processes P) (schedule_timer : Timers → ℤ) (env : Outside)
    (jwt_enabled : Bool) (now now' : ℕ) (uuid : String) where
  -- The application that is run, but for its owner. `uuid` is the one of `createUUID`.
  unfoldable pub run_entry : HttpRequest → RunJson P → Security → List (Entry P) → Outcome (Entry P)
  unfolding is_app_exist get_app check_app_access copied with_command_only
  run_entry message json s apps =
      if str_eq json.name ""
      then with_command_only (std_string_trim uuid) json
      else if is_app_exist json.name apps
      then (do
        check_app_access os schedule_timer env jwt_enabled message json.name false s apps
        e ← get_app json.name apps
        throw_if json.with_command has_command
        copied now now' uuid json e)
      else with_command_only json.name json

  -- With the name of the application that was added.
  unfoldable pub parse_and_reg_run_app :
      ℕ → ℕ → HttpRequest → RunJson P → Security → Registry P → Outcome (Registry P × String)
  unfolding run_entry owner_named add_app
  parse_and_reg_run_app start later message json s r = do
    e ← run_entry message json s r.apps
    owner_text ← get_jwt_user_name env message
    owner ← owner_named s owner_text
    r' ←
        or_throw (add_app os schedule_timer start later (record e { owner = owner }) r)
          division_by_zero
    returns (r', e.name)

  with_command_only-name :
      (name : String) (json : RunJson P) {e : Entry P}
      → with_command_only name json ≡ returns e
      → e.name ≡ std_string_trim name
  unfolding with_command_only
  with_command_only-name name json {e} h = elim (Bool-cases json.with_command) [
    | inr x ↦ absurd (ground arith)
    | inl x ↦ elim (Outcome-cases json.read_app) [
      | inr (why, y) ↦ absurd (ground arith)
      | inl (read_app, y) ↦
          let same : e ≡ to_run (std_string_trim name) read_app = ground arith in
          ap (λ z. z.name) same
    ]
  ]

  copied-name :
      (json : RunJson P) (e : Entry P) {e' : Entry P}
      → std_string_trim uuid ≡ uuid
      → copied now now' uuid json e ≡ returns e'
      → e'.name ≡ uuid
  unfolding copied fresh_entry
  copied-name json e {e'} t h =
      let fresh = retained json (fresh_entry now now' (to_run uuid e)) in
      elim (Bool-cases (is_rejected fresh)) [
        | inl x ↦ absurd (ground arith)
        | inr x ↦
            let same : e' ≡ fresh = ground arith in ap (λ z. z.name) same ∙ ap std_string_trim t ∙ t
      ]

  run_entry-new :
      (message : HttpRequest) (json : RunJson P) (s : Security) (apps : List (Entry P))
      {e : Entry P}
      → std_string_trim uuid ≡ uuid
      → std_string_trim json.name ≡ json.name
      → is_app_exist uuid apps ≡ false
      → run_entry message json s apps ≡ returns e
      → is_app_exist e.name apps ≡ false
  unfolding run_entry
  run_entry-new message json s apps {e} t trimmed n h = elim (Bool-cases (str_eq json.name "")) [
    | inl x ↦ ground (
      arith,
      with_command_only-name (std_string_trim uuid) json {e = e} (ground arith),
      ap std_string_trim t ∙ t,
    )
    | inr x ↦ elim (Bool-cases (is_app_exist json.name apps)) [
      | inr y ↦
          ground (arith, with_command_only-name json.name json {e = e} (ground arith), trimmed)
      | inl y ↦
          elim (Outcome-cases
            (check_app_access os schedule_timer env jwt_enabled message json.name false s apps)) [
              | inr (why, z) ↦ absurd (ground arith)
              | inl (v, z) ↦ elim (Outcome-cases (get_app json.name apps)) [
                | inr (why, f) ↦ absurd (ground arith)
                | inl (old, f) ↦ elim (Bool-cases json.with_command) [
                  | inl c ↦ absurd (ground arith)
                  | inr c ↦ ground (arith, copied-name json old {e' = e} t (ground arith))
                ]
              ]
            ]
    ]
  ]

  -- The steps of a request that succeeds.
  abbrev Runs :
      ℕ → ℕ → HttpRequest → RunJson P → Security → Registry P → Registry P → String → Type 0
  Runs start later message json s r r' name =
      (e : Entry P) × (user : String) × (owner : Option User) × (run_entry message json s r.apps
        ≡ returns e)
      × (get_jwt_user_name env message ≡ returns user)
      × (owner_named s user ≡ returns owner)
      × (add_app os schedule_timer start later (record e { owner = owner }) r ≡ some r')
      × (e.name ≡ name)

  parse_and_reg_run_app-Runs :
      (start later : ℕ) (message : HttpRequest) (json : RunJson P) (s : Security) (r : Registry P)
      {r' : Registry P} {name : String}
      → parse_and_reg_run_app start later message json s r ≡ returns (r', name)
      → Runs start later message json s r r' name
  unfolding parse_and_reg_run_app
  parse_and_reg_run_app-Runs start later message json s r {r'} {name} h =
      elim (Outcome-cases (run_entry message json s r.apps)) [
        | inr (why, x) ↦ absurd (ground arith)
        | inl (e, x) ↦ elim (Outcome-cases (get_jwt_user_name env message)) [
          | inr (why, y) ↦ absurd (ground arith)
          | inl (user, y) ↦ elim (Outcome-cases (owner_named s user)) [
            | inr (why, z) ↦ absurd (ground arith)
            | inl (owner, z) ↦
                elim (Option-cases
                  (add_app os schedule_timer start later (record e { owner = owner }) r)) [
                    | inl n ↦ absurd (ground arith)
                    | inr (r1, n) ↦ (e, user, owner, x, y, z, ground arith, ground arith)
                  ]
          ]
        ]
      ]

  -- Where no name stands twice, the second trim leaves the name that is read from the request as it is,
  -- and the identifier that is made for the request is trimmed and the name of no application: if a request runs an application, no application had its name, every
  -- application of another name is as it was, under its name there is an application whose owner is
  -- the user that the token names, and no name stands twice.
  pub parse_and_reg_run_app_lem :
      (start later : ℕ) (message : HttpRequest) (json : RunJson P) (s : Security) (r : Registry P)
      {r' : Registry P} {name : String}
      → Distinct (names r.apps)
      → std_string_trim uuid ≡ uuid
      → std_string_trim json.name ≡ json.name
      → is_app_exist uuid r.apps ≡ false
      → parse_and_reg_run_app start later message json s r ≡ returns (r', name)
      → (is_app_exist name r.apps ≡ false)
        × ((j : String) → str_eq name j ≡ false → find_app j r'.apps ≡ find_app j r.apps)
        × ((e : Entry P) × (find_app name r'.apps ≡ some e)
            × ((user : String) × (get_jwt_user_name env message ≡ returns user)
                × (owner_named s user ≡ returns e.owner)))
        × Distinct (names r'.apps)
  parse_and_reg_run_app_lem start later message json s r {r'} {name} d t trimmed n h =
      let (e, user, owner, x, y, z, a, m) =
        parse_and_reg_run_app-Runs start later message json s r {name = name} h in
      let added : Entry P = record e { owner = owner } in
      let (executed, run, found, names') =
        add_app_lem os schedule_timer start later added name r d a in
      (
        ground (arith, run_entry-new message json s r.apps {e = e} t trimmed n x),
        λ j other.
            let (ran, run', kept, others) =
              add_app_lem os schedule_timer start later added j r d a in
            ground (arith, eq_iff e.name j, eq_iff name j),
        (record added { app = executed }, ground (arith, eq_iff e.name name), (user, y, z)),
        names',
      )
