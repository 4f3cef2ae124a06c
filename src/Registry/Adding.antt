-- ===== src/Registry/Adding.antt =====
-- RestHandler::apiAppAdd of src/daemon/rest/RestHandler.cpp with Configuration::addApp of
-- src/daemon/Configuration.cpp: who may add or replace an application, and whose it is then.
use app_mesh.Prelude.{
  ℕ, Bool, true, false, Option, none, some, List, [], ◌∷◌, String, str_eq, eq_iff, if◌then◌else◌,
  ◌≡◌, arith, inl, inr, Bool-cases, Option-cases, ltb, sym, ◌∙◌, ap,
}
use app_mesh.Prelude.Int.{ℤ}
use app_mesh.Dict.{Distinct}
use app_mesh.Text.{std_string_trim, text_length}
use app_mesh.Application.State.{Processes, Timers}
use app_mesh.Security.Model.{
  Outcome, returns, ◌>>=◌, ◌>>◌, or_throw, throw_if, Outcome-cases, Security, User, get_user,
  bad_json, cloud_app, division_by_zero,
}
use app_mesh.Security.Owner.{check_owner_permission}
use app_mesh.Security.Access.{Outside, HttpRequest, get_jwt_user_name, permission_check}
use app_mesh.Security.Guards.{Authorized, permission_check_iff}
use app_mesh.Registry.{Entry, Registry, find_app, is_app_exist, get_app, check_app_access, add_app}
use app_mesh.Registry.Names.{names, add_app_lem}

-- The body of a request: the name in it as GET_JSON_STR_VALUE reads it, which trims it once, and what
-- Application::FromJson makes of the rest.
pub record AppJson (P : Type 0) : Type 0 where
  pub name : String
  pub read_app : Outcome (Entry P)

-- The owner of Application::FromJson, by the text in its JSON, which is trimmed when it is read and
-- trimmed again.
unfoldable pub owner_named : Security → String → Outcome (Option User)
unfolding std_string_trim text_length get_user
owner_named s text =
    let owner_str = std_string_trim (std_string_trim text) in
    if ltb 0 (text_length owner_str)
    then (get_user owner_str s.users >>= λ user. returns (some user))
    else returns none

-- Application::FromJson with the owner that the handler wrote into the JSON. The name is trimmed a
-- second time, which can change it.
unfoldable pub parse_app : {P : Type 0} → Security → AppJson P → String → Outcome (Entry P)
unfolding owner_named std_string_trim
parse_app s json owner_text = do
  owner ← owner_named s owner_text
  e ← json.read_app
  returns (record e { name = std_string_trim json.name; owner = owner })

module _ {P : Type 0} where
  is_app_exist-found :
      (name : String) (apps : List (Entry P)) {e : Entry P}
      → find_app name apps ≡ some e
      → is_app_exist name apps ≡ true
  unfolding find_app is_app_exist
  is_app_exist-found name [] h = absurd (ground arith)
  is_app_exist-found name (other ∷ apps) {e} h = elim (Bool-cases (str_eq other.name name)) [
    | inl x ↦ ground arith
    | inr x ↦ ground (arith, is_app_exist-found name apps {e = e})
  ]

  parse_app-owner :
      (s : Security) (json : AppJson P) (text : String) {e : Entry P}
      → parse_app s json text ≡ returns e
      → (e.name ≡ std_string_trim json.name) × (owner_named s text ≡ returns e.owner)
  unfolding parse_app
  parse_app-owner s json text {e} h = elim (Outcome-cases (owner_named s text)) [
    | inr (why, x) ↦ absurd (ground arith)
    | inl (owner, x) ↦ elim (Outcome-cases json.read_app) [
      | inr (why, y) ↦ absurd (ground arith)
      | inl (read_app, y) ↦
          let same : e ≡ record read_app { name = std_string_trim json.name; owner = owner } =
            ground arith in
          (ap (λ z. z.name) same, x ∙ ap (λ z. returns z.owner) (sym same))
    ]
  ]

module _ {P : Type 0} (os : Processes P) (schedule_timer : Timers → ℤ) (env : Outside)
    (jwt_enabled : Bool) where
  -- The checks on an application that has the name already.
  unfoldable pub check_override :
      HttpRequest → String → Security → List (Entry P) → Outcome (Unit {0})
  unfolding is_app_exist get_app check_app_access
  check_override message app_name s apps =
      if is_app_exist app_name apps
      then (do
        e ← get_app app_name apps
        throw_if e.is_cloud_app cloud_app
        check_app_access os schedule_timer env jwt_enabled message app_name true s apps)
      else returns tt

  -- The times are those of the two readings of the clock in `execute`.
  unfoldable pub api_app_add :
      ℕ → ℕ → HttpRequest → Option (AppJson P) → Security → Registry P → Outcome (Registry P)
  unfolding check_override parse_app add_app
  api_app_add now later message body s r = do
    permission_check env jwt_enabled message "app-reg" s
    json ← or_throw body bad_json
    check_override message json.name s r.apps
    owner_text ← get_jwt_user_name env message
    e ← parse_app s json owner_text
    or_throw (add_app os schedule_timer now later e r) division_by_zero

  -- What an application that has the name allows: it is no cloud application and not the REST service,
  -- and its owner permits the user of the token to write.
  abbrev pub IsReplaceable : HttpRequest → String → Security → Entry P → Type 0
  IsReplaceable message app_name s e =
      (e.is_cloud_app ≡ false)
      × (str_eq app_name "apprest" ≡ false)
      × ((user : String) × (get_jwt_user_name env message ≡ returns user)
          × (check_owner_permission user e.owner e.owner_permission true s ≡ returns true))

  check_app_access-write :
      (message : HttpRequest) (name : String) (e : Entry P) (s : Security) (apps : List (Entry P))
      → find_app name apps ≡ some e
      → check_app_access os schedule_timer env jwt_enabled message name true s apps ≡ returns tt
      → (str_eq name "apprest" ≡ false)
        × ((user : String) × (get_jwt_user_name env message ≡ returns user)
            × (check_owner_permission user e.owner e.owner_permission true s ≡ returns true))
  unfolding check_app_access get_app
  check_app_access-write message name e s apps f h =
      elim (Outcome-cases (get_jwt_user_name env message)) [
        | inr (why, x) ↦ absurd (ground arith)
        | inl (user, x) ↦
            elim (Outcome-cases (check_owner_permission user e.owner e.owner_permission true s)) [
              | inr (why, y) ↦ absurd (ground arith)
              | inl (true, y) ↦ (ground arith, (user, x, y))
              | inl (false, y) ↦ absurd (ground arith)
            ]
      ]

  check_override-IsReplaceable :
      (message : HttpRequest) (name : String) (e : Entry P) (s : Security) (apps : List (Entry P))
      → find_app name apps ≡ some e
      → check_override message name s apps ≡ returns tt
      → IsReplaceable message name s e
  unfolding check_override get_app
  check_override-IsReplaceable message name e s apps f h =
      let exists = is_app_exist-found name apps {e = e} f in
      elim (Bool-cases e.is_cloud_app) [
        | inl x ↦ absurd (ground arith)
        | inr x ↦
            let (rest, own) = check_app_access-write message name e s apps f (ground arith) in
            (x, rest, own)
      ]

module _ {P : Type 0} (os : Processes P) (schedule_timer : Timers → ℤ) (env : Outside) where
  -- The steps of a request that succeeds.
  abbrev Steps : ℕ → ℕ → HttpRequest → AppJson P → Security → Registry P → Registry P → Type 0
  Steps now later message json s r r' =
      (permission_check env true message "app-reg" s ≡ returns tt)
      × (check_override os schedule_timer env true message json.name s r.apps ≡ returns tt)
      × ((user : String) × (e : Entry P) × (get_jwt_user_name env message ≡ returns user)
          × (parse_app s json user ≡ returns e)
          × (add_app os schedule_timer now later e r ≡ some r'))

  api_app_add-Steps :
      (now later : ℕ) (message : HttpRequest) (json : AppJson P) (s : Security) (r : Registry P)
      {r' : Registry P}
      → api_app_add os schedule_timer env true now later message (some json) s r ≡ returns r'
      → Steps now later message json s r r'
  unfolding api_app_add
  api_app_add-Steps now later message json s r {r'} h =
      elim (Outcome-cases (permission_check env true message "app-reg" s)) [
        | inr (why, x) ↦ absurd (ground arith)
        | inl (v, x) ↦
            elim (Outcome-cases
              (check_override os schedule_timer env true message json.name s r.apps)) [
                | inr (why, y) ↦ absurd (ground arith)
                | inl (w, y) ↦ (x, y, added v w x y)
              ]
      ]
    where
      added :
          (v w : Unit {0})
          → permission_check env true message "app-reg" s ≡ returns v
          → check_override os schedule_timer env true message json.name s r.apps ≡ returns w
          → (user : String) × (e : Entry P) × (get_jwt_user_name env message ≡ returns user)
            × (parse_app s json user ≡ returns e)
            × (add_app os schedule_timer now later e r ≡ some r')
      added v w x y = elim (Outcome-cases (get_jwt_user_name env message)) [
        | inr (why, z) ↦ absurd (ground arith)
        | inl (user, z) ↦ elim (Outcome-cases (parse_app s json user)) [
          | inr (why, t) ↦ absurd (ground arith)
          | inl (e, t) ↦ elim (Option-cases (add_app os schedule_timer now later e r)) [
            | inl n ↦ absurd (ground arith)
            | inr (r1, n) ↦ (user, e, z, t, ground arith)
          ]
        ]
      ]

  -- With tokens in use, where no name stands twice, and where the name that is read from the request
  -- is one that the second trim leaves as it is: if an application is added, the request has a
  -- verified token of an unlocked user with the permission app-reg; an application that had the name
  -- was no cloud application and not the REST service, and its owner permits the user of the token
  -- to write; under the name there is an application then whose owner is the user that the token
  -- names, the applications of other names are as they were, and no name stands twice.
  pub api_app_add_lem :
      (now later : ℕ) (message : HttpRequest) (json : AppJson P) (s : Security) (r : Registry P)
      {r' : Registry P}
      → Distinct (names r.apps)
      → std_string_trim json.name ≡ json.name
      → api_app_add os schedule_timer env true now later message (some json) s r ≡ returns r'
      → Authorized env message "app-reg" s
        × ((old : Entry P)
            → find_app json.name r.apps ≡ some old
            → IsReplaceable os schedule_timer env true message json.name s old)
        × ((e : Entry P) × (find_app json.name r'.apps ≡ some e)
            × ((user : String) × (get_jwt_user_name env message ≡ returns user)
                × (owner_named s user ≡ returns e.owner)))
        × ((j : String) → str_eq json.name j ≡ false → find_app j r'.apps ≡ find_app j r.apps)
        × Distinct (names r'.apps)
  api_app_add_lem now later message json s r {r'} d trimmed h =
      let (permitted, override, steps) = api_app_add-Steps now later message json s r h in
      let (user, e, z, t, n) = steps in
      let (renamed, owner) = parse_app-owner s json user {e = e} t in
      let name = renamed ∙ trimmed in
      let (executed, x, found, names') =
        add_app_lem os schedule_timer now later e json.name r d n in
      (
        (permission_check_iff env message "app-reg" s).0 permitted,
        λ old f.
            check_override-IsReplaceable os schedule_timer env true message json.name old s r.apps f
              override,
        (record e { app = executed }, ground (arith, eq_iff e.name json.name), (user, z, owner)),
        λ j other.
            let (ran, x', kept, others) = add_app_lem os schedule_timer now later e j r d n in
            ground (arith, eq_iff e.name j, eq_iff json.name j),
        names',
      )
