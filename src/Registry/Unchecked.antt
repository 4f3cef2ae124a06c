-- ===== src/Registry/Unchecked.antt =====
-- What the second trim of Application::FromJson (src/daemon/application/Application.cpp) does to the
-- checks of RestHandler::apiAppAdd in src/daemon/rest/RestHandler.cpp.
use app_mesh.Prelude.{ℕ, true, false, Option, some, String, eq_iff, ◌≡◌, refl, arith}
use app_mesh.Prelude.Int.{ℤ}
use app_mesh.Dict.{Distinct}
use app_mesh.Text.{std_string_trim}
use app_mesh.Application.State.{Processes, Timers}
use app_mesh.Security.Model.{returns, Security, User}
use app_mesh.Security.Access.{Outside, HttpRequest, get_jwt_user_name, permission_check}
use app_mesh.Registry.{Entry, Registry, find_app, is_app_exist, add_app}
use app_mesh.Registry.Names.{names, add_app_lem}
use app_mesh.Registry.Adding.{parse_app, check_override, api_app_add, owner_named}

module _ {P : Type 0} (os : Processes P) (schedule_timer : Timers → ℤ) (env : Outside) where
  -- With tokens in use, and where no name stands twice: a request that passes the check of the
  -- permission app-reg, with a name that no application has once it is trimmed, but that the second
  -- trim of Application::FromJson turns into the name of one, replaces that application, whoever its
  -- owner is, whatever it permits, and even if it is a cloud application. The rest of the request is
  -- one that can be read and executed.
  pub api_app_add-unchecked :
      (now later : ℕ) (message : HttpRequest) (name : String) (s : Security) (r r' : Registry P)
      (old e : Entry P) (user : String) (owner : Option User)
      → Distinct (names r.apps)
      → permission_check env true message "app-reg" s ≡ returns tt
      → is_app_exist (std_string_trim name) r.apps ≡ false
      → find_app (std_string_trim (std_string_trim name)) r.apps ≡ some old
      → get_jwt_user_name env message ≡ returns user
      → owner_named s user ≡ returns owner
      → add_app os schedule_timer now later
          (record e { name = std_string_trim (std_string_trim name); owner = owner })
          r
        ≡ some r'
      → (api_app_add os schedule_timer env true now later message
            (some (record { name = std_string_trim name; read_app = returns e }))
            s
            r
          ≡ returns r')
        × ((found : Entry P) × (find_app (std_string_trim (std_string_trim name)) r'.apps
              ≡ some found)
            × (found.owner ≡ owner)
            × (found.spec ≡ e.spec))
  unfolding api_app_add check_override parse_app
  api_app_add-unchecked now later message name s r r' old e user owner d p fresh f z o a =
      let own = std_string_trim (std_string_trim name) in
      let added : Entry P = record e { name = own; owner = owner } in
      let (executed, x, found, names') = add_app_lem os schedule_timer now later added own r d a in
      (
        rw (p, fresh, z, o, a) refl,
        (record added { app = executed }, ground (arith, eq_iff own own), refl, refl),
      )
