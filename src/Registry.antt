-- ===== src/Registry.antt =====
-- The applications that the daemon knows: `m_apps` of src/daemon/Configuration.cpp, and the handlers of
-- src/daemon/rest/RestHandler.cpp that enable, disable and delete them. A vector of shared pointers is a
-- list of entries; an application that leaves the vector is kept in `retired`, as its timers may hold
-- it still. Saving to disk is left out.
pub mod Names
pub mod Removal
pub mod Access
pub mod Adding
pub mod Unchecked
pub mod Running
mod Examples
mod AddExamples
mod RunExamples
use app_mesh.Prelude.{
  ℕ, Bool, true, false, not, ◌&&◌, ◌||◌, Option, none, some, List, [], ◌∷◌, ◌++◌, String, str_eq,
  if◌then◌else◌,
}
use app_mesh.Prelude.Int.{ℤ}
use app_mesh.Timer.{DailyLimitation}
use app_mesh.Application.State.{Processes, Timers, Application, enable}
use app_mesh.Application.Actions.{execute, disable, destroy}
use app_mesh.Security.Model.{
  Outcome, returns, throws, ◌>>=◌, ◌>>◌, or_throw, throw_if, Security, User, no_such_app, cloud_app,
  rest_app, no_permission,
}
use app_mesh.Security.Owner.{check_owner_permission}
use app_mesh.Security.Access.{Outside, HttpRequest, get_jwt_user_name, permission_check}
use app_mesh.Security.Api.{regex_search}

-- src/daemon/ResourceLimitation.h
pub record ResourceLimitation : Type 0 where
  pub name : String
  pub memory_mb : ℤ
  pub memory_virt_mb : ℤ
  pub cpu_shares : ℤ

-- The fields that say how an application is run; those of its state are in `Application`.
pub record Spec : Type 0 where
  pub shell_app : Bool
  pub command_line : String
  pub docker_image : String
  pub version : ℤ
  pub workdir : String
  pub stdout_file : String
  pub start_time : String
  pub end_time : String
  pub start_time_value : ℕ
  pub start_interval_value : String
  pub is_cron_expr : Bool
  pub buffer_time_value : String
  pub daily_limit : Option DailyLimitation
  pub resource_limit : Option ResourceLimitation

-- An application with what `Configuration` and `ConsulConnection` read of it beside its state.
pub record Entry (P : Type 0) : Type 0 where
  pub name : String
  pub owner : Option User
  pub owner_permission : ℤ
  pub is_cloud_app : Bool
  pub spec : Spec
  pub app : Application P

pub record Registry (P : Type 0) : Type 0 where
  pub apps : List (Entry P)
  pub retired : List (Entry P)

module _ {P : Type 0} where
  -- Configuration::getApp before it throws.
  unfoldable pub find_app : String → List (Entry P) → Option (Entry P)
  find_app name [] = none
  find_app name (e ∷ apps) = if str_eq e.name name then some e else find_app name apps

  unfoldable pub get_app : String → List (Entry P) → Outcome (Entry P)
  unfolding find_app
  get_app name apps = or_throw (find_app name apps) no_such_app

  unfoldable pub is_app_exist : String → List (Entry P) → Bool
  is_app_exist name [] = false
  is_app_exist name (e ∷ apps) = if str_eq e.name name then true else is_app_exist name apps

  -- Configuration::addApp2Map
  unfoldable pub add_app_to_map : Entry P → List (Entry P) → List (Entry P)
  add_app_to_map e [] = e ∷ []
  add_app_to_map e (other ∷ apps) =
      let rest = add_app_to_map e apps in
      if str_eq other.name e.name then other ∷ apps else other ∷ rest

  -- Every entry of that name is set to the new one.
  unfoldable pub replace_app : Entry P → List (Entry P) → List (Entry P)
  replace_app e [] = []
  replace_app e (other ∷ apps) =
      let rest = replace_app e apps in if str_eq other.name e.name then e ∷ rest else other ∷ rest

  -- The entries of that name, and the others.
  unfoldable pub named : String → List (Entry P) → List (Entry P)
  named name [] = []
  named name (e ∷ apps) =
      let rest = named name apps in if str_eq e.name name then e ∷ rest else rest

  unfoldable pub without : String → List (Entry P) → List (Entry P)
  without name [] = []
  without name (e ∷ apps) =
      let rest = without name apps in if str_eq e.name name then rest else e ∷ rest

  -- The first entry of that name, with its state changed.
  unfoldable pub update_app :
      (Application P → Application P) → String → List (Entry P) → List (Entry P)
  update_app f name [] = []
  update_app f name (e ∷ apps) =
      let rest = update_app f name apps in
      if str_eq e.name name then record e { app = f e.app } ∷ apps else e ∷ rest

module _ {P : Type 0} (os : Processes P) (schedule_timer : Timers → ℤ) where
  unfoldable pub disable_all : List (Entry P) → List (Entry P)
  disable_all [] = []
  disable_all (e ∷ apps) = record e { app = disable os schedule_timer e.app } ∷ disable_all apps

  -- `app` is the last one that was found, and only that one is destroyed.
  unfoldable pub destroy_last : List (Entry P) → List (Entry P)
  destroy_last [] = []
  destroy_last (e ∷ []) = record e { app = destroy os schedule_timer e.app } ∷ []
  destroy_last (e ∷ f ∷ apps) = e ∷ destroy_last (f ∷ apps)

  -- Configuration::addApp, of an application that was parsed. It is executed at once, and the vector
  -- holds the object that is executed. `none` is the division by zero of its timer.
  unfoldable pub add_app : ℕ → ℕ → Entry P → Registry P → Option (Registry P)
  unfolding is_app_exist replace_app add_app_to_map disable_all named
  add_app now later e r = elim (execute os schedule_timer now later e.app) [
    | none ↦ none
    | some executed ↦
        let e' = record e { app = executed } in
        some (
          if is_app_exist e.name r.apps
          then record {
            apps = replace_app e' r.apps;
            retired = disable_all (named e.name r.apps) ++ r.retired;
          }
          else record r { apps = add_app_to_map e' r.apps })
  ]

  -- Configuration::removeApp
  unfoldable pub remove_app : String → Registry P → Registry P
  unfolding without named destroy_last
  remove_app name r = record {
    apps = without name r.apps;
    retired = destroy_last (named name r.apps) ++ r.retired;
  }

  unfoldable pub enable_app : String → Registry P → Outcome (Registry P)
  unfolding get_app update_app
  enable_app name r = do
    _ ← get_app name r.apps
    returns (record r { apps = update_app enable name r.apps })

  unfoldable pub disable_app : String → Registry P → Outcome (Registry P)
  unfolding get_app update_app
  disable_app name r = do
    _ ← get_app name r.apps
    returns (record r { apps = update_app (disable os schedule_timer) name r.apps })

  module _ (env : Outside) (jwt_enabled : Bool) where
    -- RestHandler::checkAppAccessPermission
    unfoldable pub check_app_access :
        HttpRequest → String → Bool → Security → List (Entry P) → Outcome (Unit {0})
    unfolding get_app
    check_app_access message app_name request_write s apps = do
      token_user_name ← get_jwt_user_name env message
      e ← get_app app_name apps
      allowed ← check_owner_permission token_user_name e.owner e.owner_permission request_write s
      throw_if (not allowed) no_permission
      throw_if (request_write && str_eq app_name "apprest") rest_app

    unfoldable pub api_app_enable : HttpRequest → Security → Registry P → Outcome (Registry P)
    unfolding check_app_access enable_app
    api_app_enable message s r = do
      permission_check env jwt_enabled message "app-control" s
      app_name ← regex_search env jwt_enabled message.path "/appmesh/app/([^/\\*]+)/enable"
      check_app_access message app_name true s r.apps
      enable_app app_name r

    unfoldable pub api_app_disable : HttpRequest → Security → Registry P → Outcome (Registry P)
    unfolding check_app_access disable_app
    api_app_disable message s r = do
      permission_check env jwt_enabled message "app-control" s
      app_name ← regex_search env jwt_enabled message.path "/appmesh/app/([^/\\*]+)/disable"
      check_app_access message app_name true s r.apps
      disable_app app_name r

    -- Whether the name in the token is that of the application's owner. The token is read only if
    -- there is an owner and tokens are in use.
    unfoldable pub is_own_app : HttpRequest → Entry P → Outcome Bool
    is_own_app message e = elim e.owner [
      | none ↦ returns false
      | some owner ↦
          if jwt_enabled
          then (do name ← get_jwt_user_name env message; returns (str_eq owner.name name))
          else returns false
    ]

    unfoldable pub api_app_delete : HttpRequest → Security → Registry P → Outcome (Registry P)
    unfolding get_app is_own_app check_app_access remove_app
    api_app_delete message s r = do
      app_name ← regex_search env jwt_enabled message.path "/appmesh/app/([^/\\*]+)"
      e ← get_app app_name r.apps
      throw_if e.is_cloud_app cloud_app
      own ← is_own_app message e
      (if own then returns tt else permission_check env jwt_enabled message "app-delete" s)
      check_app_access message app_name true s r.apps
      returns (remove_app app_name r)
