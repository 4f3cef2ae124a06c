-- ===== src/Registry/Access.antt =====
-- Who may delete applications: RestHandler::apiAppDelete of src/daemon/rest/RestHandler.cpp.
use app_mesh.Prelude.{true, false, some, List, String, str_eq, ◌≡◌, arith, eq_iff}
use app_mesh.Prelude.Int.{ℤ}
use app_mesh.Application.State.{Processes, Timers}
use app_mesh.Security.Model.{returns, Security, User}
use app_mesh.Security.Owner.{check_owner_permission, owner_bypass}
use app_mesh.Security.Access.{Claims, Outside, HttpRequest, get_jwt_token, get_jwt_user_name}
use app_mesh.Security.Api.{regex_search}
use app_mesh.Registry.{
  Entry, Registry, find_app, get_app, check_app_access, is_own_app, api_app_delete, remove_app,
}

module _ {P : Type 0} (os : Processes P) (schedule_timer : Timers → ℤ) (env : Outside) where
  -- The owner of an application as named in a token that is decoded.
  abbrev pub Claimed : HttpRequest → User → Type 0
  Claimed message owner =
      (claims : Claims) × (env.decode (get_jwt_token message) ≡ some claims)
      × (claims.name ≡ some owner.name)

  own-access :
      (message : HttpRequest) (name : String) (e : Entry P) (owner : User) (s : Security)
      (apps : List (Entry P))
      → get_jwt_user_name env message ≡ returns owner.name
      → find_app name apps ≡ some e
      → e.owner ≡ some owner
      → str_eq name "apprest" ≡ false
      → check_app_access os schedule_timer env true message name true s apps ≡ returns tt
  unfolding check_app_access get_app check_owner_permission owner_bypass
  own-access message name e owner s apps token f o n = ground (arith, eq_iff owner.name owner.name)

  -- A request whose token names the owner of an application deletes it, also where the token is not
  -- verified, expired or of a locked user, unless it is a cloud application or the REST service.
  pub api_app_delete-unverified :
      (message : HttpRequest) (name : String) (e : Entry P) (owner : User) (s : Security)
      (r : Registry P)
      → Claimed message owner
      → regex_search env true message.path "/appmesh/app/([^/\\*]+)" ≡ returns name
      → find_app name r.apps ≡ some e
      → e.owner ≡ some owner
      → e.is_cloud_app ≡ false
      → str_eq name "apprest" ≡ false
      → api_app_delete os schedule_timer env true message s r
        ≡ returns (remove_app os schedule_timer name r)
  unfolding api_app_delete get_app is_own_app
  api_app_delete-unverified message name e owner s r claim path f o cloud rest =
      let token : get_jwt_user_name env message ≡ returns owner.name =
        unfold get_jwt_user_name in ground (arith, claim.1, claim.2) in
      ground (
        arith,
        token,
        own-access message name e owner s r.apps token f o rest,
        eq_iff owner.name owner.name,
      )
