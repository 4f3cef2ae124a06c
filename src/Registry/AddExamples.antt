-- ===== src/Registry/AddExamples.antt =====
-- The theorem on requests that add applications, at a request that replaces one.
use app_mesh.Prelude.{Bool, true, false, some, [], ◌∷◌, String, str_eq, ◌≡◌, refl}
use app_mesh.Dict.{Distinct}
use app_mesh.Text.{
  text_length, std_string_trim, start_with, space_count, kept_length, all_spaces, is_space, take,
  drop,
}
use app_mesh.Security.Model.{returns, throws, Role, User, Security}
use app_mesh.Security.Access.{Outside, get_jwt_user_name}
use app_mesh.Security.Guards.{Authorized}
use app_mesh.Registry.{Entry, Registry, find_app}
use app_mesh.Registry.Names.{names}
use app_mesh.Registry.Adding.{
  AppJson, owner_named, parse_app, check_override, api_app_add, IsReplaceable, api_app_add_lem,
}
use app_mesh.Registry.Unchecked.{api_app_add-unchecked}
use app_mesh.Registry.Examples.{os, reactor, alice, site, web, db, known, env, request, registry}

abbrev registrar : Role
registrar = record { name = "registrar"; permissions = "app-reg" ∷ [] }

abbrev pub staffed : Security
staffed = record site { users = ("alice", record alice { roles = registrar ∷ [] }) ∷ [] }

-- Another application under the name that alice's has.
abbrev body : AppJson Bool
body = record { name = "web"; read_app = returns db }

adding : Unit {0}
unfolding registry owner_named parse_app check_override api_app_add text_length space_count
    kept_length all_spaces is_space std_string_trim take drop start_with
adding = tt

abbrev after_add : Registry Bool
after_add = elim (api_app_add os reactor env true 0 0 request (some body) staffed known) [
  | returns r ↦ r
  | throws why ↦ known
]

added : api_app_add os reactor env true 0 0 request (some body) staffed known ≡ returns after_add
unfolding adding
added = refl

api_app_add_lem_example :
    Authorized env request "app-reg" staffed
    × ((old : Entry Bool)
        → find_app "web" known.apps ≡ some old
        → IsReplaceable os reactor env true request "web" staffed old)
    × ((e : Entry Bool) × (find_app "web" after_add.apps ≡ some e)
        × ((user : String) × (get_jwt_user_name env request ≡ returns user)
            × (owner_named staffed user ≡ returns e.owner)))
    × ((j : String) → str_eq "web" j ≡ false → find_app j after_add.apps ≡ find_app j known.apps)
    × Distinct (names after_add.apps)
api_app_add_lem_example =
    api_app_add_lem os reactor env 0 0 request body staffed known (unfold adding in (refl, tt))
      (unfold adding in refl) added

-- Carol, who may register applications, but not write that of alice.
abbrev carol : User
carol = record alice { name = "carol"; roles = registrar ∷ [] }

abbrev with_carol : Security
with_carol = record site { users = ("alice", alice) ∷ ("carol", carol) ∷ [] }

abbrev carols : Outside
carols = record env { decode = λ s. some (record { name = some "carol"; group = some "staff" }) }

-- The first trim leaves the blank at the end of this name.
abbrev padded : AppJson Bool
padded = record { name = "web "; read_app = returns db }

abbrev after_padded : Registry Bool
after_padded =
    elim (api_app_add os reactor carols true 0 0 request (some padded) with_carol known) [
      | returns r ↦ r
      | throws why ↦ known
    ]

api_app_add-unchecked_example :
    (api_app_add os reactor carols true 0 0 request (some padded) with_carol known
      ≡ returns after_padded)
    × ((found : Entry Bool) × (find_app "web" after_padded.apps ≡ some found)
        × (found.owner ≡ some carol)
        × (found.spec ≡ db.spec))
unfolding adding
api_app_add-unchecked_example =
    api_app_add-unchecked os reactor carols 0 0 request "    web " with_carol known after_padded web
      db "carol" (some carol) (refl, tt) refl refl refl refl refl refl
