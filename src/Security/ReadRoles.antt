-- ===== src/Security/ReadRoles.antt =====
-- Roles of src/daemon/security/Role.cpp after they were written as JSON and read back.
use app_mesh.Prelude.{
  true, false, Option, none, some, List, [], ◌∷◌, String, str_lt, str_lt_irrefl, eq_iff, All, ◌≡◌,
  refl, arith, inl, inr, Option-cases,
}
use app_mesh.Dict.{Dict, get, put, add, member, keys, Distinct}
use app_mesh.Dict.Laws.{get-put, get-tail, get-none, member-keys}
use app_mesh.Dict.Sorted.{Ascending}
use app_mesh.Security.Model.{returns, Role, Roles, role_permissions, role_from_json}
use app_mesh.Snapshot.{array}
use app_mesh.Security.Saved.{
  texts_as_json, roles_as_json, as_string, as_array, permission_texts, read_role, read_role_map,
}

pub permission_texts-texts_as_json :
    (texts : List String) → permission_texts (texts_as_json texts) ≡ returns texts
unfolding permission_texts texts_as_json as_string
permission_texts-texts_as_json [] = refl
permission_texts-texts_as_json (text ∷ texts) = rw (permission_texts-texts_as_json texts) refl

add_first : (k : String) (s : List String) → All (λ j. str_lt k j ≡ true) s → add k s ≡ k ∷ s
unfolding add
add_first k [] a = refl
add_first k (j ∷ s) a = ground (arith, eq_iff j k, a.0, str_lt_irrefl k)

role_permissions_set :
    (perms : List String)
    → Ascending perms
    → member "" perms ≡ false
    → role_permissions perms ≡ perms
unfolding role_permissions member
role_permissions_set [] a m = refl
role_permissions_set (perm ∷ perms) a m =
    ground (arith, role_permissions_set perms a.1 (ground arith), add_first perm perms a.0)

-- A role is filed under its name, and its permissions are a set of texts that are not empty.
abbrev pub IsRole : String → Role → Type 0
IsRole name role =
    (role.name ≡ name) × Ascending role.permissions × (member "" role.permissions ≡ false)

pub read_role_lem :
    (name : String) (role : Role)
    → IsRole name role
    → read_role name (array (texts_as_json role.permissions)) ≡ returns role
unfolding read_role as_array role_from_json
read_role_lem name role h =
    rw
      (
        permission_texts-texts_as_json role.permissions,
        role_permissions_set role.permissions h.1 h.2,
        ← h.0,
      )
      refl

module _ {V : Type 0} where
  -- The entries of the first map, over those of the second.
  abbrev pub put_all : Dict V → Dict V → Dict V
  put_all [] acc = acc
  put_all ((k, v) ∷ m) acc = put_all m (put k v acc)

  abbrev over : Option V → Option V → Option V
  over none old = old
  over (some v) old = some v

  get-put_all :
      (j : String) (m acc : Dict V)
      → Distinct (keys m)
      → get j (put_all m acc) ≡ over (get j m) (get j acc)
  unfolding get
  get-put_all j [] acc d = refl
  get-put_all j ((k, v) ∷ m) acc d = ground (
    arith,
    get-put_all j m (put k v acc) d.1,
    get-put k j v acc,
    eq_iff k j,
    member-keys k m,
    get-none k m,
  )

  pub get-put_all_new :
      (j : String) (m : Dict V) → Distinct (keys m) → get j (put_all m []) ≡ get j m
  unfolding get
  get-put_all_new j m d = elim (Option-cases (get j m)) [
    | inl e ↦ rw (get-put_all j m [] d, e) refl
    | inr (v, e) ↦ rw (get-put_all j m [] d, e) refl
  ]

abbrev pub AreRoles : Roles → Type 0
AreRoles roles = (n : String) (role : Role) → get n roles ≡ some role → IsRole n role

pub read_role_map_lem :
    (roles acc : Roles)
    → Distinct (keys roles)
    → AreRoles roles
    → read_role_map (roles_as_json roles) acc ≡ returns (put_all roles acc)
unfolding read_role_map roles_as_json get
read_role_map_lem [] acc d a = refl
read_role_map_lem ((name, role) ∷ roles) acc d a =
    rw (read_role_lem name role (a name role (ground (arith, eq_iff name name)))) (
      read_role_map_lem roles (put name role acc) d.1
        (λ n r e. a n r (get-tail name role n roles d e)))
