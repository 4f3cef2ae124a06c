-- ===== src/Security/Roles.antt =====
-- The permissions that roles give: src/daemon/security/Role.cpp and Security::getUserPermissions.
use app_mesh.Prelude.{
  inl, inr, Bool, true, false, none, some, List, [], ◌∷◌, String, str_eq, if◌then◌else◌, ◌≡◌, refl,
  arith, eq_iff, Bool-cases, Option-cases,
}
use app_mesh.Dict.{get, has, put, member, add}
use app_mesh.Dict.Laws.{has-get, get-put, get-erase, member-add}
use app_mesh.Security.Model.{
  is_nil, returns, Security, Role, Roles, User, get_role, role_permissions, role_from_json,
  roles_add, has_permission, any_role_has, add_all, permission_set, get_user_permissions, get_user,
  add_role, del_role,
}

-- Whether a list of permissions that a request brings grants one of them.
abbrev pub listed : String → List String → Bool
listed p [] = false
listed p (x ∷ xs) = if str_eq x p then true else listed p xs

member-role_permissions :
    (p : String) (perms : List String)
    → member p (role_permissions perms) ≡ (if str_eq p "" then false else listed p perms)
unfolding role_permissions member
member-role_permissions p [] = ground arith
member-role_permissions p (x ∷ xs) = ground (
  arith,
  member-role_permissions p xs,
  member-add x p (role_permissions xs),
  eq_iff x "",
  eq_iff x p,
  eq_iff p "",
)

member-add_all :
    (p : String) (xs set : List String)
    → member p (add_all xs set) ≡ (if member p xs then true else member p set)
unfolding member
member-add_all p [] set = refl
member-add_all p (x ∷ xs) set = ground (arith, member-add_all p xs (add x set), member-add x p set)

pub member-permission_set :
    (p : String) (roles : List Role) (set : List String)
    → member p (permission_set roles set) ≡ (if any_role_has roles p then true else member p set)
unfolding permission_set any_role_has has_permission
member-permission_set p [] set = refl
member-permission_set p (role ∷ roles) set = ground (
  arith,
  member-permission_set p roles (add_all role.permissions set),
  member-add_all p role.permissions set,
)

-- The permissions that are collected for a user are exactly those that one of the user's roles has.
pub get_user_permissions_lem :
    (name p : String) (s : Security) {perms : List String}
    → get_user_permissions name s ≡ returns perms
    → (user : User) × (get name s.users ≡ some user) × (member p perms ≡ any_role_has user.roles p)
unfolding get_user_permissions get_user member
get_user_permissions_lem name p s {perms} e = elim (Option-cases (get name s.users)) [
  | inl n ↦ absurd (ground arith)
  | inr (user, f) ↦ (user, f, ground (arith, member-permission_set p user.roles []))
]

get-roles_add :
    (perms : List String) (name j : String) (roles : Roles)
    → get j (roles_add perms name roles) ≡ (
        if str_eq name j
        then (if is_nil (role_permissions perms) then none else some (role_from_json name perms))
        else get j roles)
unfolding roles_add role_from_json
get-roles_add perms name j roles =
    let role = role_from_json name perms in
    elim (Bool-cases (is_nil (role_permissions perms))) [
      | inl e ↦
          rw (e) (ground (arith, get-erase name j (put name role roles), get-put name j role roles))
      | inr e ↦ rw (e) (get-put name j role roles)
    ]

-- Whether the role of a name exists and has a permission.
abbrev pub grants : String → String → Roles → Bool
grants j p roles = elim (get j roles) [ none ↦ false | some role ↦ has_permission role p ]

nil-member : (p : String) (set : List String) → is_nil set ≡ true → member p set ≡ false
unfolding member
nil-member p [] e = refl
nil-member p (x ∷ set) e = ground arith

-- After a role was set, it grants exactly the permissions that were listed for it, except for the
-- empty one, and other roles grant what they did; every user has the permissions that it had before,
-- also those that come from the role that was set.
pub add_role_lem :
    (perms : List String) (name j p : String) (s : Security)
    → (grants j p (add_role perms name s).roles ≡ (
        if str_eq name j
        then (if str_eq p "" then false else listed p perms)
        else grants j p s.roles))
      × ((user : String)
          → get_user_permissions user (add_role perms name s) ≡ get_user_permissions user s)
unfolding add_role role_from_json has_permission get_user_permissions
add_role_lem perms name j p s = (
  elim (Bool-cases (is_nil (role_permissions perms))) [
    | inl e ↦ ground (
      arith,
      get-roles_add perms name j s.roles,
      member-role_permissions p perms,
      nil-member p (role_permissions perms),
    )
    | inr e ↦ ground (arith, get-roles_add perms name j s.roles, member-role_permissions p perms)
  ],
  λ user. refl,
)

-- A role is deleted only if it exists; after that it grants nothing, other roles grant what they did,
-- and every user has the permissions that it had before, also those that come from the deleted role.
pub del_role_lem :
    (name j p : String) (s : Security) {s' : Security}
    → del_role name s ≡ returns s'
    → (has name s.roles ≡ true)
      × (grants j p s'.roles ≡ (if str_eq name j then false else grants j p s.roles))
      × ((user : String) → get_user_permissions user s' ≡ get_user_permissions user s)
unfolding del_role get_role has_permission get_user_permissions get_user
del_role_lem name j p s {s'} e = elim (Option-cases (get name s.roles)) [
  | inl n ↦ absurd (ground arith)
  | inr (role, f) ↦
      (has-get name s.roles role f, ground (arith, get-erase name j s.roles), λ user. ground arith)
]
