-- ===== src/Security/SavedExamples.antt =====
-- The theorems on what is kept of users and roles, at the users and roles of Security/Examples.antt.
use app_mesh.Prelude.{
  true, false, Option, none, some, [], String, str_eq, eq_iff, ◌≡◌, refl, arith, inl, inr,
  Bool-cases, subst,
}
use app_mesh.Dict.{get, erase, member}
use app_mesh.Text.{
  std_string_trim, text_length, space_count, kept_length, all_spaces, is_space, take, drop,
}
use app_mesh.Security.Model.{
  returns, throws, no_such_role, Role, User, Security, get_role, roles_del, del_role,
}
use app_mesh.Snapshot.{null}
use app_mesh.Security.Saved.{JsonSecurity, security_as_json, security_from_json}
use app_mesh.Security.ReadRoles.{IsRole, AreRoles}
use app_mesh.Security.RoundTrip.{
  IsUser, AreUsers, IsSaved, IsRead, security_from_json-security_as_json,
}
use app_mesh.Security.Stored.{save_security, sync_security, sync_security-save_security}
use app_mesh.Security.Dangling.{del_role-unreadable}
use app_mesh.Security.Examples.{manager, alice, bob, site}

same-IsRole :
    (name n : String) (role r : Role)
    → str_eq name n ≡ true
    → Path (Option Role) (some role) (some r)
    → IsRole name role
    → IsRole n r
same-IsRole name n role r e h a =
    let same : role ≡ r = ground arith in
    subst (λ x. IsRole x r) ((eq_iff name n).0 e) (subst (IsRole name) same a)

same-IsUser :
    (name n : String) (user u : User)
    → str_eq name n ≡ true
    → Path (Option User) (some user) (some u)
    → IsUser site.roles name user
    → IsUser site.roles n u
same-IsUser name n user u e h a =
    let same : user ≡ u = ground arith in
    subst (λ x. IsUser site.roles x u) ((eq_iff name n).0 e) (subst (IsUser site.roles name) same a)

site-AreRoles : AreRoles site.roles
unfolding get member
site-AreRoles n role e = elim (Bool-cases (str_eq "manager" n)) [
  | inl x ↦
      same-IsRole "manager" n manager role x (ground arith) (refl, ((refl, tt), (tt, tt)), refl)
  | inr x ↦ absurd (ground arith)
]

site-AreUsers : AreUsers site.roles site.users
unfolding get std_string_trim text_length space_count kept_length all_spaces is_space take drop
site-AreUsers n user e = elim (Bool-cases (str_eq "alice" n)) [
  | inl x ↦
      same-IsUser "alice" n alice user x (ground arith)
        (refl, (refl, refl, refl, refl), (refl, refl, tt))
  | inr x ↦ elim (Bool-cases (str_eq "bob" n)) [
    | inl y ↦ same-IsUser "bob" n bob user y (ground arith) (refl, (refl, refl, refl, refl), tt)
    | inr y ↦ absurd (ground arith)
  ]
]

site-IsSaved : IsSaved site
unfolding member
site-IsSaved = ((refl, tt), site-AreRoles, (refl, (refl, tt)), site-AreUsers)

security_from_json-security_as_json_example :
    (r : JsonSecurity) × (security_from_json (security_as_json site) ≡ returns r) × IsRead site r
security_from_json-security_as_json_example = security_from_json-security_as_json site site-IsSaved

-- What another host has before it reads Consul.
abbrev fresh : JsonSecurity
fresh = record { encrypt_key = true; roles = []; users = [] }

sync_security-save_security_example :
    IsRead site (sync_security true (save_security true false (some null) site) fresh)
sync_security-save_security_example =
    sync_security-save_security site (some null) fresh site-IsSaved refl

abbrev without_manager : Security
without_manager = record site { roles = [] }

deleted : del_role "manager" site ≡ returns without_manager
unfolding del_role roles_del get_role get erase
deleted = refl

alice_found : get "alice" site.users ≡ some alice
unfolding get
alice_found = refl

del_role-unreadable_example :
    (security_from_json (security_as_json without_manager) ≡ throws no_such_role)
    × (sync_security true (save_security true false none without_manager) fresh ≡ fresh)
del_role-unreadable_example =
    del_role-unreadable "manager" "alice" site without_manager fresh none {user = alice} deleted
      alice_found refl
