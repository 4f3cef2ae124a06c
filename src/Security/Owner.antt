-- ===== src/Security/Owner.antt =====
-- The access of a user to an application of another one: Configuration::checkOwnerPermission of
-- src/daemon/Configuration.cpp, with the permissions of src/daemon/application/AppUtils.h.
use app_mesh.Prelude.{
  ℕ, ◌/◌, ◌%◌, inl, inr, Bool, true, false, not, ◌&&◌, ◌||◌, Option, none, some, String, str_eq,
  ◌==◌, if◌then◌else◌, ◌≡◌, refl, arith, Bool-cases, Option-cases,
}
use app_mesh.Prelude.Int.{ℤ, pos, negsuc, leb_ℤ, eqb_ℤ, div_ℤ, mod_ℤ, scale_ℤ}
use app_mesh.Dict.{get}
use app_mesh.Security.Model.{Outcome, returns, ◌>>=◌, Security, User, get_user}

-- The part of `PERMISSION` for the group, and ten times that for others.
abbrev pub group_deny : ℤ
group_deny = pos 1

abbrev pub group_read : ℤ
group_read = pos 2

abbrev pub group_write : ℤ
group_write = pos 3

abbrev pub other_deny : ℤ
other_deny = pos 10

abbrev pub other_read : ℤ
other_read = pos 20

abbrev pub other_write : ℤ
other_write = pos 30

-- The tests on the part of the permission that applies.
unfoldable pub level_allows : ℤ → ℤ → ℤ → Bool → ℤ → Bool
level_allows deny read write request_write perm =
    if leb_ℤ perm deny
    then false
    else if not request_write && (eqb_ℤ perm read || eqb_ℤ perm write)
    then true
    else request_write && eqb_ℤ perm write

-- No check is made for these.
unfoldable pub owner_bypass : String → Option User → ℤ → Bool
owner_bypass user none app_permission = true
owner_bypass user (some owner) app_permission =
    str_eq user "" || str_eq user owner.name || eqb_ℤ app_permission (pos 0) || str_eq user "admin"

unfoldable pub check_owner_permission : String → Option User → ℤ → Bool → Security → Outcome Bool
unfolding owner_bypass level_allows get_user
check_owner_permission user none app_permission request_write s = returns true
check_owner_permission user (some owner) app_permission request_write s =
    if owner_bypass user (some owner) app_permission then returns true else (do
      user_obj ← get_user user s.users
      returns (
          if str_eq user_obj.group owner.group
          then level_allows group_deny group_read group_write request_write
              (mod_ℤ (div_ℤ app_permission 1) 10)
          else level_allows other_deny other_read other_write request_write
              (scale_ℤ 10 (mod_ℤ (div_ℤ app_permission 10) 10))))

-- The last decimal digit of a permission speaks of the owner's group, the one before of others.
abbrev pub digit : ℤ → Bool → ℕ
digit (pos n) same_group = if same_group then n % 10 else n / 10 % 10
digit (negsuc n) same_group = 0

abbrev pub may : Bool → ℕ → Bool
may request_write d = if request_write then d == 3 else d == 2 || d == 3

-- Where the check is made at all, for a user that exists, a digit of the permission decides: the
-- last one within the owner's group and the one before otherwise, where 3 allows writing and
-- 2 or 3 reading, and a negative permission allows nothing.
pub check_owner_permission_lem :
    (user : String) (owner visitor : User) (perm : ℤ) (write : Bool) (s : Security)
    → owner_bypass user (some owner) perm ≡ false
    → get user s.users ≡ some visitor
    → check_owner_permission user (some owner) perm write s
      ≡ returns (may write (digit perm (str_eq visitor.group owner.group)))
unfolding check_owner_permission get_user level_allows
check_owner_permission_lem user owner visitor (pos n) write s b e = ground arith
check_owner_permission_lem user owner visitor (negsuc n) write s b e = ground arith

-- Who may write an application may read it.
pub check_owner_permission-write :
    (user : String) (owner : Option User) (perm : ℤ) (s : Security)
    → check_owner_permission user owner perm true s ≡ returns true
    → check_owner_permission user owner perm false s ≡ returns true
unfolding check_owner_permission get_user level_allows
check_owner_permission-write user none perm s e = refl
check_owner_permission-write user (some owner) perm s e =
    elim (Bool-cases (owner_bypass user (some owner) perm)) [
      | inl b ↦ ground arith
      | inr b ↦ elim (Option-cases (get user s.users)) [
        | inl u ↦ absurd (ground arith)
        | inr (visitor, u) ↦ ground (
          arith,
          check_owner_permission_lem user owner visitor perm true s b u,
          check_owner_permission_lem user owner visitor perm false s b u,
        )
      ]
    ]
