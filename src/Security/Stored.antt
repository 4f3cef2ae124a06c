-- ===== src/Security/Stored.antt =====
-- Where users and roles are kept: the files of src/daemon/security/Security.cpp, and Consul
-- (ConsulConnection::saveSecurity and syncSecurity of src/daemon/consul/ConsulConnection.cpp). Writing a
-- file and the requests to Consul succeed; a JSON text is given by its value.
use app_mesh.Prelude.{
  Bool, true, false, not, ◌&&◌, Option, none, some, [], ◌∷◌, String, str_eq, if◌then◌else◌, ◌≡◌,
  refl, arith, eq_iff, sym, subst,
}
use app_mesh.Dict.{Dict, get, put}
use app_mesh.Dict.Laws.{get-put}
use app_mesh.Security.Model.{
  Outcome, returns, throws, or_throw, ◌>>=◌, no_file, Security, User, is_nil,
}
use app_mesh.Snapshot.{Json}
use app_mesh.Security.Saved.{JsonSecurity, security_as_json, security_from_json}
use app_mesh.Security.RoundTrip.{IsSaved, IsRead, some_user, security_from_json-security_as_json}

-- The file that Security::save writes to, by the name of the plugin; "json" is the local one.
unfoldable pub security_file : String → String
security_file interface = if str_eq interface "json" then "ldap.json" else "security.json"

-- Security::save
unfoldable pub save : String → Security → Dict Json → Dict Json
unfolding security_file security_as_json
save interface s files = put (security_file interface) (security_as_json s) files

-- Security::init with the local plugin.
unfoldable pub init_local : Dict Json → Outcome JsonSecurity
unfolding security_from_json
init_local files = or_throw (get "security.json" files) no_file >>= security_from_json

abbrev has_value : Option Json → Bool
has_value none = false
has_value (some json) = true

-- ConsulConnection::saveSecurity, from the value that Consul has to the one that it has afterwards.
unfoldable pub save_security : Bool → Bool → Option Json → Security → Option Json
unfolding security_as_json
save_security enabled check_existence kept s =
    if enabled && not (check_existence && has_value kept) then some (security_as_json s) else kept

-- ConsulConnection::syncSecurity: every exception is caught, and users and roles stay if no user is read.
unfoldable pub sync_security : Bool → Option Json → JsonSecurity → JsonSecurity
unfolding security_from_json
sync_security enabled none current = current
sync_security enabled (some json) current = elim (security_from_json json) [
  | throws why ↦ current
  | returns r ↦ if enabled && not (is_nil r.users) then r else current
]

-- With the local plugin, what was saved is not what is read at the next start.
pub init_local-save :
    (s : Security) (files : Dict Json) → init_local (save "json" s files) ≡ init_local files
unfolding init_local save security_file
init_local-save s files =
    rw
      (
        init_local,
        save,
        security_file,
        get-put "ldap.json" "security.json" (security_as_json s) files,
      )
      refl

filled :
    (s : Security) (r : JsonSecurity) → IsRead s r → is_nil s.users ≡ false → is_nil r.users ≡ false
unfolding get
filled s r (k, a, u) n = filled_by s.users r.users u n
  where
    filled_by :
        (users : Dict User) (read : Dict (Option User))
        → ((n : String) → get n read ≡ some_user (get n users))
        → is_nil users ≡ false
        → is_nil read ≡ false
    filled_by [] read u n = absurd (ground arith)
    filled_by ((name, user) ∷ users) [] u n = absurd (ground (arith, u name, eq_iff name name))
    filled_by ((name, user) ∷ users) (x ∷ read) u n = refl

-- Of users and roles that can be saved, with a user: a host that keeps them in Consul, over what is
-- there, and another that reads them from there afterwards have the same, whatever the other had.
pub sync_security-save_security :
    (s : Security) (kept : Option Json) (current : JsonSecurity)
    → IsSaved s
    → is_nil s.users ≡ false
    → IsRead s (sync_security true (save_security true false kept s) current)
unfolding sync_security save_security
sync_security-save_security s kept current a n =
    let (r, e, same) = security_from_json-security_as_json s a in
    let taken : sync_security true (save_security true false kept s) current ≡ r =
      rw (sync_security, save_security, e, filled s r same n) refl in
    subst (IsRead s) (sym taken) same
