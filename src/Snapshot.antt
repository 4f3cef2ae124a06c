-- ===== src/Snapshot.antt =====
-- src/daemon/PersistManager.h and .cpp: the snapshot of the running processes that is saved to disk, and
-- the recovery from it in src/daemon/main.cpp, with Application::attach of
-- src/daemon/application/Application.cpp, which drops the process that the application had. `status` is `os::status`: the start time of the process of that
-- id, if there is one. `attach_process` makes an AppProcess that is attached to a process id.
pub mod RoundTrip
pub mod Recovery
pub mod Saving
mod Examples
use app_mesh.Prelude.{
  ℕ, Bool, true, false, not, ◌&&◌, Option, none, some, List, [], ◌∷◌, String, str_eq, length, ◌==◌,
  ltb, if◌then◌else◌,
}
use Prim.Native.Nat.{◌^◌}
use app_mesh.Prelude.Int.{ℤ, pos, signed, eqb_ℤ, pos_part}
use app_mesh.Dict.{Dict, get, has, put}
use app_mesh.Text.{std_string_trim}
use app_mesh.Application.State.{Processes, Application, is_enabled}
use app_mesh.Application.Actions.{attach}
use app_mesh.Registry.{Entry}

-- A value of web::json, with integers for numbers, the items of an array, and the fields of an object.
mutual
  pub data Json : Type 0 where
    null : Json
    array : Items → Json
    boolean : Bool → Json
    number : ℤ → Json
    string : String → Json
    object : Fields → Json

  pub data Items : Type 0 where
    no_item : Items
    item : Json → Items → Items

  pub data Fields : Type 0 where
    no_field : Fields
    field : String → Json → Fields → Fields

-- Finding a field, which may be null.
unfoldable pub find_field : String → Fields → Option Json
find_field key no_field = none
find_field key (field name value fields) =
    if str_eq name key then some value else find_field key fields

-- The field of an object; `none` as well for a value that is no object.
unfoldable pub json_field : String → Json → Option Json
unfolding find_field
json_field key (object fields) = find_field key fields
json_field key _ = none

abbrev pub int_half : ℕ
int_half = 2 ^ 31

abbrev pub int64_half : ℕ
int64_half = 2 ^ 63

pub record AppSnap : Type 0 where
  pub pid : ℤ
  pub start_time : ℤ

pub record Snapshot : Type 0 where
  pub apps : Dict AppSnap
  pub consul_session_id : String

-- PersistManager: the last snapshot, and the file.
pub record PersistManager : Type 0 where
  pub persisted_snapshot : Snapshot
  pub file : Option Json

-- AppSnap::operator==
unfoldable pub app_snap_eq : AppSnap → AppSnap → Bool
app_snap_eq a b = eqb_ℤ a.start_time b.start_time && eqb_ℤ a.pid b.pid

-- The loop of Snapshot::operator==.
unfoldable pub snaps_within : Dict AppSnap → Dict AppSnap → Bool
unfolding app_snap_eq
snaps_within [] other = true
snaps_within ((name, snap) ∷ apps) other =
    let rest = snaps_within apps other in
    elim (get name other) [ none ↦ false | some o ↦ if app_snap_eq snap o then rest else false ]

unfoldable pub snapshot_eq : Snapshot → Snapshot → Bool
unfolding snaps_within
snapshot_eq this other =
    if not (length other.apps == length this.apps)
    then false
    else snaps_within this.apps other.apps && str_eq other.consul_session_id this.consul_session_id

-- map.insert, which keeps an entry that is there.
unfoldable pub insert {ℓ} : {V : Type ℓ} → String → V → Dict V → Dict V
insert k v m = if has k m then m else put k v m

-- The start time that the operating system gives for a process id.
unfoldable pub asked_snap : (ℤ → Option ℕ) → ℤ → Option AppSnap
asked_snap status pid = elim (status pid) [
  | none ↦ none
  | some starttime ↦ some (record { pid = pid; start_time = signed int64_half (pos starttime) })
]

-- The snapshot of one process: what was persisted for the same process id is taken over.
unfoldable pub capture_pid : (ℤ → Option ℕ) → Option AppSnap → ℤ → Option AppSnap
unfolding asked_snap
capture_pid status none pid = asked_snap status pid
capture_pid status (some snap) pid =
    let asked = asked_snap status pid in if eqb_ℤ snap.pid pid then some snap else asked

unfoldable pub insert_snap : String → Option AppSnap → Dict AppSnap → Dict AppSnap
unfolding insert
insert_snap name none apps = apps
insert_snap name (some snap) apps = insert name snap apps

module _ {P : Type 0} where
  -- The loop of PersistManager::captureSnapshot.
  unfoldable pub capture_apps :
      (ℤ → Option ℕ) → Dict AppSnap → List (Entry P) → Dict AppSnap → Dict AppSnap
  unfolding capture_pid insert_snap
  capture_apps status persisted [] apps = apps
  capture_apps status persisted (e ∷ rest) apps = capture_apps status persisted rest (
      if is_enabled e.app
      then insert_snap e.name (capture_pid status (get e.name persisted) e.app.pid) apps
      else apps)

  unfoldable pub capture_snapshot :
      (ℤ → Option ℕ) → String → List (Entry P) → PersistManager → Snapshot
  unfolding capture_apps
  capture_snapshot status session apps m = record {
    apps = capture_apps status m.persisted_snapshot.apps apps [];
    consul_session_id = session;
  }

-- Snapshot::AsJson
unfoldable pub snap_as_json : AppSnap → Json
snap_as_json snap =
    object (field "pid" (number snap.pid) (field "starttime" (number snap.start_time) no_field))

unfoldable pub apps_as_json : Dict AppSnap → Fields
unfolding snap_as_json
apps_as_json [] = no_field
apps_as_json ((name, snap) ∷ apps) = field name (snap_as_json snap) (apps_as_json apps)

unfoldable pub as_json : Snapshot → Json
unfolding apps_as_json
as_json s = object (
    field "Applications" (object (apps_as_json s.apps))
      (field "ConsulSessionId" (string s.consul_session_id) no_field))

-- GET_JSON_STR_VALUE; `none` is the exception of `as_string`.
unfoldable pub get_json_str : String → Json → Option String
unfolding json_field std_string_trim
get_json_str key json = elim (json_field key json) [
  | none ↦ some ""
  | some value ↦ elim value [
    | string text ↦ some (std_string_trim text)
    | null ↦ some ""
    | boolean b ↦ none
    | number n ↦ none
    | array items ↦ none
    | object fields ↦ none
  ]
]

-- has_number_field, with the number.
unfoldable pub number_field : String → Json → Option ℤ
unfolding json_field
number_field key json = elim (json_field key json) [
  | none ↦ none
  | some value ↦ elim value [
    | number n ↦ some n
    | null ↦ none
    | boolean b ↦ none
    | string text ↦ none
    | array items ↦ none
    | object fields ↦ none
  ]
]

-- The entry of one application in Snapshot::FromJson.
unfoldable pub snap_from_json : Json → Option AppSnap
unfolding number_field
snap_from_json json = elim (number_field "pid" json) [
  | none ↦ none
  | some pid ↦ elim (number_field "starttime" json) [
    | none ↦ none
    | some starttime ↦
        some (record { pid = signed int_half pid; start_time = signed int64_half starttime })
  ]
]

unfoldable pub apps_from_json : Fields → Dict AppSnap → Dict AppSnap
unfolding snap_from_json insert_snap
apps_from_json no_field apps = apps
apps_from_json (field name json fields) apps =
    apps_from_json fields (insert_snap name (snap_from_json json) apps)

-- The field "Applications", if it is an object.
unfoldable pub apps_field : Json → Fields
unfolding json_field
apps_field json = elim (json_field "Applications" json) [
  | none ↦ no_field
  | some value ↦ elim value [
    | object fields ↦ fields
    | null ↦ no_field
    | boolean b ↦ no_field
    | number n ↦ no_field
    | string text ↦ no_field
    | array items ↦ no_field
  ]
]

abbrev pub empty_snapshot : Snapshot
empty_snapshot = record { apps = []; consul_session_id = "" }

-- Snapshot::FromJson; main goes on with the empty snapshot if it throws.
unfoldable pub from_json : Json → Snapshot
unfolding apps_field apps_from_json get_json_str
from_json json = elim (get_json_str "ConsulSessionId" json) [
  | none ↦ empty_snapshot
  | some session ↦ record {
    apps = apps_from_json (apps_field json) [];
    consul_session_id = session;
  }
]

-- PersistManager::persistSnapshot and Snapshot::persist; `written` tells whether the file was written.
unfoldable pub persist : Bool → Snapshot → PersistManager → PersistManager
unfolding as_json
persist written snapshot m = record {
  persisted_snapshot = snapshot;
  file = if written then some (as_json snapshot) else m.file;
}

unfoldable pub persist_snapshot :
    {P : Type 0} → (ℤ → Option ℕ) → Bool → String → List (Entry P) → PersistManager → PersistManager
unfolding capture_snapshot snapshot_eq persist
persist_snapshot status written session apps m =
    let snapshot = capture_snapshot status session apps m in
    if snapshot_eq snapshot m.persisted_snapshot then m else persist written snapshot m

-- Whether the process of the snapshot is there still, with the same start time.
unfoldable pub is_alive : (ℤ → Option ℕ) → AppSnap → Bool
is_alive status snap = elim (status snap.pid) [
  | none ↦ false
  | some starttime ↦ eqb_ℤ snap.start_time (signed int64_half (pos starttime))
]

module _ {P : Type 0} (os : Processes P) (attach_process : ℤ → P) where
  -- The body of the loop in main.
  unfoldable pub recover_app : (ℤ → Option ℕ) → Option AppSnap → Entry P → Entry P
  unfolding is_alive
  recover_app status none e = e
  recover_app status (some snap) e =
      if is_alive status snap then record e { app = attach os attach_process snap.pid e.app } else e

  unfoldable pub recover : (ℤ → Option ℕ) → Snapshot → List (Entry P) → List (Entry P)
  unfolding recover_app
  recover status snap [] = []
  recover status snap (e ∷ apps) =
      recover_app status (get e.name snap.apps) e ∷ recover status snap apps
