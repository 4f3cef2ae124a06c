-- ===== src/Snapshot/RoundTrip.antt =====
-- What a snapshot of src/daemon/PersistManager.cpp holds for each application, after it was captured and
-- after it was written as JSON and read back.
use app_mesh.Prelude.{
  ℕ, Option, none, some, List, [], ◌∷◌, String, str_eq, eq_iff, if◌then◌else◌, ◌≡◌, refl, arith,
  sym, ◌∙◌, inl, inr, Bool-cases, Option-cases,
}
use app_mesh.Prelude.Int.{ℤ, IsSigned, signed-IsSigned}
use app_mesh.Dict.{Dict, get, has, keys, Distinct}
use app_mesh.Dict.Laws.{get-put, get-none, has-none, has-get, member-keys}
use app_mesh.Dict.Sorted.{Ascending, Ascending-put, Ascending-Distinct}
use app_mesh.Text.{std_string_trim}
use app_mesh.Application.State.{is_enabled}
use app_mesh.Registry.{Entry, find_app}
use app_mesh.Registry.Names.{names, absent-find_app}
use app_mesh.Snapshot.{
  AppSnap, Snapshot, PersistManager, insert, insert_snap, capture_pid, capture_apps,
  capture_snapshot, int_half, int64_half, snap_as_json, apps_as_json, as_json, number_field,
  snap_from_json, apps_from_json, apps_field, get_json_str, json_field, find_field, from_json,
}

-- What an entry adds under a name: it keeps one that is there.
abbrev first_of {ℓ} : {V : Type ℓ} → Option V → Option V → Option V
first_of none new = new
first_of (some v) new = some v

first_of-none : (o : Option AppSnap) → first_of o none ≡ o
first_of-none none = refl
first_of-none (some s) = refl

get-insert_snap :
    (name j : String) (o : Option AppSnap) (apps : Dict AppSnap)
    → get j (insert_snap name o apps)
      ≡ (if str_eq name j then first_of (get j apps) o else get j apps)
unfolding insert_snap insert
get-insert_snap name j none apps = elim (Option-cases (get j apps)) [
  | inl e ↦ ground arith
  | inr (s, e) ↦ ground arith
]
get-insert_snap name j (some snap) apps = elim (Option-cases (get j apps)) [
  | inl e ↦
      ground (arith, eq_iff name j, get-put name j snap apps, has-none j apps e, get-none name apps)
  | inr (s, e) ↦ ground (arith, eq_iff name j, get-put name j snap apps, has-get j apps s e)
]

-- The value of a name in the capture of one application, if there is one.
abbrev pub captured :
    {P : Type 0} → (ℤ → Option ℕ) → Option AppSnap → Option (Entry P) → Option AppSnap
captured status persisted none = none
captured status persisted (some e) =
    if is_enabled e.app then capture_pid status persisted e.app.pid else none

module _ {P : Type 0} where
  get-capture_apps :
      (status : ℤ → Option ℕ) (persisted : Dict AppSnap) (apps : List (Entry P))
      (snaps : Dict AppSnap) (j : String)
      → Distinct (names apps)
      → get j (capture_apps status persisted apps snaps)
        ≡ first_of (get j snaps) (captured status (get j persisted) (find_app j apps))
  unfolding capture_apps find_app
  get-capture_apps status persisted [] snaps j d = sym (first_of-none (get j snaps))
  get-capture_apps status persisted (e ∷ apps) snaps j d = elim (Bool-cases (is_enabled e.app)) [
    | inl x ↦ ground (
      arith,
      get-capture_apps status persisted apps
          (insert_snap e.name (capture_pid status (get e.name persisted) e.app.pid) snaps) j d.1,
      get-insert_snap e.name j (capture_pid status (get e.name persisted) e.app.pid) snaps,
      eq_iff e.name j,
      absent-find_app e.name apps d.0,
    )
    | inr x ↦ ground (
      arith,
      get-capture_apps status persisted apps snaps j d.1,
      eq_iff e.name j,
      absent-find_app e.name apps d.0,
    )
  ]

-- The numbers of a snapshot are of the types `pid_t` and `int64_t`.
abbrev pub HasInts : AppSnap → Type 0
HasInts snap = IsSigned int_half snap.pid × IsSigned int64_half snap.start_time

snap-json : (snap : AppSnap) → HasInts snap → snap_from_json (snap_as_json snap) ≡ some snap
unfolding snap_from_json snap_as_json number_field json_field find_field
snap-json snap h =
    rw (signed-IsSigned int_half snap.pid h.0, signed-IsSigned int64_half snap.start_time h.1) refl

get-apps_json :
    (apps snaps : Dict AppSnap) (j : String)
    → Distinct (keys apps)
    → ((snap : AppSnap) → get j apps ≡ some snap → HasInts snap)
    → get j (apps_from_json (apps_as_json apps) snaps) ≡ first_of (get j snaps) (get j apps)
unfolding apps_from_json apps_as_json get
get-apps_json [] snaps j d h = sym (first_of-none (get j snaps))
get-apps_json ((name, snap) ∷ apps) snaps j d h =
    let o = snap_from_json (snap_as_json snap) in
    elim (Bool-cases (str_eq name j)) [
      | inr other ↦
          get-apps_json apps (insert_snap name o snaps) j d.1 (λ s e. h s (ground arith))
          ∙ ground (arith, get-insert_snap name j o snaps)
      | inl same ↦
          get-apps_json apps (insert_snap name o snaps) j d.1 (λ s e.
            absurd (ground (arith, eq_iff name j, member-keys name apps, has-get j apps s e)))
          ∙ ground (
            arith,
            get-insert_snap name j o snaps,
            snap-json snap (h snap (ground arith)),
            eq_iff name j,
            member-keys name apps,
            get-none name apps,
          )
    ]

pub get-from_json :
    (s : Snapshot) (j : String)
    → Distinct (keys s.apps)
    → ((snap : AppSnap) → get j s.apps ≡ some snap → HasInts snap)
    → get j (from_json (as_json s)).apps ≡ get j s.apps
unfolding from_json as_json apps_field get_json_str json_field find_field get
get-from_json s j d h = get-apps_json s.apps [] j d h

-- A snapshot whose keys are distinct is read back from its JSON with the same entry for every name
-- whose numbers are of their types, and with its session id if that has no blanks around it.
pub from_json-as_json :
    (s : Snapshot) (j : String)
    → Distinct (keys s.apps)
    → ((snap : AppSnap) → get j s.apps ≡ some snap → HasInts snap)
    → std_string_trim s.consul_session_id ≡ s.consul_session_id
    → (get j (from_json (as_json s)).apps ≡ get j s.apps)
      × ((from_json (as_json s)).consul_session_id ≡ s.consul_session_id)
unfolding from_json as_json apps_field get_json_str json_field find_field get
from_json-as_json s j d h t = (get-from_json s j d h, t)

Ascending-insert_snap :
    (name : String) (o : Option AppSnap) (apps : Dict AppSnap)
    → Ascending (keys apps)
    → Ascending (keys (insert_snap name o apps))
unfolding insert_snap insert
Ascending-insert_snap name none apps a = a
Ascending-insert_snap name (some snap) apps a = elim (Bool-cases (has name apps)) [
  | inl x ↦ rw (x) a
  | inr x ↦ rw (x) (Ascending-put name snap apps a)
]

module _ {P : Type 0} where
  Ascending-capture_apps :
      (status : ℤ → Option ℕ) (persisted : Dict AppSnap) (apps : List (Entry P))
      (snaps : Dict AppSnap)
      → Ascending (keys snaps)
      → Ascending (keys (capture_apps status persisted apps snaps))
  unfolding capture_apps
  Ascending-capture_apps status persisted [] snaps a = a
  Ascending-capture_apps status persisted (e ∷ apps) snaps a =
      Ascending-capture_apps status persisted apps _ (elim (Bool-cases (is_enabled e.app)) [
        | inl x ↦ rw (x) (Ascending-insert_snap e.name _ snaps a)
        | inr x ↦ rw (x) a
      ])

  -- The entry of a name in a new snapshot, and that the snapshot is a map.
  pub get-capture_snapshot :
      (status : ℤ → Option ℕ) (session : String) (apps : List (Entry P)) (m : PersistManager)
      (j : String)
      → Distinct (names apps)
      → (get j (capture_snapshot status session apps m).apps
          ≡ captured status (get j m.persisted_snapshot.apps) (find_app j apps))
        × Distinct (keys (capture_snapshot status session apps m).apps)
  unfolding capture_snapshot get
  get-capture_snapshot status session apps m j d = (
    get-capture_apps status m.persisted_snapshot.apps apps [] j d,
    Ascending-Distinct (keys (capture_snapshot status session apps m).apps)
        (Ascending-capture_apps status m.persisted_snapshot.apps apps [] tt),
  )
