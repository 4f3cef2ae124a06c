-- ===== src/Snapshot/Saving.antt =====
-- Comparing and saving snapshots: Snapshot::operator== and PersistManager::persistSnapshot of
-- src/daemon/PersistManager.cpp.
use app_mesh.Prelude.{
  ℕ, true, Option, some, List, [], ◌∷◌, String, eq_iff, ◌≡◌, refl, arith, sym, ◌∙◌, inl, inr,
  Bool-cases, Option-cases,
}
use app_mesh.Prelude.Int.{ℤ, eqb_ℤ→≡}
use app_mesh.Dict.{Dict, get, has, keys, Distinct}
use app_mesh.Dict.Laws.{has-none, has-get, has_of_within}
use app_mesh.Registry.{Entry, find_app}
use app_mesh.Registry.Names.{names}
use app_mesh.Snapshot.{
  AppSnap, Snapshot, PersistManager, app_snap_eq, snaps_within, snapshot_eq, capture_snapshot,
  as_json, persist, persist_snapshot,
}
use app_mesh.Snapshot.RoundTrip.{captured, get-capture_snapshot}

app_snap_eq→≡ : (a b : AppSnap) → app_snap_eq a b ≡ true → a ≡ b
unfolding app_snap_eq
app_snap_eq→≡ a b h =
    let p = eqb_ℤ→≡ a.pid b.pid (ground arith) in
    let t = eqb_ℤ→≡ a.start_time b.start_time (ground arith) in
    λ i. record { pid = p i; start_time = t i }

-- What is in the first map is in the second with an equal entry.
snaps_within-get :
    (apps other : Dict AppSnap) (j : String) {snap : AppSnap}
    → snaps_within apps other ≡ true
    → get j apps ≡ some snap
    → get j other ≡ some snap
unfolding snaps_within get
snaps_within-get [] other j h e = absurd (ground arith)
snaps_within-get ((name, s) ∷ apps) other j {snap} h e = elim (Option-cases (get name other)) [
  | inl n ↦ absurd (ground arith)
  | inr (o, n) ↦ elim (Bool-cases (app_snap_eq s o)) [
    | inl x ↦
        ground
          (arith, eq_iff name j, app_snap_eq→≡ s o x, snaps_within-get apps other j {snap = snap})
    | inr x ↦ absurd (ground arith)
  ]
]

-- Snapshots that compare equal have the same entry for every name.
snapshot_eq-get :
    (a b : Snapshot) (j : String)
    → Distinct (keys a.apps)
    → Distinct (keys b.apps)
    → snapshot_eq a b ≡ true
    → (get j b.apps ≡ get j a.apps) × (b.consul_session_id ≡ a.consul_session_id)
unfolding snapshot_eq
snapshot_eq-get a b j d d' h = (
  elim (Option-cases (get j a.apps)) [
    | inr (snap, e) ↦ snaps_within-get a.apps b.apps j {snap = snap} (ground arith) e ∙ sym e
    | inl e ↦ elim (Option-cases (get j b.apps)) [
      | inl n ↦ n ∙ sym e
      | inr (snap, n) ↦ absurd (
          ground (
            arith,
            has-none j a.apps e,
            has_of_within a.apps b.apps j d d' (ground arith) within (has-get j b.apps snap n),
          ))
    ]
  ],
  ground (arith, eq_iff b.consul_session_id a.consul_session_id),
)
  where
    within : (i : String) → has i a.apps ≡ true → has i b.apps ≡ true
    within i x = elim (Option-cases (get i a.apps)) [
      | inl n ↦ absurd (ground (arith, has-none i a.apps n))
      | inr (s, n) ↦
          has-get i b.apps s (snaps_within-get a.apps b.apps i {snap = s} (ground arith) n)
    ]

-- The file holds the last snapshot.
abbrev pub IsSaved : PersistManager → Type 0
IsSaved m = m.file ≡ some (as_json m.persisted_snapshot)

-- Where no name stands twice and the file holds the last snapshot and can be written: after a
-- snapshot is taken and saved, or found equal to the last one, the file holds the last snapshot,
-- which has the current session id and for every name what is captured of its application.
pub persist_snapshot_lem :
    {P : Type 0} (status : ℤ → Option ℕ) (session : String) (apps : List (Entry P))
    (m : PersistManager) (j : String)
    → Distinct (names apps)
    → Distinct (keys m.persisted_snapshot.apps)
    → IsSaved m
    → IsSaved (persist_snapshot status true session apps m)
      × ((persist_snapshot status true session apps m).persisted_snapshot.consul_session_id
          ≡ session)
      × (get j (persist_snapshot status true session apps m).persisted_snapshot.apps
          ≡ captured status (get j m.persisted_snapshot.apps) (find_app j apps))
unfolding persist_snapshot persist
persist_snapshot_lem status session apps m j d k saved =
    let snapshot = capture_snapshot status session apps m in
    let (entry, keyed) = get-capture_snapshot status session apps m j d in
    elim (Bool-cases (snapshot_eq snapshot m.persisted_snapshot)) [
      | inl x ↦
          let (same, id) = snapshot_eq-get snapshot m.persisted_snapshot j keyed k x in
          rw (x) (saved, id, same ∙ entry)
      | inr x ↦ rw (x) (refl, refl, entry)
    ]
