-- ===== src/Snapshot/Recovery.antt =====
-- From the snapshot that PersistManager of src/daemon/PersistManager.cpp captured, through the file, to the
-- applications that src/daemon/main.cpp attaches to their processes after a restart.
use app_mesh.Prelude.{
  ℕ, true, false, Option, none, some, List, [], ◌∷◌, String, eq_iff, ◌≡◌, ◌⊎◌, refl, arith, ap, sym,
  ltb, if◌then◌else◌, subst, ◌∙◌, inl, inr, Bool-cases, Option-cases,
}
use app_mesh.Prelude.Int.{ℤ, pos, pos_part, eqb_ℤ, eqb_ℤ→≡, signed, IsSigned, signed-range}
use app_mesh.Dict.{get, Distinct}
use app_mesh.Application.State.{Processes, is_enabled}
use app_mesh.Application.Actions.{attach}
use app_mesh.Registry.{Entry, find_app}
use app_mesh.Registry.Names.{names}
use app_mesh.Snapshot.{
  AppSnap, Snapshot, PersistManager, asked_snap, capture_pid, capture_snapshot, int_half,
  int64_half, as_json, from_json, is_alive, recover_app, recover,
}
use app_mesh.Snapshot.RoundTrip.{HasInts, get-from_json, get-capture_snapshot}

-- What is persisted for a process id was of the process that has it now.
capture_pid-fresh :
    (status : ℤ → Option ℕ) (o : Option AppSnap) (pid : ℤ) (t : ℕ)
    → ((snap : AppSnap)
        → o ≡ some snap
        → snap.pid ≡ pid
        → snap.start_time ≡ signed int64_half (pos t))
    → status pid ≡ some t
    → capture_pid status o pid ≡ some (record { pid = pid; start_time = signed int64_half (pos t) })
unfolding capture_pid asked_snap
capture_pid-fresh status none pid t fresh st = rw (asked_snap, st) refl
capture_pid-fresh status (some snap) pid t fresh st = elim (Bool-cases (eqb_ℤ snap.pid pid)) [
  | inl x ↦
      let p = eqb_ℤ→≡ snap.pid pid x in
      rw (x) (λ i. some (record { pid = p i; start_time = fresh snap refl p i }))
  | inr x ↦ rw (x, asked_snap, st) refl
]

same_time : (a b : ℤ) → eqb_ℤ a b ≡ false → a ≡ b → ⊥
same_time a b x e = ground arith

wanted : {A : Type 0} {a : A} (b : A) → some a ≡ some b → a ≡ b
wanted b p = ground arith

module _ {P : Type 0} (os : Processes P) (attach_process : ℤ → P) where
  recover_app-name :
      (status : ℤ → Option ℕ) (o : Option AppSnap) (e : Entry P)
      → (recover_app os attach_process status o e).name ≡ e.name
  unfolding recover_app
  recover_app-name status none e = refl
  recover_app-name status (some snap) e = elim (Bool-cases (is_alive status snap)) [
    | inl x ↦ rw (x) refl
    | inr x ↦ rw (x) refl
  ]

  find_app-recover :
      (status : ℤ → Option ℕ) (snap : Snapshot) (apps : List (Entry P)) (j : String) {e : Entry P}
      → find_app j apps ≡ some e
      → find_app j (recover os attach_process status snap apps)
        ≡ some (recover_app os attach_process status (get j snap.apps) e)
  unfolding recover find_app
  find_app-recover status snap [] j h = absurd (ground arith)
  find_app-recover status snap (other ∷ apps) j {e} h = ground (
    arith,
    recover_app-name status (get other.name snap.apps) other,
    eq_iff other.name j,
    find_app-recover status snap apps j {e = e},
  )

  -- The process of that id is the one that started at `t`, as far as the file tells: the times are
  -- compared as the 64-bit integers that the file holds.
  abbrev pub IsSame : (ℤ → Option ℕ) → ℤ → ℕ → Type 0
  IsSame later pid t =
      (t' : ℕ) × (later pid ≡ some t') × (signed int64_half (pos t') ≡ signed int64_half (pos t))

  -- An application that is attached to a process id above 1.
  abbrev pub attached : ℤ → Entry P → Entry P
  attached pid e =
      if ltb 1 (pos_part pid)
      then record e {
        app = record (e.app) {
          process = some (attach_process pid);
          pid = os.getpid (attach_process pid);
        };
      }
      else e

  attach-attached :
      (pid : ℤ) (e : Entry P)
      → record e { app = attach os attach_process pid e.app } ≡ attached pid e
  unfolding attach
  attach-attached pid e = elim (Bool-cases (ltb 1 (pos_part pid))) [
    | inl x ↦ rw (x) refl
    | inr x ↦ rw (x) refl
  ]

  recover_app-IsSame :
      (later : ℤ → Option ℕ) (pid : ℤ) (t : ℕ) (e : Entry P)
      → (IsSame later pid t
          × (recover_app os attach_process later
                (some (record { pid = pid; start_time = signed int64_half (pos t) }))
                e
              ≡ attached pid e))
        ⊎ ((¬ IsSame later pid t)
            × (recover_app os attach_process later
                  (some (record { pid = pid; start_time = signed int64_half (pos t) }))
                  e
                ≡ e))
  unfolding recover_app is_alive
  recover_app-IsSame later pid t e = elim (Option-cases (later pid)) [
    | inl n ↦ inr (λ (t', l, x). ground arith, rw (recover_app, is_alive, n) refl)
    | inr (t', l) ↦
        let saved = signed int64_half (pos t) in
        let found = signed int64_half (pos t') in
        elim (Bool-cases (eqb_ℤ saved found)) [
          | inl x ↦ inl (
            (t', l, sym (eqb_ℤ→≡ saved found x)),
            rw (recover_app, is_alive, l, x) (attach-attached pid e),
          )
          | inr x ↦ inr (
            λ (u, k, y).
                same_time saved found x
                  (sym y ∙ ap (λ n. signed int64_half (pos n)) (wanted t' (sym k ∙ l))),
            rw (recover_app, is_alive, l, x) refl,
          )
        ]
  ]

  -- Where no name stands twice, an enabled application has a process of that id, and what was
  -- persisted before for that id was of the same process: after the daemon captured a snapshot, wrote
  -- it and read it at the next start, the application of that name is attached to the process id, if
  -- that is above 1, where there is a process of that id then and it started at the same time; the
  -- application is left alone if there is none or it started at another time.
  pub recover_lem :
      (status later : ℤ → Option ℕ) (session : String) (apps restarted : List (Entry P))
      (m : PersistManager) (j : String) (e e' : Entry P) (t : ℕ)
      → Distinct (names apps)
      → find_app j apps ≡ some e
      → find_app j restarted ≡ some e'
      → is_enabled e.app ≡ true
      → IsSigned int_half e.app.pid
      → status e.app.pid ≡ some t
      → ((snap : AppSnap)
          → get j m.persisted_snapshot.apps ≡ some snap
          → snap.pid ≡ e.app.pid
          → snap.start_time ≡ signed int64_half (pos t))
      → (o : Entry P) × (find_app j (
            recover os attach_process later
              (from_json (as_json (capture_snapshot status session apps m)))
              restarted)
          ≡ some o)
        × ((IsSame later e.app.pid t × (o ≡ attached e.app.pid e'))
            ⊎ ((¬ IsSame later e.app.pid t) × (o ≡ e')))
  recover_lem status later session apps restarted m j e e' t d f f' en r st fresh =
      let want : AppSnap = record { pid = e.app.pid; start_time = signed int64_half (pos t) } in
      let snapshot = capture_snapshot status session apps m in
      let (entry, keyed) = get-capture_snapshot status session apps m j d in
      let found : get j snapshot.apps ≡ some want = ground (
        arith,
        entry,
        capture_pid-fresh status (get j m.persisted_snapshot.apps) e.app.pid t fresh st,
      ) in
      let read : get j (from_json (as_json snapshot)).apps ≡ some want =
        get-from_json snapshot j keyed (λ snap s.
          subst HasInts (wanted snap (sym found ∙ s))
            (r, signed-range int64_half (pos t) (omega arith)))
        ∙ found in
      (
        recover_app os attach_process later (some want) e',
        find_app-recover later (from_json (as_json snapshot)) restarted j f' ∙ rw (read) refl,
        recover_app-IsSame later e.app.pid t e',
      )
