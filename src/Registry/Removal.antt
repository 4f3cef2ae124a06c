-- ===== src/Registry/Removal.antt =====
-- Removing an application: Configuration::removeApp of src/daemon/Configuration.cpp.
use app_mesh.Prelude.{
  inl, inr, false, none, some, List, [], ◌∷◌, String, str_eq, if◌then◌else◌, ◌≡◌, refl, arith,
  eq_iff, Bool-cases,
}
use app_mesh.Prelude.Int.{ℤ}
use app_mesh.Dict.{Distinct}
use app_mesh.Application.State.{Processes, Timers}
use app_mesh.Application.Actions.{destroy, process_running}
use app_mesh.Application.Lifetime.{destroy-process_running, destroy-buffer_process}
use app_mesh.Registry.{Entry, Registry, find_app, is_app_exist, named, destroy_last, remove_app}
use app_mesh.Registry.Names.{names, find_app-without, Distinct-without, member-names}

module _ {P : Type 0} where
  named-absent :
      (name : String) (apps : List (Entry P))
      → is_app_exist name apps ≡ false
      → named name apps ≡ []
  unfolding is_app_exist named
  named-absent name [] h = refl
  named-absent name (e ∷ apps) h = ground (arith, named-absent name apps)

  named-find_app :
      (name : String) (apps : List (Entry P)) {e : Entry P}
      → Distinct (names apps)
      → find_app name apps ≡ some e
      → named name apps ≡ e ∷ []
  unfolding find_app named
  named-find_app name [] d f = absurd (ground arith)
  named-find_app name (other ∷ apps) {e} d f = elim (Bool-cases (str_eq other.name name)) [
    | inl s ↦ rw (s) (
        ground (
          arith,
          eq_iff other.name name,
          member-names other.name apps,
          d.0,
          named-absent name apps,
        ))
    | inr s ↦ ground (arith, named-find_app name apps {e = e} d.1)
  ]

module _ {P : Type 0} (os : Processes P) (schedule_timer : Timers → ℤ) where
  -- Where killing a process ends it and no name stands twice: after an application is removed, its
  -- name finds nothing, every other name finds what it found before, and the application itself was
  -- destroyed: its current process (m_process) does not run, and the one that a restart left for the
  -- buffer time (m_bufferProcess) is left as it was.
  pub remove_app_lem :
      (name j : String) (e : Entry P) (r : Registry P)
      → ((p : P) → os.running (os.killgroup p) ≡ false)
      → Distinct (names r.apps)
      → find_app name r.apps ≡ some e
      → (find_app j (remove_app os schedule_timer name r).apps
          ≡ (if str_eq name j then none else find_app j r.apps))
        × Distinct (names (remove_app os schedule_timer name r).apps)
        × ((remove_app os schedule_timer name r).retired
            ≡ record e { app = destroy os schedule_timer e.app } ∷ r.retired)
        × (process_running os schedule_timer (destroy os schedule_timer e.app) ≡ false)
        × ((destroy os schedule_timer e.app).buffer_process ≡ e.app.buffer_process)
  unfolding remove_app destroy_last
  remove_app_lem name j e r killed d f = (
    find_app-without name j r.apps,
    Distinct-without name r.apps d,
    rw (named-find_app name r.apps {e = e} d f) refl,
    destroy-process_running os schedule_timer e.app killed,
    destroy-buffer_process os schedule_timer e.app,
  )
