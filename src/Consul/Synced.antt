-- ===== src/Consul/Synced.antt =====
-- What ConsulConnection::syncTopology of src/daemon/consul/ConsulConnection.cpp makes of the applications
-- of a host: a description for one name at a time, and the loops against it.
use app_mesh.Prelude.{
  ℕ, Bool, true, false, not, ◌&&◌, Option, none, some, List, [], ◌∷◌, String, str_eq, eq_iff,
  if◌then◌else◌, ◌≡◌, refl, arith, inl, inr, Bool-cases, Option-cases,
}
use app_mesh.Prelude.Int.{ℤ}
use app_mesh.Dict.{Dict, get, has, member, Distinct}
use app_mesh.Text.{std_string_trim}
use app_mesh.Application.State.{Processes, Timers}
use app_mesh.Security.Model.{Security, User}
use app_mesh.Registry.{Entry, find_app, remove_app}
use app_mesh.Registry.Names.{absent-find_app, names, find_app-without, Distinct-without}
use app_mesh.Consul.Apps.{application_eq}
use app_mesh.Consul.Follow.{
  CloudTask, Follower, deregister_service, sync_app, sync_apps, drop_cloud,
}
use app_mesh.Consul.Settled.{added, add_reloaded_lem}

module _ {P : Type 0} where
  -- The names of applications have no blanks around them, and a task is filed under the name of its
  -- application.
  abbrev pub WellNamed : List (Entry P) → Dict (CloudTask P) → Type 0
  WellNamed current tasks =
      ((j : String) (e : Entry P)
        → find_app j current ≡ some e
        → std_string_trim (std_string_trim e.name) ≡ j)
      × ((j : String) (task : CloudTask P)
          → get j tasks ≡ some task
          → std_string_trim (std_string_trim task.app.name) ≡ j)

  -- A step that succeeds, and after which the applications under each name are as given.
  abbrev pub Gives : Option (Follower P) → (String → Option (Entry P)) → Type 0
  Gives result found =
      (f' : Follower P) × (result ≡ some f')
      × Distinct (names f'.registry.apps)
      × ((j : String) → find_app j f'.registry.apps ≡ found j)

  -- What is left of an application that is not in the topology.
  abbrev pub unscheduled : Option (Entry P) → Option (Entry P)
  unscheduled none = none
  unscheduled (some e) = if e.is_cloud_app then none else some e

  -- What is left under a name, from whether the topology has it, its entry in the vector that was
  -- taken at the start, and its entry now.
  abbrev pub kept : Bool → Option (Entry P) → Option (Entry P) → Option (Entry P)
  kept listed none now = now
  kept listed (some e) now = if e.is_cloud_app && not listed then none else now

module _ {P : Type 0} (os : Processes P) (schedule_timer : Timers → ℤ) (clock : String → ℕ → ℕ)
    (same_owner : Option User → Option User → Bool) (s : Security) where
  -- The application under a scheduled name: one without a task stays, one that is new is added, one
  -- that differs from its task is added again from its own JSON.
  abbrev pub scheduled : List (Entry P) → Dict (CloudTask P) → String → Option (Option (Entry P))
  scheduled current tasks j = elim (get j tasks) [
    | none ↦ some (find_app j current)
    | some task ↦ elim (find_app j current) [
      | none ↦ added os schedule_timer clock same_owner s j task.app
      | some running ↦ elim (application_eq same_owner running task.app) [
        | true ↦ some (some running)
        | false ↦ added os schedule_timer clock same_owner s j running
      ]
    ]
  ]

  sync_app_lem :
      (current : List (Entry P)) (tasks : Dict (CloudTask P)) (name : String) (f : Follower P)
      {o : Option (Entry P)}
      → WellNamed current tasks
      → Distinct (names f.registry.apps)
      → find_app name f.registry.apps ≡ find_app name current
      → scheduled current tasks name ≡ some o
      → Gives
          (sync_app os schedule_timer clock same_owner s current tasks name f)
          (λ j. if str_eq name j then o else find_app j f.registry.apps)
  unfolding sync_app
  sync_app_lem current tasks name f {o} w d same h = elim (Option-cases (get name tasks)) [
    | inl n ↦ (f, rw (sync_app, n) refl, d, λ j. ground (arith, eq_iff name j))
    | inr (task, n) ↦ elim (Option-cases (find_app name current)) [
      | inl x ↦
          rw (sync_app, n, x)
            (add_reloaded_lem os schedule_timer clock same_owner s name task.app
              task.consul_service_port f (w.1 name task n) (ground arith) d)
      | inr (running, x) ↦ elim (Bool-cases (application_eq same_owner running task.app)) [
        | inl y ↦ (f, rw (sync_app, n, x, y) refl, d, λ j. ground (arith, eq_iff name j))
        | inr y ↦
            rw (sync_app, n, x, y)
              (add_reloaded_lem os schedule_timer clock same_owner s name running
                task.consul_service_port f (w.0 name running x) (ground arith) d)
      ]
    ]
  ]

  -- The first loop: `schedules` gives the value for every name of the rest of the topology.
  pub sync_apps_lem :
      (current : List (Entry P)) (tasks : Dict (CloudTask P)) (rest : List String) (f : Follower P)
      (found : String → Option (Entry P))
      → WellNamed current tasks
      → Distinct (names f.registry.apps)
      → Distinct rest
      → ((j : String) → member j rest ≡ true → find_app j f.registry.apps ≡ find_app j current)
      → ((j : String) → member j rest ≡ true → scheduled current tasks j ≡ some (found j))
      → Gives
          (sync_apps os schedule_timer clock same_owner s current tasks rest f)
          (λ j. if member j rest then found j else find_app j f.registry.apps)
  unfolding sync_apps member
  sync_apps_lem current tasks [] f found w d u same h = (f, refl, d, λ j. refl)
  sync_apps_lem current tasks (name ∷ rest) f found w d u same h =
      let (f1, r1, d1, g1) =
        sync_app_lem current tasks name f w d (same name (ground (arith, eq_iff name name)))
          (h name (ground (arith, eq_iff name name))) in
      let (f2, r2, d2, g2) =
        sync_apps_lem current tasks rest f1 found w d1 u.1
          (λ j m. ground (arith, g1 j, eq_iff name j, u.0, same j)) (λ j m. h j (ground arith)) in
      (f2, rw (sync_apps, r1) r2, d2, λ j. ground (arith, g2 j, g1 j, eq_iff name j, u.0))

module _ {P : Type 0} (os : Processes P) (schedule_timer : Timers → ℤ) where
  removed-Distinct :
      (name : String) (f : Follower P)
      → Distinct (names f.registry.apps)
      → Distinct (
          names
            (deregister_service name
              (record f { registry = remove_app os schedule_timer name f.registry })).registry.apps)
  unfolding deregister_service remove_app
  removed-Distinct name f d = Distinct-without name f.registry.apps d

  find_app-removed :
      (name j : String) (f : Follower P)
      → find_app j
          (deregister_service name
            (record f { registry = remove_app os schedule_timer name f.registry })).registry.apps
        ≡ (if str_eq name j then none else find_app j f.registry.apps)
  unfolding deregister_service remove_app
  find_app-removed name j f = find_app-without name j f.registry.apps

  -- The removal of one entry of the vector that was taken at the start.
  pub drop_cloud_lem :
      (schedule_apps : Dict ℕ) (current : List (Entry P)) (f : Follower P)
      → Distinct (names f.registry.apps)
      → Distinct (names current)
      → Distinct (names (drop_cloud os schedule_timer schedule_apps current f).registry.apps)
        × ((j : String)
            → find_app j (drop_cloud os schedule_timer schedule_apps current f).registry.apps
              ≡ kept (has j schedule_apps) (find_app j current) (find_app j f.registry.apps))
  unfolding drop_cloud find_app
  drop_cloud_lem schedule_apps [] f d u = (d, λ j. refl)
  drop_cloud_lem schedule_apps (e ∷ rest) f d u =
      elim (Bool-cases (e.is_cloud_app && not (has e.name schedule_apps))) [
        | inl b ↦
            let f1 : Follower P =
              deregister_service e.name
                (record f { registry = remove_app os schedule_timer e.name f.registry }) in
            let (d1, g1) = drop_cloud_lem schedule_apps rest f1 (removed-Distinct e.name f d) u.1 in
            rw (drop_cloud, b)
              (
                d1,
                λ j. ground (
                  arith,
                  g1 j,
                  eq_iff e.name j,
                  find_app-removed e.name j f,
                  absent-find_app e.name rest u.0,
                ),
              )
        | inr b ↦
            let (d1, g1) = drop_cloud_lem schedule_apps rest f d u.1 in
            rw (drop_cloud, b)
              (d1, λ j. ground (arith, g1 j, eq_iff e.name j, absent-find_app e.name rest u.0))
      ]
