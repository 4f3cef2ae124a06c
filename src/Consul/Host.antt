-- ===== src/Consul/Host.antt =====
-- ConsulConnection::syncTopology of src/daemon/consul/ConsulConnection.cpp against its description for one
-- name at a time.
use app_mesh.Prelude.{
  ℕ, Bool, true, false, Option, none, some, [], String, if◌then◌else◌, ◌≡◌, refl, arith, inl, inr,
  Bool-cases,
}
use app_mesh.Prelude.Int.{ℤ}
use app_mesh.Dict.{Dict, has, keys, Distinct}
use app_mesh.Dict.Laws.{member-keys}
use app_mesh.Application.State.{Processes, Timers}
use app_mesh.Security.Model.{Security, User}
use app_mesh.Registry.{Entry, find_app}
use app_mesh.Registry.Names.{names}
use app_mesh.Consul.Follow.{CloudTask, Follower, drop_cloud, sync_topology}
use app_mesh.Consul.Synced.{
  WellNamed, Gives, unscheduled, kept, scheduled, sync_apps_lem, drop_cloud_lem,
}

nothing_listed : (j : String) → has {V = ℕ} j [] ≡ false
unfolding has
nothing_listed j = refl

module _ {P : Type 0} where
  kept_all :
      (listed : Bool) (old : Option (Entry P))
      → kept listed old old ≡ (if listed then old else unscheduled old)
  kept_all listed none = ground arith
  kept_all listed (some e) = ground arith

  kept_listed : (old now : Option (Entry P)) → kept true old now ≡ now
  kept_listed none now = refl
  kept_listed (some e) now = ground arith

module _ {P : Type 0} (os : Processes P) (schedule_timer : Timers → ℤ) (clock : String → ℕ → ℕ)
    (same_owner : Option User → Option User → Bool) (s : Security) where
  -- The application under a name after a synchronisation; `none` is an error.
  abbrev pub settled :
      Option (Dict ℕ) → Dict (CloudTask P) → Follower P → String → Option (Option (Entry P))
  settled none tasks f j = some (unscheduled (find_app j f.registry.apps))
  settled (some schedule_apps) tasks f j =
      if has j schedule_apps
      then scheduled os schedule_timer clock same_owner s f.registry.apps tasks j
      else some (unscheduled (find_app j f.registry.apps))

  abbrev pub IsMap : Option (Dict ℕ) → Type 0
  IsMap none = Unit
  IsMap (some schedule_apps) = Distinct (keys schedule_apps)

  -- Where no name stands twice, texts are trimmed, and no application that has to be added fails:
  -- the synchronisation succeeds, and under each name stands what the topology asks for. A cloud
  -- application outside the topology is gone and every other one outside it stays; one of the
  -- topology that is missing is added from its task, one that equals its task stays, and one that
  -- differs from its task is added again from its own JSON.
  pub sync_topology_lem :
      (topology : Option (Dict ℕ)) (tasks : Dict (CloudTask P)) (f : Follower P)
      (found : String → Option (Entry P))
      → IsMap topology
      → Distinct (names f.registry.apps)
      → WellNamed f.registry.apps tasks
      → ((j : String) → settled topology tasks f j ≡ some (found j))
      → Gives (sync_topology os schedule_timer clock same_owner s topology tasks f) found
  unfolding sync_topology
  sync_topology_lem none tasks f found m d w h =
      let (d1, g1) = drop_cloud_lem os schedule_timer [] f.registry.apps f d d in
      (
        drop_cloud os schedule_timer [] f.registry.apps f,
        refl,
        d1,
        λ j.
            ground
              (arith, nothing_listed j, g1 j, h j, kept_all false (find_app j f.registry.apps)),
      )
  sync_topology_lem (some schedule_apps) tasks f found m d w h =
      let (f1, r1, d1, g1) =
        sync_apps_lem os schedule_timer clock same_owner s f.registry.apps tasks
          (keys schedule_apps) f found w d m (λ j i. refl)
          (λ j i. ground (arith, h j, member-keys j schedule_apps)) in
      let (d2, g2) = drop_cloud_lem os schedule_timer schedule_apps f.registry.apps f1 d1 d in
      (
        drop_cloud os schedule_timer schedule_apps f.registry.apps f1,
        rw (sync_topology, r1) refl,
        d2,
        λ j. elim (Bool-cases (has j schedule_apps)) [
          | inl x ↦ ground (
            arith,
            g2 j,
            g1 j,
            h j,
            member-keys j schedule_apps,
            kept_listed (find_app j f.registry.apps) (find_app j f1.registry.apps),
          )
          | inr x ↦ ground (
            arith,
            g2 j,
            g1 j,
            h j,
            member-keys j schedule_apps,
            kept_all false (find_app j f.registry.apps),
          )
        ],
      )
