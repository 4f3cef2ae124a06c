-- ===== src/Consul/Converge.antt =====
-- A host after a cycle of the leader: ConsulConnection::retrieveTopology for one host, as
-- ConsulConnection::syncTopology of src/daemon/consul/ConsulConnection.cpp calls it, on the store that
-- ConsulConnection::doSchedule left.
use app_mesh.Prelude.{
  ℕ, Bool, true, false, Option, none, some, List, [], ◌∷◌, String, str_lt, eq_iff, All,
  if◌then◌else◌, ◌≡◌, refl, arith, inl, inr, Bool-cases, ap, ap, Option-cases, sym, subst, ◌∙◌,
}
use app_mesh.Prelude.Int.{ℤ}
use app_mesh.Dict.{Dict, get, has, keys, Distinct}
use app_mesh.Dict.Laws.{has-get, has-none}
use app_mesh.Dict.Sorted.{Ascending, Ascending-Distinct}
use Prim.Native.String.{String as Text}
use app_mesh.Text.{start_with, take, text_length}
use app_mesh.Cluster.Schedule.{apps_of, is_empty}
use app_mesh.Cluster.Quota.{runs, apps_of-some, apps_of-none}
use app_mesh.Cluster.Dispatch.{Store, stored_apps}
use app_mesh.Application.State.{Processes, Timers}
use app_mesh.Security.Model.{Security, User}
use app_mesh.Registry.{Entry, find_app}
use app_mesh.Registry.Names.{names}
use app_mesh.Consul.Lead.{
  Consul, retrieve_task, retrieve_node, retrieve_topology, with_prefix, host_topology, new_topology,
  do_schedule,
}
use app_mesh.Consul.Read.{IsStore, retrieve_topology-stored}
use app_mesh.Consul.Cycle.{do_schedule_lem, do_schedule-matches}
use app_mesh.Consul.Apps.{application_eq}
use app_mesh.Consul.Follow.{CloudTask, Follower, sync_topology}
use app_mesh.Consul.Settled.{added}
use app_mesh.Consul.Synced.{WellNamed, unscheduled, scheduled}
use app_mesh.Consul.Host.{settled, IsMap, sync_topology_lem}

-- `m_scheduleApps.count(name)` of a topology that may be missing.
abbrev listed : Option (Dict ℕ) → String → Bool
listed none name = false
listed (some schedule_apps) name = has name schedule_apps

get-with_prefix :
    (k h : String) (store : Store)
    → get k (with_prefix h store) ≡ (if start_with k h then get k store else none)
unfolding with_prefix get
get-with_prefix k h [] = ground arith
get-with_prefix k h ((name, body) ∷ store) =
    ground (arith, get-with_prefix k h store, eq_iff name k)

with_prefix-All :
    (k h : String) (store : Store)
    → All (λ j. str_lt k j ≡ true) (keys store)
    → All (λ j. str_lt k j ≡ true) (keys (with_prefix h store))
unfolding with_prefix
with_prefix-All k h [] a = tt
with_prefix-All k h ((name, body) ∷ store) a = elim (Bool-cases (start_with name h)) [
  | inl e ↦ rw (with_prefix, e) (a.0, with_prefix-All k h store a.1)
  | inr e ↦ rw (with_prefix, e) (with_prefix-All k h store a.1)
]

Ascending-with_prefix :
    (h : String) (store : Store) → Ascending (keys store) → Ascending (keys (with_prefix h store))
unfolding with_prefix
Ascending-with_prefix h [] a = tt
Ascending-with_prefix h ((name, body) ∷ store) a = elim (Bool-cases (start_with name h)) [
  | inl e ↦
      rw (with_prefix, e) (with_prefix-All name h store a.0, Ascending-with_prefix h store a.1)
  | inr e ↦ rw (with_prefix, e) (Ascending-with_prefix h store a.1)
]

take-all : (s : String) → take (text_length s) s ≡ s
unfolding take text_length
take-all Text.[] = refl
take-all (Text.◌∷◌ c s) = ap (Text.◌∷◌ c) (take-all s)

start_with_self : (s : String) → start_with s s ≡ true
unfolding start_with
start_with_self s = ground (arith, take-all s, eq_iff s s)

stored_apps-with_prefix :
    (k h : String) (store : Store)
    → stored_apps k (with_prefix h store) ≡ (if start_with k h then stored_apps k store else [])
unfolding stored_apps
stored_apps-with_prefix k h store = elim (Bool-cases (start_with k h)) [
  | inl e ↦ rw (stored_apps, get-with_prefix k h store, e) refl
  | inr e ↦ rw (stored_apps, get-with_prefix k h store, e) refl
]

with_prefix-IsStore : (h : String) (store : Store) → IsStore store → IsStore (with_prefix h store)
with_prefix-IsStore h store a = (
  Ascending-with_prefix h store a.0,
  λ k. elim (Bool-cases (start_with k h)) [
    | inl e ↦ rw (stored_apps-with_prefix k h store, e) (a.1 k)
    | inr e ↦ rw (stored_apps-with_prefix k h store, e) tt
  ],
)

host-stored_apps :
    (h : String) (store : Store)
    → IsStore store
    → apps_of h (retrieve_topology (with_prefix h store) []) ≡ stored_apps h store
host-stored_apps h store a =
    sym (retrieve_topology-stored (with_prefix h store) h (with_prefix-IsStore h store a))
    ∙ rw (stored_apps-with_prefix h h store, start_with_self h) refl

-- A host finds the applications that the store lists for it.
listed-host_topology :
    (h j : String) (store : Store)
    → IsStore store
    → listed (host_topology h store) j ≡ has j (stored_apps h store)
unfolding host_topology has
listed-host_topology h j store a =
    let topology = retrieve_topology (with_prefix h store) [] in
    elim (Option-cases (get h topology)) [
      | inl e ↦ rw (host_topology, e, ← host-stored_apps h store a, apps_of-none h topology e) refl
      | inr (t, e) ↦
          rw (host_topology, e, ← host-stored_apps h store a, apps_of-some h topology t e) refl
    ]

module _ {P : Type 0} where
  -- What stands under a name after a cycle: some application if it is to run, and else what is left
  -- of the one before.
  abbrev pub Stands : Bool → Option (Entry P) → Option (Entry P) → Type 0
  Stands true old now = (e : Entry P) × (now ≡ some e)
  Stands false old now = now ≡ unscheduled old

module _ {P : Type 0} (os : Processes P) (schedule_timer : Timers → ℤ) (clock : String → ℕ → ℕ)
    (same_owner : Option User → Option User → Bool) (s : Security) where
  -- The applications of the tasks can be added on the host, and its own ones can be added again.
  abbrev pub AreAddable : Dict (CloudTask P) → List (Entry P) → Type 0
  AreAddable tasks current =
      ((j : String) (task : CloudTask P)
        → get j tasks ≡ some task
        → (e : Entry P) × (added os schedule_timer clock same_owner s j task.app ≡ some (some e)))
      × ((j : String) (running : Entry P)
          → find_app j current ≡ some running
          → (e : Entry P) × (added os schedule_timer clock same_owner s j running ≡ some (some e)))

  scheduled-some :
      (current : List (Entry P)) (tasks : Dict (CloudTask P)) (j : String) {task : CloudTask P}
      → AreAddable tasks current
      → get j tasks ≡ some task
      → (e : Entry P) × (scheduled os schedule_timer clock same_owner s current tasks j
          ≡ some (some e))
  scheduled-some current tasks j {task} a e = elim (Option-cases (find_app j current)) [
    | inl x ↦ rw (scheduled, e, x) (a.0 j task e)
    | inr (running, x) ↦ elim (Bool-cases (application_eq same_owner running task.app)) [
      | inl y ↦ rw (scheduled, e, x, y) (running, refl)
      | inr y ↦ rw (scheduled, e, x, y) (a.1 j running x)
    ]
  ]

  settled-Stands :
      (topology : Option (Dict ℕ)) (tasks : Dict (CloudTask P)) (f : Follower P) (j : String)
      → AreAddable tasks f.registry.apps
      → (listed topology j ≡ true → (task : CloudTask P) × (get j tasks ≡ some task))
      → (o : Option (Entry P)) × (settled os schedule_timer clock same_owner s topology tasks f j
          ≡ some o)
        × Stands (listed topology j) (find_app j f.registry.apps) o
  settled-Stands none tasks f j a m = (unscheduled (find_app j f.registry.apps), refl, refl)
  settled-Stands (some schedule_apps) tasks f j a m = elim (Bool-cases (has j schedule_apps)) [
    | inl x ↦
        let (task, t) = m x in
        let (e, y) = scheduled-some f.registry.apps tasks j {task = task} a t in
        rw (x) (some e, y, (e, refl))
    | inr x ↦ rw (x) (unscheduled (find_app j f.registry.apps), refl, refl)
  ]

  host_topology-IsMap :
      (h : String) (store : Store)
      → IsStore store
      → IsMap os schedule_timer clock same_owner s (host_topology h store)
  unfolding host_topology
  host_topology-IsMap h store a =
      let topology = retrieve_topology (with_prefix h store) [] in
      elim (Option-cases (get h topology)) [
        | inl e ↦ rw (host_topology, e) tt
        | inr (t, e) ↦
            rw (host_topology, e)
              (Ascending-Distinct (keys t.schedule_apps) (
                subst (λ x. Ascending (keys x))
                  (sym (host-stored_apps h store a) ∙ apps_of-some h topology t e) (a.1 h)))
      ]

  -- Where a store is a map of maps, the tasks have the names that the host finds there, no name
  -- stands twice, texts are trimmed, and applications can be added: the host follows the store.
  sync_topology-Stands :
      (h : String) (store : Store) (tasks : Dict (CloudTask P)) (f : Follower P)
      → IsStore store
      → Distinct (names f.registry.apps)
      → WellNamed f.registry.apps tasks
      → AreAddable tasks f.registry.apps
      → ((j : String)
          → has j (stored_apps h store) ≡ true
          → (task : CloudTask P) × (get j tasks ≡ some task))
      → (f' : Follower P) × (sync_topology os schedule_timer clock same_owner s
            (host_topology h store)
            tasks
            f
          ≡ some f')
        × Distinct (names f'.registry.apps)
        × ((j : String)
            → Stands
                (has j (stored_apps h store))
                (find_app j f.registry.apps)
                (find_app j f'.registry.apps))
  sync_topology-Stands h store tasks f a d w m t =
      let same = λ (j : String). listed-host_topology h j store a in
      let choice = λ (j : String).
        settled-Stands (host_topology h store) tasks f j m (λ x. t j (sym (same j) ∙ x)) in
      let (f', r, d', g) =
        sync_topology_lem os schedule_timer clock same_owner s (host_topology h store) tasks f
          (λ j. (choice j).0) (host_topology-IsMap h store a) d w (λ j. (choice j).1) in
      (
        f',
        r,
        d',
        λ j.
            subst (λ x. Stands x (find_app j f.registry.apps) (find_app j f'.registry.apps))
              (same j)
              (subst (Stands (listed (host_topology h store) j) (find_app j f.registry.apps))
                (sym (g j)) (choice j).2),
      )

module _ (wild : String → String → Bool) (start : String → String → ℕ) {P : Type 0}
    (os : Processes P) (schedule_timer : Timers → ℤ) (clock : String → ℕ → ℕ)
    (same_owner : Option User → Option User → Bool) (s : Security) where
  has_task :
      (c : Consul) (h j : String) (tasks : Dict (CloudTask P))
      → IsStore c.topology
      → is_empty (retrieve_node c.nodes []) ≡ false
      → ((n : String) → has n tasks ≡ has n (retrieve_task c.tasks []))
      → has j (stored_apps h (do_schedule wild start true c).topology) ≡ true
      → (task : CloudTask P) × (get j tasks ≡ some task)
  has_task c h j tasks a e t x =
      let (task, node, y, z, met, room) = do_schedule-matches wild start c h j a e x in
      elim (Option-cases (get j tasks)) [
        | inl n ↦
            absurd
              (ground (arith, has-none j tasks n, t j, has-get j (retrieve_task c.tasks []) task y))
        | inr found ↦ found
      ]

  -- Where the store is a map of maps and there is a node, and on a host where no name stands twice,
  -- texts are trimmed, the tasks have the names of those that the leader read, and each of them and of
  -- the host's applications can be added: after a cycle of the leader and a synchronisation of the
  -- host, the synchronisation succeeds, no name stands twice, an application stands under each name
  -- that the new schedule has for the host, no cloud application under another name, and every
  -- other application under another name as it was.
  pub do_schedule-sync_topology :
      (c : Consul) (h : String) (tasks : Dict (CloudTask P)) (f : Follower P)
      → IsStore c.topology
      → is_empty (retrieve_node c.nodes []) ≡ false
      → ((n : String) → has n tasks ≡ has n (retrieve_task c.tasks []))
      → Distinct (names f.registry.apps)
      → WellNamed f.registry.apps tasks
      → AreAddable os schedule_timer clock same_owner s tasks f.registry.apps
      → (f' : Follower P) × (sync_topology os schedule_timer clock same_owner s
            (host_topology h (do_schedule wild start true c).topology)
            tasks
            f
          ≡ some f')
        × Distinct (names f'.registry.apps)
        × ((j : String)
            → Stands
                (runs h j (new_topology wild start c))
                (find_app j f.registry.apps)
                (find_app j f'.registry.apps))
  do_schedule-sync_topology c h tasks f a e t d w m =
      let led = λ (j : String). do_schedule_lem wild start c h j [] a e tt in
      let (f', r, d', g) =
        sync_topology-Stands os schedule_timer clock same_owner s h
          (do_schedule wild start true c).topology tasks f (led "").0 d w m
          (λ j x. has_task c h j tasks a e t x) in
      (
        f',
        r,
        d',
        λ j.
            subst (λ x. Stands x (find_app j f.registry.apps) (find_app j f'.registry.apps))
              (led j).1 (g j),
      )
