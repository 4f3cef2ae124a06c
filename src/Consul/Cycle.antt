-- ===== src/Consul/Cycle.antt =====
-- A cycle of the leader from what Consul holds to what it holds afterwards:
-- ConsulConnection::doSchedule of src/daemon/consul/ConsulConnection.cpp.
use app_mesh.Prelude.{
  ℕ, zero, suc, ◌+◌, ◌≤◌, true, false, none, some, List, [], ◌∷◌, String, if◌then◌else◌, Bool,
  length, ◌≡◌, refl, arith, inl, inr, Bool-cases, Option-cases, sym, subst, ◌∙◌, ap,
}
use app_mesh.Dict.{Dict, get, has, put, keys, Distinct}
use app_mesh.Dict.Laws.{get-put}
use app_mesh.Dict.Sorted.{Ascending-Distinct}
use app_mesh.Cluster.Label.{match_label}
use app_mesh.Cluster.Entity.{ConsulTask, ConsulNode, full, indices_from, task_indices}
use app_mesh.Cluster.Schedule.{is_empty, find_task_available_host}
use app_mesh.Cluster.Quota.{runs, replicas, quota, schedule_task-replicas}
use app_mesh.Cluster.Placement.{schedule_task-matches, keys-find}
use app_mesh.Cluster.Dispatch.{Store, stored_apps}
use app_mesh.Cluster.Sync.{dispatch_syncs}
use app_mesh.Cluster.Keyed.{schedule_task-IsMap, IsMap-WellKeyed}
use app_mesh.Consul.Lead.{
  Consul, TaskSection, TaskJson, section_task, is_schedulable, task_from_json, retrieve_task,
  retrieve_node, retrieve_topology, new_topology, do_schedule,
}
use app_mesh.Consul.Read.{
  IsStore, Ascending-retrieve_task, retrieve_node-AreNodes, retrieve_topology-stored,
  retrieve_topology-IsMap, dispatch-IsStore,
}

-- On how many of the hosts Consul lists the application.
abbrev pub stored_replicas : String → List String → Store → ℕ
stored_replicas name [] store = 0
stored_replicas name (host ∷ hosts) store =
    (if has name (stored_apps host store) then 1 else 0) + stored_replicas name hosts store

-- How many replicas of an application the tasks ask for.
abbrev pub replication_of : String → Dict ConsulTask → ℕ
replication_of name tasks = elim (get name tasks) [ none ↦ 0 | some task ↦ task.replication ]

stored_replicas-same :
    (n : String) (hosts : List String) (store : Store) (c : Consul) (wild : String → String → Bool)
    (clock : String → String → ℕ)
    → ((h : String) → has n (stored_apps h store) ≡ runs h n (new_topology wild clock c))
    → stored_replicas n hosts store ≡ replicas n hosts (new_topology wild clock c)
stored_replicas-same n [] store c wild clock same = refl
stored_replicas-same n (h ∷ hosts) store c wild clock same =
    ground (arith, same h, stored_replicas-same n hosts store c wild clock same)

length-indices_from : (i n : ℕ) → length (indices_from i n) ≡ n
unfolding indices_from
length-indices_from i zero = refl
length-indices_from i (suc n) = ap suc (length-indices_from (i + 1) n)

json-indices : (json : TaskJson) → length (task_from_json json).tasks_set ≡ json.replication
unfolding task_from_json task_indices
json-indices json = length-indices_from 1 json.replication

replication-json : (json : TaskJson) → (task_from_json json).replication ≡ json.replication
unfolding task_from_json
replication-json json = refl

section_task-indices :
    (section : TaskSection) {task : ConsulTask}
    → section_task section ≡ some task
    → length task.tasks_set ≡ task.replication
unfolding section_task
section_task-indices section {task} e = elim (Option-cases section.value) [
  | inl x ↦ absurd (ground arith)
  | inr (none, x) ↦ absurd (ground arith)
  | inr (some json, x) ↦ elim (Bool-cases (is_schedulable section.key (task_from_json json))) [
    | inl y ↦
        let same : task ≡ task_from_json json = ground arith in
        rw (same, json-indices json, replication-json json) refl
    | inr y ↦ absurd (ground arith)
  ]
]

retrieve_task-indices :
    (sections : List TaskSection) (result : Dict ConsulTask) (n : String) {task : ConsulTask}
    → ((m : String) (t : ConsulTask) → get m result ≡ some t → length t.tasks_set ≡ t.replication)
    → get n (retrieve_task sections result) ≡ some task
    → length task.tasks_set ≡ task.replication
unfolding retrieve_task
retrieve_task-indices [] result n {task} h e = h n task e
retrieve_task-indices (section ∷ rest) result n {task} h e =
    elim (Option-cases (section_task section)) [
      | inl x ↦ retrieve_task-indices rest result n {task = task} h (ground arith)
      | inr (t, x) ↦
          retrieve_task-indices rest (put t.app_name t result) n {task = task}
            (λ m u f.
              ground (arith, get-put t.app_name m t result, h m u, section_task-indices section x))
            (ground arith)
    ]

nothing : (m : String) (t : ConsulTask) → get m [] ≡ some t → length t.tasks_set ≡ t.replication
unfolding get
nothing m t e = absurd (ground arith)

no_node : (h : String) (node : ConsulNode) → get h [] ≡ some node → node.host_name ≡ h
unfolding get
no_node h node e = absurd (ground arith)

module _ (wild : String → String → Bool) (clock : String → String → ℕ) where
  quota-find :
      (tasks : Dict ConsulTask) (nodes : Dict ConsulNode) (n : String)
      → quota n (find_task_available_host wild tasks nodes) ≡ quota n tasks
  unfolding find_task_available_host get
  quota-find [] nodes n = refl
  quota-find ((name, task) ∷ rest) nodes n = ground (arith, quota-find rest nodes n)

  do_schedule-runs :
      (c : Consul) (h n : String)
      → IsStore c.topology
      → is_empty (retrieve_node c.nodes []) ≡ false
      → has n (stored_apps h (do_schedule wild clock true c).topology)
        ≡ runs h n (new_topology wild clock c)
  unfolding do_schedule new_topology
  do_schedule-runs c h n a e =
      let tasks =
        find_task_available_host wild (retrieve_task c.tasks []) (retrieve_node c.nodes []) in
      let old = retrieve_topology c.topology [] in
      let new =
        IsMap-WellKeyed (new_topology wild clock c)
          (schedule_task-IsMap clock tasks old (retrieve_node c.nodes [])) in
      let was = IsMap-WellKeyed old (retrieve_topology-IsMap c.topology a) in
      rw (e) (
        dispatch_syncs old (new_topology wild clock c) c.topology h n new.0 was.1 new.1
          (λ host. retrieve_topology-stored c.topology host a))

  do_schedule-IsStore :
      (c : Consul)
      → IsStore c.topology
      → is_empty (retrieve_node c.nodes []) ≡ false
      → IsStore (do_schedule wild clock true c).topology
  unfolding do_schedule new_topology
  do_schedule-IsStore c a e =
      let tasks =
        find_task_available_host wild (retrieve_task c.tasks []) (retrieve_node c.nodes []) in
      let old = retrieve_topology c.topology [] in
      rw (e) (
        dispatch-IsStore old (new_topology wild clock c) c.topology
          (schedule_task-IsMap clock tasks old (retrieve_node c.nodes [])) a)

  quota-retrieve_task :
      (c : Consul) (n : String)
      → quota n
          (find_task_available_host wild (retrieve_task c.tasks []) (retrieve_node c.nodes []))
        ≡ replication_of n (retrieve_task c.tasks [])
  quota-retrieve_task c n =
      quota-find (retrieve_task c.tasks []) (retrieve_node c.nodes []) n
      ∙ elim (Option-cases (get n (retrieve_task c.tasks []))) [
        | inl x ↦ rw (quota, replication_of, x) refl
        | inr (task, x) ↦
            rw (quota, replication_of, x)
              (retrieve_task-indices c.tasks [] n {task = task} nothing x)
      ]

  do_schedule-replicas :
      (c : Consul) (n : String) (hosts : List String)
      → IsStore c.topology
      → is_empty (retrieve_node c.nodes []) ≡ false
      → Distinct hosts
      → stored_replicas n hosts (do_schedule wild clock true c).topology
        ≤ replication_of n (retrieve_task c.tasks [])
  unfolding new_topology
  do_schedule-replicas c n hosts a e d =
      let task_list = retrieve_task c.tasks [] in
      let nodes = retrieve_node c.nodes [] in
      let tasks = find_task_available_host wild task_list nodes in
      omega (
        arith,
        quota-retrieve_task c n,
        stored_replicas-same n hosts (do_schedule wild clock true c).topology c wild clock
            (λ h. do_schedule-runs c h n a e),
        schedule_task-replicas clock tasks (retrieve_topology c.topology []) nodes n hosts d (
            subst Distinct (sym (keys-find wild task_list nodes))
              (Ascending-Distinct (keys task_list) (Ascending-retrieve_task c.tasks [] tt))),
      )

  -- Where the store is a map of maps and there is a node: after a cycle of the leader the store is a
  -- map of maps, it lists for each host exactly the applications of the new schedule, and it lists an
  -- application on no more hosts than its task asks for replicas.
  pub do_schedule_lem :
      (c : Consul) (h n : String) (hosts : List String)
      → IsStore c.topology
      → is_empty (retrieve_node c.nodes []) ≡ false
      → Distinct hosts
      → IsStore (do_schedule wild clock true c).topology
        × (has n (stored_apps h (do_schedule wild clock true c).topology)
            ≡ runs h n (new_topology wild clock c))
        × (stored_replicas n hosts (do_schedule wild clock true c).topology
            ≤ replication_of n (retrieve_task c.tasks []))
  do_schedule_lem c h n hosts a e d =
      (do_schedule-IsStore c a e, do_schedule-runs c h n a e, do_schedule-replicas c n hosts a e d)

  -- Where the store is a map of maps and there is a node: if after a cycle of the leader the store
  -- lists an application on a host, there is a task of that name and a node of that host, which meets
  -- the condition of the task and was not full.
  pub do_schedule-matches :
      (c : Consul) (h n : String)
      → IsStore c.topology
      → is_empty (retrieve_node c.nodes []) ≡ false
      → has n (stored_apps h (do_schedule wild clock true c).topology) ≡ true
      → (task : ConsulTask) × (node : ConsulNode) × (get n (retrieve_task c.tasks []) ≡ some task)
        × (get h (retrieve_node c.nodes []) ≡ some node)
        × (match_label wild node.label task.condition ≡ true)
        × (full node ≡ false)
  unfolding new_topology
  do_schedule-matches c h n a e x =
      let nodes = retrieve_node-AreNodes c.nodes [] (tt, no_node) in
      schedule_task-matches wild clock (retrieve_task c.tasks []) (retrieve_topology c.topology [])
        (retrieve_node c.nodes []) h n nodes.1
        (Ascending-Distinct (keys (retrieve_node c.nodes [])) nodes.0)
        (Ascending-Distinct (keys (retrieve_task c.tasks []))
          (Ascending-retrieve_task c.tasks [] tt))
        (sym (do_schedule-runs c h n a e) ∙ x)
