-- ===== src/Cluster/Schedule.antt =====
-- src/daemon/consul/Scheduler.cpp, and ConsulConnection::findTaskAvailableHost. The maps of tasks and
-- nodes are changed in place, so they are results as well. `clock task host` is the reading of the
-- clock when the task is assigned to the host. `std::sort` may order equal hosts in any way; here
-- they keep the order of their names.
use app_mesh.Prelude.{
  map, ℕ, Bool, true, false, Option, none, some, List, [], ◌∷◌, String, if◌then◌else◌, length, ltb,
  ◌&&◌, not, ◌==◌,
}
use app_mesh.Dict.{Dict, get, put, member, remove}
use app_mesh.Cluster.Label.{Labels, match_label}
use app_mesh.Cluster.Entity.{
  ConsulTask, ConsulTopology, ConsulNode, assign_app, try_assign_app, full, erase_begin,
}

abbrev pub Topology : Type 0
Topology = Dict ConsulTopology

-- What the scheduler holds while it works on one task.
pub record Progress : Type 0 where
  pub task : ConsulTask
  pub nodes : Dict ConsulNode
  pub topology : Topology

unfoldable pub is_empty {ℓ} : {A : Type ℓ} → List A → Bool
is_empty [] = true
is_empty (x ∷ xs) = false

unfoldable pub apps_of : String → Topology → Dict ℕ
apps_of host topology = elim (get host topology) [ none ↦ [] | some t ↦ t.schedule_apps ]

-- `newTopology[host]->m_scheduleApps[task] = time`, after the entry was made if it was missing.
unfoldable pub save_topology : String → String → ℕ → Topology → Topology
unfolding apps_of
save_topology host name time topology = elim (get host topology) [
  | none ↦ put host (record { host_name = ""; schedule_apps = put name time [] }) topology
  | some t ↦ put host (record t { schedule_apps = put name time t.schedule_apps }) topology
]

unfoldable pub assign_node : String → ConsulTask → Dict ConsulNode → Dict ConsulNode
assign_node host task nodes = elim (get host nodes) [
  | none ↦ nodes
  | some node ↦ put host (assign_app node task) nodes
]

-- One host of the old topology that still runs the task and still matches it.
unfoldable pub keep_host : String → String → ℕ → Progress → Progress
keep_host name host time p =
    let task' = record (p.task) {
      matched_hosts = remove host p.task.matched_hosts;
      tasks_set = erase_begin p.task.tasks_set;
    } in
    record {
      task = task';
      nodes = assign_node host task' p.nodes;
      topology = save_topology host name time p.topology;
    }

-- The inner loop of the first pass, over the old topology.
unfoldable pub keep_hosts : String → Topology → Progress → Progress
keep_hosts name [] p = p
keep_hosts name ((host, old) ∷ rest) p = elim (get name old.schedule_apps) [
  | none ↦ keep_hosts name rest p
  | some time ↦ elim (member host p.task.matched_hosts) [
    | false ↦ keep_hosts name rest p
    | true ↦ elim (is_empty p.task.tasks_set) [
      | true ↦ p
      | false ↦ keep_hosts name rest (keep_host name host time p)
    ]
  ]
]

unfoldable pub keep_task : Topology → String → Progress → Progress
keep_task old name p = if is_empty p.task.tasks_set then p else keep_hosts name old p

-- What a pass over the tasks gives.
pub record Plan : Type 0 where
  pub tasks : Dict ConsulTask
  pub nodes : Dict ConsulNode
  pub topology : Topology

-- A pass applies one step to the tasks in turn.
unfoldable pub pass :
    (String → Progress → Progress) → Dict ConsulTask → Dict ConsulNode → Topology → Plan
pass step [] nodes topology = record { tasks = []; nodes = nodes; topology = topology }
pass step ((name, task) ∷ rest) nodes topology =
    let p = step name (record { task = task; nodes = nodes; topology = topology }) in
    let later = pass step rest p.nodes p.topology in
    record later { tasks = (name, p.task) ∷ later.tasks }

-- The comparison by which hosts are sorted: fewer applications, then less memory.
unfoldable pub node_less : ConsulNode → ConsulNode → Bool
node_less left right =
    if ltb (length left.assigned_apps) (length right.assigned_apps)
    then true
    else if length left.assigned_apps == length right.assigned_apps
    then ltb left.occupy_memory_bytes right.occupy_memory_bytes
    else false

unfoldable pub insert_host : ConsulNode → List ConsulNode → List ConsulNode
insert_host node [] = node ∷ []
insert_host node (other ∷ nodes) =
    let rest = insert_host node nodes in
    if node_less other node then other ∷ rest else node ∷ other ∷ nodes

unfoldable pub sort_hosts : List ConsulNode → List ConsulNode
sort_hosts [] = []
sort_hosts (node ∷ nodes) = insert_host node (sort_hosts nodes)

-- The matched hosts as a vector of nodes.
unfoldable pub host_vector : List String → Dict ConsulNode → List ConsulNode
host_vector [] nodes = []
host_vector (host ∷ hosts) nodes = elim (get host nodes) [
  | none ↦ host_vector hosts nodes
  | some node ↦ node ∷ host_vector hosts nodes
]

-- A host that takes the task in the second pass.
unfoldable pub place_host : String → (String → ℕ) → ConsulNode → Progress → Progress
place_host name clock node p = record {
  task = record (p.task) { tasks_set = erase_begin p.task.tasks_set };
  nodes = assign_node node.host_name p.task p.nodes;
  topology = save_topology node.host_name name (clock node.host_name) p.topology;
}

-- The `while` loop of the second pass, over the sorted hosts.
unfoldable pub place_hosts : String → (String → ℕ) → List String → Progress → Progress
place_hosts name clock [] p = p
place_hosts name clock (host ∷ rest) p = elim (is_empty p.task.tasks_set) [
  | true ↦ p
  | false ↦ elim (get host p.nodes) [
    | none ↦ place_hosts name clock rest p
    | some node ↦ elim (not (full node) && try_assign_app node p.task) [
      | true ↦ place_hosts name clock rest (place_host name clock node p)
      | false ↦ place_hosts name clock rest p
    ]
  ]
]

-- The names of the matched hosts, sorted. A name stands for the pointer to the node.
unfoldable pub sorted_hosts : List String → Dict ConsulNode → List String
sorted_hosts hosts nodes = map (λ node. node.host_name) (sort_hosts (host_vector hosts nodes))

unfoldable pub place_task : (String → String → ℕ) → String → Progress → Progress
place_task clock name p =
    if is_empty p.task.tasks_set
    then p
    else place_hosts name (clock name) (sorted_hosts p.task.matched_hosts p.nodes) p

-- Scheduler::scheduleTask
unfoldable pub schedule_task :
    (String → String → ℕ) → Dict ConsulTask → Topology → Dict ConsulNode → Plan
schedule_task clock tasks old nodes =
    let kept = pass (keep_task old) tasks nodes [] in
    pass (place_task clock) kept.tasks kept.nodes kept.topology

module _ (wild : String → String → Bool) where
  unfoldable pub available_hosts : Option Labels → Dict ConsulNode → List String
  available_hosts condition [] = []
  available_hosts condition ((host, node) ∷ hosts) =
      let rest = available_hosts condition hosts in
      if match_label wild node.label condition && not (full node) then host ∷ rest else rest

  -- ConsulConnection::findTaskAvailableHost
  unfoldable pub find_task_available_host : Dict ConsulTask → Dict ConsulNode → Dict ConsulTask
  unfolding available_hosts
  find_task_available_host [] hosts = []
  find_task_available_host ((name, task) ∷ rest) hosts =
      (name, record task { matched_hosts = available_hosts task.condition hosts })
      ∷ find_task_available_host rest hosts
