-- ===== src/Cluster/Entity.antt =====
-- src/daemon/consul/ConsulEntity.h and .cpp: tasks, topologies and nodes. Hosts share one object for
-- each node, so a node is named by its host and lives in one map of nodes. Of an application only
-- the name matters here. Sizes in bytes are `uint64_t`.
use app_mesh.Prelude.{
  ℕ, zero, suc, ◌+◌, ◌*◌, ◌%◌, Bool, true, false, Option, none, some, List, [], ◌∷◌, String,
  if◌then◌else◌, length, ltb, leb, not, ◌==◌,
}
use Prim.Native.Nat.{◌^◌}
use app_mesh.Dict.{Dict, has, add}
use app_mesh.Cluster.Label.{Labels}

abbrev pub u64_mod : ℕ
u64_mod = 2 ^ 64

-- `matched_hosts` holds the keys of `m_matchedHosts`, whose values are the nodes of those names.
pub record ConsulTask : Type 0 where
  pub replication : ℕ
  pub app_name : String
  pub condition : Option Labels
  pub request_mem_mega : ℕ
  pub matched_hosts : List String
  pub tasks_set : List ℕ

-- The topology of one host: the time at which each of its applications was scheduled.
pub record ConsulTopology : Type 0 where
  pub host_name : String
  pub schedule_apps : Dict ℕ

-- `assigned_apps` holds the keys of `m_assignedApps`.
pub record ConsulNode : Type 0 where
  pub label : Labels
  pub cores : ℕ
  pub total_bytes : ℕ
  pub occupy_memory_bytes : ℕ
  pub host_name : String
  pub leader : Bool
  pub assigned_apps : List String

-- i, …, i + n - 1
unfoldable pub indices_from : ℕ → ℕ → List ℕ
indices_from i zero = []
indices_from i (suc n) = i ∷ indices_from (i + 1) n

-- The loop of ConsulTask::FromJson that fills `m_tasksSet`.
unfoldable pub task_indices : ℕ → List ℕ
unfolding indices_from
task_indices replication = indices_from 1 replication

-- `tasksSet.erase(tasksSet.begin())`, which is not called on an empty set.
unfoldable pub erase_begin : List ℕ → List ℕ
erase_begin [] = []
erase_begin (i ∷ s) = s

unfoldable pub request_bytes : ConsulTask → ℕ
request_bytes task = task.request_mem_mega * 1024 * 1024 % u64_mod

unfoldable pub assign_app : ConsulNode → ConsulTask → ConsulNode
unfolding request_bytes
assign_app node task = record node {
  assigned_apps = add task.app_name node.assigned_apps;
  occupy_memory_bytes = (node.occupy_memory_bytes + request_bytes task) % u64_mod;
}

unfoldable pub try_assign_app : ConsulNode → ConsulTask → Bool
unfolding request_bytes
try_assign_app node task =
    ltb ((node.occupy_memory_bytes + request_bytes task) % u64_mod) node.total_bytes

unfoldable pub full : ConsulNode → Bool
full node = leb node.total_bytes node.occupy_memory_bytes

-- Whether each application of the first map is one of the second: the loops of
-- ConsulTopology::operator== and ConsulConnection::compareTopologyAndDispatch.
unfoldable pub apps_within : Dict ℕ → Dict ℕ → Bool
apps_within [] other = true
apps_within ((name, time) ∷ apps) other =
    if not (has name other) then false else apps_within apps other

unfoldable pub topology_eq : ConsulTopology → Option ConsulTopology → Bool
unfolding apps_within
topology_eq t none = false
topology_eq t (some other) =
    if not (length t.schedule_apps == length other.schedule_apps)
    then false
    else apps_within t.schedule_apps other.schedule_apps
