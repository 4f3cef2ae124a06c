-- ===== src/Consul/Lead.antt =====
-- The leader's cycle of src/daemon/consul/ConsulConnection.cpp: retrieveTask, retrieveTopology, retrieveNode
-- and doSchedule, and the topology that a host reads. Consul's key-value store is given by what its JSON
-- texts say: a section of tasks or nodes with the fields that FromJson of
-- src/daemon/consul/ConsulEntity.cpp reads, and the topology as in Cluster/Dispatch.antt. The requests
-- succeed.
use app_mesh.Prelude.{
  ℕ, Bool, not, ◌&&◌, Option, none, some, List, [], ◌∷◌, String, str_eq, ltb, if◌then◌else◌,
}
use app_mesh.Dict.{Dict, get, put}
use app_mesh.Text.{std_string_trim, text_length, start_with}
use app_mesh.Text.Search.{replaced}
use app_mesh.Cluster.Label.{Labels}
use app_mesh.Cluster.Entity.{ConsulTask, ConsulNode, task_indices}
use app_mesh.Cluster.Schedule.{Topology, is_empty, schedule_task, find_task_available_host}
use app_mesh.Cluster.Dispatch.{empty_object, app_array, Store, compare_topology_and_dispatch}

-- The JSON of a task that has an object "content" and an integer "replication".
pub record TaskJson : Type 0 where
  pub content_name : String
  pub replication : ℕ
  pub memory_mb : ℕ
  pub condition : Option Labels

-- A section of the answer: its key, and its value if it has one. A value that is not such a task
-- gives a task without application.
pub record TaskSection : Type 0 where
  pub key : String
  pub value : Option (Option TaskJson)

pub record NodeJson : Type 0 where
  pub label : Labels
  pub cpu_cores : ℕ
  pub mem_total_bytes : ℕ
  pub leader : Bool

-- A section without the value, or with an empty one, has none.
pub record NodeSection : Type 0 where
  pub key : String
  pub value : Option NodeJson

pub record Consul : Type 0 where
  pub tasks : List TaskSection
  pub nodes : List NodeSection
  pub topology : Store

-- `m_condition` is an empty label if the JSON has none.
unfoldable pub condition_of : Option Labels → Option Labels
condition_of none = some []
condition_of (some labels) = some labels

-- ConsulTask::FromJson
unfoldable pub task_from_json : TaskJson → ConsulTask
unfolding std_string_trim task_indices condition_of
task_from_json json = record {
  replication = json.replication;
  app_name = std_string_trim json.content_name;
  condition = condition_of json.condition;
  request_mem_mega = json.memory_mb;
  matched_hosts = [];
  tasks_set = task_indices json.replication;
}

-- ConsulNode::FromJson
unfoldable pub node_from_json : NodeJson → String → ConsulNode
node_from_json json host = record {
  label = json.label;
  cores = json.cpu_cores;
  total_bytes = json.mem_total_bytes;
  occupy_memory_bytes = 0;
  host_name = host;
  leader = json.leader;
  assigned_apps = [];
}

-- The tests of the section and of its task. A section without "Value" has no task.
unfoldable pub is_schedulable : String → ConsulTask → Bool
unfolding text_length
is_schedulable key task =
    not (str_eq key "appmesh/cluster/tasks")
    && ltb 0 (text_length task.app_name)
    && ltb 0 task.replication

-- The task of a section, if it is to be scheduled.
unfoldable pub section_task : TaskSection → Option ConsulTask
unfolding task_from_json is_schedulable
section_task section = elim section.value [
  | none ↦ none
  | some value ↦ elim value [
    | none ↦ none
    | some json ↦
        let task = task_from_json json in
        if is_schedulable section.key task then some task else none
  ]
]

-- The loop of ConsulConnection::retrieveTask, after the result that it has so far.
unfoldable pub retrieve_task : List TaskSection → Dict ConsulTask → Dict ConsulTask
unfolding section_task
retrieve_task [] result = result
retrieve_task (section ∷ rest) result =
    retrieve_task rest
      (elim (section_task section) [ none ↦ result | some task ↦ put task.app_name task result ])

abbrev pub nodes_path : String
nodes_path = "appmesh/cluster/nodes/"

-- The loop of ConsulConnection::retrieveNode.
unfoldable pub retrieve_node : List NodeSection → Dict ConsulNode → Dict ConsulNode
unfolding start_with replaced node_from_json
retrieve_node [] result = result
retrieve_node (section ∷ rest) result = retrieve_node rest (elim section.value [
  | none ↦ result
  | some json ↦
      if start_with section.key nodes_path
      then (let host = replaced nodes_path "" section.key in
          put host (node_from_json json host) result)
      else result
])

-- The loop of ConsulConnection::retrieveTopology, for all hosts.
unfoldable pub retrieve_topology : Store → Topology → Topology
retrieve_topology [] topology = topology
retrieve_topology ((host, body) ∷ rest) topology = retrieve_topology rest (elim body [
  | empty_object ↦ topology
  | app_array apps ↦ put host (record { host_name = host; schedule_apps = apps }) topology
])

-- The answer to a request for the keys that begin with a host's name.
unfoldable pub with_prefix : String → Store → Store
unfolding start_with
with_prefix host [] = []
with_prefix host ((name, body) ∷ store) =
    let rest = with_prefix host store in if start_with name host then (name, body) ∷ rest else rest

-- ConsulConnection::retrieveTopology of the name of a host, and what is found under that name.
unfoldable pub host_topology : String → Store → Option (Dict ℕ)
unfolding with_prefix retrieve_topology get
host_topology host store = elim (get host (retrieve_topology (with_prefix host store) [])) [
  | none ↦ none
  | some t ↦ some t.schedule_apps
]

module _ (wild : String → String → Bool) (clock : String → String → ℕ) where
  -- The schedule that the leader computes from what it reads.
  unfoldable pub new_topology : Consul → Topology
  unfolding retrieve_task retrieve_topology retrieve_node schedule_task find_task_available_host
  new_topology c =
      let task_list = retrieve_task c.tasks [] in
      let old_topology = retrieve_topology c.topology [] in
      let nodes = retrieve_node c.nodes [] in
      (schedule_task clock (find_task_available_host wild task_list nodes) old_topology
        nodes).topology

  -- ConsulConnection::doSchedule, with the result of electionLeader.
  unfoldable pub do_schedule : Bool → Consul → Consul
  unfolding retrieve_topology retrieve_node new_topology compare_topology_and_dispatch is_empty
  do_schedule elected c =
      if elected
      then (if is_empty (retrieve_node c.nodes []) then c else record c {
        topology =
            compare_topology_and_dispatch (retrieve_topology c.topology []) (new_topology c)
              c.topology;
      })
      else c
