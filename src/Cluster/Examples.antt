-- ===== src/Cluster/Examples.antt =====
-- The theorems on the cluster at a cluster of two hosts.
use app_mesh.Prelude.{
  ℕ, Bool, true, false, some, [], ◌∷◌, String, ◌≡◌, ◌↔◌, arith, refl, eq_iff, str_eq,
}
use app_mesh.Dict.{Dict, get, has, put, member, add, remove}
use app_mesh.Cluster.Label.{match_label, Meets, match_label_iff}
use app_mesh.Cluster.Entity.{
  ConsulTask, ConsulNode, task_indices, assign_app, try_assign_app, full, erase_begin,
  request_bytes,
}
use app_mesh.Cluster.Schedule.{
  Topology, apps_of, schedule_task, find_task_available_host, available_hosts, pass, keep_task,
  keep_hosts, keep_host, place_task, place_hosts, place_host, sorted_hosts, sort_hosts, insert_host,
  node_less, host_vector, assign_node, save_topology, is_empty,
}
use app_mesh.Cluster.Placement.{Named}
use app_mesh.Cluster.Capacity.{Fits, schedule_task-Fits}

-- A matcher that knows the pattern "*" only.
abbrev star : String → String → Bool
star pattern text = str_eq pattern "*"

abbrev host_a : ConsulNode
host_a = record {
  label = ("arch", "x86") ∷ [];
  cores = 4;
  total_bytes = 8589934592;
  occupy_memory_bytes = 0;
  host_name = "a";
  leader = true;
  assigned_apps = [];
}

abbrev host_b : ConsulNode
host_b = record host_a { host_name = "b"; leader = false }

abbrev hosts : Dict ConsulNode
hosts = ("a", host_a) ∷ ("b", host_b) ∷ []

abbrev web : ConsulTask
web = record {
  replication = 2;
  app_name = "web";
  condition = some (("arch", "x86") ∷ []);
  request_mem_mega = 512;
  matched_hosts = [];
  tasks_set = 1 ∷ 2 ∷ [];
}

abbrev tasks : Dict ConsulTask
tasks = ("web", web) ∷ []

abbrev old_topology : Topology
old_topology = ("b", record { host_name = "b"; schedule_apps = ("web", 7) ∷ [] }) ∷ []

abbrev clock : String → String → ℕ
clock task host = 100

scheduler : Unit {0}
unfolding schedule_task find_task_available_host available_hosts pass keep_task keep_hosts keep_host
    place_task place_hosts place_host sorted_hosts sort_hosts insert_host node_less host_vector
    assign_node save_topology is_empty apps_of assign_app try_assign_app full erase_begin
    request_bytes match_label get has put add member remove task_indices
scheduler = tt

-- Host b keeps its replica and its time, and host a gets the other one.
schedule_both :
    (schedule_task clock (find_task_available_host star tasks hosts) old_topology hosts).topology
    ≡ ("a", record { host_name = ""; schedule_apps = ("web", 100) ∷ [] })
      ∷ ("b", record { host_name = ""; schedule_apps = ("web", 7) ∷ [] })
      ∷ []
unfolding scheduler
schedule_both = refl

Named-hosts : Named hosts
unfolding get
Named-hosts h node e = ground (arith, eq_iff "a" h, eq_iff "b" h)

schedule_task-Fits_example :
    Fits
      (pass (keep_task old_topology) tasks hosts []).nodes
      (schedule_task clock tasks old_topology hosts).nodes
schedule_task-Fits_example = schedule_task-Fits clock tasks old_topology hosts Named-hosts

match_label_iff_example : (match_label star host_a.label (some (("arch", "*") ∷ [])) ≡ true) ↔ (
    (key val : String) → get key (("arch", "*") ∷ []) ≡ some val → Meets star host_a.label key val)
unfolding scheduler
match_label_iff_example = match_label_iff star host_a.label (("arch", "*") ∷ []) (refl, tt)
