-- ===== src/Consul/Examples.antt =====
-- The theorems on a leader at a cluster of one node.
use app_mesh.Cluster.Schedule.{
  schedule_task, find_task_available_host, available_hosts, pass, keep_task, keep_hosts, keep_host,
  place_task, place_hosts, place_host, sorted_hosts, sort_hosts, insert_host, node_less,
  host_vector, assign_node, save_topology, is_empty, apps_of,
}
use app_mesh.Cluster.Entity.{
  ConsulTask, ConsulNode, assign_app, try_assign_app, full, erase_begin, request_bytes,
  task_indices, indices_from, apps_within,
}
use app_mesh.Cluster.Label.{match_label, match_all, label_fits}
use app_mesh.Dict.{get, has, put, add, member, remove}
use app_mesh.Cluster.Dispatch.{
  app_array, stored_apps, compare_topology_and_dispatch, dispatch_new, dispatch_gone, is_changed,
  same_apps, write_topology, body_of,
}
use app_mesh.Consul.Lead.{
  Consul, condition_of, task_from_json, node_from_json, section_task, is_schedulable, retrieve_task,
  retrieve_node, retrieve_topology, new_topology, do_schedule,
}
use app_mesh.Text.{
  std_string_trim, space_count, all_spaces, kept_length, take, drop, is_space, text_length,
  start_with,
}
use app_mesh.Text.Search.{replaced, string_replace, find, shift, append_to, ◌<>◌}
use app_mesh.Prelude.{
  ℕ, ◌≤◌, Bool, true, false, some, [], ◌∷◌, String, str_eq, ◌≡◌, refl, inl, inr, Bool-cases,
}
use app_mesh.Cluster.Quota.{runs}
use app_mesh.Consul.Read.{IsStore}
use app_mesh.Consul.Cycle.{stored_replicas, replication_of, do_schedule_lem, do_schedule-matches}

abbrev pub star : String → String → Bool
star pattern text = str_eq pattern "*"

abbrev pub cluster : Consul
cluster = record {
  tasks =
      record {
        key = "appmesh/cluster/tasks/web";
        value = some (
            some (record {
              content_name = "web";
              replication = 2;
              memory_mb = 512;
              condition = some (("arch", "x86") ∷ []);
            }));
      }
      ∷ [];
  nodes =
      record {
        key = "appmesh/cluster/nodes/a";
        value = some (record {
          label = ("arch", "x86") ∷ [];
          cpu_cores = 4;
          mem_total_bytes = 8589934592;
          leader = true;
        });
      }
      ∷ [];
  topology = ("b", app_array (("web", 7) ∷ [])) ∷ [];
}

abbrev pub noon : String → String → ℕ
noon task host = 12

pub cluster-IsStore : IsStore cluster.topology
unfolding stored_apps get
cluster-IsStore = (
  (tt, tt),
  λ h. elim (Bool-cases (str_eq "b" h)) [
    | inl e ↦ rw (e, stored_apps, get) (tt, tt)
    | inr e ↦ rw (e, stored_apps, get) tt
  ],
)

unfoldable pub scheduling : Unit {0}
unfolding schedule_task find_task_available_host available_hosts pass keep_task keep_hosts keep_host
    place_task place_hosts place_host sorted_hosts sort_hosts insert_host node_less host_vector
    assign_node save_topology is_empty apps_of assign_app try_assign_app full erase_begin
    request_bytes task_indices indices_from apps_within match_label match_all label_fits get has put
    add member remove stored_apps compare_topology_and_dispatch dispatch_new dispatch_gone
    is_changed same_apps write_topology body_of condition_of task_from_json node_from_json
    section_task is_schedulable retrieve_task retrieve_node retrieve_topology new_topology
    do_schedule std_string_trim space_count all_spaces kept_length take drop is_space text_length
    start_with replaced string_replace find shift append_to ◌<>◌
scheduling = tt

pub has_node : is_empty (retrieve_node cluster.nodes []) ≡ false
unfolding scheduling
has_node = refl

-- Host b is gone: its topology is cleared, and host a gets the one replica that a cluster of one
-- node can hold.
do_schedule_lem_example :
    IsStore (do_schedule star noon true cluster).topology
    × (has "web" (stored_apps "a" (do_schedule star noon true cluster).topology)
        ≡ runs "a" "web" (new_topology star noon cluster))
    × (stored_replicas "web" ("a" ∷ "b" ∷ []) (do_schedule star noon true cluster).topology
        ≤ replication_of "web" (retrieve_task cluster.tasks []))
do_schedule_lem_example =
    do_schedule_lem star noon cluster "a" "web" ("a" ∷ "b" ∷ []) cluster-IsStore has_node
      (unfold scheduling in (refl, (refl, tt)))

do_schedule-matches_example :
    (task : ConsulTask) × (node : ConsulNode) × (get "web" (retrieve_task cluster.tasks [])
      ≡ some task)
    × (get "a" (retrieve_node cluster.nodes []) ≡ some node)
    × (match_label star node.label task.condition ≡ true)
    × (full node ≡ false)
do_schedule-matches_example =
    do_schedule-matches star noon cluster "a" "web" cluster-IsStore has_node
      (unfold scheduling in refl)
