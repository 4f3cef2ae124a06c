-- ===== src/Cluster/Capacity.antt =====
-- The memory that the scheduler of src/daemon/consul/Scheduler.cpp gives out on a node.
use app_mesh.Prelude.{ℕ, ◌<◌, true, some, [], String, ◌&&◌, not, ◌≡◌, arith, inl, inr, ◌⊎◌}
use app_mesh.Dict.{Dict, get}
use app_mesh.Cluster.Entity.{ConsulTask, ConsulNode, assign_app, try_assign_app, full}
use app_mesh.Cluster.Schedule.{
  Topology, Progress, keep_task, pass, place_host, place_task, schedule_task,
}
use app_mesh.Cluster.Rules.{pass_rule, place_task_rule}
use app_mesh.Cluster.Placement.{Named, get-assign_node, keep_task-IsLocal, assign_node-Named}

-- Each node is one of the earlier nodes unchanged, or its memory is below its total.
abbrev pub Fits : Dict ConsulNode → Dict ConsulNode → Type 0
Fits earlier nodes =
    (h : String) (node : ConsulNode)
    → get h nodes ≡ some node
    → (get h earlier ≡ some node) ⊎ (node.occupy_memory_bytes < node.total_bytes)

try_assign_app-fits :
    (node : ConsulNode) (task : ConsulTask)
    → (not (full node) && try_assign_app node task) ≡ true
    → (assign_app node task).occupy_memory_bytes < (assign_app node task).total_bytes
unfolding try_assign_app assign_app
try_assign_app-fits node task h = ground arith

place_host-Fits :
    (earlier : Dict ConsulNode) (name : String) (clock : String → ℕ) (host : String)
    (node : ConsulNode) (p : Progress)
    → node.host_name ≡ host
    → get host p.nodes ≡ some node
    → (not (full node) && try_assign_app node p.task) ≡ true
    → Fits earlier p.nodes
    → Fits earlier (place_host name clock node p).nodes
unfolding place_host
place_host-Fits earlier name clock host node p same e room fits h n found =
    elim (get-assign_node node.host_name p.task p.nodes h found) [
      | inl (here, old, was, now) ↦ inr (ground (arith, try_assign_app-fits node p.task room))
      | inr (other, was) ↦ fits h n was
    ]

place_task-Fits :
    (clock : String → String → ℕ) (earlier : Dict ConsulNode) (name : String) (p : Progress)
    → Named p.nodes × Fits earlier p.nodes
    → Named (place_task clock name p).nodes × Fits earlier (place_task clock name p).nodes
unfolding place_host
place_task-Fits clock earlier name p h =
    place_task_rule (λ q. Named q.nodes × Fits earlier q.nodes) (λ _. Unit {0}) clock name
      (λ host node q _ e room _ k. (
        assign_node-Named node.host_name _ q.nodes k.0,
        place_host-Fits earlier name (clock name) host node q (k.0 host node e) e room k.1,
      ))
      p (λ _ _ _ _. tt) h

-- After a schedule, a node is as the first pass left it, which gives hosts the tasks that they
-- already run, or its memory is below its total: the second pass never overcommits a node.
pub schedule_task-Fits :
    (clock : String → String → ℕ) (tasks : Dict ConsulTask) (old : Topology)
    (nodes : Dict ConsulNode)
    → Named nodes
    → Fits (pass (keep_task old) tasks nodes []).nodes (schedule_task clock tasks old nodes).nodes
unfolding schedule_task
schedule_task-Fits clock tasks old nodes named =
    let kept = pass (keep_task old) tasks nodes [] in
    (pass_rule (place_task clock) (λ ns _. Named ns × Fits kept.nodes ns)
      (λ name p. place_task-Fits clock kept.nodes name p) kept.tasks kept.nodes kept.topology
      (
        pass_rule (keep_task old) (λ ns _. Named ns) (keep_task-IsLocal old).names tasks nodes []
            named,
        λ h node e. inl e,
      )).1
