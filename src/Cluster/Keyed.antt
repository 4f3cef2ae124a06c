-- ===== src/Cluster/Keyed.antt =====
-- The topology that src/daemon/consul/Scheduler.cpp gives is a map of maps: no host stands twice in it, and
-- no application twice on a host.
use app_mesh.Prelude.{ℕ, [], String, str_eq, inl, inr, Bool-cases, Option-cases}
use app_mesh.Dict.{Dict, get, keys, Distinct}
use app_mesh.Dict.Sorted.{Ascending, Ascending-put, Ascending-Distinct}
use app_mesh.Cluster.Entity.{ConsulTask, ConsulNode}
use app_mesh.Cluster.Schedule.{
  Topology, apps_of, save_topology, keep_host, keep_task, place_host, place_task, schedule_task,
  pass,
}
use app_mesh.Cluster.Rules.{pass_rule, keep_task_rule, place_task_rule}
use app_mesh.Cluster.Quota.{apps_of-save_topology}
use app_mesh.Cluster.Sync.{WellKeyed}

abbrev pub IsMap : Topology → Type 0
IsMap t = Ascending (keys t) × ((h : String) → Ascending (keys (apps_of h t)))

empty-IsMap : IsMap []
unfolding apps_of get
empty-IsMap = (tt, λ h. tt)

save_topology-IsMap :
    (host name : String) (time : ℕ) (t : Topology)
    → IsMap t
    → IsMap (save_topology host name time t)
unfolding save_topology
save_topology-IsMap host name time t m = (
  elim (Option-cases (get host t)) [
    | inl e ↦ rw (save_topology, e) (Ascending-put host _ t m.0)
    | inr (u, e) ↦ rw (save_topology, e) (Ascending-put host _ t m.0)
  ],
  λ h. elim (Bool-cases (str_eq host h)) [
    | inl s ↦
        rw (apps_of-save_topology host name time t h, s)
          (Ascending-put name time (apps_of host t) (m.1 host))
    | inr s ↦ rw (apps_of-save_topology host name time t h, s) (m.1 h)
  ],
)

pub schedule_task-IsMap :
    (clock : String → String → ℕ) (tasks : Dict ConsulTask) (old : Topology)
    (nodes : Dict ConsulNode)
    → IsMap (schedule_task clock tasks old nodes).topology
unfolding schedule_task keep_host place_host
schedule_task-IsMap clock tasks old nodes =
    let kept = pass (keep_task old) tasks nodes [] in
    pass_rule (place_task clock) (λ _ t. IsMap t)
      (λ name p m.
        place_task_rule (λ q. IsMap q.topology) (λ _. Unit {0}) clock name
          (λ _ node q _ _ r e k. save_topology-IsMap node.host_name name _ q.topology k) p
          (λ _ _ _ _. tt) m)
      kept.tasks kept.nodes kept.topology
      (pass_rule (keep_task old) (λ _ t. IsMap t)
        (λ name p m.
          keep_task_rule (λ q. IsMap q.topology) name
            (λ host time q _ e k. save_topology-IsMap host name time q.topology k) old p m)
        tasks nodes [] empty-IsMap)

pub IsMap-WellKeyed : (t : Topology) → IsMap t → Distinct (keys t) × WellKeyed t
IsMap-WellKeyed t m =
    (Ascending-Distinct (keys t) m.0, λ h. Ascending-Distinct (keys (apps_of h t)) (m.1 h))
