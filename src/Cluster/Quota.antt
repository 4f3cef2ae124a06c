-- ===== src/Cluster/Quota.antt =====
-- How many hosts the scheduler of src/daemon/consul/Scheduler.cpp gives to a task.
use app_mesh.Prelude.{
  ◌∙◌, subst, ℕ, suc, ◌+◌, ◌≤◌, Bool, true, false, none, some, List, [], ◌∷◌, String, if◌then◌else◌,
  length, ◌&&◌, ◌≡◌, arith, refl, str_eq, eq_iff, Option-cases, Bool-cases, inl, inr, sym, ap,
}
use native.Mathlib.Nat.{le_refl, le_trans}
use app_mesh.Cluster.Rules.{keep_task_rule, place_task_rule}
use app_mesh.Dict.{Dict, get, has, put, member, keys, Distinct}
use app_mesh.Dict.Laws.{get-put, has-put, member-keys}
use app_mesh.Cluster.Entity.{ConsulTask, ConsulTopology, ConsulNode, erase_begin}
use app_mesh.Cluster.Schedule.{
  Topology, Progress, is_empty, apps_of, save_topology, keep_host, keep_task, pass, place_host,
  place_task, schedule_task,
}

-- The host has the task in its topology.
abbrev pub runs : String → String → Topology → Bool
runs host name topology = has name (apps_of host topology)

pub apps_of-put :
    (host : String) (t : ConsulTopology) (topology : Topology) (h : String)
    → apps_of h (put host t topology)
      ≡ (if str_eq host h then t.schedule_apps else apps_of h topology)
unfolding apps_of
apps_of-put host t topology h = ground (arith, get-put host h t topology)

pub apps_of-some :
    (host : String) (topology : Topology) (t : ConsulTopology)
    → get host topology ≡ some t
    → apps_of host topology ≡ t.schedule_apps
unfolding apps_of
apps_of-some host topology t e = ground arith

pub apps_of-none :
    (host : String) (topology : Topology) → get host topology ≡ none → apps_of host topology ≡ []
unfolding apps_of
apps_of-none host topology e = ground arith

pub apps_of-save_topology :
    (host name : String) (time : ℕ) (topology : Topology) (h : String)
    → apps_of h (save_topology host name time topology)
      ≡ (if str_eq host h then put name time (apps_of host topology) else apps_of h topology)
unfolding save_topology
apps_of-save_topology host name time topology h = elim (Option-cases (get host topology)) [
  | inl e ↦ rw (e, save_topology, apps_of-none host topology e) (apps_of-put host _ topology h)
  | inr (t, e) ↦
      rw (e, save_topology, apps_of-some host topology t e) (apps_of-put host _ topology h)
]

pub runs-save_topology :
    (host name : String) (time : ℕ) (topology : Topology) (h n : String)
    → runs h n (save_topology host name time topology)
      ≡ (if str_eq host h && str_eq name n then true else runs h n topology)
runs-save_topology host name time topology h n = ground (
  arith,
  eq_iff host h,
  apps_of-save_topology host name time topology h,
  has-put name n time (apps_of host topology),
)

-- On how many of the hosts the task runs.
abbrev pub replicas : String → List String → Topology → ℕ
replicas name [] topology = 0
replicas name (host ∷ hosts) topology =
    (if runs host name topology then 1 else 0) + replicas name hosts topology

replicas-same :
    (n : String) (t u : Topology) (hosts : List String)
    → ((h : String) → runs h n u ≡ runs h n t)
    → replicas n hosts u ≡ replicas n hosts t
replicas-same n t u [] same = refl
replicas-same n t u (h ∷ hosts) same = ground (arith, same h, replicas-same n t u hosts same)

replicas-save_other :
    (host n : String) (time : ℕ) (t : Topology) (hosts : List String)
    → member host hosts ≡ false
    → replicas n hosts (save_topology host n time t) ≡ replicas n hosts t
unfolding member
replicas-save_other host n time t [] out = refl
replicas-save_other host n time t (h ∷ hosts) out = ground (
  arith,
  eq_iff host h,
  eq_iff h host,
  runs-save_topology host n time t h n,
  replicas-save_other host n time t hosts,
)

replicas-save :
    (host n : String) (time : ℕ) (t : Topology) (hosts : List String)
    → Distinct hosts
    → replicas n hosts (save_topology host n time t) ≤ suc (replicas n hosts t)
replicas-save host n time t [] d = omega arith
replicas-save host n time t (h ∷ hosts) d = ground (
  arith,
  eq_iff host h,
  runs-save_topology host n time t h n,
  replicas-save_other h n time t hosts d.0,
  replicas-save_other host n time t hosts,
  replicas-save host n time t hosts d.1,
)

-- The replicas of a task and those still to be given out.
abbrev pub demand : String → List String → Progress → ℕ
demand n hosts p = replicas n hosts p.topology + length p.task.tasks_set

length-erase_begin : (s : List ℕ) → is_empty s ≡ false → suc (length (erase_begin s)) ≡ length s
unfolding erase_begin is_empty
length-erase_begin [] h = ground arith
length-erase_begin (i ∷ s) h = refl

save_topology-demand :
    (hosts : List String) (host n : String) (time : ℕ) (t : Topology) (s : List ℕ)
    → Distinct hosts
    → is_empty s ≡ false
    → replicas n hosts (save_topology host n time t) + length (erase_begin s)
      ≤ replicas n hosts t + length s
save_topology-demand hosts host n time t s d e =
    omega (arith, replicas-save host n time t hosts d, length-erase_begin s e)

-- A step works on one task and leaves every other as it is.
abbrev pub Frames : (String → Progress → Progress) → Type 0
Frames step =
    (name : String) (p : Progress) (n h : String)
    → str_eq name n ≡ false
    → runs h n (step name p).topology ≡ runs h n p.topology

-- A step of a pass gives no more replicas to its task than its set of indices allows, and leaves
-- every other task as it is.
pub record IsFrugal (step : String → Progress → Progress) : Type 0 where
  pub spends :
      (hosts : List String) (name : String) (p : Progress)
      → Distinct hosts
      → demand name hosts (step name p) ≤ demand name hosts p
  pub frames : Frames step

pub keep_task-IsFrugal : (old : Topology) → IsFrugal (keep_task old)
unfolding keep_host
keep_task-IsFrugal old = record {
  spends = λ hosts name p d.
      keep_task_rule (λ q. demand name hosts q ≤ demand name hosts p) name
        (λ host time q m e h.
          le_trans (save_topology-demand hosts host name time q.topology q.task.tasks_set d e) h)
        old p (le_refl _);
  frames = λ name p n h o.
      keep_task_rule (λ q. runs h n q.topology ≡ runs h n p.topology) name
        (λ host time q m e k. ground (arith, runs-save_topology host name time q.topology h n)) old
        p refl;
}

pub place_task-IsFrugal : (clock : String → String → ℕ) → IsFrugal (place_task clock)
unfolding place_host
place_task-IsFrugal clock = record {
  spends = λ hosts name p d.
      place_task_rule (λ q. demand name hosts q ≤ demand name hosts p) (λ _. Unit {0}) clock name
        (λ _ node q _ _ r e h.
          le_trans
            (save_topology-demand hosts node.host_name name _ q.topology q.task.tasks_set d e) h)
        p (λ _ _ _ _. tt) (le_refl _);
  frames = λ name p n h o.
      place_task_rule (λ q. runs h n q.topology ≡ runs h n p.topology) (λ _. Unit {0}) clock name
        (λ _ node q _ _ r e k. ground (
          arith,
          runs-save_topology node.host_name name (clock name node.host_name) q.topology h n,
        ))
        p (λ _ _ _ _. tt) refl;
}

-- How many replicas of a task are still to be given out.
abbrev pub quota : String → Dict ConsulTask → ℕ
quota n tasks = elim (get n tasks) [ none ↦ 0 | some task ↦ length task.tasks_set ]

pub pass-frame :
    (step : String → Progress → Progress)
    → Frames step
    → (n h : String) (tasks : Dict ConsulTask) (nodes : Dict ConsulNode) (topology : Topology)
    → has n tasks ≡ false
    → runs h n (pass step tasks nodes topology).topology ≡ runs h n topology
unfolding pass has
pass-frame step frames n h [] nodes topology out = refl
pass-frame step frames n h ((name, task) ∷ rest) nodes topology out =
    let p : Progress = record { task = task; nodes = nodes; topology = topology } in
    let q = step name p in
    pass-frame step frames n h rest q.nodes q.topology (ground arith)
    ∙ frames name p n h (ground arith)

pub keys-pass :
    (step : String → Progress → Progress) (tasks : Dict ConsulTask) (nodes : Dict ConsulNode)
    (topology : Topology)
    → keys (pass step tasks nodes topology).tasks ≡ keys tasks
unfolding pass
keys-pass step [] nodes topology = refl
keys-pass step ((name, task) ∷ rest) nodes topology =
    let q = step name (record { task = task; nodes = nodes; topology = topology }) in
    ap (◌∷◌ name) (keys-pass step rest q.nodes q.topology)

module _ (step : String → Progress → Progress) (frugal : IsFrugal step) where
  -- What a pass spends of the replicas of one task, at most.
  abbrev Spends : List String → String → Dict ConsulTask → Dict ConsulNode → Topology → Type 0
  Spends hosts n tasks nodes topology =
      replicas n hosts (pass step tasks nodes topology).topology
        + quota n (pass step tasks nodes topology).tasks
      ≤ replicas n hosts topology + quota n tasks

  pass-Spends_head :
      (hosts : List String) (name : String) (task : ConsulTask) (rest : Dict ConsulTask)
      (nodes : Dict ConsulNode) (topology : Topology)
      → Distinct hosts
      → has name rest ≡ false
      → Spends hosts name ((name, task) ∷ rest) nodes topology
  unfolding pass get
  pass-Spends_head hosts name task rest nodes topology d out =
      let p : Progress = record { task = task; nodes = nodes; topology = topology } in
      let q = step name p in
      ground (
        arith,
        eq_iff name name,
        frugal.spends hosts name p d,
        replicas-same name q.topology (pass step rest q.nodes q.topology).topology hosts
            (λ h. pass-frame step frugal.frames name h rest q.nodes q.topology out),
      )

  pass-Spends :
      (hosts : List String) (n : String) (tasks : Dict ConsulTask) (nodes : Dict ConsulNode)
      (topology : Topology)
      → Distinct hosts
      → Distinct (keys tasks)
      → Spends hosts n tasks nodes topology
  unfolding pass get
  pass-Spends hosts n [] nodes topology d k = omega arith
  pass-Spends hosts n ((name, task) ∷ rest) nodes topology d k =
      let p : Progress = record { task = task; nodes = nodes; topology = topology } in
      let q = step name p in
      elim (Bool-cases (str_eq name n)) [
        | inl same ↦
            subst (λ m. Spends hosts m ((name, task) ∷ rest) nodes topology)
              ((eq_iff name n).0 same)
              (pass-Spends_head hosts name task rest nodes topology d
                (ground (arith, member-keys name rest)))
        | inr other ↦ ground (
          arith,
          replicas-same n topology q.topology hosts (λ h. frugal.frames name p n h other),
          pass-Spends hosts n rest q.nodes q.topology d k.1,
        )
      ]

replicas-empty : (n : String) (hosts : List String) → replicas n hosts [] ≡ 0
unfolding apps_of get has
replicas-empty n [] = refl
replicas-empty n (h ∷ hosts) = ground (arith, replicas-empty n hosts)

-- Among any hosts, a schedule puts a task on no more of them than the task's set of indices has
-- members, and a task that is not asked for on none.
pub schedule_task-replicas :
    (clock : String → String → ℕ) (tasks : Dict ConsulTask) (old : Topology)
    (nodes : Dict ConsulNode) (n : String) (hosts : List String)
    → Distinct hosts
    → Distinct (keys tasks)
    → replicas n hosts (schedule_task clock tasks old nodes).topology ≤ quota n tasks
unfolding schedule_task
schedule_task-replicas clock tasks old nodes n hosts d k =
    let kept = pass (keep_task old) tasks nodes [] in
    omega (
      arith,
      replicas-empty n hosts,
      pass-Spends (keep_task old) (keep_task-IsFrugal old) hosts n tasks nodes [] d k,
      pass-Spends (place_task clock) (place_task-IsFrugal clock) hosts n kept.tasks kept.nodes
          kept.topology d (subst Distinct (sym (keys-pass (keep_task old) tasks nodes [])) k),
    )
