-- ===== src/Cluster/Placement.antt =====
-- Where the scheduler of src/daemon/consul/Scheduler.cpp puts a task: only on hosts that were found to
-- match it.
use app_mesh.Prelude.{
  ℕ, Bool, true, false, Option, none, some, [], ◌∷◌, String, ◌&&◌, not, ◌≡◌, ◌≢◌, arith, refl,
  str_eq, eq_iff, Option-cases, Bool-cases, inl, inr, sym, ap, ◌⊎◌, subst,
}
use app_mesh.Dict.{Dict, get, has, member, keys, Distinct}
use app_mesh.Dict.Laws.{get-tail, get-put, member-keys, member-remove}
use app_mesh.Cluster.Label.{Labels, match_label}
use app_mesh.Cluster.Entity.{ConsulTask, ConsulNode, assign_app, full}
use app_mesh.Cluster.Schedule.{
  Topology, Progress, apps_of, assign_node, keep_host, keep_task, pass, place_host, place_task,
  schedule_task, available_hosts, find_task_available_host,
}
use app_mesh.Cluster.Rules.{pass_rule, keep_task_rule, place_task_rule}
use app_mesh.Cluster.Quota.{
  Frames, pass-frame, keys-pass, keep_task-IsFrugal, place_task-IsFrugal, runs, runs-save_topology,
}

-- Each node is kept under its own name: ConsulConnection::retrieveNode builds the map so.
abbrev pub Named : Dict ConsulNode → Type 0
Named nodes =
    (host : String) (node : ConsulNode) → get host nodes ≡ some node → node.host_name ≡ host

-- The node of one host after a task was assigned to another or to the same.
pub get-assign_node :
    (host : String) (task : ConsulTask) (nodes : Dict ConsulNode) (h : String) {node : ConsulNode}
    → get h (assign_node host task nodes) ≡ some node
    → ((host ≡ h) × (old : ConsulNode) × (get h nodes ≡ some old) × (node ≡ assign_app old task))
      ⊎ ((host ≢ h) × (get h nodes ≡ some node))
unfolding assign_node
get-assign_node host task nodes h {node} e = elim (Bool-cases (str_eq host h)) [
  | inr other ↦ inr (
    λ q. ground (arith, eq_iff host h),
    elim (Option-cases (get host nodes)) [
      | inl missing ↦ ground arith
      | inr (n, found) ↦ ground (arith, get-put host h (assign_app n task) nodes)
    ],
  )
  | inl same ↦ elim (Option-cases (get host nodes)) [
    | inl missing ↦ absurd (ground (arith, eq_iff host h))
    | inr (n, found) ↦ inl (
      (eq_iff host h).0 same,
      n,
      ground (arith, eq_iff host h),
      ground (arith, get-put host h (assign_app n task) nodes),
    )
  ]
]

pub assign_node-Named :
    (host : String) (task : ConsulTask) (nodes : Dict ConsulNode)
    → Named nodes
    → Named (assign_node host task nodes)
unfolding assign_app
assign_node-Named host task nodes named h node e = elim (get-assign_node host task nodes h e) [
  | inl (same, old, found, now) ↦ ground (arith, named h old found)
  | inr (other, found) ↦ named h node found
]

-- What a step on one task has done so far: it dropped hosts from the matched ones, and gave the
-- task to matched hosts only.
abbrev pub Within : String → Progress → Progress → Type 0
Within name p q =
    (h : String)
    → (member h q.task.matched_hosts ≡ true → member h p.task.matched_hosts ≡ true)
      × (runs h name q.topology ≡ true
          → (runs h name p.topology ≡ true) ⊎ (member h p.task.matched_hosts ≡ true))

keep_host-Within :
    (name host : String) (time : ℕ) (p q : Progress)
    → member host q.task.matched_hosts ≡ true
    → Within name p q
    → Within name p (keep_host name host time q)
unfolding keep_host
keep_host-Within name host time p q m w h = (
  λ e. (w h).0 (ground (arith, member-remove host h q.task.matched_hosts)),
  λ e. elim (Bool-cases (str_eq host h)) [
    | inl same ↦ inr (ground (arith, eq_iff host h, (w host).0 m))
    | inr other ↦ (w h).1 (ground (arith, runs-save_topology host name time q.topology h name))
  ],
)

place_host-Within :
    (name : String) (clock : String → ℕ) (node : ConsulNode) (p q : Progress)
    → member node.host_name p.task.matched_hosts ≡ true
    → Within name p q
    → Within name p (place_host name clock node q)
unfolding place_host
place_host-Within name clock node p q m w h = (
  (w h).0,
  λ e. elim (Bool-cases (str_eq node.host_name h)) [
    | inl same ↦ inr (ground (arith, eq_iff node.host_name h))
    | inr other ↦ (w h).1 (
        ground
          (arith, runs-save_topology node.host_name name (clock node.host_name) q.topology h name))
  ],
)

-- A step of a pass gives its task to matched hosts only, and leaves every other task as it is.
pub record IsLocal (step : String → Progress → Progress) : Type 0 where
  pub frames : Frames step
  pub places : (name : String) (p : Progress) → Named p.nodes → Within name p (step name p)
  pub names : (name : String) (p : Progress) → Named p.nodes → Named (step name p).nodes

pub keep_task-IsLocal : (old : Topology) → IsLocal (keep_task old)
unfolding keep_host
keep_task-IsLocal old = record {
  frames = (keep_task-IsFrugal old).frames;
  places = λ name p named.
      keep_task_rule (Within name p) name
        (λ host time q m e w. keep_host-Within name host time p q m w) old p (λ h. (λ m. m, inl));
  names = λ name p named.
      keep_task_rule (λ q. Named q.nodes) name
        (λ host time q m e k. assign_node-Named host _ q.nodes k) old p named;
}

pub place_task-IsLocal : (clock : String → String → ℕ) → IsLocal (place_task clock)
unfolding place_host
place_task-IsLocal clock = record {
  frames = (place_task-IsFrugal clock).frames;
  places = λ name p named.
      (place_task_rule (λ q. Named q.nodes × Within name p q)
        (λ h. member h p.task.matched_hosts ≡ true) clock name
        (λ host node q m e r k w. (
          assign_node-Named node.host_name _ q.nodes w.0,
          place_host-Within name (clock name) node p q
              (subst (λ x. member x p.task.matched_hosts ≡ true) (sym (w.0 host node e)) m) w.1,
        ))
        p (λ h node m e. subst (λ x. member x p.task.matched_hosts ≡ true) (sym (named h node e)) m)
        (named, λ h. (λ m. m, inl))).1;
  names = λ name p named.
      place_task_rule (λ q. Named q.nodes) (λ _. Unit {0}) clock name
        (λ host node q m e r k w. assign_node-Named node.host_name _ q.nodes w) p (λ _ _ _ _. tt)
        named;
}

-- The task is asked for, and the host is among its matched hosts.
abbrev pub allowed : String → String → Dict ConsulTask → Bool
allowed h n tasks = elim (get n tasks) [ none ↦ false | some task ↦ member h task.matched_hosts ]

module _ (step : String → Progress → Progress) (local : IsLocal step) (h : String) where
  -- A pass leaves no more hosts matched, and adds the task to matched hosts only.
  abbrev Places : String → Dict ConsulTask → Dict ConsulNode → Topology → Type 0
  Places n tasks nodes topology =
      (allowed h n (pass step tasks nodes topology).tasks ≡ true → allowed h n tasks ≡ true)
      × (runs h n (pass step tasks nodes topology).topology ≡ true
          → (runs h n topology ≡ true) ⊎ (allowed h n tasks ≡ true))

  pass-Places_head :
      (name : String) (task : ConsulTask) (rest : Dict ConsulTask) (nodes : Dict ConsulNode)
      (topology : Topology)
      → Named nodes
      → has name rest ≡ false
      → Places name ((name, task) ∷ rest) nodes topology
  unfolding pass get
  pass-Places_head name task rest nodes topology named out =
      let p : Progress = record { task = task; nodes = nodes; topology = topology } in
      let q = step name p in
      let w = local.places name p named h in
      (
        λ e. ground (arith, eq_iff name name, w.0),
        λ e. ground (
          arith,
          eq_iff name name,
          w.1,
          pass-frame step local.frames name h rest q.nodes q.topology out,
        ),
      )

  pass-Places :
      (n : String) (tasks : Dict ConsulTask) (nodes : Dict ConsulNode) (topology : Topology)
      → Named nodes
      → Distinct (keys tasks)
      → Places n tasks nodes topology
  unfolding pass get
  pass-Places n [] nodes topology named k = (λ e. e, inl)
  pass-Places n ((name, task) ∷ rest) nodes topology named k =
      let p : Progress = record { task = task; nodes = nodes; topology = topology } in
      let q = step name p in
      elim (Bool-cases (str_eq name n)) [
        | inl same ↦
            subst (λ m. Places m ((name, task) ∷ rest) nodes topology) ((eq_iff name n).0 same)
              (pass-Places_head name task rest nodes topology named
                (ground (arith, member-keys name rest)))
        | inr other ↦
            let later = pass-Places n rest q.nodes q.topology (local.names name p named) k.1 in
            let same = local.frames name p n h other in
            (λ e. ground (arith, later.0), λ e. ground (arith, later.1, same))
      ]

-- A schedule puts a task only on hosts that are among its matched hosts to begin with.
pub schedule_task-allowed :
    (clock : String → String → ℕ) (tasks : Dict ConsulTask) (old : Topology)
    (nodes : Dict ConsulNode) (h n : String)
    → Named nodes
    → Distinct (keys tasks)
    → runs h n (schedule_task clock tasks old nodes).topology ≡ true
    → allowed h n tasks ≡ true
unfolding schedule_task apps_of get has
schedule_task-allowed clock tasks old nodes h n named k e =
    let kept = pass (keep_task old) tasks nodes [] in
    let first = keep_task-IsLocal old in
    let one = pass-Places (keep_task old) first h n tasks nodes [] named k in
    let two =
      pass-Places (place_task clock) (place_task-IsLocal clock) h n kept.tasks kept.nodes
        kept.topology
        (pass_rule (keep_task old) (λ ns _. Named ns) first.names tasks nodes [] named)
        (subst Distinct (sym (keys-pass (keep_task old) tasks nodes [])) k) in
    ground (arith, one.0, one.1, two.1 e)

module _ (wild : String → String → Bool) where
  available_hosts-member :
      (condition : Option Labels) (nodes : Dict ConsulNode) (h : String)
      → member h (available_hosts wild condition nodes) ≡ true
      → Distinct (keys nodes)
      → (node : ConsulNode) × (get h nodes ≡ some node)
        × (match_label wild node.label condition ≡ true)
        × (full node ≡ false)
  unfolding available_hosts member get
  available_hosts-member condition [] h m d = absurd (ground arith)
  available_hosts-member condition ((host, node) ∷ nodes) h m d =
      elim (Bool-cases
        (match_label wild node.label condition && not (full node) && str_eq host h)) [
          | inl hit ↦ (node, ground arith, ground arith, ground arith)
          | inr miss ↦
              let (found, e, fits, room) =
                available_hosts-member condition nodes h (ground arith) d.1 in
              (found, get-tail host node h nodes d e, fits, room)
        ]

  find-allowed :
      (tasks : Dict ConsulTask) (nodes : Dict ConsulNode) (h n : String)
      → allowed h n (find_task_available_host wild tasks nodes) ≡ true
      → (task : ConsulTask) × (get n tasks ≡ some task)
        × (member h (available_hosts wild task.condition nodes) ≡ true)
  unfolding find_task_available_host get
  find-allowed [] nodes h n a = absurd (ground arith)
  find-allowed ((name, task) ∷ rest) nodes h n a = elim (Bool-cases (str_eq name n)) [
    | inl same ↦ (task, ground arith, ground arith)
    | inr other ↦
        let (found, e, m) = find-allowed rest nodes h n (ground arith) in (found, ground arith, m)
  ]

  pub keys-find :
      (tasks : Dict ConsulTask) (nodes : Dict ConsulNode)
      → keys (find_task_available_host wild tasks nodes) ≡ keys tasks
  unfolding find_task_available_host
  keys-find [] nodes = refl
  keys-find ((name, task) ∷ rest) nodes = ap (◌∷◌ name) (keys-find rest nodes)

  -- When the leader matches tasks to nodes and then schedules them, a host on which a task is
  -- put is a known node that meets the task's condition and was not full.
  pub schedule_task-matches :
      (clock : String → String → ℕ) (tasks : Dict ConsulTask) (old : Topology)
      (nodes : Dict ConsulNode) (h n : String)
      → Named nodes
      → Distinct (keys nodes)
      → Distinct (keys tasks)
      → runs h n
          (schedule_task clock (find_task_available_host wild tasks nodes) old nodes).topology
        ≡ true
      → (task : ConsulTask) × (node : ConsulNode) × (get n tasks ≡ some task)
        × (get h nodes ≡ some node)
        × (match_label wild node.label task.condition ≡ true)
        × (full node ≡ false)
  schedule_task-matches clock tasks old nodes h n named d k e =
      let (task, found, m) = find-allowed tasks nodes h n (
        schedule_task-allowed clock (find_task_available_host wild tasks nodes) old nodes h n named
          (subst Distinct (sym (keys-find tasks nodes)) k) e) in
      let (node, here, fits, room) = available_hosts-member task.condition nodes h m d in
      (task, node, found, here, fits, room)
