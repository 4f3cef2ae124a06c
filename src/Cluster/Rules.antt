-- ===== src/Cluster/Rules.antt =====
-- One rule for each loop of src/daemon/consul/Scheduler.cpp: what a round keeps, the loop keeps.
use app_mesh.Prelude.{
  map, ℕ, true, false, some, List, [], ◌∷◌, String, ◌&&◌, not, ◌≡◌, arith, Option-cases, Bool-cases,
  inl, inr, All, eq_iff,
}
use app_mesh.Dict.{Dict, get, member}
use app_mesh.Cluster.Entity.{ConsulTask, ConsulNode, try_assign_app, full}
use app_mesh.Cluster.Schedule.{
  Topology, Progress, is_empty, keep_host, keep_hosts, keep_task, pass, place_host, place_hosts,
  sorted_hosts, place_task, sort_hosts, insert_host, node_less, host_vector,
}

module _ {ℓ} (P : Progress → Type ℓ) (name : String) where
  -- A round of the first pass: a host that matches the task, which is not yet used up.
  abbrev pub KeepRound : Type ℓ
  KeepRound =
      (host : String) (time : ℕ) (p : Progress)
      → member host p.task.matched_hosts ≡ true
      → is_empty p.task.tasks_set ≡ false
      → P p
      → P (keep_host name host time p)

  pub keep_hosts_rule :
      KeepRound → (old : Topology) (p : Progress) → P p → P (keep_hosts name old p)
  unfolding keep_hosts
  keep_hosts_rule round [] p h = h
  keep_hosts_rule round ((host, t) ∷ rest) p h = elim (Option-cases (get name t.schedule_apps)) [
    | inl e ↦ rw (e, keep_hosts) (keep_hosts_rule round rest p h)
    | inr (time, e) ↦ elim (Bool-cases (member host p.task.matched_hosts)) [
      | inr out ↦ rw (e, out, keep_hosts) (keep_hosts_rule round rest p h)
      | inl match ↦ elim (Bool-cases (is_empty p.task.tasks_set)) [
        | inl done ↦ rw (e, match, done, keep_hosts) h
        | inr more ↦
            rw (e, match, more, keep_hosts)
              (keep_hosts_rule round rest (keep_host name host time p)
                (round host time p match more h))
      ]
    ]
  ]

  pub keep_task_rule : KeepRound → (old : Topology) (p : Progress) → P p → P (keep_task old name p)
  unfolding keep_task
  keep_task_rule round old p h = elim (Bool-cases (is_empty p.task.tasks_set)) [
    | inl done ↦ rw (done, keep_task) h
    | inr more ↦ rw (more, keep_task) (keep_hosts_rule round old p h)
  ]

  module _ {κ} (clock : String → ℕ) (Q : String → Type κ) where
    -- A round of the second pass: a host that is sorted in and has room for the task.
    abbrev pub PlaceRound : Type (ℓ ⊔ κ)
    PlaceRound =
        (host : String) (node : ConsulNode) (p : Progress)
        → Q host
        → get host p.nodes ≡ some node
        → (not (full node) && try_assign_app node p.task) ≡ true
        → is_empty p.task.tasks_set ≡ false
        → P p
        → P (place_host name clock node p)

    pub place_hosts_rule :
        PlaceRound
        → (hosts : List String) (p : Progress) → All Q hosts
        → P p
        → P (place_hosts name clock hosts p)
    unfolding place_hosts
    place_hosts_rule round [] p q h = h
    place_hosts_rule round (host ∷ rest) p q h = elim (Bool-cases (is_empty p.task.tasks_set)) [
      | inl done ↦ rw (done, place_hosts) h
      | inr more ↦ elim (Option-cases (get host p.nodes)) [
        | inl e ↦ rw (more, e, place_hosts) (place_hosts_rule round rest p q.1 h)
        | inr (node, e) ↦ elim (Bool-cases (not (full node) && try_assign_app node p.task)) [
          | inl room ↦
              rw (more, e, room, place_hosts)
                (place_hosts_rule round rest (place_host name clock node p) q.1
                  (round host node p q.0 e room more h))
          | inr tight ↦ rw (more, e, tight, place_hosts) (place_hosts_rule round rest p q.1 h)
        ]
      ]
    ]

module _ {κ} (Q : ConsulNode → Type κ) where
  insert_host-All :
      (node : ConsulNode) (nodes : List ConsulNode)
      → Q node
      → All Q nodes
      → All Q (insert_host node nodes)
  unfolding insert_host
  insert_host-All node [] q qs = (q, tt)
  insert_host-All node (other ∷ nodes) q qs = elim (Bool-cases (node_less other node)) [
    | inl before ↦ rw (before, insert_host) (qs.0, insert_host-All node nodes q qs.1)
    | inr after ↦ rw (after, insert_host) (q, qs)
  ]

  sort_hosts-All : (nodes : List ConsulNode) → All Q nodes → All Q (sort_hosts nodes)
  unfolding sort_hosts
  sort_hosts-All [] qs = tt
  sort_hosts-All (node ∷ nodes) qs =
      insert_host-All node (sort_hosts nodes) qs.0 (sort_hosts-All nodes qs.1)

  host_vector-All :
      (hosts : List String) (nodes : Dict ConsulNode)
      → ((host : String) (node : ConsulNode)
          → member host hosts ≡ true
          → get host nodes ≡ some node
          → Q node)
      → All Q (host_vector hosts nodes)
  unfolding host_vector member
  host_vector-All [] nodes q = tt
  host_vector-All (host ∷ hosts) nodes q = elim (Option-cases (get host nodes)) [
    | inl e ↦ rw (e, host_vector) (host_vector-All hosts nodes (λ h n m. q h n (ground arith)))
    | inr (node, e) ↦
        rw (e, host_vector)
          (
            q host node (ground (arith, eq_iff host host)) e,
            host_vector-All hosts nodes (λ h n m. q h n (ground arith)),
          )
  ]

map-All {κ} :
    (Q : String → Type κ) (nodes : List ConsulNode)
    → All (λ node. Q node.host_name) nodes
    → All Q (map (λ node. node.host_name) nodes)
map-All Q [] qs = tt
map-All Q (node ∷ nodes) qs = (qs.0, map-All Q nodes qs.1)

module _ {ℓ κ} (P : Progress → Type ℓ) (Q : String → Type κ) where
  -- The rule for the second pass on one task: `Q` holds of the names of the matched nodes.
  pub place_task_rule :
      (clock : String → String → ℕ) (name : String)
      → PlaceRound P name (clock name) Q
      → (p : Progress)
      → ((host : String) (node : ConsulNode)
          → member host p.task.matched_hosts ≡ true
          → get host p.nodes ≡ some node
          → Q node.host_name)
      → P p
      → P (place_task clock name p)
  unfolding place_task sorted_hosts
  place_task_rule clock name round p q h = elim (Bool-cases (is_empty p.task.tasks_set)) [
    | inl done ↦ rw (done, place_task) h
    | inr more ↦
        let vector = host_vector p.task.matched_hosts p.nodes in
        rw (more, place_task)
          (place_hosts_rule P name (clock name) Q round (sorted_hosts p.task.matched_hosts p.nodes)
            p
            (map-All Q (sort_hosts vector) (
              sort_hosts-All (λ node. Q node.host_name) vector
                (host_vector-All (λ node. Q node.host_name) p.task.matched_hosts p.nodes q)))
            h)
  ]

module _ {ℓ} (step : String → Progress → Progress) (P : Dict ConsulNode → Topology → Type ℓ) where
  -- What each step keeps of the nodes and the topology, the pass keeps.
  pub pass_rule :
      ((name : String) (p : Progress)
        → P p.nodes p.topology
        → P (step name p).nodes (step name p).topology)
      → (tasks : Dict ConsulTask) (nodes : Dict ConsulNode) (topology : Topology) → P nodes topology
      → P (pass step tasks nodes topology).nodes (pass step tasks nodes topology).topology
  unfolding pass
  pass_rule keep [] nodes topology h = h
  pass_rule keep ((name, task) ∷ rest) nodes topology h =
      let p : Progress = record { task = task; nodes = nodes; topology = topology } in
      pass_rule keep rest (step name p).nodes (step name p).topology (keep name p h)
