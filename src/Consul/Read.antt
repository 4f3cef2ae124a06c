-- ===== src/Consul/Read.antt =====
-- What retrieveTask, retrieveNode and retrieveTopology of src/daemon/consul/ConsulConnection.cpp give, and
-- that the store stays a map of maps.
use app_mesh.Prelude.{
  ℕ, Option, none, some, List, [], ◌∷◌, String, str_eq, ◌≡◌, refl, arith, eq_iff, inl, inr,
  Bool-cases, Option-cases, sym, subst, ◌∙◌,
}
use app_mesh.Dict.{Dict, get, has, put, keys, Distinct}
use app_mesh.Dict.Laws.{get-put, get-tail, get-none, member-keys}
use app_mesh.Dict.Sorted.{Ascending, Ascending-put, Ascending-Distinct}
use app_mesh.Text.{start_with}
use app_mesh.Text.Search.{replaced}
use app_mesh.Cluster.Entity.{ConsulTask, ConsulTopology, ConsulNode}
use app_mesh.Cluster.Schedule.{Topology, apps_of}
use app_mesh.Cluster.Quota.{apps_of-put, apps_of-some}
use app_mesh.Cluster.Placement.{Named}
use app_mesh.Cluster.Dispatch.{
  Store, Body, empty_object, app_array, stored_apps, body_of, write_topology, is_changed,
  dispatch_new, dispatch_gone, compare_topology_and_dispatch,
}
use app_mesh.Cluster.Sync.{stored_apps-write}
use app_mesh.Cluster.Keyed.{IsMap}
use app_mesh.Consul.Lead.{
  TaskSection, NodeSection, section_task, retrieve_task, retrieve_node, node_from_json, nodes_path,
  retrieve_topology,
}

pub Ascending-retrieve_task :
    (sections : List TaskSection) (result : Dict ConsulTask)
    → Ascending (keys result)
    → Ascending (keys (retrieve_task sections result))
unfolding retrieve_task
Ascending-retrieve_task [] result a = a
Ascending-retrieve_task (section ∷ rest) result a = elim (Option-cases (section_task section)) [
  | inl e ↦ rw (retrieve_task, e) (Ascending-retrieve_task rest result a)
  | inr (task, e) ↦
      rw (retrieve_task, e)
        (Ascending-retrieve_task rest (put task.app_name task result)
          (Ascending-put task.app_name task result a))
]

put-Named :
    (host : String) (node : ConsulNode) (nodes : Dict ConsulNode)
    → node.host_name ≡ host
    → Named nodes
    → Named (put host node nodes)
put-Named host node nodes e named h n found =
    ground (arith, get-put host h node nodes, eq_iff host h, named h n)

-- Each node stands under its own name, in a map.
abbrev pub AreNodes : Dict ConsulNode → Type 0
AreNodes nodes = Ascending (keys nodes) × Named nodes

pub retrieve_node-AreNodes :
    (sections : List NodeSection) (result : Dict ConsulNode)
    → AreNodes result
    → AreNodes (retrieve_node sections result)
unfolding retrieve_node node_from_json
retrieve_node-AreNodes [] result a = a
retrieve_node-AreNodes (section ∷ rest) result a = elim (Option-cases section.value) [
  | inl e ↦ rw (retrieve_node, e) (retrieve_node-AreNodes rest result a)
  | inr (json, e) ↦ elim (Bool-cases (start_with section.key nodes_path)) [
    | inr x ↦ rw (retrieve_node, e, x) (retrieve_node-AreNodes rest result a)
    | inl x ↦
        let host = replaced nodes_path "" section.key in
        rw (retrieve_node, e, x)
          (retrieve_node-AreNodes rest (put host (node_from_json json host) result) (
            Ascending-put host (node_from_json json host) result a.0,
            put-Named host (node_from_json json host) result refl a.1,
          ))
  ]
]

-- The store: no host stands twice in it, and no application twice on a host.
abbrev pub IsStore : Store → Type 0
IsStore store = Ascending (keys store) × ((h : String) → Ascending (keys (stored_apps h store)))

-- The applications that a body gives, in place of those that were read before.
abbrev read_over : Option Body → Dict ℕ → Dict ℕ
read_over none old = old
read_over (some empty_object) old = old
read_over (some (app_array apps)) old = apps

read_over-stored_apps :
    (h : String) (store : Store) → read_over (get h store) [] ≡ stored_apps h store
unfolding stored_apps
read_over-stored_apps h store = elim (Option-cases (get h store)) [
  | inl e ↦ rw (e, stored_apps) refl
  | inr (empty_object, e) ↦ rw (e, stored_apps) refl
  | inr (app_array apps, e) ↦ rw (e, stored_apps) refl
]

apps_of-retrieve_topology :
    (store : Store) (topology : Topology) (h : String)
    → Distinct (keys store)
    → apps_of h (retrieve_topology store topology) ≡ read_over (get h store) (apps_of h topology)
unfolding retrieve_topology get
apps_of-retrieve_topology [] topology h d = refl
apps_of-retrieve_topology ((host, empty_object) ∷ rest) topology h d = ground (
  arith,
  apps_of-retrieve_topology rest topology h d.1,
  eq_iff host h,
  member-keys host rest,
  get-none h rest,
)
apps_of-retrieve_topology ((host, app_array apps) ∷ rest) topology h d =
    let t : ConsulTopology = record { host_name = host; schedule_apps = apps } in
    ground (
      arith,
      apps_of-retrieve_topology rest (put host t topology) h d.1,
      apps_of-put host t topology h,
      eq_iff host h,
      member-keys host rest,
      get-none h rest,
    )

pub retrieve_topology-stored :
    (store : Store) (h : String)
    → IsStore store
    → stored_apps h store ≡ apps_of h (retrieve_topology store [])
unfolding apps_of get
retrieve_topology-stored store h a = sym (
    apps_of-retrieve_topology store [] h (Ascending-Distinct (keys store) a.0)
    ∙ read_over-stored_apps h store)

Ascending-retrieve_topology :
    (store : Store) (topology : Topology)
    → Ascending (keys topology)
    → Ascending (keys (retrieve_topology store topology))
unfolding retrieve_topology
Ascending-retrieve_topology [] topology a = a
Ascending-retrieve_topology ((host, empty_object) ∷ rest) topology a =
    Ascending-retrieve_topology rest topology a
Ascending-retrieve_topology ((host, app_array apps) ∷ rest) topology a =
    Ascending-retrieve_topology rest _ (Ascending-put host _ topology a)

pub retrieve_topology-IsMap : (store : Store) → IsStore store → IsMap (retrieve_topology store [])
retrieve_topology-IsMap store a = (
  Ascending-retrieve_topology store [] tt,
  λ h. rw (← retrieve_topology-stored store h a) (a.1 h),
)

-- Putting a map for a host, or nothing.
write_topology-IsStore :
    (host : String) (t : Option ConsulTopology) (store : Store)
    → ((u : ConsulTopology) → t ≡ some u → Ascending (keys u.schedule_apps))
    → IsStore store
    → IsStore (write_topology host t store)
unfolding write_topology
write_topology-IsStore host t store m a = (
  Ascending-put host (body_of t) store a.0,
  λ h. elim (Bool-cases (str_eq host h)) [
    | inl s ↦ rw (stored_apps-write host t store h, s) (written t m)
    | inr s ↦ rw (stored_apps-write host t store h, s) (a.1 h)
  ],
)
  where
    written :
        (u : Option ConsulTopology)
        → ((v : ConsulTopology) → u ≡ some v → Ascending (keys v.schedule_apps))
        → Ascending (keys (elim u [ none ↦ [] | some new ↦ new.schedule_apps ]))
    written none m = tt
    written (some v) m = m v refl

-- Every entry of a topology is a map.
abbrev AreMaps : Topology → Type 0
AreMaps topology =
    (h : String) (u : ConsulTopology) → get h topology ≡ some u → Ascending (keys u.schedule_apps)

AreMaps-head :
    (host : String) (t : ConsulTopology) (rest : Topology)
    → AreMaps ((host, t) ∷ rest)
    → (u : ConsulTopology) → Path (Option ConsulTopology) (some t) (some u)
    → Ascending (keys u.schedule_apps)
unfolding get
AreMaps-head host t rest m u e = m host u (ground (arith, eq_iff host host))

dispatch_new-IsStore :
    (old new : Topology) (store : Store)
    → Distinct (keys new)
    → AreMaps new
    → IsStore store
    → IsStore (dispatch_new old new store)
unfolding dispatch_new
dispatch_new-IsStore old [] store d m a = a
dispatch_new-IsStore old ((host, t) ∷ rest) store d m a =
    dispatch_new-IsStore old rest _ d.1 (λ h u e. m h u (get-tail host t h rest d e))
      (elim (Bool-cases (is_changed old host t)) [
        | inl x ↦ rw (x) (write_topology-IsStore host (some t) store (AreMaps-head host t rest m) a)
        | inr x ↦ rw (x) a
      ])

dispatch_gone-IsStore :
    (old new : Topology) (store : Store) → IsStore store → IsStore (dispatch_gone old new store)
unfolding dispatch_gone
dispatch_gone-IsStore [] new store a = a
dispatch_gone-IsStore ((host, t) ∷ rest) new store a =
    dispatch_gone-IsStore rest new _ (elim (Bool-cases (has host new)) [
      | inl x ↦ rw (x) a
      | inr x ↦ rw (x) (write_topology-IsStore host none store (λ u e. absurd (ground arith)) a)
    ])

pub dispatch-IsStore :
    (old new : Topology) (store : Store)
    → IsMap new
    → IsStore store
    → IsStore (compare_topology_and_dispatch old new store)
unfolding compare_topology_and_dispatch
dispatch-IsStore old new store m a = dispatch_gone-IsStore old new _ (
    dispatch_new-IsStore old new store (Ascending-Distinct (keys new) m.0)
      (λ h u e. subst (λ x. Ascending (keys x)) (apps_of-some h new u e) (m.1 h)) a)
