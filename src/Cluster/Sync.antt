-- ===== src/Cluster/Sync.antt =====
-- What Consul holds after the dispatch of src/daemon/consul/ConsulConnection.cpp.
use app_mesh.Prelude.{
  ℕ, true, false, Option, none, some, [], ◌∷◌, String, if◌then◌else◌, ◌&&◌, not, ◌≡◌, arith, refl,
  str_eq, eq_iff, Option-cases, Bool-cases, inl, inr, sym, subst, ◌∙◌,
}
use mathlib.Core.Path.{subst₂}
use app_mesh.Dict.{Dict, get, has, keys, Distinct}
use app_mesh.Dict.Laws.{has-none, has_of_within, get-put, member-keys, has-get, get-none}
use app_mesh.Cluster.Entity.{ConsulTopology, apps_within}
use app_mesh.Cluster.Schedule.{Topology, apps_of, is_empty}
use app_mesh.Cluster.Quota.{apps_of-some, apps_of-none, runs}
use app_mesh.Cluster.Dispatch.{
  Store, body_of, write_topology, stored_apps, same_apps, is_changed, dispatch_new, dispatch_gone,
  compare_topology_and_dispatch,
}

pub stored_apps-write :
    (host : String) (t : Option ConsulTopology) (store : Store) (h : String)
    → stored_apps h (write_topology host t store) ≡ (
        if str_eq host h
        then elim t [ none ↦ [] | some new ↦ new.schedule_apps ]
        else stored_apps h store)
unfolding stored_apps write_topology is_empty
stored_apps-write host none store h = ground (arith, get-put host h (body_of none) store)
stored_apps-write host (some t) store h = ground (arith, get-put host h (body_of (some t)) store)

dispatch_new-other :
    (old new : Topology) (store : Store) (h : String)
    → has h new ≡ false
    → stored_apps h (dispatch_new old new store) ≡ stored_apps h store
unfolding dispatch_new has
dispatch_new-other old [] store h out = refl
dispatch_new-other old ((host, t) ∷ rest) store h out =
    dispatch_new-other old rest
      (if is_changed old host t then write_topology host (some t) store else store) h (ground arith)
    ∙ ground (arith, stored_apps-write host (some t) store h)

dispatch_new-head :
    (old rest : Topology) (store : Store) (h : String) (t : ConsulTopology)
    → has h rest ≡ false
    → stored_apps h (dispatch_new old ((h, t) ∷ rest) store)
      ≡ (if is_changed old h t then t.schedule_apps else stored_apps h store)
unfolding dispatch_new
dispatch_new-head old rest store h t out =
    dispatch_new-other old rest
      (if is_changed old h t then write_topology h (some t) store else store) h out
    ∙ ground (arith, eq_iff h h, stored_apps-write h (some t) store h)

dispatch_new-here :
    (old new : Topology) (store : Store) (h : String) (t : ConsulTopology)
    → Distinct (keys new)
    → get h new ≡ some t
    → stored_apps h (dispatch_new old new store)
      ≡ (if is_changed old h t then t.schedule_apps else stored_apps h store)
unfolding dispatch_new get
dispatch_new-here old [] store h t d e = ground arith
dispatch_new-here old ((host, u) ∷ rest) store h t d e = elim (Bool-cases (str_eq host h)) [
  | inl same ↦
      subst₂
        (λ (x : String) (y : ConsulTopology).
          stored_apps x (dispatch_new old ((host, u) ∷ rest) store)
          ≡ (if is_changed old x y then y.schedule_apps else stored_apps x store))
        ((eq_iff host h).0 same) (ground arith)
        (dispatch_new-head old rest store host u (ground (arith, member-keys host rest)))
  | inr other ↦
      dispatch_new-here old rest
        (if is_changed old host u then write_topology host (some u) store else store) h t d.1
        (ground arith)
      ∙ ground (arith, stored_apps-write host (some u) store h)
]

dispatch_gone-apps :
    (old new : Topology) (store : Store) (h : String)
    → stored_apps h (dispatch_gone old new store)
      ≡ (if has h old && not (has h new) then [] else stored_apps h store)
unfolding dispatch_gone has
dispatch_gone-apps [] new store h = refl
dispatch_gone-apps ((host, t) ∷ rest) new store h = ground (
  arith,
  eq_iff host h,
  stored_apps-write host none store h,
  dispatch_gone-apps rest new (if not (has host new) then write_topology host none store else store)
      h,
)

-- A host that is compared with its old applications.
is_changed-same :
    (old : Topology) (h : String) (t : ConsulTopology)
    → is_changed old h t ≡ false
    → same_apps t.schedule_apps (apps_of h old) ≡ true
unfolding is_changed apps_of
is_changed-same old h t e = ground arith

within-has :
    (apps other : Dict ℕ) (n : String)
    → apps_within apps other ≡ true
    → has n apps ≡ true
    → has n other ≡ true
unfolding apps_within has
within-has [] other n w h = ground arith
within-has ((name, time) ∷ apps) other n w h =
    ground (arith, eq_iff name n, within-has apps other n)

same_apps-has :
    (new old : Dict ℕ) (n : String)
    → Distinct (keys new)
    → Distinct (keys old)
    → same_apps new old ≡ true
    → has n old ≡ has n new
unfolding same_apps
same_apps-has new old n d d' e = elim (Bool-cases (has n old)) [
  | inl here ↦
      here
      ∙ sym (
          has_of_within new old n d d' (ground arith) (λ j h. within-has new old j (ground arith) h)
            here)
  | inr gone ↦ elim (Bool-cases (has n new)) [
    | inr none_here ↦ gone ∙ sym none_here
    | inl here ↦ absurd (ground (arith, within-has new old n))
  ]
]

-- Each host's applications have different names, as the keys of a map.
abbrev pub WellKeyed : Topology → Type 0
WellKeyed topology = (h : String) → Distinct (keys (apps_of h topology))

has-apps_of : (h : String) (topology : Topology) → has h topology ≡ false → apps_of h topology ≡ []
unfolding apps_of
has-apps_of h topology e = ground (arith, get-none h topology)

-- If Consul holds the old topology, then after the dispatch it holds for each host exactly the
-- applications of the new topology: hosts are updated, added and cleared as needed.
pub dispatch_syncs :
    (old new : Topology) (store : Store) (h n : String)
    → Distinct (keys new)
    → WellKeyed old
    → WellKeyed new
    → ((host : String) → stored_apps host store ≡ apps_of host old)
    → has n (stored_apps h (compare_topology_and_dispatch old new store)) ≡ runs h n new
unfolding compare_topology_and_dispatch
dispatch_syncs old new store h n d wo wn holds = elim (Option-cases (get h new)) [
  | inl e ↦ ground (
    arith,
    holds h,
    has-none h new e,
    apps_of-none h new e,
    has-apps_of h old,
    dispatch_gone-apps old new (dispatch_new old new store) h,
    dispatch_new-other old new store h,
  )
  | inr (t, e) ↦
      let shown = apps_of-some h new t e in
      ground (
        arith,
        holds h,
        shown,
        has-get h new t e,
        dispatch_gone-apps old new (dispatch_new old new store) h,
        dispatch_new-here old new store h t d e,
        is_changed-same old h t,
        same_apps-has t.schedule_apps (apps_of h old) n
            (subst (λ x. Distinct (keys x)) shown (wn h)) (wo h),
      )
]
