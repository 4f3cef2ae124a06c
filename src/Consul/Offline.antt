-- ===== src/Consul/Offline.antt =====
-- A host that leaves the cluster: ConsulConnection::offlineNode of
-- src/daemon/consul/ConsulConnection.cpp.
use app_mesh.Prelude.{
  false, Option, none, some, List, [], ◌∷◌, String, ◌≡◌, refl, arith, sym, subst, ◌∙◌, inl, inr,
  Bool-cases,
}
use app_mesh.Prelude.Int.{ℤ}
use app_mesh.Dict.{has, Distinct}
use app_mesh.Application.State.{Processes, Timers}
use app_mesh.Registry.{Entry, find_app}
use app_mesh.Registry.Names.{names}
use app_mesh.Text.Search.{◌<>◌}
use app_mesh.Consul.Follow.{Follower, drop_cloud, remove_cloud, offline_node, delete_key}
use app_mesh.Consul.Synced.{unscheduled, kept, drop_cloud_lem}

module _ {P : Type 0} where
  kept-unscheduled : (e : Option (Entry P)) → kept false e e ≡ unscheduled e
  kept-unscheduled none = refl
  kept-unscheduled (some e) = ground arith

module _ {P : Type 0} (os : Processes P) (schedule_timer : Timers → ℤ) where
  remove_cloud-drop_cloud :
      (current : List (Entry P)) (f : Follower P)
      → remove_cloud os schedule_timer current f ≡ drop_cloud os schedule_timer [] current f
  unfolding remove_cloud drop_cloud has
  remove_cloud-drop_cloud [] f = refl
  remove_cloud-drop_cloud (e ∷ rest) f = elim (Bool-cases e.is_cloud_app) [
    | inl b ↦ rw (remove_cloud, drop_cloud, b) (remove_cloud-drop_cloud rest _)
    | inr b ↦ rw (remove_cloud, drop_cloud, b) (remove_cloud-drop_cloud rest f)
  ]

  -- Where no name stands twice: after the host went offline no name stands twice, every cloud
  -- application is gone, and every other application is as it was.
  pub offline_node_lem :
      (host : String) (f : Follower P)
      → Distinct (names f.registry.apps)
      → Distinct (names (offline_node os schedule_timer host f).registry.apps)
        × ((j : String)
            → find_app j (offline_node os schedule_timer host f).registry.apps
              ≡ unscheduled (find_app j f.registry.apps))
  unfolding offline_node has
  offline_node_lem host f d =
      let g : Follower P = record f {
        requests =
            delete_key ("topology/" <> host) ∷ delete_key ("cluster/nodes/" <> host) ∷ f.requests;
      } in
      let (d1, g1) = drop_cloud_lem os schedule_timer [] f.registry.apps g d d in
      subst
        (λ r.
          Distinct (names r.registry.apps)
          × ((j : String) → find_app j r.registry.apps ≡ unscheduled (find_app j f.registry.apps)))
        (sym (remove_cloud-drop_cloud f.registry.apps g))
        (d1, λ j. g1 j ∙ kept-unscheduled (find_app j f.registry.apps))
