-- ===== src/Cluster/Dispatch.antt =====
-- compareTopologyAndDispatch and writeTopology of src/daemon/consul/ConsulConnection.cpp. Consul's
-- store is a map from hosts to the JSON bodies that were last put there, and every request
-- succeeds. retrieveTopology reads a topology from an array only, so that the object which
-- writeTopology puts for a host with no application reads as none.
use app_mesh.Prelude.{
  ℕ, Bool, true, false, Option, none, some, [], ◌∷◌, String, if◌then◌else◌, length, not, ◌==◌,
}
use app_mesh.Dict.{Dict, get, has, put}
use app_mesh.Cluster.Entity.{ConsulTopology, apps_within}
use app_mesh.Cluster.Schedule.{Topology, is_empty}

-- The body of a request: an object without fields, or the array of ConsulTopology::AsJson.
pub data Body : Type 0 where
  empty_object : Body
  app_array : Dict ℕ → Body

abbrev pub Store : Type 0
Store = Dict Body

unfoldable pub body_of : Option ConsulTopology → Body
body_of none = empty_object
body_of (some t) = if is_empty t.schedule_apps then empty_object else app_array t.schedule_apps

unfoldable pub write_topology : String → Option ConsulTopology → Store → Store
unfolding body_of
write_topology host t store = put host (body_of t) store

-- The applications that retrieveTopology finds for a host.
unfoldable pub stored_apps : String → Store → Dict ℕ
stored_apps host store = elim (get host store) [
  | none ↦ []
  | some body ↦ elim body [ empty_object ↦ [] | app_array apps ↦ apps ]
]

-- The comparison of a host's new applications with its old ones.
unfoldable pub same_apps : Dict ℕ → Dict ℕ → Bool
same_apps new old = if length new == length old then apps_within new old else false

unfoldable pub is_changed : Topology → String → ConsulTopology → Bool
unfolding same_apps
is_changed old host t = elim (get host old) [
  | none ↦ true
  | some o ↦ not (same_apps t.schedule_apps o.schedule_apps)
]

-- The first loop: updates and additions.
unfoldable pub dispatch_new : Topology → Topology → Store → Store
dispatch_new old [] store = store
dispatch_new old ((host, t) ∷ rest) store =
    dispatch_new old rest
      (if is_changed old host t then write_topology host (some t) store else store)

-- The second loop: deletions.
unfoldable pub dispatch_gone : Topology → Topology → Store → Store
dispatch_gone [] new store = store
dispatch_gone ((host, t) ∷ rest) new store =
    dispatch_gone rest new (if not (has host new) then write_topology host none store else store)

unfoldable pub compare_topology_and_dispatch : Topology → Topology → Store → Store
compare_topology_and_dispatch old new store = dispatch_gone old new (dispatch_new old new store)
