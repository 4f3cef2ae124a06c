-- ===== src/Consul/Follow.antt =====
-- ConsulConnection::syncTopology, registerService, deregisterService and offlineNode of
-- src/daemon/consul/ConsulConnection.cpp: the applications of a host follow its topology. The answers to
-- the requests that register services are not read, so the requests are kept as a list. `clock name i`
-- is the i-th reading of the clock while the application of that name is added. The vector of
-- applications that is taken at the start holds pointers; each application is read before it is
-- changed, since no name stands twice in a topology.
use app_mesh.Prelude.{
  ℕ, Bool, true, false, not, ◌&&◌, Option, none, some, List, [], ◌∷◌, String, if◌then◌else◌,
}
use app_mesh.Prelude.Int.{ℤ, pos, eqb_ℤ}
use app_mesh.Dict.{Dict, get, has, keys}
use app_mesh.Application.State.{Processes, Timers, ◌>>=◌}
use app_mesh.Security.Model.{Security, User}
use app_mesh.Registry.{Entry, Registry, find_app, add_app, remove_app}
use app_mesh.Text.Search.{◌<>◌}
use app_mesh.Consul.Apps.{application_eq, reload}

-- A task as `retrieveTask` gives it: its application, and the port of its service.
pub record CloudTask (P : Type 0) : Type 0 where
  pub app : Entry P
  pub consul_service_port : ℤ

-- The requests to Consul; those that delete a key have the part of its path behind the base path.
pub data Request : Type 0 where
  delete_key : String → Request
  register : String → ℤ → Request
  deregister : String → Request

pub record Follower (P : Type 0) : Type 0 where
  pub registry : Registry P
  pub requests : List Request

module _ {P : Type 0} where
  unfoldable pub register_service : String → ℤ → Follower P → Follower P
  register_service name port f =
      if eqb_ℤ port (pos 0) then f else record f { requests = register name port ∷ f.requests }

  unfoldable pub deregister_service : String → Follower P → Follower P
  deregister_service name f = record f { requests = deregister name ∷ f.requests }

module _ {P : Type 0} (os : Processes P) (schedule_timer : Timers → ℤ) where
  -- The loops that remove the cloud applications outside the topology.
  unfoldable pub drop_cloud : Dict ℕ → List (Entry P) → Follower P → Follower P
  unfolding deregister_service remove_app
  drop_cloud schedule_apps [] f = f
  drop_cloud schedule_apps (e ∷ rest) f = drop_cloud schedule_apps rest (
      if e.is_cloud_app && not (has e.name schedule_apps)
      then deregister_service e.name
          (record f { registry = remove_app os schedule_timer e.name f.registry })
      else f)

  -- The loop of `offlineNode`.
  unfoldable pub remove_cloud : List (Entry P) → Follower P → Follower P
  unfolding deregister_service remove_app
  remove_cloud [] f = f
  remove_cloud (e ∷ rest) f = remove_cloud rest (
      if e.is_cloud_app
      then deregister_service e.name
          (record f { registry = remove_app os schedule_timer e.name f.registry })
      else f)

  -- ConsulConnection::offlineNode on the host of this name.
  unfoldable pub offline_node : String → Follower P → Follower P
  unfolding remove_cloud
  offline_node host f = remove_cloud f.registry.apps (record f {
    requests =
        delete_key ("topology/" <> host) ∷ delete_key ("cluster/nodes/" <> host) ∷ f.requests;
  })

module _ {P : Type 0} (os : Processes P) (schedule_timer : Timers → ℤ) (clock : String → ℕ → ℕ)
    (same_owner : Option User → Option User → Bool) (s : Security) where
  -- Configuration::addApp of the JSON of an application, and the service of its task.
  unfoldable pub add_reloaded : String → Entry P → ℤ → Follower P → Option (Follower P)
  unfolding reload add_app register_service
  add_reloaded name e port f = reload (clock name 0) (clock name 1) s e >>= λ e'.
      add_app os schedule_timer (clock name 2) (clock name 3) e' f.registry >>= λ r.
      some (register_service name port (record f { registry = r }))

  -- One application of the topology: the body of the first loop.
  unfoldable pub sync_app :
      List (Entry P) → Dict (CloudTask P) → String → Follower P → Option (Follower P)
  unfolding add_reloaded
  sync_app current tasks name f = elim (get name tasks) [
    | none ↦ some f
    | some task ↦ elim (find_app name current) [
      | none ↦ add_reloaded name task.app task.consul_service_port f
      | some running ↦ elim (application_eq same_owner running task.app) [
        | true ↦ some f
        | false ↦ add_reloaded name running task.consul_service_port f
      ]
    ]
  ]

  unfoldable pub sync_apps :
      List (Entry P) → Dict (CloudTask P) → List String → Follower P → Option (Follower P)
  unfolding sync_app
  sync_apps current tasks [] f = some f
  sync_apps current tasks (name ∷ rest) f =
      sync_app current tasks name f >>= sync_apps current tasks rest

  -- ConsulConnection::syncTopology, of the topology that was read for this host.
  unfoldable pub sync_topology :
      Option (Dict ℕ) → Dict (CloudTask P) → Follower P → Option (Follower P)
  unfolding sync_apps drop_cloud
  sync_topology none tasks f = some (drop_cloud os schedule_timer [] f.registry.apps f)
  sync_topology (some schedule_apps) tasks f =
      sync_apps f.registry.apps tasks (keys schedule_apps) f >>= λ f'.
      some (drop_cloud os schedule_timer schedule_apps f.registry.apps f')
