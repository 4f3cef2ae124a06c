-- ===== src/Consul/SessionExamples.antt =====
-- The theorems on sessions at a Consul that has one session.
use app_mesh.Prelude.{Bool, true, false, some, String, str_eq, eq_iff, ◌&&◌, ◌≡◌, ◌⊎◌, refl, arith}
use app_mesh.Consul.Session.{
  Call, create_session, renew_session, acquire_leader, get_node, put_node, id_object, id_array,
  no_id, Response, ConsulConfig, Connection, created_id, refresh_session, sync_schedule, elect,
  ensure_session, election_leader, request_session_id,
}
use app_mesh.Consul.Elected.{Leads}
use app_mesh.Consul.Alive.{IsConsul, refresh_session-Alive, sync_schedule-Leads}

-- Whether the session "s1" exists.
abbrev request : Call → Bool → Response × Bool
request (create_session ttl) w =
    (record { ok = true; json = some (id_object "s1"); is_same_node = false }, true)
request (renew_session session) w =
    (record { ok = w && str_eq session "s1"; json = some (id_array "s1"); is_same_node = false }, w)
request (acquire_leader session) w = (record { ok = w; json = some no_id; is_same_node = false }, w)
request get_node w = (record { ok = true; json = some no_id; is_same_node = false }, w)
request (put_node session leader) w =
    (record { ok = true; json = some no_id; is_same_node = false }, w)

abbrev Alive : Bool → String → Type 0
Alive w id = ("s1" ≡ id) × (w ≡ true)

abbrev master : ConsulConfig
master = record { consul_enabled = true; is_master = true; is_worker = true; ttl = 30 }

abbrev fresh : Connection
fresh = record { session_id = ""; leader = false }

one_session : IsConsul request Alive
one_session = record {
  creates = λ ttl id w ok h e. (ground arith, refl);
  renews = λ session w ok e. (ground (arith, eq_iff session "s1"), ground arith);
  renewed = λ session id w ok h e. (ground arith, ground arith);
  reads = λ id w a. a;
  writes = λ session id leader w a. a;
}

refresh_session-Alive_example :
    (str_eq (refresh_session request master fresh false).0.session_id "" ≡ true)
    ⊎ Alive
        (refresh_session request master fresh false).1
        (refresh_session request master fresh false).0.session_id
refresh_session-Alive_example = refresh_session-Alive request master one_session fresh false refl

led : (sync_schedule request master fresh false).0 ≡ true
unfolding sync_schedule elect ensure_session election_leader request_session_id created_id
led = refl

sync_schedule-Leads_example :
    (master.consul_enabled ≡ true)
    × (master.is_master ≡ true)
    × Leads request master fresh false
        (sync_schedule request master fresh false).1.0
        (sync_schedule request master fresh false).1.1
sync_schedule-Leads_example = sync_schedule-Leads request master fresh false led
