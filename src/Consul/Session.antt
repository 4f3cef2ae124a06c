-- ===== src/Consul/Session.antt =====
-- The session of a host with Consul and the election of the leader: requestSessionId, renewSessionId,
-- refreshSession, reportNode, electionLeader and syncSchedule of
-- src/daemon/consul/ConsulConnection.cpp. `request` sends a request: it answers, and changes what Consul
-- holds. A request that fails is an answer that is not OK, as requestHttp makes it. A JSON answer that
-- cannot be read is an exception, which the callers catch.
use app_mesh.Prelude.{
  ℕ, Bool, true, false, not, ◌&&◌, ◌||◌, Option, none, some, String, str_eq, if◌then◌else◌,
}

-- The requests, without what the answers do not depend on. A report has the leader flag of the node.
pub data Call : Type 0 where
  create_session : ℕ → Call
  renew_session : String → Call
  acquire_leader : String → Call
  get_node : Call
  put_node : String → Bool → Call

-- What a JSON answer says of sessions: an object with the field ID, or an array whose first element
-- has that field, empty if it is missing.
pub data Answer : Type 0 where
  id_object : String → Answer
  id_array : String → Answer
  no_id : Answer

-- An answer: whether it is OK, its JSON, which is `none` if it cannot be read, and whether it is equal
-- to the node that is to be reported.
pub record Response : Type 0 where
  pub ok : Bool
  pub json : Option Answer
  pub is_same_node : Bool

pub record ConsulConfig : Type 0 where
  pub consul_enabled : Bool
  pub is_master : Bool
  pub is_worker : Bool
  pub ttl : ℕ

pub record Connection : Type 0 where
  pub session_id : String
  pub leader : Bool

-- The session id of a new session; `none` is an exception.
unfoldable pub created_id : Response → Option String
created_id resp =
    if resp.ok
    then (elim resp.json [
      | none ↦ none
      | some answer ↦ elim answer [
        | id_object id ↦ some id
        | id_array id ↦ some ""
        | no_id ↦ some ""
      ]
    ])
    else some ""

-- The session id after a session was renewed.
unfoldable pub renewed_id : String → Response → Option String
renewed_id session resp = elim resp.json [
  | none ↦ none
  | some answer ↦ elim answer [
    | id_object id ↦ some session
    | id_array id ↦ some id
    | no_id ↦ some session
  ]
]

-- Whether reading the JSON is an exception.
unfoldable pub unreadable : Response → Bool
unreadable resp = elim resp.json [ none ↦ true | some answer ↦ false ]

module _ {W : Type 0} (request : Call → W → Response × W) (config : ConsulConfig) where
  -- ConsulConnection::requestSessionId
  unfoldable pub request_session_id : W → Option String × W
  unfolding created_id
  request_session_id w =
      let (resp, w') = request (create_session config.ttl) w in (created_id resp, w')

  -- ConsulConnection::renewSessionId of a session id that is not empty.
  unfoldable pub renew_session_id : String → W → Option String × W
  unfolding renewed_id request_session_id
  renew_session_id session w =
      let (resp, w') = request (renew_session session) w in
      let fresh = request_session_id w' in if resp.ok then (renewed_id session resp, w') else fresh

  -- ConsulConnection::reportNode
  unfoldable pub report_node : Connection → W → W
  unfolding unreadable
  report_node c w =
      if str_eq c.session_id "" || not config.consul_enabled || not config.is_worker
      then w
      else (let (resp, w') = request get_node w in
          let (sent, w'') = request (put_node c.session_id c.leader) w' in
          if (resp.ok && unreadable resp) || resp.is_same_node then w' else w'')

  -- The new session id, or an exception.
  unfoldable pub next_session_id : Connection → W → Option String × W
  unfolding request_session_id renew_session_id
  next_session_id c w =
      let requested = request_session_id w in
      let renewed = renew_session_id c.session_id w in
      if str_eq c.session_id "" then requested else renewed

  -- What refreshSession does with it.
  unfoldable pub set_session : Connection → Option String × W → Connection × W
  unfolding report_node
  set_session c (none, w) = (record c { session_id = "" }, w)
  set_session c (some id, w) = let c' = record c { session_id = id } in (c', report_node c' w)

  -- ConsulConnection::refreshSession
  unfoldable pub refresh_session : Connection → W → Connection × W
  unfolding next_session_id set_session
  refresh_session c w =
      let refreshed = set_session c (next_session_id c w) in
      if not config.consul_enabled then (c, w) else refreshed

  -- ConsulConnection::electionLeader
  unfoldable pub election_leader : Connection → W → Bool × (Connection × W)
  election_leader c w =
      let (resp, w') = request (acquire_leader c.session_id) w in
      if str_eq c.session_id ""
      then (false, (c, w))
      else (resp.ok, (record c { leader = resp.ok }, w'))

  -- The session that syncSchedule requests if there is none; `none` is an exception.
  unfoldable pub ensure_session : Connection → W → Option Connection × W
  unfolding request_session_id
  ensure_session c w =
      let (id, w') = request_session_id w in
      if str_eq c.session_id ""
      then ((elim id [ none ↦ none | some i ↦ some (record c { session_id = i }) ]), w')
      else (some c, w)

  -- What syncSchedule does with it: whether the schedule is computed as the leader.
  unfoldable pub elect : Connection → Option Connection × W → Bool × (Connection × W)
  unfolding election_leader
  elect c (none, w) = (false, (c, w))
  elect c (some c', w) =
      let elected = election_leader c' w in if config.is_master then elected else (false, (c', w))

  -- ConsulConnection::syncSchedule up to the schedule.
  unfoldable pub sync_schedule : Connection → W → Bool × (Connection × W)
  unfolding ensure_session elect
  sync_schedule c w =
      let elected = elect c (ensure_session c w) in
      if not config.consul_enabled then (false, (c, w)) else elected
