-- ===== src/Consul/Alive.antt =====
-- What a host knows of its session and its leadership: refreshSession and syncSchedule of
-- src/daemon/consul/ConsulConnection.cpp.
use app_mesh.Prelude.{
  ℕ, Bool, true, false, not, ◌&&◌, ◌||◌, Option, none, some, String, str_eq, ◌≡◌, ◌⊎◌, refl, sym,
  arith, inl, inr, subst, Bool-cases,
}
use app_mesh.Consul.Session.{
  Answer, id_object, id_array, no_id, Call, create_session, renew_session, get_node, put_node,
  Response, ConsulConfig, Connection, created_id, renewed_id, unreadable, request_session_id,
  renew_session_id, report_node, next_session_id, set_session, refresh_session, ensure_session,
  elect, sync_schedule,
}
use app_mesh.Consul.Elected.{
  created_id-answered, Leads, elect-Elected, ensure_session-HasSession, led-Leads,
}

-- The id after a renewal is the one before, or the one in the answer.
renewed_id-answered :
    (session : String) (ok : Bool) (json : Option Answer) (same : Bool) {id : String}
    → renewed_id session (record { ok = ok; json = json; is_same_node = same }) ≡ some id
    → (session ≡ id) ⊎ (json ≡ some (id_array id))
unfolding renewed_id
renewed_id-answered session ok none same h = absurd (ground arith)
renewed_id-answered session ok (some (id_object i)) same h = inl (ground arith)
renewed_id-answered session ok (some (id_array i)) same h = inr (ground arith)
renewed_id-answered session ok (some no_id) same h = inl (ground arith)

module _ {W : Type 0} (request : Call → W → Response × W) where
  -- The documented behaviour of Consul's sessions: a session is alive after it was created, where the
  -- answer is OK and an object with its id, and after it was renewed, where the answer is OK, as is the
  -- session that this answer lists; reading and writing the keys of nodes ends none.
  pub record IsConsul (Alive : W → String → Type 0) : Type 0 where
    pub creates :
        (ttl : ℕ) (id : String) (w : W)
        → (request (create_session ttl) w).0.ok ≡ true
        → (request (create_session ttl) w).0.json ≡ some (id_object id)
        → str_eq id "" ≡ false
        → Alive (request (create_session ttl) w).1 id
    pub renews :
        (session : String) (w : W)
        → (request (renew_session session) w).0.ok ≡ true
        → str_eq session "" ≡ false
        → Alive (request (renew_session session) w).1 session
    pub renewed :
        (session id : String) (w : W)
        → (request (renew_session session) w).0.ok ≡ true
        → (request (renew_session session) w).0.json ≡ some (id_array id)
        → str_eq id "" ≡ false
        → Alive (request (renew_session session) w).1 id
    pub reads : (id : String) (w : W) → Alive w id → Alive (request get_node w).1 id
    pub writes :
        (session id : String) (leader : Bool) (w : W)
        → Alive w id
        → Alive (request (put_node session leader) w).1 id

module _ {W : Type 0} (request : Call → W → Response × W) (config : ConsulConfig) where
  module _ {Alive : W → String → Type 0} (consul : IsConsul request Alive) where
    report_node-Alive :
        (c : Connection) (id : String) (w : W)
        → Alive w id
        → Alive (report_node request config c w) id
    unfolding report_node unreadable
    report_node-Alive c id w a =
        elim (Bool-cases
          (str_eq c.session_id "" || not config.consul_enabled || not config.is_worker)) [
            | inl x ↦ rw (x) a
            | inr x ↦
                elim (Bool-cases (
                  (request get_node w).0.ok && unreadable (request get_node w).0
                  || (request get_node w).0.is_same_node)) [
                    | inl y ↦ rw (x, y) (consul.reads id w a)
                    | inr y ↦
                        rw (x, y) (consul.writes c.session_id id c.leader _ (consul.reads id w a))
                  ]
          ]

    created_id-Alive :
        (w : W) {id : String}
        → created_id (request (create_session config.ttl) w).0 ≡ some id
        → str_eq id "" ≡ false
        → Alive (request (create_session config.ttl) w).1 id
    created_id-Alive w {id} h e =
        let resp = (request (create_session config.ttl) w).0 in
        let (ok, json) = created_id-answered resp.ok resp.json resp.is_same_node h e in
        consul.creates config.ttl id w ok json e

    renewed_id-Alive :
        (session : String) (w : W) {id : String}
        → (request (renew_session session) w).0.ok ≡ true
        → renewed_id session (request (renew_session session) w).0 ≡ some id
        → str_eq id "" ≡ false
        → Alive (request (renew_session session) w).1 id
    renewed_id-Alive session w {id} ok h e =
        let resp = (request (renew_session session) w).0 in
        elim (renewed_id-answered session resp.ok resp.json resp.is_same_node h) [
          | inl same ↦
              let own : str_eq session "" ≡ false = ground arith in
              subst (Alive (request (renew_session session) w).1) same
                (consul.renews session w ok own)
          | inr json ↦ consul.renewed session id w ok json e
        ]

    -- A new session id, if it is one, is alive.
    next_session_id-Alive :
        (c : Connection) (w : W) {id : String}
        → (next_session_id request config c w).0 ≡ some id
        → str_eq id "" ≡ false
        → Alive (next_session_id request config c w).1 id
    unfolding next_session_id request_session_id renew_session_id
    next_session_id-Alive c w {id} h e = elim (Bool-cases (str_eq c.session_id "")) [
      | inl x ↦ rw (x) (created_id-Alive w {id = id} (rw (x) at h) e)
      | inr x ↦ elim (Bool-cases (request (renew_session c.session_id) w).0.ok) [
        | inl y ↦ rw (x, y) (renewed_id-Alive c.session_id w {id = id} y (rw (x, y) at h) e)
        | inr y ↦ rw (x, y) (created_id-Alive _ {id = id} (rw (x, y) at h) e)
      ]
    ]

    set_session-Alive :
        (c : Connection) (r : Option String × W)
        → ((id : String) → r.0 ≡ some id → str_eq id "" ≡ false → Alive r.1 id)
        → (str_eq (set_session request config c r).0.session_id "" ≡ true)
          ⊎ Alive (set_session request config c r).1 (set_session request config c r).0.session_id
    unfolding set_session
    set_session-Alive c (none, w) h = inl refl
    set_session-Alive c (some id, w) h = elim (Bool-cases (str_eq id "")) [
      | inl x ↦ inl x
      | inr x ↦ inr (report_node-Alive (record c { session_id = id }) id w (h id refl x))
    ]

    -- Where Consul behaves as documented and is enabled: after a refresh of the session the host has
    -- no session, or one that is alive.
    pub refresh_session-Alive :
        (c : Connection) (w : W)
        → config.consul_enabled ≡ true
        → (str_eq (refresh_session request config c w).0.session_id "" ≡ true)
          ⊎ Alive
              (refresh_session request config c w).1
              (refresh_session request config c w).0.session_id
    unfolding refresh_session
    refresh_session-Alive c w e =
        let refreshed : set_session request config c (next_session_id request config c w)
            ≡ refresh_session request config c w =
          ground arith in
        subst (λ r. (str_eq r.0.session_id "" ≡ true) ⊎ Alive r.1 r.0.session_id) refreshed
          (set_session-Alive c (next_session_id request config c w)
            (λ id h x. next_session_id-Alive c w {id = id} h x))

  -- The schedule is computed only where Consul is enabled and by a master, at the end of a run in which
  -- it asked for the leadership with a session, which it had before or which Consul gave it with OK in
  -- this run, and was answered with OK.
  pub sync_schedule-Leads :
      (c : Connection) (w : W)
      → (sync_schedule request config c w).0 ≡ true
      → (config.consul_enabled ≡ true)
        × (config.is_master ≡ true)
        × Leads request config c w
            (sync_schedule request config c w).1.0
            (sync_schedule request config c w).1.1
  unfolding sync_schedule
  sync_schedule-Leads c w h = elim (Bool-cases config.consul_enabled) [
    | inr x ↦ absurd (ground arith)
    | inl x ↦
        let same : elect request config c (ensure_session request config c w)
            ≡ sync_schedule request config c w =
          ground arith in
        let (master, c', e, led) =
          elect-Elected request config c (ensure_session request config c w)
            (subst (λ e. e.0 ≡ true) (sym same) h) in
        let (state, session) = ensure_session-HasSession request config c w {c' = c'} e led.0 in
        (
          x,
          master,
          subst (λ e. Leads request config c w e.1.0 e.1.1) same
              (led-Leads request config c w c'
                (elect request config c (ensure_session request config c w)).1 state session led),
        )
  ]
