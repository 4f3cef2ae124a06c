-- ===== src/Consul/Elected.antt =====
-- The election of the leader: what a run of syncSchedule of src/daemon/consul/ConsulConnection.cpp asked
-- Consul, and what Consul answered.
use mathlib.Core.Bool.{false≢true}
use app_mesh.Prelude.{
  Bool, true, false, Option, none, some, String, str_eq, eq_iff, ◌≡◌, ◌⊎◌, refl, sym, arith, inl,
  inr, subst, Bool-cases, Option-cases, if◌then◌else◌,
}
use app_mesh.Consul.Session.{
  Answer, id_object, id_array, no_id, Call, create_session, acquire_leader, Response, ConsulConfig,
  Connection, created_id, request_session_id, election_leader, ensure_session, elect,
}

not_empty : {id : String} → some "" ≡ some id → str_eq id "" ≡ false → ⊥
not_empty {id} h e = ground (arith, eq_iff id "")

-- A session id that is not empty was read from an answer to a creation that is OK and has the id.
pub created_id-answered :
    (ok : Bool) (json : Option Answer) (same : Bool) {id : String}
    → created_id (record { ok = ok; json = json; is_same_node = same }) ≡ some id
    → str_eq id "" ≡ false
    → (ok ≡ true) × (json ≡ some (id_object id))
unfolding created_id
created_id-answered false json same h e = absurd (not_empty h e)
created_id-answered true none same h e = absurd (ground arith)
created_id-answered true (some (id_object i)) same h e = (refl, ground arith)
created_id-answered true (some (id_array i)) same h e = absurd (not_empty h e)
created_id-answered true (some no_id) same h e = absurd (not_empty h e)

module _ {W : Type 0} (request : Call → W → Response × W) (config : ConsulConfig) where
  -- The state of Consul in which the leadership is asked for.
  abbrev pub asked : Connection → W → W
  asked c w = if str_eq c.session_id "" then (request (create_session config.ttl) w).1 else w

  -- Where the session id of a host is from: it had it before, or Consul answered with OK and this id
  -- when a session was requested.
  abbrev pub HasSession : Connection → W → String → Type 0
  HasSession c w id =
      ((str_eq c.session_id "" ≡ false) × (c.session_id ≡ id))
      ⊎ ((str_eq c.session_id "" ≡ true)
          × ((request (create_session config.ttl) w).0.ok ≡ true)
          × ((request (create_session config.ttl) w).0.json ≡ some (id_object id)))

  -- The host leads after a run that left Consul in the second state: it has a session, and the last
  -- request of the run, to acquire the leadership for that session, was answered with OK.
  abbrev pub Leads : Connection → W → Connection → W → Type 0
  Leads c w c' w' =
      (str_eq c'.session_id "" ≡ false)
      × (c'.leader ≡ true)
      × HasSession c w c'.session_id
      × (resp : Response) × (request (acquire_leader c'.session_id) (asked c w) ≡ (resp, w'))
      × (resp.ok ≡ true)

  abbrev pub Elected : Connection → W → Connection × W → Type 0
  Elected c w (c', w') =
      (str_eq c.session_id "" ≡ false)
      × (c.session_id ≡ c'.session_id)
      × (c'.leader ≡ true)
      × (resp : Response) × (request (acquire_leader c.session_id) w ≡ (resp, w'))
      × (resp.ok ≡ true)

  election_leader-Elected :
      (c : Connection) (w : W)
      → (election_leader request config c w).0 ≡ true
      → Elected c w (election_leader request config c w).1
  unfolding election_leader
  election_leader-Elected c w h = elim (Bool-cases (str_eq c.session_id "")) [
    | inl x ↦ absurd (false≢true (rw (x) at h))
    | inr x ↦
        let resp = (request (acquire_leader c.session_id) w).0 in
        let ok : resp.ok ≡ true = rw (x) at h in
        let same : election_leader request config c w ≡ (
          resp.ok,
          (record c { leader = resp.ok }, (request (acquire_leader c.session_id) w).1),
        ) =
          rw (election_leader, x) refl in
        subst (λ e. Elected c w e.1) (sym same) (x, refl, ok, resp, refl, ok)
  ]

  pub elect-Elected :
      (c : Connection) (r : Option Connection × W)
      → (elect request config c r).0 ≡ true
      → (config.is_master ≡ true)
        × (c' : Connection) × (r.0 ≡ some c')
        × Elected c' r.1 (elect request config c r).1
  unfolding elect
  elect-Elected c (none, w) h = absurd (false≢true h)
  elect-Elected c (some c', w) h = elim (Bool-cases config.is_master) [
    | inl x ↦
        let same : election_leader request config c' w ≡ elect request config c (some c', w) =
          ground arith in
        (
          x,
          c',
          refl,
          subst (λ e. Elected c' w e.1) same
              (election_leader-Elected c' w (subst (λ e. e.0 ≡ true) (sym same) h)),
        )
    | inr x ↦ absurd (ground arith)
  ]

  pub ensure_session-HasSession :
      (c : Connection) (w : W) {c' : Connection}
      → (ensure_session request config c w).0 ≡ some c'
      → str_eq c'.session_id "" ≡ false
      → ((ensure_session request config c w).1 ≡ asked c w) × HasSession c w c'.session_id
  unfolding ensure_session request_session_id
  ensure_session-HasSession c w {c'} h e =
      let resp = (request (create_session config.ttl) w).0 in
      elim (Bool-cases (str_eq c.session_id "")) [
        | inr x ↦ (ground arith, inl (x, ground arith))
        | inl x ↦ elim (Option-cases (created_id resp)) [
          | inl n ↦ absurd (ground arith)
          | inr (id, n) ↦
              let same : id ≡ c'.session_id = ground arith in
              let (ok, json) =
                created_id-answered resp.ok resp.json resp.is_same_node
                  (subst (λ i. created_id resp ≡ some i) same n) e in
              (ground arith, inr (x, ok, json))
        ]
      ]

  pub led-Leads :
      (c : Connection) (w : W) (c' : Connection) {after : W} (e : Connection × W)
      → after ≡ asked c w
      → HasSession c w c'.session_id
      → Elected c' after e
      → Leads c w e.0 e.1
  led-Leads c w c' e same session (own, id, leads, resp, answer, ok) = (
    subst (λ x. str_eq x "" ≡ false) id own,
    leads,
    subst (HasSession c w) id session,
    resp,
    subst (λ x. request (acquire_leader x) (asked c w) ≡ (resp, e.1)) id
        (subst (λ x. request (acquire_leader c'.session_id) x ≡ (resp, e.1)) same answer),
    ok,
  )
