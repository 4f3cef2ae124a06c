-- ===== src/Transport/Answered.antt =====
-- A request on its way through both processes, without a fault of the socket.
use app_mesh.Prelude.{
  true, false, Option, some, List, [], ◌∷◌, ◌++◌, String, ◌≡◌, refl, sym, ap, ◌∙◌, subst, arith,
  inl, inr, Bool-cases, eq_iff,
}
use app_mesh.Dict.{get, has, put}
use app_mesh.Dict.Laws.{get-put}
use app_mesh.Transport.{HttpRequest, Cdr, IsCdr, serialize, serialize_response}
use app_mesh.Transport.Wire.{received, received_response, deserialize-serialize}
use app_mesh.Transport.Process.{
  Reply, forwarded, Child, to_http, reply, reply_to, reply_response, send_request2server,
  receive_request, forward_rest_request, backforward_response, serve,
}
use app_mesh.Transport.Link.{
  System, Among, arrive, receive, take, respond, deliver, Reaches, GoesOn, stays, goes,
  GoesOn-Reaches,
}
use app_mesh.Transport.Arrivals.{waiting-old}
use app_mesh.Transport.Linked.{delivered, Reaches-IsLinked}

module _ {O I : Type 0} (cdr : Cdr O I) (json_body : String → Option String)
    (Answers : HttpRequest → Reply → Type 0) (law : IsCdr cdr) where
  sent_alone :
      (m : HttpRequest) (c : Child)
      → forward_rest_request true m ≡ true
      → (receive_request cdr true m c).1 ≡ cdr.sent (serialize cdr m) ∷ []
  unfolding receive_request send_request2server
  sent_alone m c f = rw (f) refl

  served :
      (m : HttpRequest) (taken : List HttpRequest)
      → serve cdr (cdr.sent (serialize cdr m)) taken ≡ received m ∷ taken
  unfolding serve
  served m taken = rw (serve, deserialize-serialize cdr law m) refl

  -- The reply to the request that was sent last.
  replied_last :
      (m : HttpRequest) (r : Reply) (c : Child)
      → forward_rest_request true m ≡ true
      → has m.uuid c.sent_messages ≡ false
      → m.forward_response2rest_server ≡ false
      → (reply_response json_body cdr
          (cdr.sent (serialize_response cdr (forwarded m r)))
          (receive_request cdr true m c).0).replies
        ≡ (m, to_http json_body (received_response (forwarded m r))) ∷ c.replies
  unfolding receive_request send_request2server reply_to reply
  replied_last m r c f fresh own =
      let waits : get m.uuid (put m.uuid m c.sent_messages) ≡ some m =
        ground (arith, get-put m.uuid m.uuid m c.sent_messages, eq_iff m.uuid m.uuid) in
      let done : (reply m (to_http json_body (received_response (forwarded m r)))
            (record c { sent_messages = put m.uuid m c.sent_messages })).replies
          ≡ (m, to_http json_body (received_response (forwarded m r))) ∷ c.replies =
        ground arith in
      rw (f, fresh, delivered cdr json_body Answers law m r _ _ refl, reply_to, waits) done

  answered :
      (s : System I) (m : HttpRequest) (r : Reply)
      → Reaches cdr json_body Answers s
      → s.to_server ≡ []
      → s.queue ≡ []
      → s.to_child ≡ []
      → has m.uuid s.requests ≡ false
      → m.forward_response2rest_server ≡ false
      → forward_rest_request true m ≡ true
      → Answers (received m) r
      → (t : System I) × GoesOn cdr json_body Answers s t
        × (t.child.replies
            ≡ (m, to_http json_body (received_response (forwarded m r))) ∷ s.child.replies)
  unfolding backforward_response
  answered s m r reached no_sent no_queue no_answer fresh own f a =
      let i = cdr.sent (serialize cdr m) in
      let o = cdr.sent (serialize_response cdr (forwarded m r)) in
      let waits =
        elim (Bool-cases (has m.uuid s.child.sent_messages))
          as (λ x. has m.uuid s.child.sent_messages ≡ false) [
            | inl x ↦ absurd (
                waiting-old cdr json_body Answers s m fresh
                  (Reaches-IsLinked cdr json_body Answers law reached) x)
            | inr x ↦ x
          ] in
      let s1 : System I = record s {
        child = (receive_request cdr true m s.child).0;
        to_server = s.to_server ++ (receive_request cdr true m s.child).1;
        requests = put m.uuid m s.requests;
      } in
      let s2 : System I = record s1 { to_server = []; queue = s.queue ++ i ∷ [] } in
      let s3 : System I = record s2 { queue = []; taken = serve cdr i s.taken } in
      let s4 : System I = record s3 {
        to_child = s.to_child ++ backforward_response cdr true (forwarded (received m) r);
      } in
      let among : Among (received m) (serve cdr i s.taken) =
        subst (Among (received m)) (sym (served m s.taken)) (inl refl) in
      (
        record s4 { to_child = []; child = reply_response json_body cdr o s4.child },
        goes
            (goes
              (goes
                (goes (goes stays (arrive s m true fresh own)) (
                  receive s1 i [] (
                    ap (λ x. x ++ (receive_request cdr true m s.child).1) no_sent
                    ∙ sent_alone m s.child f)))
                (take s2 i [] (ap (λ x. x ++ i ∷ []) no_queue)))
              (respond s3 (received m) r true among a))
            (deliver s4 o [] (ap (λ x. x ++ o ∷ []) no_answer)),
        replied_last m r s.child f waits own,
      )

  -- A request with a new id that arrives while no message is on its way, that is to be forwarded to
  -- the daemon (all but those under /appmesh/file), and that a handler has an answer to: from there,
  -- the two processes can go on so that the client is given this answer, as the request and the
  -- response are received.
  pub Reaches-answered :
      (s : System I) (m : HttpRequest) (r : Reply)
      → Reaches cdr json_body Answers s
      → s.to_server ≡ []
      → s.queue ≡ []
      → s.to_child ≡ []
      → has m.uuid s.requests ≡ false
      → m.forward_response2rest_server ≡ false
      → forward_rest_request true m ≡ true
      → Answers (received m) r
      → (t : System I) × Reaches cdr json_body Answers t
        × GoesOn cdr json_body Answers s t
        × (t.child.replies
            ≡ (m, to_http json_body (received_response (forwarded m r))) ∷ s.child.replies)
  unfolding backforward_response
  Reaches-answered s m r reached no_sent no_queue no_answer fresh own f a =
      let (t, on, replies) = answered s m r reached no_sent no_queue no_answer fresh own f a in
      (t, GoesOn-Reaches cdr json_body Answers on reached, on, replies)
