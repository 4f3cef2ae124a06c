-- ===== src/Transport/Linked.antt =====
-- Every reply that a client gets is an answer to its own request, and it gets one at most: an invariant
-- of the two processes.
use app_mesh.Prelude.{
  Bool, true, false, Option, some, List, [], ◌∷◌, String, ◌≡◌, ◌⊎◌, inl, inr, refl, sym, subst,
  arith, eq_iff, All, All-append, Bool-cases, Option-cases,
}
use app_mesh.Dict.{Dict, get, has, erase, member, Distinct}
use app_mesh.Dict.Laws.{get-erase, has-erase, has-get}
use app_mesh.Transport.{HttpRequest, HttpResponse, Cdr, IsCdr, serialize_response}
use app_mesh.Transport.Wire.{
  received, received_response, deserialize-serialize, deserialize_response-serialize_response,
}
use app_mesh.Transport.Link.{
  System, start, Among, Step, arrive, receive, take, respond, deliver, Reaches, started, stepped,
  Known, IsSent, IsTaken, IsAnswer, IsReply, replied, IsLinked,
}
use app_mesh.Transport.Process.{
  Reply, forwarded, Child, to_http, reply, reply_to, reply_response, backforward_response, serve,
}
use app_mesh.Transport.Arrivals.{arrive-IsLinked}

All-Among : {A : Type 0} (P : A → Type 0) (a : A) (xs : List A) → All P xs → Among a xs → P a
All-Among P a [] h m = elim m [ ]
All-Among P a (x ∷ xs) h (inl e) = subst P e h.0
All-Among P a (x ∷ xs) h (inr m) = All-Among P a xs h.1 m

waiting-replied :
    (u : String) (sent : Dict HttpRequest) (us : List String)
    → has u sent ≡ true
    → All (λ j. has j sent ≡ false) us
    → member u us ≡ false
unfolding member
waiting-replied u sent [] h d = refl
waiting-replied u sent (j ∷ us) h d =
    ground (arith, eq_iff j u, d.0, waiting-replied u sent us h d.1)

erased :
    (u : String) (sent : Dict HttpRequest) (us : List String)
    → All (λ j. has j sent ≡ false) us
    → All (λ j. has j (erase u sent) ≡ false) us
erased u sent [] d = tt
erased u sent (j ∷ us) d = (ground (arith, has-erase u j sent, d.0), erased u sent us d.1)

reply-cases :
    (m : HttpRequest) (resp : HttpResponse) (c : Child)
    → (reply m resp c ≡ c) ⊎ (reply m resp c ≡ record c { replies = (m, resp) ∷ c.replies })
unfolding reply
reply-cases m resp c = elim (Bool-cases m.forward_response2rest_server) [
  | inl f ↦ inl (ground arith)
  | inr f ↦ inr (ground arith)
]

module _ {O I : Type 0} (cdr : Cdr O I) (json_body : String → Option String)
    (Answers : HttpRequest → Reply → Type 0) where
  start-IsLinked : IsLinked cdr json_body Answers start
  unfolding get
  start-IsLinked = record {
    pending = λ u m h. absurd (ground arith);
    sent_known = tt;
    queue_known = tt;
    taken_known = tt;
    answers = tt;
    replies = tt;
    once = tt;
    done = tt;
  }

  module _ (law : IsCdr cdr) where
    serve-IsTaken :
        (requests : Dict HttpRequest) (i : I) (taken : List HttpRequest)
        → IsSent cdr requests i
        → All (IsTaken requests) taken
        → All (IsTaken requests) (serve cdr i taken)
    unfolding serve
    serve-IsTaken requests i taken (m, e, k) h =
        rw (e, serve, deserialize-serialize cdr law m) ((m, refl, k), h)

    Answers-new :
        (requests : Dict HttpRequest) (m : HttpRequest) (r : Reply) (connected : Bool)
        → Known requests m
        → Answers (received m) r
        → All
            (IsAnswer cdr json_body Answers requests)
            (backforward_response cdr connected (forwarded m r))
    unfolding backforward_response
    Answers-new requests m r true k a = ((m, r, refl, k, a), tt)
    Answers-new requests m r false k a = tt

    abbrev Afterwards : System I → HttpRequest → Child → Type 0
    Afterwards s m c =
        IsLinked cdr json_body Answers
          (record s { child = record c { sent_messages = erase m.uuid s.child.sent_messages } })

    -- A request that waits is answered, or taken off where it cannot be.
    settled-IsLinked :
        (s : System I) (m : HttpRequest) (r : Reply)
        → Known s.requests m
        → Answers (received m) r
        → get m.uuid s.child.sent_messages ≡ some m
        → IsLinked cdr json_body Answers s
        → IsLinked cdr json_body Answers (record s {
          child = record (reply m (to_http json_body (received_response (forwarded m r))) s.child) {
            sent_messages = erase m.uuid s.child.sent_messages;
          };
        })
    settled-IsLinked s m r k a e v =
        let waits = has-get m.uuid s.child.sent_messages m e in
        let pending =
          λ (u : String) (n : HttpRequest)
              (h : get u (erase m.uuid s.child.sent_messages) ≡ some n).
            v.pending u n (ground (arith, get-erase m.uuid u s.child.sent_messages)) in
        let old = erased m.uuid s.child.sent_messages (replied s.child.replies) v.done in
        elim (reply-cases m (to_http json_body (received_response (forwarded m r))) s.child) [
          | inl f ↦ subst (Afterwards s m) (sym f) (record {
            pending = pending;
            sent_known = v.sent_known;
            queue_known = v.queue_known;
            taken_known = v.taken_known;
            answers = v.answers;
            replies = v.replies;
            once = v.once;
            done = old;
          })
          | inr f ↦ subst (Afterwards s m) (sym f) (record {
            pending = pending;
            sent_known = v.sent_known;
            queue_known = v.queue_known;
            taken_known = v.taken_known;
            answers = v.answers;
            replies = ((r, refl, k, a), v.replies);
            once = (
              waiting-replied m.uuid s.child.sent_messages (replied s.child.replies) waits v.done,
              v.once,
            );
            done = (
              ground (arith, has-erase m.uuid m.uuid s.child.sent_messages, eq_iff m.uuid m.uuid),
              old,
            );
          })
        ]

    pub delivered :
        (m : HttpRequest) (r : Reply) (i : I) (c : Child)
        → i ≡ cdr.sent (serialize_response cdr (forwarded m r))
        → reply_response json_body cdr i c
          ≡ reply_to json_body (received_response (forwarded m r)) c
    unfolding reply_response
    delivered m r i c e =
        rw (reply_response, e, deserialize_response-serialize_response cdr law (forwarded m r)) refl

    -- The response to a request that arrived, at the child process.
    reply_to-IsLinked :
        (s : System I) (m : HttpRequest) (r : Reply)
        → Known s.requests m
        → Answers (received m) r
        → IsLinked cdr json_body Answers s
        → IsLinked cdr json_body Answers
            (record s { child = reply_to json_body (received_response (forwarded m r)) s.child })
    unfolding reply_to
    reply_to-IsLinked s m r k a v = elim (Option-cases (get m.uuid s.child.sent_messages)) [
      | inl e ↦ rw (reply_to, e) v
      | inr (n, e) ↦
          let (id, known) = v.pending m.uuid n e in
          let same : n ≡ m = ground arith in
          let waits : get m.uuid s.child.sent_messages ≡ some m = ground arith in
          rw (reply_to, waits) (settled-IsLinked s m r k a waits v)
    ]

    Step-IsLinked :
        {s t : System I}
        → Step cdr json_body Answers s t
        → IsLinked cdr json_body Answers s
        → IsLinked cdr json_body Answers t
    Step-IsLinked (arrive s m ok fresh own) v = arrive-IsLinked cdr json_body Answers s m ok fresh v
    Step-IsLinked (receive s i rest e) v =
        let known : All (IsSent cdr s.requests) (i ∷ rest) =
          subst (All (IsSent cdr s.requests)) e v.sent_known in
        record {
          pending = v.pending;
          sent_known = known.1;
          queue_known = All-append _ s.queue (i ∷ []) v.queue_known (known.0, tt);
          taken_known = v.taken_known;
          answers = v.answers;
          replies = v.replies;
          once = v.once;
          done = v.done;
        }
    Step-IsLinked (take s i rest e) v =
        let known : All (IsSent cdr s.requests) (i ∷ rest) =
          subst (All (IsSent cdr s.requests)) e v.queue_known in
        record {
          pending = v.pending;
          sent_known = v.sent_known;
          queue_known = known.1;
          taken_known = serve-IsTaken s.requests i s.taken known.0 v.taken_known;
          answers = v.answers;
          replies = v.replies;
          once = v.once;
          done = v.done;
        }
    Step-IsLinked (respond s m r connected among a) v =
        let (m0, e, k) = All-Among (IsTaken s.requests) m s.taken v.taken_known among in
        let new : All (IsAnswer cdr json_body Answers s.requests)
            (backforward_response cdr connected (forwarded m r)) =
          subst
            (λ x.
              All (IsAnswer cdr json_body Answers s.requests)
                (backforward_response cdr connected (forwarded x r)))
            (sym e) (Answers-new s.requests m0 r connected k (subst (λ x. Answers x r) e a)) in
        record {
          pending = v.pending;
          sent_known = v.sent_known;
          queue_known = v.queue_known;
          taken_known = v.taken_known;
          answers = All-append _ s.to_child _ v.answers new;
          replies = v.replies;
          once = v.once;
          done = v.done;
        }
    Step-IsLinked (deliver s i rest e) v =
        let known : All (IsAnswer cdr json_body Answers s.requests) (i ∷ rest) =
          subst (All (IsAnswer cdr json_body Answers s.requests)) e v.answers in
        let (m, r, sent, k, a) = known.0 in
        let left : IsLinked cdr json_body Answers (record s { to_child = rest }) = record {
          pending = v.pending;
          sent_known = v.sent_known;
          queue_known = v.queue_known;
          taken_known = v.taken_known;
          answers = known.1;
          replies = v.replies;
          once = v.once;
          done = v.done;
        } in
        let read : reply_response json_body cdr i s.child
            ≡ reply_to json_body (received_response (forwarded m r)) s.child =
          delivered m r i s.child sent in
        subst (λ c. IsLinked cdr json_body Answers (record s { to_child = rest; child = c }))
          (sym read) (reply_to-IsLinked (record s { to_child = rest }) m r k a left)

    pub Reaches-IsLinked :
        {s : System I} → Reaches cdr json_body Answers s → IsLinked cdr json_body Answers s
    Reaches-IsLinked started = start-IsLinked
    Reaches-IsLinked (stepped r st) = Step-IsLinked st (Reaches-IsLinked r)

  -- In whatever order the two processes go on, where no two requests have the same id: every reply
  -- that a client was given is the response that a handler gave to its own request, as that request
  -- and that response are received, and no request was replied to twice.
  pub Reaches-replies :
      {s : System I}
      → IsCdr cdr
      → Reaches cdr json_body Answers s
      → All (IsReply cdr json_body Answers s.requests) s.child.replies
        × Distinct (replied s.child.replies)
  Reaches-replies law r = let v = Reaches-IsLinked law r in (v.replies, v.once)
