-- ===== src/Transport/Arrivals.antt =====
-- A request that arrives keeps the two processes as they should be.
use app_mesh.Prelude.{
  Bool, true, false, Option, some, List, [], ◌∷◌, ◌++◌, String, str_eq, ◌≡◌, inl, inr, refl, sym,
  subst, arith, eq_iff, All, All-append, Bool-cases, Option-cases,
}
use app_mesh.Dict.{Dict, get, has, put, Distinct}
use app_mesh.Dict.Laws.{get-put, has-put, has-get, has-none}
use app_mesh.Transport.{HttpRequest, HttpResponse, Cdr, serialize}
use app_mesh.Transport.Link.{System, Known, IsSent, IsReply, replied, IsLinked}
use app_mesh.Transport.Process.{
  Reply, Child, send_request2server, receive_request, forward_rest_request,
}

All-map :
    {A : Type 0} (P Q : A → Type 0) (xs : List A) → ((a : A) → P a → Q a) → All P xs → All Q xs
All-map P Q [] f h = tt
All-map P Q (x ∷ xs) f h = (f x h.0, All-map P Q xs f h.1)

Known-put :
    (requests : Dict HttpRequest) (m n : HttpRequest)
    → has m.uuid requests ≡ false
    → Known requests n
    → Known (put m.uuid m requests) n
Known-put requests m n fresh k =
    ground
      (arith, get-put m.uuid n.uuid m requests, has-get n.uuid requests n, eq_iff m.uuid n.uuid)

Known-new : (requests : Dict HttpRequest) (m : HttpRequest) → Known (put m.uuid m requests) m
Known-new requests m = ground (arith, get-put m.uuid m.uuid m requests, eq_iff m.uuid m.uuid)

module _ {O I : Type 0} (cdr : Cdr O I) (json_body : String → Option String)
    (Answers : HttpRequest → Reply → Type 0) where
  -- None of the requests that were replied to has a new id.
  replied-fresh :
      (requests sent : Dict HttpRequest) (m : HttpRequest)
      (replies : List (HttpRequest × HttpResponse))
      → has m.uuid requests ≡ false
      → All (IsReply cdr json_body Answers requests) replies
      → All (λ u. has u sent ≡ false) (replied replies)
      → All (λ u. has u (put m.uuid m sent) ≡ false) (replied replies)
  replied-fresh requests sent m [] fresh h d = tt
  replied-fresh requests sent m ((n, resp) ∷ rest) fresh ((r, e, k, a), h) d = (
    ground (
      arith,
      has-put m.uuid n.uuid m sent,
      has-get n.uuid requests n k,
      eq_iff m.uuid n.uuid,
      d.0,
    ),
    replied-fresh requests sent m rest fresh h d.1,
  )

  -- A request with a new id, whatever becomes of the child process and of the socket.
  known-IsLinked :
      (s : System I) (m : HttpRequest) (child : Child) (messages : List I)
      → has m.uuid s.requests ≡ false
      → IsLinked cdr json_body Answers s
      → child.replies ≡ s.child.replies
      → ((u : String) (n : HttpRequest)
          → get u child.sent_messages ≡ some n
          → (n.uuid ≡ u) × Known (put m.uuid m s.requests) n)
      → All (λ u. has u child.sent_messages ≡ false) (replied s.child.replies)
      → All (IsSent cdr (put m.uuid m s.requests)) messages
      → IsLinked cdr json_body Answers (record s {
        child = child;
        to_server = s.to_server ++ messages;
        requests = put m.uuid m s.requests;
      })
  known-IsLinked s m child messages fresh v same p d k =
      let older = λ (n : HttpRequest) (h : Known s.requests n). Known-put s.requests m n fresh h in
      let sent : All (IsSent cdr (put m.uuid m s.requests)) s.to_server =
        All-map _ _ s.to_server (λ i (n, e, h). (n, e, older n h)) v.sent_known in
      record {
        pending = p;
        sent_known = All-append _ s.to_server messages sent k;
        queue_known = All-map _ _ s.queue (λ i (n, e, h). (n, e, older n h)) v.queue_known;
        taken_known = All-map _ _ s.taken (λ i (n, e, h). (n, e, older n h)) v.taken_known;
        answers = All-map _ _ s.to_child (λ i (n, r, e, h, a). (n, r, e, older n h, a)) v.answers;
        replies = subst (All (IsReply cdr json_body Answers (put m.uuid m s.requests))) (sym same) (
            All-map _ _ s.child.replies (λ (n, resp) (r, e, h, a). (r, e, older n h, a)) v.replies);
        once = subst (λ x. Distinct (replied x)) (sym same) v.once;
        done = subst (λ x. All (λ u. has u child.sent_messages ≡ false) (replied x)) (sym same) d;
      }

  -- A new id is not one that waits.
  pub waiting-old :
      (s : System I) (m : HttpRequest)
      → has m.uuid s.requests ≡ false
      → IsLinked cdr json_body Answers s
      → has m.uuid s.child.sent_messages ≡ true
      → ⊥
  waiting-old s m fresh v x = elim (Option-cases (get m.uuid s.child.sent_messages)) [
    | inl e ↦ ground (arith, has-none m.uuid s.child.sent_messages e)
    | inr (n, e) ↦
        let (same, k) = v.pending m.uuid n e in ground (arith, has-get n.uuid s.requests n k)
  ]

  waiting-new :
      (s : System I) (m : HttpRequest)
      → has m.uuid s.requests ≡ false
      → IsLinked cdr json_body Answers s
      → (u : String) (n : HttpRequest) → get u (put m.uuid m s.child.sent_messages) ≡ some n
      → (n.uuid ≡ u) × Known (put m.uuid m s.requests) n
  waiting-new s m fresh v u n h = elim (Bool-cases (str_eq m.uuid u)) [
    | inl e ↦
        let same : m ≡ n = ground (arith, get-put m.uuid u m s.child.sent_messages) in
        subst (λ x. (x.uuid ≡ u) × Known (put m.uuid m s.requests) x) same
          ((eq_iff m.uuid u).0 e, Known-new s.requests m)
    | inr e ↦
        let old : get u s.child.sent_messages ≡ some n =
          ground (arith, get-put m.uuid u m s.child.sent_messages) in
        let (same, k) = v.pending u n old in (same, Known-put s.requests m n fresh k)
  ]

  sent-IsLinked :
      (s : System I) (m : HttpRequest) (ok : Bool)
      → has m.uuid s.requests ≡ false
      → IsLinked cdr json_body Answers s
      → IsLinked cdr json_body Answers (record s {
        child = (send_request2server cdr ok m s.child).0;
        to_server = s.to_server ++ (send_request2server cdr ok m s.child).1;
        requests = put m.uuid m s.requests;
      })
  unfolding send_request2server
  sent-IsLinked s m false fresh v =
      known-IsLinked s m s.child [] fresh v refl
        (λ u n h. ((v.pending u n h).0, Known-put s.requests m n fresh (v.pending u n h).1)) v.done
        tt
  sent-IsLinked s m true fresh v = elim (Bool-cases (has m.uuid s.child.sent_messages)) [
    | inl x ↦ absurd (waiting-old s m fresh v x)
    | inr x ↦ rw (x) (
        known-IsLinked s m (record (s.child) { sent_messages = put m.uuid m s.child.sent_messages })
          (cdr.sent (serialize cdr m) ∷ []) fresh v refl (waiting-new s m fresh v)
          (replied-fresh s.requests s.child.sent_messages m s.child.replies fresh v.replies v.done)
          ((m, refl, Known-new s.requests m), tt))
  ]

  pub arrive-IsLinked :
      (s : System I) (m : HttpRequest) (ok : Bool)
      → has m.uuid s.requests ≡ false
      → IsLinked cdr json_body Answers s
      → IsLinked cdr json_body Answers (record s {
        child = (receive_request cdr ok m s.child).0;
        to_server = s.to_server ++ (receive_request cdr ok m s.child).1;
        requests = put m.uuid m s.requests;
      })
  unfolding receive_request
  arrive-IsLinked s m ok fresh v = elim (Bool-cases (forward_rest_request true m)) [
    | inl f ↦ rw (f) (sent-IsLinked s m ok fresh v)
    | inr f ↦ rw (f) (
        known-IsLinked s m s.child [] fresh v refl
          (λ u n h. ((v.pending u n h).0, Known-put s.requests m n fresh (v.pending u n h).1))
          v.done tt)
  ]
