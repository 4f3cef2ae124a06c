-- ===== src/Transport/Link.antt =====
-- The two processes as one system: what happens between the arrival of a request at the child process
-- and the reply to its client, in any order. `Answers` is what the handlers reply to a request.
use app_mesh.Prelude.{Bool, false, Option, some, List, [], ◌∷◌, ◌++◌, String, ◌≡◌, ◌⊎◌, All}
use app_mesh.Dict.{Dict, get, has, put, Distinct}
use app_mesh.Transport.{HttpRequest, HttpResponse, Cdr, serialize, serialize_response}
use app_mesh.Transport.Wire.{received, received_response}
use app_mesh.Transport.Process.{
  Reply, forwarded, Child, to_http, reply_response, receive_request, backforward_response, serve,
}

-- `requests` are those that arrived so far, and `taken` those that the daemon has read.
pub record System (I : Type 0) : Type 0 where
  pub child : Child
  pub to_server : List I
  pub queue : List I
  pub taken : List HttpRequest
  pub to_child : List I
  pub requests : Dict HttpRequest

abbrev pub start : {I : Type 0} → System I
start = record {
  child = record { sent_messages = []; replies = [] };
  to_server = [];
  queue = [];
  taken = [];
  to_child = [];
  requests = [];
}

abbrev pub Among : {A : Type 0} → A → List A → Type 0
Among a [] = ⊥
Among a (x ∷ xs) = (x ≡ a) ⊎ Among a xs

abbrev pub Known : Dict HttpRequest → HttpRequest → Type 0
Known requests m = get m.uuid requests ≡ some m

abbrev pub IsTaken : Dict HttpRequest → HttpRequest → Type 0
IsTaken requests t = (m : HttpRequest) × (t ≡ received m) × Known requests m

-- A message to the daemon is a request that arrived.
abbrev pub IsSent : {O I : Type 0} → Cdr O I → Dict HttpRequest → I → Type 0
IsSent cdr requests i = (m : HttpRequest) × (i ≡ cdr.sent (serialize cdr m)) × Known requests m

abbrev pub replied : List (HttpRequest × HttpResponse) → List String
replied [] = []
replied ((m, resp) ∷ rest) = m.uuid ∷ replied rest

module _ {O I : Type 0} (cdr : Cdr O I) (json_body : String → Option String)
    (Answers : HttpRequest → Reply → Type 0) where
  -- A request with a new id arrives, and is sent if it is to be forwarded; a message comes out of the socket; the daemon takes
  -- it; a handler replies; a response comes back.
  pub data Step : System I → System I → Type 0 where
    arrive :
        (s : System I) (m : HttpRequest) (ok : Bool)
        → has m.uuid s.requests ≡ false
        → m.forward_response2rest_server ≡ false
        → Step s (record s {
          child = (receive_request cdr ok m s.child).0;
          to_server = s.to_server ++ (receive_request cdr ok m s.child).1;
          requests = put m.uuid m s.requests;
        })
    receive :
        (s : System I) (i : I) (rest : List I)
        → s.to_server ≡ i ∷ rest
        → Step s (record s { to_server = rest; queue = s.queue ++ i ∷ [] })
    take :
        (s : System I) (i : I) (rest : List I)
        → s.queue ≡ i ∷ rest
        → Step s (record s { queue = rest; taken = serve cdr i s.taken })
    respond :
        (s : System I) (m : HttpRequest) (r : Reply) (connected : Bool)
        → Among m s.taken
        → Answers m r
        → Step s (record s {
          to_child = s.to_child ++ backforward_response cdr connected (forwarded m r);
        })
    deliver :
        (s : System I) (i : I) (rest : List I)
        → s.to_child ≡ i ∷ rest
        → Step s (record s { to_child = rest; child = reply_response json_body cdr i s.child })

  pub data Reaches : System I → Type 0 where
    started : Reaches start
    stepped : {s t : System I} → Reaches s → Step s t → Reaches t

  -- The second system is one that the first can go on to.
  pub data GoesOn : System I → System I → Type 0 where
    stays : {s : System I} → GoesOn s s
    goes : {s t u : System I} → GoesOn s t → Step t u → GoesOn s u

  pub GoesOn-Reaches : {s t : System I} → GoesOn s t → Reaches s → Reaches t
  GoesOn-Reaches stays r = r
  GoesOn-Reaches (goes on step) r = stepped (GoesOn-Reaches on r) step

  -- A message to the child process is an answer to a request that arrived.
  abbrev pub IsAnswer : Dict HttpRequest → I → Type 0
  IsAnswer requests i =
      (m : HttpRequest) × (r : Reply) × (i ≡ cdr.sent (serialize_response cdr (forwarded m r)))
      × Known requests m
      × Answers (received m) r

  -- A reply to a client is an answer to the very request that it is given to.
  abbrev pub IsReply : Dict HttpRequest → HttpRequest × HttpResponse → Type 0
  IsReply requests (m, resp) =
      (r : Reply) × (resp ≡ to_http json_body (received_response (forwarded m r)))
      × Known requests m
      × Answers (received m) r

  pub record IsLinked (s : System I) : Type 0 where
    pub pending :
        (u : String) (m : HttpRequest)
        → get u s.child.sent_messages ≡ some m
        → (m.uuid ≡ u) × Known s.requests m
    pub sent_known : All (IsSent cdr s.requests) s.to_server
    pub queue_known : All (IsSent cdr s.requests) s.queue
    pub taken_known : All (IsTaken s.requests) s.taken
    pub answers : All (IsAnswer s.requests) s.to_child
    pub replies : All (IsReply s.requests) s.child.replies
    pub once : Distinct (replied s.child.replies)
    pub done : All (λ u. has u s.child.sent_messages ≡ false) (replied s.child.replies)
