-- ===== src/Transport/Process.antt =====
-- The two processes: RestChildObject of src/daemon/rest/RestChildObject.cpp, RestTcpServer of
-- src/daemon/rest/RestTcpServer.cpp, and the replies of src/daemon/rest/HttpRequest.cpp. The socket keeps
-- the order of its messages, and a message stands for its frame. `json_body` parses a text as JSON,
-- and writes it again as the body of a response; `none` is an exception of the parser.
use app_mesh.Prelude.{
  ℕ, Bool, true, false, not, ◌&&◌, Option, none, some, List, [], ◌∷◌, String, str_eq, if◌then◌else◌,
}
use app_mesh.Dict.{Dict, get, has, put, erase}
use app_mesh.Text.{start_with}
use app_mesh.Transport.{
  HttpRequest, HttpTcpResponse, HttpResponse, Cdr, serialize, deserialize, serialize_response,
  deserialize_response,
}

-- What a handler replies to a request of the daemon: HttpRequest::reply.
pub record Reply : Type 0 where
  pub status : ℕ
  pub body : String
  pub content_type : String
  pub headers : Dict String

abbrev pub forwarded : HttpRequest → Reply → HttpTcpResponse
forwarded m r = record {
  uuid = m.uuid;
  body = r.body;
  body_type = r.content_type;
  headers = r.headers;
  status = r.status;
}

-- The requests that wait for a response, and the replies to the clients, the last one first.
pub record Child : Type 0 where
  pub sent_messages : Dict HttpRequest
  pub replies : List (HttpRequest × HttpResponse)

-- RestBase::forwardRestRequest: whether a request goes to the daemon.
unfoldable pub forward_rest_request : Bool → HttpRequest → Bool
unfolding start_with
forward_rest_request forward2tcp_server m =
    forward2tcp_server && not (start_with m.relative_uri "/appmesh/file")

-- HttpRequest::reply of a response to a client; its exception is caught by replyResponse.
unfoldable pub reply : HttpRequest → HttpResponse → Child → Child
reply m resp c =
    if m.forward_response2rest_server then c else record c { replies = (m, resp) ∷ c.replies }

module _ (json_body : String → Option String) where
  -- The response that replyResponse makes of a message.
  unfoldable pub to_http : HttpTcpResponse → HttpResponse
  to_http r =
      if str_eq r.body_type "application/json" && not (str_eq r.body "")
      then (elim (json_body r.body) [
        | none ↦ record { status = r.status; body = r.body; is_json = false; headers = r.headers }
        | some body ↦ record { status = r.status; body = body; is_json = true; headers = r.headers }
      ])
      else record { status = r.status; body = r.body; is_json = false; headers = r.headers }

  -- What replyResponse does with a response.
  unfoldable pub reply_to : HttpTcpResponse → Child → Child
  unfolding to_http reply
  reply_to r c = elim (get r.uuid c.sent_messages) [
    | none ↦ c
    | some m ↦ record (reply m (to_http r) c) { sent_messages = erase r.uuid c.sent_messages }
  ]

  module _ {O I : Type 0} (cdr : Cdr O I) where
    -- RestChildObject::replyResponse
    unfoldable pub reply_response : I → Child → Child
    unfolding reply_to deserialize_response
    reply_response i c = elim (deserialize_response cdr i) [ none ↦ c | some r ↦ reply_to r c ]

module _ {O I : Type 0} (cdr : Cdr O I) where
  -- RestChildObject::sendRequest2Server, with what is written to the socket; `ok` is that
  -- `sendv_n` did not fail.
  unfoldable pub send_request2server : Bool → HttpRequest → Child → Child × List I
  unfolding serialize
  send_request2server ok m c =
      if ok
      then (
        (if has m.uuid c.sent_messages
            then c
            else record c { sent_messages = put m.uuid m c.sent_messages }),
        cdr.sent (serialize cdr m) ∷ [],
      )
      else (c, [])

  -- RestBase::handle_get and the others of the child process, with what is written to the socket; a
  -- request that is not forwarded is handled where it arrived.
  unfoldable pub receive_request : Bool → HttpRequest → Child → Child × List I
  unfolding forward_rest_request send_request2server
  receive_request ok m c =
      if forward_rest_request true m then send_request2server ok m c else (c, [])

  -- RestTcpServer::backforwardResponse; `connected` is that the socket is open and takes the message.
  unfoldable pub backforward_response : Bool → HttpTcpResponse → List I
  unfolding serialize_response
  backforward_response connected r =
      if connected then cdr.sent (serialize_response cdr r) ∷ [] else []

  -- One round of RestTcpServer::svc: the request that is handled, if it can be read.
  unfoldable pub serve : I → List HttpRequest → List HttpRequest
  unfolding deserialize
  serve i taken = elim (deserialize cdr i) [ none ↦ taken | some m ↦ m ∷ taken ]
