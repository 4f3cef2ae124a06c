-- ===== src/Transport.antt =====
-- The REST service as a process of its own: src/daemon/rest/HttpRequest.cpp, RestChildObject.cpp and
-- RestTcpServer.cpp. The child process takes the requests of the clients, sends each to the daemon over
-- a socket, and replies with the response that comes back. `Cdr` is a stream of ACE: `O` is written
-- (ACE_OutputCDR), `I` is read (ACE_InputCDR), and `sent` is what the other end of the socket reads.
pub mod Wire
pub mod Pieces
pub mod Headers
pub mod Process
pub mod Link
pub mod Arrivals
pub mod Linked
pub mod Answered
pub mod Dispatch
pub mod Entities
pub mod Defended
mod Examples
use app_mesh.Prelude.{ℕ, suc, Bool, true, Option, none, some, List, [], ◌∷◌, ◌++◌, String, ◌≡◌}
use app_mesh.Dict.{Dict, put}
use app_mesh.Text.{text_length}
use app_mesh.Text.Search.{◌<>◌, split_string}

pub record HttpRequest : Type 0 where
  pub uuid : String
  pub method : String
  pub relative_uri : String
  pub remote_address : String
  pub body : String
  pub headers : Dict String
  pub query : String
  pub forward_response2rest_server : Bool

pub record HttpTcpResponse : Type 0 where
  pub uuid : String
  pub body : String
  pub body_type : String
  pub headers : Dict String
  pub status : ℕ

-- web::http::http_response: the body as it is sent, its type, and the headers that were added.
pub record HttpResponse : Type 0 where
  pub status : ℕ
  pub body : String
  pub is_json : Bool
  pub headers : Dict String

-- What is written to a stream.
pub data Item : Type 0 where
  text : String → Item
  number : ℕ → Item

pub record Cdr (O I : Type 0) : Type 0 where
  pub empty : O
  pub write : O → Item → O
  pub sent : O → I
  pub read_text : I → Option (String × I)
  pub read_number : I → Option (ℕ × I)

-- The documented behaviour of a stream: what was written is read in the same order.
pub record IsCdr {O I : Type 0} (cdr : Cdr O I) : Type 0 where
  pub written : O → List Item
  pub unread : I → List Item
  pub empty_lem : written cdr.empty ≡ []
  pub write_lem : (o : O) (item : Item) → written (cdr.write o item) ≡ written o ++ item ∷ []
  pub sent_lem : (o : O) → unread (cdr.sent o) ≡ written o
  pub read_text_lem :
      (i : I) (s : String) (rest : List Item)
      → unread i ≡ text s ∷ rest
      → (i' : I) × (cdr.read_text i ≡ some (s, i')) × (unread i' ≡ rest)
  pub read_number_lem :
      (i : I) (n : ℕ) (rest : List Item)
      → unread i ≡ number n ∷ rest
      → (i' : I) × (cdr.read_number i ≡ some (n, i')) × (unread i' ≡ rest)

infixl 5 ◌>>=◌
abbrev ◌>>=◌ : {A B : Type 0} → Option A → (A → Option B) → Option B
none >>= next = none
some a >>= next = next a

-- Utility::splitString, with enough fuel for a separator that is not empty.
unfoldable pub split : String → String → List String
unfolding split_string text_length
split flag source = elim (split_string (suc (text_length source)) flag source) [
  | none ↦ []
  | some pieces ↦ pieces
]

-- One header of HttpRequest::parseHeaders.
unfoldable pub put_header : List String → Dict String → Dict String
put_header (name ∷ value ∷ []) headers = put name value headers
put_header _ headers = headers

unfoldable pub put_headers : List String → Dict String → Dict String
unfolding put_header split
put_headers [] headers = headers
put_headers (header ∷ rest) headers = put_headers rest (put_header (split "|" header) headers)

-- HttpRequest::parseHeaders
unfoldable pub parse_headers : String → Dict String
unfolding put_headers
parse_headers str = put_headers (split "||" str) []

-- HttpRequest::serializeHeaders
unfoldable pub serialize_headers : Dict String → String
unfolding ◌<>◌
serialize_headers [] = ""
serialize_headers ((name, value) ∷ headers) =
    name <> ("|" <> (value <> ("||" <> serialize_headers headers)))

abbrev pub request_texts : HttpRequest → List String
request_texts m =
    m.uuid
    ∷ m.method
    ∷ m.relative_uri
    ∷ m.remote_address
    ∷ m.body
    ∷ serialize_headers m.headers
    ∷ m.query
    ∷ []

abbrev pub response_texts : HttpTcpResponse → List String
response_texts r = r.uuid ∷ r.body ∷ r.body_type ∷ serialize_headers r.headers ∷ []

module _ {O I : Type 0} (cdr : Cdr O I) where
  abbrev write_texts : List String → O → O
  write_texts [] o = o
  write_texts (s ∷ rest) o = write_texts rest (cdr.write o (text s))

  -- HttpRequest::serialize
  unfoldable pub serialize : HttpRequest → O
  unfolding serialize_headers
  serialize m = write_texts (request_texts m) cdr.empty

  -- HttpRequest::deserialize
  unfoldable pub deserialize : I → Option HttpRequest
  unfolding parse_headers
  deserialize input = cdr.read_text input >>= λ (uuid, i1). cdr.read_text i1 >>= λ (method, i2).
      cdr.read_text i2 >>= λ (uri, i3). cdr.read_text i3 >>= λ (address, i4).
      cdr.read_text i4 >>= λ (body, i5). cdr.read_text i5 >>= λ (headers, i6).
      cdr.read_text i6 >>= λ (query, i7). some (record {
        uuid = uuid;
        method = method;
        relative_uri = uri;
        remote_address = address;
        body = body;
        headers = parse_headers headers;
        query = query;
        forward_response2rest_server = true;
      })

  -- HttpTcpResponse::serialize
  unfoldable pub serialize_response : HttpTcpResponse → O
  unfolding serialize_headers
  serialize_response r = cdr.write (write_texts (response_texts r) cdr.empty) (number r.status)

  -- HttpTcpResponse::deserialize
  unfoldable pub deserialize_response : I → Option HttpTcpResponse
  unfolding parse_headers
  deserialize_response input = cdr.read_text input >>= λ (uuid, i1).
      cdr.read_text i1 >>= λ (body, i2). cdr.read_text i2 >>= λ (body_type, i3).
      cdr.read_text i3 >>= λ (headers, i4). cdr.read_number i4 >>= λ (status, i5). some (record {
        uuid = uuid;
        body = body;
        body_type = body_type;
        headers = parse_headers headers;
        status = status;
      })
