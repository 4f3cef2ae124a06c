-- ===== src/Transport/Examples.antt =====
-- The theorems on the two processes at a request, with a stream that is the list of what was written.
use Prim.Native.String.{String as Text}
use app_mesh.Prelude.{
  ℕ, Bool, true, false, ◌||◌, Option, none, some, List, [], ◌∷◌, ◌++◌, String, str_eq,
  if◌then◌else◌, ◌≡◌, ◌⊎◌, inr, refl, arith, ap, All,
}
use app_mesh.Dict.{Dict, get, keys, Distinct, has, member}
use app_mesh.Text.{text_length, space_count, kept_length, all_spaces, is_space, start_with}
use app_mesh.Snapshot.{Json, string}
use app_mesh.Transport.{
  HttpRequest, Item, text, number, Cdr, IsCdr, parse_headers, serialize_headers,
}
use app_mesh.Transport.Headers.{Clean, parse_headers-serialize_headers}
use app_mesh.Transport.Wire.{received_response}
use app_mesh.Transport.Process.{Reply, forwarded, to_http, forward_rest_request}
use app_mesh.Transport.Link.{System, start, GoesOn, Reaches, started, IsReply, replied}
use app_mesh.Transport.Linked.{Reaches-replies}
use app_mesh.Transport.Answered.{Reaches-answered}
use app_mesh.Transport.Entities.{substitute, one, is_risk, RiskFree, IsReplacement}
use app_mesh.Transport.Dispatch.{Handled, Handlers, handle_rest, json_reply}
use app_mesh.Transport.Defended.{Agree, handle_rest-Defended}

abbrev headers : Dict String
headers = ("Accept", "*/*") ∷ ("Authorization", "Bearer abc") ∷ []

headers-Clean : Clean headers
unfolding text_length space_count kept_length all_spaces is_space
headers-Clean = ground arith

headers-Distinct : Distinct (keys headers)
unfolding member
headers-Distinct = (refl, (refl, tt))

parse_headers-serialize_headers_example :
    get "Authorization" (parse_headers (serialize_headers headers)) ≡ get "Authorization" headers
parse_headers-serialize_headers_example =
    parse_headers-serialize_headers headers "Authorization" headers-Clean headers-Distinct

abbrev head_text : List Item → Option (String × List Item)
head_text [] = none
head_text (text s ∷ rest) = some (s, rest)
head_text (number n ∷ rest) = none

abbrev head_number : List Item → Option (ℕ × List Item)
head_number [] = none
head_number (text s ∷ rest) = none
head_number (number n ∷ rest) = some (n, rest)

abbrev listed : Cdr (List Item) (List Item)
listed = record {
  empty = [];
  write = λ o item. o ++ item ∷ [];
  sent = λ o. o;
  read_text = head_text;
  read_number = head_number;
}

listed-IsCdr : IsCdr listed
listed-IsCdr = record {
  written = λ o. o;
  unread = λ i. i;
  empty_lem = refl;
  write_lem = λ o item. refl;
  sent_lem = λ o. refl;
  read_text_lem = λ i s rest e. (rest, ap head_text e, refl);
  read_number_lem = λ i n rest e. (rest, ap head_number e, refl);
}

abbrev json_body : String → Option String
json_body body = some body

-- A handler that answers with its own path.
abbrev Answers : HttpRequest → Reply → Type 0
Answers m r = r ≡ json_reply 200 m.relative_uri

abbrev request : HttpRequest
request = record {
  uuid = "u1";
  method = "GET";
  relative_uri = "/appmesh/applications";
  remote_address = "10.0.0.1";
  body = "";
  headers = headers;
  query = "";
  forward_response2rest_server = false;
}

abbrev answer : Reply
answer = json_reply 200 "/appmesh/applications"

Reaches-answered_example :
    (t : System (List Item)) × Reaches listed json_body Answers t
    × GoesOn listed json_body Answers start t
    × (t.child.replies
        ≡ (request, to_http json_body (received_response (forwarded request answer))) ∷ [])
unfolding has forward_rest_request start_with
Reaches-answered_example =
    Reaches-answered listed json_body Answers listed-IsCdr start request answer started refl refl
      refl refl refl refl refl

abbrev after_reply : System (List Item)
unfolding has forward_rest_request start_with
after_reply =
    (Reaches-answered listed json_body Answers listed-IsCdr start request answer started refl refl
      refl refl refl refl refl).0

after_reply-reached : Reaches listed json_body Answers after_reply
unfolding has forward_rest_request start_with after_reply
after_reply-reached =
    (Reaches-answered listed json_body Answers listed-IsCdr start request answer started refl refl
      refl refl refl refl refl).1

Reaches-replies_example :
    All (IsReply listed json_body Answers after_reply.requests) after_reply.child.replies
    × Distinct (replied after_reply.child.replies)
Reaches-replies_example =
    Reaches-replies listed json_body Answers {s = after_reply} listed-IsCdr after_reply-reached

abbrev replace_all : String → String → String → String
replace_all expr dst s =
    if str_eq expr "\""
    then substitute (one 34 dst) s
    else if str_eq expr "%"
    then substitute (one 37 dst) s
    else if str_eq expr "'"
    then substitute (one 39 dst) s
    else if str_eq expr "<"
    then substitute (one 60 dst) s
    else if str_eq expr ">"
    then substitute (one 62 dst) s
    else if str_eq expr "\\("
    then substitute (one 40 dst) s
    else if str_eq expr "\\)"
    then substitute (one 41 dst) s
    else s

replaces : IsReplacement replace_all
replaces = record {
  quote = λ dst s. refl;
  percent = λ dst s. refl;
  apostrophe = λ dst s. refl;
  less = λ dst s. refl;
  greater = λ dst s. refl;
  opening = λ dst s. refl;
  closing = λ dst s. refl;
}

abbrev risky : String → Bool
risky Text.[] = false
risky (Text.◌∷◌ c s) = is_risk c || risky s

RiskFree-risky : (s : String) → RiskFree s → risky s ≡ false
RiskFree-risky Text.[] h = refl
RiskFree-risky (Text.◌∷◌ c s) h = rw (h.0) (RiskFree-risky s h.1)

abbrev view : HttpRequest → Handled
view m = record { replies = json_reply 200 "{}" ∷ []; error = none }

-- A handler that can be tricked by its path.
abbrev tricked : HttpRequest → Handled
tricked m = if risky m.relative_uri then record { replies = []; error = none } else view m

abbrev regex_match : String → String → Bool
regex_match path expr = str_eq expr "/appmesh/app/([^/\\*]+)"

abbrev parse_body : String → String ⊎ Json
parse_body s = inr (string s)

abbrev write : Json → String
write val = "{}"

abbrev attack : HttpRequest
attack = record request {
  relative_uri = "/appmesh/app/<script>";
  forward_response2rest_server = true;
}

abbrev views : Handlers
views = ("/appmesh/app/([^/\\*]+)", view) ∷ []

abbrev tricks : Handlers
tricks = ("/appmesh/app/([^/\\*]+)", tricked) ∷ []

views-tricks : Agree replace_all regex_match parse_body write views tricks
views-tricks = (refl, λ m d. rw (RiskFree-risky m.relative_uri d.0) refl, tt)

handle_rest-Defended_example :
    handle_rest replace_all regex_match parse_body write attack views
    ≡ handle_rest replace_all regex_match parse_body write attack tricks
handle_rest-Defended_example =
    handle_rest-Defended replace_all regex_match parse_body write attack views tricks replaces refl
      views-tricks
