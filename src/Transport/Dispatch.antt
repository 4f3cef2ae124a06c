-- ===== src/Transport/Dispatch.antt =====
-- How a process handles a request: handleRest, replaceXssRiskChars and tranverseJsonTree of
-- src/daemon/rest/RestBase.cpp. `replace_all` is Boost's replacement of all matches of an expression,
-- `regex_match` its match of a whole path, `parse` the parser of JSON with the message of its exception,
-- and `write` the text of JSON.
use app_mesh.Prelude.{
  ℕ, Bool, ◌||◌, Option, none, some, List, [], ◌∷◌, ◌++◌, String, str_eq, if◌then◌else◌, ◌⊎◌, inl,
  inr,
}
use app_mesh.Text.Search.{replaced}
use app_mesh.Snapshot.{
  Json, null, array, boolean, number, string, object, Items, no_item, item, Fields, no_field, field,
}
use app_mesh.Transport.{HttpRequest}
use app_mesh.Transport.Process.{Reply}

-- What a handler did: its replies, and the message of the exception that it ended with.
pub record Handled : Type 0 where
  pub replies : List Reply
  pub error : Option String

-- The map of a method, in the order of its keys.
abbrev pub Handlers : Type 0
Handlers = List (String × (HttpRequest → Handled))

abbrev pub Replacement : Type 0
Replacement = String → String → String → String

-- RestBase::replaceXssRiskChars, in the order of the keys of its map.
unfoldable pub replace_xss_risk_chars : Replacement → String → String
replace_xss_risk_chars replace_all source =
    if str_eq source ""
    then source
    else replace_all "\\)" "&#41;" (
        replace_all "\\(" "&#40;" (
          replace_all ">" "&gt;" (
            replace_all "<" "&lt;" (
              replace_all "'" "&#39;"
                (replace_all "%" "&#37;" (replace_all "\"" "&quot;" source))))))

module _ (replace_all : Replacement) where
  -- RestBase::tranverseJsonTree
  unfoldable mutual
    unfolding replace_xss_risk_chars

    pub tranverse_json_tree : Json → Json
    tranverse_json_tree null = null
    tranverse_json_tree (array items) = array (tranverse_items items)
    tranverse_json_tree (boolean b) = boolean b
    tranverse_json_tree (number n) = number n
    tranverse_json_tree (string s) = string (replace_xss_risk_chars replace_all s)
    tranverse_json_tree (object fields) = object (tranverse_fields fields)

    pub tranverse_items : Items → Items
    tranverse_items no_item = no_item
    tranverse_items (item val items) = item (tranverse_json_tree val) (tranverse_items items)

    pub tranverse_fields : Fields → Fields
    tranverse_fields no_field = no_field
    tranverse_fields (field name val fields) =
        field name (tranverse_json_tree val) (tranverse_fields fields)

-- RestBase::convertText2Json
unfoldable pub convert_text2json : (Json → String) → String → String
convert_text2json write msg = write (object (field "message" (string msg) no_field))

unfoldable pub find_rest :
    (String → String → Bool) → String → Handlers → Option (HttpRequest → Handled)
find_rest regex_match path [] = none
find_rest regex_match path ((expr, func) ∷ rest) =
    if str_eq path expr || regex_match path expr then some func else find_rest regex_match path rest

abbrev pub json_reply : ℕ → String → Reply
json_reply status body = record {
  status = status;
  body = body;
  content_type = "application/json";
  headers = [];
}

abbrev pub root_reply : Reply
root_reply = record {
  status = 200;
  body = "App Mesh";
  content_type = "text/plain; charset=utf-8";
  headers = [];
}

module _ (replace_all : Replacement) (regex_match : String → String → Bool)
    (parse : String → String ⊎ Json) (write : Json → String) where
  -- The request that reaches the handler: where it came from the other process, without the characters
  -- that are a risk. `inl` is the message of an exception.
  unfoldable pub defend : HttpRequest → String ⊎ HttpRequest
  unfolding tranverse_json_tree replace_xss_risk_chars
  defend m =
      let m' = record m { relative_uri = replace_xss_risk_chars replace_all m.relative_uri } in
      let defended = elim (parse m.body) as (λ x. String ⊎ HttpRequest) [
        | inl what ↦ inl what
        | inr body ↦ inr (record m' { body = write (tranverse_json_tree replace_all body) })
      ] in
      if m.forward_response2rest_server
      then (if str_eq m.body "" then inr m' else defended)
      else inr m

  -- The replies to an exception.
  unfoldable pub bad_request : Option String → List Reply
  unfolding convert_text2json
  bad_request none = []
  bad_request (some what) = json_reply 400 (convert_text2json write what) ∷ []

  unfoldable pub run : (HttpRequest → Handled) → String ⊎ HttpRequest → List Reply
  unfolding bad_request
  run func (inl what) = bad_request (some what)
  run func (inr m) = (func m).replies ++ bad_request (func m).error

  -- What the handler that was found replies, or that there is none.
  unfoldable pub reply_found : HttpRequest → Option (HttpRequest → Handled) → List Reply
  unfolding run defend convert_text2json
  reply_found m none = json_reply 404 (convert_text2json write "Path not found") ∷ []
  reply_found m (some func) = run func (defend m)

  -- RestBase::handleRest: the replies, in their order.
  unfoldable pub handle_rest : HttpRequest → Handlers → List Reply
  unfolding replaced find_rest reply_found
  handle_rest m functions =
      let path = replaced "//" "/" m.relative_uri in
      if str_eq path "/" || str_eq path ""
      then root_reply ∷ []
      else reply_found m (find_rest regex_match path functions)
