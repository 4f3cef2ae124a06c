-- ===== src/Cluster/LabelJson.antt =====
-- Label::AsJson and Label::FromJson of src/daemon/Label.cpp. `bad_json` is the exception of web::json for
-- a value that is no text.
use app_mesh.Prelude.{String, [], ◌∷◌, ◌≡◌, refl}
use app_mesh.Dict.{get, put, keys, Distinct}
use app_mesh.Security.Model.{Outcome, returns, ◌>>=◌}
use app_mesh.Security.Saved.{as_string}
use app_mesh.Security.ReadRoles.{put_all, get-put_all_new}
use app_mesh.Snapshot.{Json, string, object, Fields, no_field, field}
use app_mesh.Cluster.Label.{Labels}

unfoldable pub tags : Labels → Fields
tags [] = no_field
tags ((key, value) ∷ labels) = field key (string value) (tags labels)

unfoldable pub label_as_json : Labels → Json
unfolding tags
label_as_json labels = object (tags labels)

-- The loop of Label::FromJson.
unfoldable pub read_tags : Fields → Labels → Outcome Labels
unfolding as_string
read_tags no_field labels = returns labels
read_tags (field key json fields) labels = do
  value ← as_string json
  read_tags fields (put key value labels)

-- A value that is no object gives a label without entries.
unfoldable pub label_from_json : Json → Outcome Labels
unfolding read_tags
label_from_json (object fields) = read_tags fields []
label_from_json json = returns []

read_tags-tags : (labels acc : Labels) → read_tags (tags labels) acc ≡ returns (put_all labels acc)
unfolding read_tags tags as_string
read_tags-tags [] acc = refl
read_tags-tags ((key, value) ∷ labels) acc = read_tags-tags labels (put key value acc)

-- Labels with distinct keys are read from their JSON without an exception, with the same value under
-- each key.
pub label_from_json-label_as_json :
    (labels : Labels)
    → Distinct (keys labels)
    → (read : Labels) × (label_from_json (label_as_json labels) ≡ returns read)
      × ((key : String) → get key read ≡ get key labels)
unfolding label_from_json label_as_json
label_from_json-label_as_json labels d =
    (put_all labels [], read_tags-tags labels [], λ key. get-put_all_new key labels d)
