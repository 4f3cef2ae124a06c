-- ===== src/Config.antt =====
-- src/daemon/Configuration.cpp: readConfigFromEnv and applyEnvConfig, by which environment variables
-- override the configuration, with Utility::isNumber of src/common/Utility.cpp. `stoi` is
-- `std::stoi`, where `none` is its exception; `none` of a function here is that exception too.
pub mod Override
pub mod Effects
mod Examples
use Prim.Native.Char.{Char, code}
use Prim.Native.String.{String as Text}
use app_mesh.Prelude.{
  ℕ, suc, Bool, true, false, not, ◌&&◌, Option, none, some, List, [], ◌∷◌, String, str_eq,
  if◌then◌else◌, ◌==◌, leb, ◌+◌,
}
use app_mesh.Prelude.Int.{ℤ}
use app_mesh.Text.{start_with, take, drop, text_length}
use app_mesh.Text.Search.{find, split_string}
use app_mesh.Snapshot.{
  Json, null, array, boolean, number, string, object, Fields, no_field, field, json_field,
}

-- std::isdigit in the C locale
unfoldable pub is_digit : Char → Bool
is_digit c = leb 48 (code c) && leb (code c) 57

unfoldable pub all_digits : String → Bool
unfolding is_digit
all_digits Text.[] = true
all_digits (Text.◌∷◌ c s) = is_digit c && all_digits s

-- Utility::isNumber
unfoldable pub is_number : String → Bool
unfolding all_digits text_length
is_number Text.[] = false
is_number (Text.◌∷◌ c s) =
    if code c == 45 then not (text_length s == 0) && all_digits s else all_digits (Text.◌∷◌ c s)

-- json->at(key) = value, for a field that is there.
unfoldable pub set_value : String → Json → Fields → Fields
set_value key value no_field = no_field
set_value key value (field name old fields) =
    let rest = set_value key value fields in
    if str_eq name key then field name value fields else field name old rest

unfoldable pub set_field : String → Json → Json → Json
unfolding set_value
set_field key value (object fields) = object (set_value key value fields)
set_field key value json = json

unfoldable pub with_field : String → Json → Option Json → Option Json
unfolding set_field
with_field key json none = none
with_field key json (some value) = some (set_field key value json)

-- The keys of a variable's name behind the first one.
unfoldable pub behind_first : Option (List String) → List String
behind_first none = []
behind_first (some []) = []
behind_first (some (key ∷ keys)) = keys

unfoldable pub keys_of : String → List String
unfolding behind_first text_length split_string
keys_of env_key = behind_first (split_string (suc (text_length env_key)) "_" env_key)

unfoldable pub parsed : Option ℤ → Option Json
parsed none = none
parsed (some n) = some (number n)

module _ (stoi : String → Option ℤ) where
  -- Configuration::applyEnvConfig: the value that it leaves. Its result is only logged.
  unfoldable pub apply_env_config : Json → String → Option Json
  unfolding is_number parsed
  apply_env_config (string s) env_value = some (string env_value)
  apply_env_config (number n) env_value = parsed (stoi env_value)
  apply_env_config (boolean b) env_value =
      if is_number env_value
      then some (boolean (not (str_eq env_value "0")))
      else some (boolean (not (str_eq env_value "false")))
  apply_env_config json env_value = some json

  -- The loop over the keys, from the value that `json` points to.
  unfoldable pub apply_keys : List String → String → Json → Option Json
  unfolding json_field apply_env_config with_field
  apply_keys [] env_value json = some json
  apply_keys (key ∷ []) env_value json = elim (json_field key json) [
    | none ↦ some json
    | some child ↦ with_field key json (apply_env_config child env_value)
  ]
  apply_keys (key ∷ next ∷ keys) env_value json = elim (json_field key json) [
    | none ↦ apply_keys (next ∷ keys) env_value json
    | some child ↦ with_field key json (apply_keys (next ∷ keys) env_value child)
  ]

  -- The body of the loop over the variables.
  unfoldable pub apply_variable : String → Json → Option Json
  unfolding find start_with take drop apply_keys keys_of
  apply_variable env json =
      if start_with env "APPMESH_"
      then (elim (find "=" env) [
        | none ↦ some json
        | some position ↦ apply_keys (keys_of (take position env)) (drop (position + 1) env) json
      ])
      else some json

  -- Configuration::readConfigFromEnv
  unfoldable pub read_config_from_env : List String → Json → Option Json
  unfolding apply_variable
  read_config_from_env [] json = some json
  read_config_from_env (env ∷ environ) json = elim (apply_variable env json) [
    | none ↦ none
    | some changed ↦ read_config_from_env environ changed
  ]
