-- ===== src/Config/Examples.antt =====
-- The theorems on the environment at a small configuration.
use app_mesh.Prelude.{true, false, Option, none, some, List, [], ◌∷◌, String, ◌≡◌, refl}
use app_mesh.Prelude.Int.{ℤ}
use app_mesh.Snapshot.{Json, string, boolean, object, no_field, field}
use app_mesh.Config.{apply_env_config, apply_variable, read_config_from_env, keys_of}
use app_mesh.Config.Override.{kind_at, at_path, read_config_from_env-Typed}
use app_mesh.Config.Effects.{Sets, apply_variable-Sets}

abbrev stoi : String → Option ℤ
stoi s = none

abbrev config : Json
config = object (
    field "LogLevel" (string "INFO")
      (field "REST" (object (field "RestEnabled" (boolean true) no_field)) no_field))

abbrev changed : Json
changed = object (
    field "LogLevel" (string "DEBUG")
      (field "REST" (object (field "RestEnabled" (boolean false) no_field)) no_field))

abbrev environ : List String
environ = "PATH=/bin" ∷ "APPMESH_LogLevel=DEBUG" ∷ "APPMESH_REST_RestEnabled=0" ∷ []

overridden : read_config_from_env stoi environ config ≡ some changed
unfolding read_config_from_env apply_variable keys_of
overridden = refl

read_config_from_env-Typed_example :
    kind_at ("REST" ∷ "RestEnabled" ∷ []) changed ≡ kind_at ("REST" ∷ "RestEnabled" ∷ []) config
read_config_from_env-Typed_example =
    read_config_from_env-Typed stoi environ config changed overridden ("REST" ∷ "RestEnabled" ∷ [])

apply_variable-Sets_example :
    (changed : Json) × (apply_variable stoi "APPMESH_REST_RestEnabled=0" config ≡ some changed)
    × Sets ("REST" ∷ "RestEnabled" ∷ []) config (boolean false) changed
unfolding apply_env_config keys_of at_path apply_variable
apply_variable-Sets_example =
    apply_variable-Sets stoi "APPMESH_REST_RestEnabled=0" config (boolean true) (boolean false)
      {position = 24} {key = "REST"} {keys = "RestEnabled" ∷ []} refl refl refl refl refl
