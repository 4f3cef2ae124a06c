-- ===== src/Config/Override.antt =====
-- What the environment changes of the configuration: readConfigFromEnv of
-- src/daemon/Configuration.cpp.
use app_mesh.Prelude.{
  ap, ◌∙◌, not, ◌+◌, Option, none, some, List, [], ◌∷◌, String, str_eq, if◌then◌else◌, ◌≡◌, refl,
  sym, arith, inl, inr, subst, Bool-cases, Option-cases, eq_iff,
}
use app_mesh.Prelude.Int.{ℤ}
use app_mesh.Snapshot.{
  Json, null, array, boolean, number, string, object, Fields, no_field, field, json_field,
  find_field,
}
use app_mesh.Text.{start_with, take, drop}
use app_mesh.Text.Search.{find}
use app_mesh.Config.{
  set_value, set_field, with_field, parsed, is_number, apply_env_config, apply_keys, apply_variable,
  keys_of, read_config_from_env,
}

pub data Kind : Type 0 where
  null_kind boolean_kind number_kind string_kind array_kind object_kind : Kind

abbrev pub kind_of : Json → Kind
kind_of null = null_kind
kind_of (array items) = array_kind
kind_of (boolean b) = boolean_kind
kind_of (number n) = number_kind
kind_of (string s) = string_kind
kind_of (object fields) = object_kind

-- The value that a path of fields leads to.
unfoldable pub at_path : List String → Json → Option Json
at_path [] json = some json
at_path (key ∷ path) json = elim (json_field key json) [
  | none ↦ none
  | some child ↦ at_path path child
]

abbrev pub kind_if : Option Json → Option Kind
kind_if none = none
kind_if (some value) = some (kind_of value)

abbrev pub kind_at : List String → Json → Option Kind
kind_at path json = kind_if (at_path path json)

-- The same paths lead to values of the same types.
abbrev pub Typed : Json → Json → Type 0
Typed json changed = (path : List String) → kind_at path changed ≡ kind_at path json

find_field-set_value :
    (key j : String) (value : Json) (fields : Fields) {child : Json}
    → find_field key fields ≡ some child
    → find_field j (set_value key value fields)
      ≡ (if str_eq key j then some value else find_field j fields)
unfolding find_field set_value
find_field-set_value key j value no_field h = absurd (ground (arith, h))
find_field-set_value key j value (field name old fields) {child} h =
    elim (Bool-cases (str_eq name key)) [
      | inl e ↦ ground (arith, eq_iff name key, eq_iff name j, eq_iff key j)
      | inr e ↦
          let rest = find_field-set_value key j value fields {child = child} (ground arith) in
          ground (arith, rest, eq_iff name key, eq_iff name j, eq_iff key j)
    ]

json_field-set_field :
    (key j : String) (value json : Json) {child : Json}
    → json_field key json ≡ some child
    → json_field j (set_field key value json)
      ≡ (if str_eq key j then some value else json_field j json)
unfolding json_field set_field
json_field-set_field key j value (object fields) {child} h =
    find_field-set_value key j value fields {child = child} h
json_field-set_field key j value null h = absurd (ground arith)
json_field-set_field key j value (array items) h = absurd (ground arith)
json_field-set_field key j value (boolean x) h = absurd (ground arith)
json_field-set_field key j value (number x) h = absurd (ground arith)
json_field-set_field key j value (string x) h = absurd (ground arith)

kind_of-set_field :
    (key : String) (value json : Json) → kind_of (set_field key value json) ≡ kind_of json
unfolding set_field
kind_of-set_field key value (object fields) = refl
kind_of-set_field key value null = refl
kind_of-set_field key value (array items) = refl
kind_of-set_field key value (boolean x) = refl
kind_of-set_field key value (number x) = refl
kind_of-set_field key value (string x) = refl

-- A path into a value of which one field was set.
pub at_path-set_field :
    (key j : String) (path : List String) (value json : Json) {child : Json}
    → json_field key json ≡ some child
    → at_path (j ∷ path) (set_field key value json)
      ≡ (if str_eq key j then at_path path value else at_path (j ∷ path) json)
unfolding at_path
at_path-set_field key j path value json {child} h =
    let read = json_field-set_field key j value json {child = child} h in
    elim (Bool-cases (str_eq key j)) [
      | inl e ↦ rw (at_path, read, e) refl
      | inr e ↦ rw (at_path, read, e) refl
    ]

Typed-set_field :
    (key : String) (value json : Json) {child : Json}
    → json_field key json ≡ some child
    → Typed child value
    → Typed json (set_field key value json)
unfolding at_path
Typed-set_field key value json {child} h t [] = ap some (kind_of-set_field key value json)
Typed-set_field key value json {child} h t (j ∷ path) =
    let read = at_path-set_field key j path value json {child = child} h in
    elim (Bool-cases (str_eq key j)) [
      | inl e ↦
          let same : key ≡ j = ground (arith, eq_iff key j) in
          let below : at_path (j ∷ path) json ≡ at_path path child =
            subst (λ k. at_path (k ∷ path) json ≡ at_path path child) same (rw (at_path, h) refl) in
          let above : at_path (j ∷ path) (set_field key value json) ≡ at_path path value =
            ground arith in
          ap kind_if above ∙ t path ∙ sym (ap kind_if below)
      | inr e ↦
          let above : at_path (j ∷ path) (set_field key value json) ≡ at_path (j ∷ path) json =
            ground arith in
          ap kind_if above
    ]

-- Two values of the same type, and with the same fields.
abbrev pub Alike : Json → Json → Type 0
Alike json changed =
    (kind_of changed ≡ kind_of json) × ((j : String) → json_field j changed ≡ json_field j json)

Alike-Typed : (json changed : Json) → Alike json changed → Typed json changed
unfolding at_path
Alike-Typed json changed a [] = ap some a.0
Alike-Typed json changed a (j ∷ path) = rw (at_path, a.1 j) refl

Alike-some :
    (json value changed : Json)
    → Alike json value
    → ◌≡◌ {A = Option Json} (some value) (some changed)
    → Alike json changed
Alike-some json value changed a h =
    let same : value ≡ changed = ground arith in subst (λ c. Alike json c) same a

module _ (stoi : String → Option ℤ) where
  pub apply_env_config-Alike :
      (json : Json) (env_value : String) {changed : Json}
      → apply_env_config stoi json env_value ≡ some changed
      → Alike json changed
  unfolding apply_env_config parsed json_field
  apply_env_config-Alike (string s) env_value {changed} h =
      Alike-some (string s) (string env_value) changed (refl, λ j. refl) h
  apply_env_config-Alike (number n) env_value {changed} h = elim (Option-cases (stoi env_value)) [
    | inl x ↦ absurd (ground arith)
    | inr (m, x) ↦ Alike-some (number n) (number m) changed (refl, λ j. refl) (ground arith)
  ]
  apply_env_config-Alike (boolean b) env_value {changed} h =
      elim (Bool-cases (is_number env_value)) [
        | inl x ↦
            Alike-some (boolean b) (boolean (not (str_eq env_value "0"))) changed (refl, λ j. refl)
              (ground arith)
        | inr x ↦
            Alike-some (boolean b) (boolean (not (str_eq env_value "false"))) changed
              (refl, λ j. refl) (ground arith)
      ]
  apply_env_config-Alike null env_value {changed} h =
      Alike-some null null changed (refl, λ j. refl) h
  apply_env_config-Alike (array items) env_value {changed} h =
      Alike-some (array items) (array items) changed (refl, λ j. refl) h
  apply_env_config-Alike (object fields) env_value {changed} h =
      Alike-some (object fields) (object fields) changed (refl, λ j. refl) h

  apply_keys-Typed :
      (keys : List String) (env_value : String) (json : Json) {changed : Json}
      → apply_keys stoi keys env_value json ≡ some changed
      → Typed json changed
  unfolding apply_keys with_field
  apply_keys-Typed [] env_value json {changed} h =
      Alike-Typed json changed (Alike-some json json changed (refl, λ j. refl) h)
  apply_keys-Typed (key ∷ []) env_value json {changed} h =
      elim (Option-cases (json_field key json)) [
        | inl x ↦
            Alike-Typed json changed (Alike-some json json changed (refl, λ j. refl) (ground arith))
        | inr (child, x) ↦ elim (Option-cases (apply_env_config stoi child env_value)) [
          | inl y ↦ absurd (ground arith)
          | inr (value, y) ↦
              let same : set_field key value json ≡ changed = ground arith in
              subst (λ c. Typed json c) same
                (Typed-set_field key value json {child = child} x (
                  Alike-Typed child value
                    (apply_env_config-Alike child env_value {changed = value} y)))
        ]
      ]
  apply_keys-Typed (key ∷ next ∷ keys) env_value json {changed} h =
      elim (Option-cases (json_field key json)) [
        | inl x ↦ apply_keys-Typed (next ∷ keys) env_value json {changed = changed} (ground arith)
        | inr (child, x) ↦ elim (Option-cases (apply_keys stoi (next ∷ keys) env_value child)) [
          | inl y ↦ absurd (ground arith)
          | inr (value, y) ↦
              let same : set_field key value json ≡ changed = ground arith in
              subst (λ c. Typed json c) same
                (Typed-set_field key value json {child = child} x
                  (apply_keys-Typed (next ∷ keys) env_value child {changed = value} y))
        ]
      ]

  apply_variable-Typed :
      (env : String) (json : Json) {changed : Json}
      → apply_variable stoi env json ≡ some changed
      → Typed json changed
  unfolding apply_variable
  apply_variable-Typed env json {changed} h = elim (Bool-cases (start_with env "APPMESH_")) [
    | inr x ↦
        Alike-Typed json changed (Alike-some json json changed (refl, λ j. refl) (ground arith))
    | inl x ↦ elim (Option-cases (find "=" env)) [
      | inl y ↦
          Alike-Typed json changed (Alike-some json json changed (refl, λ j. refl) (ground arith))
      | inr (position, y) ↦
          apply_keys-Typed (keys_of (take position env)) (drop (position + 1) env) json
            {changed = changed} (ground arith)
    ]
  ]

  -- Whatever the variables are, if none of them makes `std::stoi` throw: the configuration has the
  -- same fields as before at every level, and each value is of the type that it was of.
  pub read_config_from_env-Typed :
      (environ : List String) (json changed : Json)
      → read_config_from_env stoi environ json ≡ some changed
      → (path : List String) → kind_at path changed ≡ kind_at path json
  unfolding read_config_from_env
  read_config_from_env-Typed [] json changed h path =
      Alike-Typed json changed (Alike-some json json changed (refl, λ j. refl) h) path
  read_config_from_env-Typed (env ∷ environ) json changed h path =
      elim (Option-cases (apply_variable stoi env json)) [
        | inl x ↦ absurd (ground arith)
        | inr (first, x) ↦
            read_config_from_env-Typed environ first changed (ground arith) path
            ∙ apply_variable-Typed env json {changed = first} x path
      ]
