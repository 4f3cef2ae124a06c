-- ===== src/Config/Effects.antt =====
-- Which value of the configuration a variable of the environment sets: readConfigFromEnv of
-- src/daemon/Configuration.cpp.
use app_mesh.Prelude.{
  ℕ, Bool, true, false, ◌&&◌, ◌+◌, Option, some, List, [], ◌∷◌, String, str_eq, ◌≡◌, refl, arith,
  inl, inr, subst, Bool-cases, Option-cases, eq_iff,
}
use app_mesh.Prelude.Int.{ℤ}
use app_mesh.Text.{start_with, take, drop}
use app_mesh.Text.Search.{find}
use app_mesh.Snapshot.{Json, json_field}
use app_mesh.Config.{set_field, with_field, apply_env_config, apply_keys, apply_variable, keys_of}
use app_mesh.Config.Override.{at_path, at_path-set_field, Alike, apply_env_config-Alike}

-- The first path is the beginning of the second.
abbrev pub is_prefix : List String → List String → Bool
is_prefix [] keys = true
is_prefix (j ∷ path) [] = false
is_prefix (j ∷ path) (key ∷ keys) = str_eq key j && is_prefix path keys

-- The value at the end of these keys is set, and no other.
abbrev pub Sets : List String → Json → Json → Json → Type 0
Sets keys json value changed =
    (at_path keys changed ≡ some value)
    × ((path : List String)
        → is_prefix path keys ≡ false
        → at_path path changed ≡ at_path path json)

Sets-set_field :
    (key : String) (keys : List String) (json value above : Json) {child : Json}
    → json_field key json ≡ some child
    → Sets keys child value above
    → Sets (key ∷ keys) json value (set_field key above json)
Sets-set_field key keys json value above {child} h s = (here, frame)
  where
    here : at_path (key ∷ keys) (set_field key above json) ≡ some value
    here =
        let read = at_path-set_field key key keys above json {child = child} h in
        ground (arith, read, s.0, eq_iff key key)

    frame :
        (path : List String)
        → is_prefix path (key ∷ keys) ≡ false
        → at_path path (set_field key above json) ≡ at_path path json
    frame [] p = absurd (ground arith)
    frame (j ∷ path) p =
        let read = at_path-set_field key j path above json {child = child} h in
        elim (Bool-cases (str_eq key j)) [
          | inl e ↦
              let same : key ≡ j = ground (arith, eq_iff key j) in
              let below : at_path (j ∷ path) json ≡ at_path path child =
                subst (λ k. at_path (k ∷ path) json ≡ at_path path child) same
                  (unfold at_path in rw (at_path, h) refl) in
              let behind = s.1 path (ground arith) in ground arith
          | inr e ↦ ground arith
        ]

Sets-here : (json value : Json) → Alike json value → Sets [] json value value
unfolding at_path
Sets-here json value a = (refl, λ path p. frame path p)
  where
    frame :
        (path : List String) → is_prefix path [] ≡ false → at_path path value ≡ at_path path json
    frame [] p = absurd (ground arith)
    frame (j ∷ path) p = rw (at_path, a.1 j) refl

module _ (stoi : String → Option ℤ) where
  apply_keys-Sets :
      (key : String) (keys : List String) (env_value : String) (json leaf value : Json)
      → at_path (key ∷ keys) json ≡ some leaf
      → apply_env_config stoi leaf env_value ≡ some value
      → (changed : Json) × (apply_keys stoi (key ∷ keys) env_value json ≡ some changed)
        × Sets (key ∷ keys) json value changed
  unfolding apply_keys with_field at_path
  apply_keys-Sets key [] env_value json leaf value h e = elim (Option-cases (json_field key json)) [
    | inl x ↦ absurd (ground arith)
    | inr (child, x) ↦
        let same : leaf ≡ child = ground arith in
        let applied : apply_env_config stoi child env_value ≡ some value =
          subst (λ c. apply_env_config stoi c env_value ≡ some value) same e in
        (
          set_field key value json,
          rw (apply_keys, x, applied) refl,
          Sets-set_field key [] json value value {child = child} x (
              Sets-here child value
                (apply_env_config-Alike stoi child env_value {changed = value} applied)),
        )
  ]
  apply_keys-Sets key (next ∷ keys) env_value json leaf value h e =
      elim (Option-cases (json_field key json)) [
        | inl x ↦ absurd (ground arith)
        | inr (child, x) ↦
            let below =
              apply_keys-Sets next keys env_value child leaf value (rw (at_path, x) at h) e in
            (
              set_field key below.0 json,
              rw (apply_keys, x, below.1) refl,
              Sets-set_field key (next ∷ keys) json value below.0 {child = child} x below.2,
            )
      ]

  -- A variable whose name starts with APPMESH_, and whose further parts are keys that lead to a value
  -- of the configuration, which the text of the variable can be converted to: that value becomes the
  -- converted text, and every path that is not a beginning of these keys leads to what it did.
  pub apply_variable-Sets :
      (env : String) (json leaf value : Json) {position : ℕ} {key : String} {keys : List String}
      → start_with env "APPMESH_" ≡ true
      → find "=" env ≡ some position
      → keys_of (take position env) ≡ key ∷ keys
      → at_path (key ∷ keys) json ≡ some leaf
      → apply_env_config stoi leaf (drop (position + 1) env) ≡ some value
      → (changed : Json) × (apply_variable stoi env json ≡ some changed)
        × Sets (key ∷ keys) json value changed
  unfolding apply_variable
  apply_variable-Sets env json leaf value {position} {key} {keys} s f k h e =
      rw (apply_variable, s, f, k)
        (apply_keys-Sets key keys (drop (position + 1) env) json leaf value h e)
