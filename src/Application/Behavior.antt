-- ===== src/Application/Behavior.antt =====
-- The JSON of an application's behaviour on exit: src/daemon/application/AppBehavior.cpp. `tolower` is
-- `std::tolower` on the characters of a text, `to_text` is `std::to_string`, and `atoi` is `std::atoi`.
use app_mesh.Prelude.{not, none, some, List, [], ◌∷◌, String, str_eq, if◌then◌else◌}
use app_mesh.Prelude.Int.{ℤ, eqb_ℤ}
use app_mesh.Config.{is_number}
use app_mesh.Security.Model.{Outcome, returns, throws, ◌>>=◌, ◌>>◌, throw_if, bad_action, bad_code}
use app_mesh.Security.Saved.{as_string, as_object, filled_field, string_value}
use app_mesh.Application.State.{Action, standby, restart, keepalive, remove, AppBehavior}
use app_mesh.Snapshot.{Json, null, string, object, Fields, no_field, field}

-- AppBehavior::action2str
unfoldable pub action2str : Action → String
action2str standby = "standby"
action2str restart = "restart"
action2str keepalive = "keepalive"
action2str remove = "remove"

-- `m_exitCodeEvent[code] = action`
unfoldable pub put_action : ℤ → Action → List (ℤ × Action) → List (ℤ × Action)
put_action code action [] = (code, action) ∷ []
put_action code action ((c, old) ∷ events) =
    let rest = put_action code action events in
    if eqb_ℤ c code then (code, action) ∷ events else (c, old) ∷ rest

module _ (to_text : ℤ → String) where
  -- The loop of AppBehavior::behaviorAsJson.
  unfoldable pub controls_as_json : List (ℤ × Action) → Fields
  unfolding action2str
  controls_as_json [] = no_field
  controls_as_json ((code, action) ∷ events) =
      field (to_text code) (string (action2str action)) (controls_as_json events)

  unfoldable pub control_field : List (ℤ × Action) → Fields
  unfolding controls_as_json
  control_field [] = no_field
  control_field ((code, action) ∷ events) =
      field "control" (object (controls_as_json ((code, action) ∷ events))) no_field

  unfoldable pub behavior_as_json : AppBehavior → Json
  unfolding control_field
  behavior_as_json b =
      object (field "exit" (string (action2str b.exit_event)) (control_field b.exit_code_event))

module _ (tolower : String → String) (atoi : String → ℤ) where
  unfoldable pub str2action : String → Outcome Action
  str2action text =
      let lower = tolower text in
      if str_eq lower "standby"
      then returns standby
      else if str_eq lower "restart"
      then returns restart
      else if str_eq lower "remove"
      then returns remove
      else throws bad_action

  -- The loop of AppBehavior::behaviorInit over the exit codes.
  unfoldable pub read_controls : Fields → List (ℤ × Action) → Outcome (List (ℤ × Action))
  unfolding is_number as_string str2action put_action
  read_controls no_field events = returns events
  read_controls (field code json fields) events = do
    throw_if (not (is_number code)) bad_code
    text ← as_string json
    action ← str2action text
    read_controls fields (put_action (atoi code) action events)

  unfoldable pub read_control_field : Json → Outcome (List (ℤ × Action))
  unfolding filled_field as_object read_controls
  read_control_field config = elim (filled_field "control" config) [
    | none ↦ returns []
    | some value ↦ as_object value >>= λ fields. read_controls fields []
  ]

  -- The action of the field "exit", if that is a text that is not empty.
  unfoldable pub read_exit : Json → Outcome Action
  unfolding string_value str2action
  read_exit config = string_value "exit" config >>= λ exit.
      if str_eq exit "" then returns standby else str2action exit

  unfoldable pub behavior_init : Json → Outcome AppBehavior
  unfolding read_exit read_control_field
  behavior_init null = returns (record { exit_event = standby; exit_code_event = [] })
  behavior_init config = do
    exit ← read_exit config
    events ← read_control_field config
    returns (record { exit_event = exit; exit_code_event = events })
