-- ===== src/Application/Exits.antt =====
-- The behaviour on exit of src/daemon/application/AppBehavior.cpp after it was written as JSON and read
-- back.
use app_mesh.Prelude.{
  Bool, true, false, List, [], ◌∷◌, String, str_eq, if◌then◌else◌, ◌≡◌, refl, arith, inl, inr,
  Bool-cases, All, subst, ◌∙◌,
}
use app_mesh.Prelude.Int.{ℤ, eqb_ℤ, eqb_ℤ→≡}
use app_mesh.Text.{
  std_string_trim, space_count, kept_length, all_spaces, is_space, take, drop, text_length,
}
use app_mesh.Config.{is_number}
use app_mesh.Security.Model.{Outcome, returns, throws, bad_action}
use app_mesh.Security.Saved.{as_string, as_object, filled_field, string_value}
use app_mesh.Application.State.{
  Action, standby, restart, keepalive, remove, AppBehavior, exit_action, find_action,
}
use app_mesh.Application.Behavior.{
  action2str, put_action, controls_as_json, control_field, behavior_as_json, str2action,
  read_controls, read_control_field, read_exit, behavior_init,
}
use app_mesh.Snapshot.{string, object, field, json_field, find_field}

-- The actions that have a text which is read.
abbrev pub is_settable : Action → Bool
is_settable standby = true
is_settable restart = true
is_settable keepalive = false
is_settable remove = true

-- `std::tolower` leaves the texts of the actions alone.
abbrev pub KeepsActions : (String → String) → Type 0
KeepsActions tolower = (a : Action) → tolower (action2str a) ≡ action2str a

-- The codes are written as numbers and read back as the same ones, no code stands twice, and the
-- actions have a text which is read.
abbrev pub AreControls : (ℤ → String) → (String → ℤ) → List (ℤ × Action) → Type 0
AreControls to_text atoi [] = Unit
AreControls to_text atoi ((code, action) ∷ events) =
    (is_number (to_text code) ≡ true)
    × (atoi (to_text code) ≡ code)
    × (is_settable action ≡ true)
    × All (λ e. eqb_ℤ e.0 code ≡ false) events
    × AreControls to_text atoi events

module _ (tolower : String → String) (atoi : String → ℤ) (t : KeepsActions tolower) where
  str2action-action2str :
      (a : Action)
      → str2action tolower atoi (action2str a)
        ≡ (if is_settable a then returns a else throws bad_action)
  unfolding str2action action2str
  str2action-action2str standby = rw (t standby) refl
  str2action-action2str restart = rw (t restart) refl
  str2action-action2str keepalive = rw (t keepalive) refl
  str2action-action2str remove = rw (t remove) refl

find_action-put_action :
    (k c : ℤ) (a : Action) (events : List (ℤ × Action)) (default : Action)
    → find_action k (put_action c a events) default
      ≡ (if eqb_ℤ c k then a else find_action k events default)
unfolding find_action put_action
find_action-put_action k c a [] default = refl
find_action-put_action k c a ((e, old) ∷ events) default =
    ground (arith, find_action-put_action k c a events default, eqb_ℤ→≡ e c)

absent-find_action :
    (k : ℤ) (events : List (ℤ × Action)) (default : Action)
    → All (λ e. eqb_ℤ e.0 k ≡ false) events
    → find_action k events default ≡ default
unfolding find_action
absent-find_action k [] default a = refl
absent-find_action k ((c, action) ∷ events) default a =
    ground (arith, a.0, absent-find_action k events default a.1)

abbrev put_all : List (ℤ × Action) → List (ℤ × Action) → List (ℤ × Action)
put_all [] acc = acc
put_all ((code, action) ∷ events) acc = put_all events (put_action code action acc)

find_action-put_all :
    (to_text : ℤ → String) (atoi : String → ℤ) (k : ℤ) (events acc : List (ℤ × Action))
    (default : Action)
    → AreControls to_text atoi events
    → find_action k (put_all events acc) default ≡ find_action k events (find_action k acc default)
unfolding find_action
find_action-put_all to_text atoi k [] acc default h = refl
find_action-put_all to_text atoi k ((code, action) ∷ events) acc default (n, t, s, d, h) =
    elim (Bool-cases (eqb_ℤ code k)) [
      | inl e ↦
          let same : code ≡ k = eqb_ℤ→≡ code k e in
          find_action-put_all to_text atoi k events (put_action code action acc) default h
          ∙ rw (find_action-put_action k code action acc default, e)
              (absent-find_action k events action
                (subst (λ x. All (λ y. eqb_ℤ y.0 x ≡ false) events) same d))
      | inr e ↦
          find_action-put_all to_text atoi k events (put_action code action acc) default h
          ∙ rw (find_action-put_action k code action acc default, e) refl
    ]

trimmed_action :
    (a : Action)
    → (std_string_trim (action2str a) ≡ action2str a) × (str_eq (action2str a) "" ≡ false)
unfolding action2str std_string_trim space_count kept_length all_spaces is_space take drop
    text_length
trimmed_action standby = (refl, refl)
trimmed_action restart = (refl, refl)
trimmed_action keepalive = (refl, refl)
trimmed_action remove = (refl, refl)

-- What reading gives: a behaviour with the same action for every exit code, or an exception.
abbrev pub IsReadBack : Bool → AppBehavior → Outcome AppBehavior → Type 0
IsReadBack true b read =
    (b' : AppBehavior) × (read ≡ returns b')
    × ((code : ℤ) → exit_action b' code ≡ exit_action b code)
IsReadBack false b read = read ≡ throws bad_action

module _ (to_text : ℤ → String) (tolower : String → String) (atoi : String → ℤ) where
  read_controls_lem :
      (events acc : List (ℤ × Action))
      → KeepsActions tolower
      → AreControls to_text atoi events
      → read_controls tolower atoi (controls_as_json to_text events) acc
        ≡ returns (put_all events acc)
  unfolding read_controls controls_as_json as_string
  read_controls_lem [] acc k h = refl
  read_controls_lem ((code, action) ∷ events) acc k (n, t, s, d, h) =
      rw (n, t, str2action-action2str tolower atoi k action, s)
        (read_controls_lem events (put_action code action acc) k h)

  read_control_field_lem :
      (b : AppBehavior)
      → KeepsActions tolower
      → AreControls to_text atoi b.exit_code_event
      → read_control_field tolower atoi (behavior_as_json to_text b)
        ≡ returns (put_all b.exit_code_event [])
  unfolding read_control_field behavior_as_json control_field filled_field json_field find_field
      as_object
  read_control_field_lem b k h = by_events b.exit_code_event h
    where
      by_events :
          (events : List (ℤ × Action))
          → AreControls to_text atoi events
          → read_control_field tolower atoi (
              object
                (field "exit" (string (action2str b.exit_event)) (control_field to_text events)))
            ≡ returns (put_all events [])
      by_events [] h = refl
      by_events (e ∷ events) h = read_controls_lem (e ∷ events) [] k h

  read_exit_lem :
      (b : AppBehavior)
      → KeepsActions tolower
      → read_exit tolower atoi (behavior_as_json to_text b)
        ≡ (if is_settable b.exit_event then returns b.exit_event else throws bad_action)
  unfolding read_exit behavior_as_json string_value filled_field json_field find_field as_string
  read_exit_lem b k =
      rw ((trimmed_action b.exit_event).0, (trimmed_action b.exit_event).1)
        (str2action-action2str tolower atoi k b.exit_event)

  -- Where the texts of the actions are in lower case, the exit codes are read back from their texts,
  -- no code stands twice and none has the action keepalive: if the action for other codes is not
  -- keepalive, the behaviour is read back from its JSON with the same action for every exit code, and
  -- if it is keepalive, reading the JSON throws.
  pub behavior_init-behavior_as_json :
      (b : AppBehavior)
      → KeepsActions tolower
      → AreControls to_text atoi b.exit_code_event
      → IsReadBack
          (is_settable b.exit_event)
          b
          (behavior_init tolower atoi (behavior_as_json to_text b))
  unfolding behavior_init behavior_as_json exit_action
  behavior_init-behavior_as_json b k h = elim (Bool-cases (is_settable b.exit_event)) [
    | inl e ↦ rw (e) (
      record { exit_event = b.exit_event; exit_code_event = put_all b.exit_code_event [] },
      rw (read_exit_lem b k, e, read_control_field_lem b k h) refl,
      λ code. find_action-put_all to_text atoi code b.exit_code_event [] b.exit_event h,
    )
    | inr e ↦ rw (e) (rw (read_exit_lem b k, e) refl)
  ]
