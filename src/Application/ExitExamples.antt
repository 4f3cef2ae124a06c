-- ===== src/Application/ExitExamples.antt =====
-- The theorem on the JSON of a behaviour, at one with an exit code and at one that is refused.
use app_mesh.Prelude.{true, [], ◌∷◌, String, refl}
use app_mesh.Prelude.Int.{ℤ, pos}
use app_mesh.Config.{is_number, all_digits, is_digit}
use app_mesh.Text.{text_length}
use app_mesh.Application.State.{restart, remove, AppBehavior}
use app_mesh.Application.Behavior.{behavior_as_json, behavior_init}
use app_mesh.Application.Exits.{
  KeepsActions, AreControls, IsReadBack, behavior_init-behavior_as_json,
}

-- The texts of these are in lower case, and 3 is the only code.
abbrev lower : String → String
lower s = s

abbrev to_text : ℤ → String
to_text n = "3"

abbrev atoi : String → ℤ
atoi s = pos 3

abbrev removing : AppBehavior
removing = record { exit_event = restart; exit_code_event = (pos 3, remove) ∷ [] }

lower-KeepsActions : KeepsActions lower
lower-KeepsActions a = refl

removing-AreControls : AreControls to_text atoi removing.exit_code_event
unfolding is_number all_digits is_digit text_length
removing-AreControls = (refl, refl, refl, tt, tt)

behavior_init-behavior_as_json_example :
    IsReadBack true removing (behavior_init lower atoi (behavior_as_json to_text removing))
behavior_init-behavior_as_json_example =
    behavior_init-behavior_as_json to_text lower atoi removing lower-KeepsActions
      removing-AreControls
