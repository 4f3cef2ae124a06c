-- ===== src/Registry/RunExamples.antt =====
-- The theorem on requests that run applications, at a request that runs a copy of one.
use app_mesh.Prelude.{Bool, true, false, some, String, str_eq, ◌≡◌, refl}
use app_mesh.Dict.{Distinct}
use app_mesh.Text.{
  std_string_trim, text_length, start_with, space_count, kept_length, all_spaces, is_space, take,
  drop,
}
use app_mesh.Text.Search.{un_escape, string_replace, find, shift, append_to, ◌<>◌}
use app_mesh.Timer.{make_timer}
use app_mesh.Security.Model.{returns, throws, bad_json}
use app_mesh.Security.Access.{get_jwt_user_name}
use app_mesh.Registry.{Registry, Entry, find_app, is_app_exist}
use app_mesh.Registry.Names.{names}
use app_mesh.Registry.Adding.{owner_named}
use app_mesh.Consul.Apps.{fresh_entry, is_rejected, reload_spec, fresh_app, reload_limit}
use app_mesh.Registry.Running.{
  RunJson, copied, with_command_only, run_entry, parse_and_reg_run_app, parse_and_reg_run_app_lem,
}
use app_mesh.Registry.Examples.{os, reactor, known, env, request, registry}
use app_mesh.Registry.AddExamples.{staffed}

abbrev run_web : RunJson Bool
run_web = record {
  name = "web";
  with_command = false;
  retention = "10";
  retention_seconds = 10;
  read_app = throws bad_json;
}

abbrev uuid : String
uuid = "1b4e28ba"

running : Unit {0}
unfolding registry owner_named copied with_command_only run_entry parse_and_reg_run_app fresh_entry
    is_rejected reload_spec fresh_app reload_limit make_timer un_escape string_replace find shift
    append_to ◌<>◌ std_string_trim text_length start_with space_count kept_length all_spaces
    is_space take drop
running = tt

abbrev after : Registry Bool
after =
    elim (parse_and_reg_run_app os reactor env true 0 0 uuid 0 0 request run_web staffed known) [
      | returns r ↦ r.0
      | throws why ↦ known
    ]

ran :
    parse_and_reg_run_app os reactor env true 0 0 uuid 0 0 request run_web staffed known
    ≡ returns (after, uuid)
unfolding running
ran = refl

parse_and_reg_run_app_lem_example :
    (is_app_exist uuid known.apps ≡ false)
    × ((j : String) → str_eq uuid j ≡ false → find_app j after.apps ≡ find_app j known.apps)
    × ((e : Entry Bool) × (find_app uuid after.apps ≡ some e)
        × ((user : String) × (get_jwt_user_name env request ≡ returns user)
            × (owner_named staffed user ≡ returns e.owner)))
    × Distinct (names after.apps)
parse_and_reg_run_app_lem_example =
    parse_and_reg_run_app_lem os reactor env true 0 0 uuid 0 0 request run_web staffed known
      {name = uuid} (unfold running in (refl, tt)) (unfold running in refl) (unfold running in refl)
      (unfold running in refl) ran
