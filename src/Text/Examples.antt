-- ===== src/Text/Examples.antt =====
-- Texts at concrete inputs.
use app_mesh.Prelude.{◌≡◌, refl, arith, true, false, none, some, [], ◌∷◌}
use app_mesh.Text.{
  std_string_trim, take, drop, start_with, text_length, space_count, kept_length, all_spaces,
  is_space,
}
use app_mesh.Text.Search.{
  ◌<>◌, string_replace, split_string, find, shift, append_to, push_piece, push_before, un_escape,
  replaced, end_with,
}
use app_mesh.Text.Replace.{split_string_lem}

bearer : start_with "Bearer abc" "Bearer " ≡ true
unfolding start_with
bearer = refl

no_bearer : start_with "Bear" "Bearer " ≡ false
unfolding start_with
no_bearer = refl

-- What was put in is not searched again.
texts : Unit {0}
unfolding string_replace split_string find shift append_to ◌<>◌ start_with take drop text_length
    push_piece push_before std_string_trim space_count kept_length all_spaces is_space
texts = tt

split_string_lem_example : split_string 12 "," " a b,, c" ≡ some ("a b" ∷ "c" ∷ [])
unfolding texts
split_string_lem_example = split_string_lem 12 "," " a b,, c" (omega arith) (omega arith)

-- The text to search for is empty: the loop of stringReplace does not end within the fuel.
endless : string_replace 20 "" "x" "a" ≡ none
unfolding texts
endless = refl

twice_unescaped : un_escape (un_escape "&amp;lt;") ≡ "<"
unfolding texts un_escape replaced
twice_unescaped = refl

suffix_longer : end_with "a" "abc" ≡ none
unfolding texts end_with
suffix_longer = refl
