-- ===== src/Text/Search.antt =====
-- src/common/Utility.cpp: stringReplace, unEscape, splitString and endWith. A position in a text is
-- kept as the text from there on. The loops run on fuel, and `none` is a loop that is not done yet;
-- they never end where the text to search for is empty.
use Prim.Native.String.{String as Text}
use app_mesh.Prelude.{
  ℕ, zero, suc, ◌+◌, ◌-◌, Bool, Option, none, some, List, [], ◌∷◌, String, str_eq, if◌then◌else◌,
  ltb, ◌==◌,
}
use app_mesh.Text.{std_string_trim, start_with, take, drop, text_length}

infixr 30 ◌<>◌
unfoldable pub ◌<>◌ : String → String → String
Text.[] <> t = t
Text.◌∷◌ c s <> t = Text.◌∷◌ c (s <> t)

unfoldable pub shift : Option ℕ → Option ℕ
shift none = none
shift (some p) = some (suc p)

-- str.find(src)
unfoldable pub find : String → String → Option ℕ
unfolding start_with shift
find src Text.[] = if start_with Text.[] src then some 0 else none
find src (Text.◌∷◌ c s) =
    let rest = shift (find src s) in if start_with (Text.◌∷◌ c s) src then some 0 else rest

unfoldable pub append_to : Option String → String → Option String
append_to none s = none
append_to (some rest) s = some (s <> rest)

-- Utility::stringReplace from the position 0.
unfoldable pub string_replace : ℕ → String → String → String → Option String
unfolding find append_to take drop text_length
string_replace zero src dst str = none
string_replace (suc fuel) src dst str = elim (find src str) [
  | none ↦ some str
  | some p ↦
      append_to (string_replace fuel src dst (drop (p + text_length src) str)) (take p str <> dst)
]

-- Utility::stringReplace with the fuel that is enough for a text to search for that is not empty.
unfoldable pub replaced : String → String → String → String
unfolding string_replace
replaced src dst str = elim (string_replace (suc (text_length str)) src dst str) [
  | none ↦ str
  | some result ↦ result
]

unfoldable pub un_escape : String → String
unfolding replaced
un_escape str = replaced "&#39;" "'" (
    replaced "&quot;" "\"" (
      replaced "&apos;" "'" (replaced "&gt;" ">" (replaced "&lt;" "<" (replaced "&amp;" "&" str)))))

-- result.push_back(str) of a piece that is trimmed and not empty.
unfoldable pub push_piece : String → List String → List String
unfolding std_string_trim text_length
push_piece piece result =
    let str = std_string_trim piece in if ltb 0 (text_length str) then str ∷ result else result

unfoldable pub push_before : Option (List String) → String → Option (List String)
unfolding push_piece
push_before none piece = none
push_before (some result) piece = some (push_piece piece result)

unfoldable pub split_string : ℕ → String → String → Option (List String)
unfolding find push_before push_piece take drop text_length
split_string zero flag source = none
split_string (suc fuel) flag source = elim (find flag source) [
  | none ↦ some (if text_length source == 0 then [] else push_piece source [])
  | some p ↦
      push_before (split_string fuel flag (drop (p + text_length flag) source)) (take p source)
]

-- Utility::endWith. `none` is the exception of `compare`, whose position is behind the end of a text
-- that is shorter than the suffix. Two references to one text give what two equal texts give.
unfoldable pub end_with : String → String → Option Bool
unfolding drop text_length
end_with big small =
    if ltb (text_length big) (text_length small)
    then none
    else some (str_eq (drop (text_length big - text_length small) big) small)
