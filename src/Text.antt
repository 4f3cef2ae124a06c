-- ===== src/Text.antt =====
-- src/common/Utility.cpp: trimming, prefixes and substrings of a `std::string`. A text is taken by
-- its characters, which are its bytes if it is ASCII.
pub mod Trim
pub mod Search
pub mod Replace
mod Examples
use Prim.Native.Char.{Char, code}
use Prim.Native.String.{String as Text}
use app_mesh.Prelude.{
  ℕ, zero, suc, ◌+◌, ◌-◌, ◌*◌, Bool, true, false, ◌&&◌, ◌||◌, not, String, str_eq, if◌then◌else◌,
  leb, ltb, ◌==◌,
}

-- isspace in the C locale
unfoldable pub is_space : Char → Bool
is_space c = code c == 32 || (leb 9 (code c) && leb (code c) 13)

unfoldable pub text_length : String → ℕ
text_length Text.[] = 0
text_length (Text.◌∷◌ c s) = suc (text_length s)

-- str.substr(n)
unfoldable pub drop : ℕ → String → String
drop zero s = s
drop (suc n) Text.[] = Text.[]
drop (suc n) (Text.◌∷◌ c s) = drop n s

-- str.substr(0, n)
unfoldable pub take : ℕ → String → String
take zero s = Text.[]
take (suc n) Text.[] = Text.[]
take (suc n) (Text.◌∷◌ c s) = Text.◌∷◌ c (take n s)

-- The `start` that the first loop of `stdStringTrim` counts.
unfoldable pub space_count : String → ℕ
unfolding is_space
space_count Text.[] = 0
space_count (Text.◌∷◌ c s) = let rest = space_count s in if is_space c then suc rest else 0

unfoldable pub all_spaces : String → Bool
unfolding is_space
all_spaces Text.[] = true
all_spaces (Text.◌∷◌ c s) = is_space c && all_spaces s

-- The `len` that the second loop leaves for the text after its leading spaces.
unfoldable pub kept_length : String → ℕ
unfolding all_spaces
kept_length Text.[] = 0
kept_length (Text.◌∷◌ c s) =
    let rest = kept_length s in if all_spaces (Text.◌∷◌ c s) then 0 else suc rest

-- Utility::stdStringTrim
unfoldable pub std_string_trim : String → String
unfolding space_count kept_length take drop
std_string_trim str =
    let start = space_count str in
    let line = drop start str in
    let len = kept_length line in if leb start len then take len line else line

-- Utility::startWith
unfoldable pub start_with : String → String → Bool
unfolding take text_length
start_with big small =
    leb (text_length small) (text_length big) && str_eq (take (text_length small) big) small
