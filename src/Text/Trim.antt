-- ===== src/Text/Trim.antt =====
-- What trimming does to a text with blanks around it: Utility::stdStringTrim.
use Prim.Native.String.{String as Text}
use app_mesh.Prelude.{
  ℕ, zero, suc, ◌+◌, ◌<◌, true, String, if◌then◌else◌, leb, ◌≡◌, ap, refl, arith,
}
use app_mesh.Text.{std_string_trim, take, drop, text_length, space_count, kept_length, all_spaces}

-- A text with n blanks before it, or after it.
abbrev pub indent : ℕ → String → String
indent zero s = s
indent (suc n) s = Text.◌∷◌ " " (indent n s)

abbrev pub blanks : ℕ → String
blanks n = indent n Text.[]

abbrev pub trail : String → ℕ → String
trail Text.[] m = blanks m
trail (Text.◌∷◌ c s) m = Text.◌∷◌ c (trail s m)

-- A text that has characters, and neither its first nor its last one is a blank.
abbrev pub IsTrimmed : String → Type 0
IsTrimmed s = (0 < text_length s) × (space_count s ≡ 0) × (kept_length s ≡ text_length s)

space_count-indent : (n : ℕ) (s : String) → space_count (indent n s) ≡ n + space_count s
unfolding space_count
space_count-indent zero s = ground arith
space_count-indent (suc n) s = ground (arith, space_count-indent n s)

drop-indent : (n : ℕ) (s : String) → drop n (indent n s) ≡ s
unfolding drop
drop-indent zero s = refl
drop-indent (suc n) s = drop-indent n s

all_spaces-blanks : (m : ℕ) → all_spaces (blanks m) ≡ true
unfolding all_spaces
all_spaces-blanks zero = refl
all_spaces-blanks (suc m) = all_spaces-blanks m

all_spaces-trail : (s : String) (m : ℕ) → all_spaces (trail s m) ≡ all_spaces s
unfolding all_spaces
all_spaces-trail Text.[] m = all_spaces-blanks m
all_spaces-trail (Text.◌∷◌ c s) m = ground (arith, all_spaces-trail s m)

kept_length-blanks : (m : ℕ) → kept_length (blanks m) ≡ 0
unfolding kept_length all_spaces
kept_length-blanks zero = refl
kept_length-blanks (suc m) = ground (arith, all_spaces-blanks m)

kept_length-trail : (s : String) (m : ℕ) → kept_length (trail s m) ≡ kept_length s
unfolding kept_length all_spaces
kept_length-trail Text.[] m = kept_length-blanks m
kept_length-trail (Text.◌∷◌ c s) m = ground (arith, all_spaces-trail s m, kept_length-trail s m)

take-trail : (s : String) (m : ℕ) → take (text_length s) (trail s m) ≡ s
unfolding take text_length
take-trail Text.[] m = refl
take-trail (Text.◌∷◌ c s) m = ap (Text.◌∷◌ c) (take-trail s m)

space_count-trail : (s : String) (m : ℕ) → IsTrimmed s → space_count (trail s m) ≡ 0
unfolding space_count text_length
space_count-trail Text.[] m t = absurd (ground arith)
space_count-trail (Text.◌∷◌ c s) m t = ground (arith, t.1)

space_count-around :
    (core : String) (n m : ℕ) → IsTrimmed core → space_count (indent n (trail core m)) ≡ n
space_count-around core n m t =
    ground (arith, space_count-indent n (trail core m), space_count-trail core m t)

-- A text with n blanks before it and m after it is trimmed to the text, if n is at most its length;
-- otherwise only the blanks before it go.
pub std_string_trim_lem :
    (core : String) (n m : ℕ)
    → IsTrimmed core
    → std_string_trim (indent n (trail core m))
      ≡ (if leb n (text_length core) then core else trail core m)
unfolding std_string_trim
std_string_trim_lem core n m t =
    rw
      (
        space_count-around core n m t,
        drop-indent n (trail core m),
        kept_length-trail core m,
        t.2,
        take-trail core m,
      )
      (ground arith)
