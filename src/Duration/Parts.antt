-- ===== src/Duration/Parts.antt =====
-- The parts of a duration: what composePart prints, parsePart reads (src/common/DurationParse.cpp).
use app_mesh.Prelude.{
  ℕ, ◌*◌, ◌<◌, false, some, [], ◌∷◌, ◌==◌, ◌≡◌, refl, arith, if◌then◌else◌, Bool-cases, inl, inr,
}
use app_mesh.Duration.{
  Bytes, ◌>>=◌, as_int, int_limit, is_digit, stoi, to_string, scan, is_nil, part, part_text,
  parse_part,
}
use app_mesh.Duration.Digits.{value_from-to_string, scan-to_string, to_string-ne-nil}

-- The part for that letter is missing from the text.
abbrev pub Misses : ℕ → Bytes → Type 0
Misses letter s = part letter s ≡ ([], s)

pub part-letter : (letter c : ℕ) (s : Bytes) → is_digit c ≡ false → Misses letter (c ∷ s)
unfolding part scan
part-letter letter c s d = ground arith

pub part-to_string :
    (letter other n : ℕ) (rest : Bytes)
    → is_digit other ≡ false
    → part letter (to_string n (other ∷ rest))
      ≡ (if other == letter then (to_string n [], rest) else ([], to_string n (other ∷ rest)))
unfolding part
part-to_string letter other n rest d =
    rw (scan-to_string n other rest d, to_string-ne-nil n []) (ground arith)

-- The digits of a part that was printed.
abbrev pub printed : ℕ → Bytes
printed n = if n == 0 then [] else to_string n []

pub part-part_text :
    (letter n : ℕ) (rest : Bytes)
    → is_digit letter ≡ false
    → Misses letter rest
    → part letter (part_text letter n rest) ≡ (printed n, rest)
unfolding part_text
part-part_text letter n rest d m = elim (Bool-cases (n == 0)) [
  | inl z ↦ rw (z) m
  | inr z ↦ rw (z, part-to_string letter letter n rest d) (ground arith)
]

pub part-part_text_other :
    (letter other n : ℕ) (rest : Bytes)
    → is_digit other ≡ false
    → (other == letter) ≡ false
    → Misses letter rest
    → Misses letter (part_text other n rest)
unfolding part_text
part-part_text_other letter other n rest d o m = elim (Bool-cases (n == 0)) [
  | inl z ↦ rw (z) m
  | inr z ↦ rw (z, part-to_string letter other n rest d, o) refl
]

parse_part-digits :
    (unit : ℕ) (s : Bytes)
    → is_nil s ≡ false
    → parse_part unit s ≡ (stoi s >>= λ n. as_int (n * unit))
unfolding parse_part
parse_part-digits unit [] h = absurd (ground arith)
parse_part-digits unit (c ∷ s) h = refl

pub parse_part-to_string :
    (unit n : ℕ)
    → n < int_limit
    → n * unit < int_limit
    → parse_part unit (to_string n []) ≡ some (n * unit)
unfolding stoi
parse_part-to_string unit n small fits =
    rw (parse_part-digits unit (to_string n []) (to_string-ne-nil n []), value_from-to_string n)
      (ground arith)

pub parse_part-printed :
    (unit n : ℕ)
    → n < int_limit
    → n * unit < int_limit
    → parse_part unit (printed n) ≡ some (n * unit)
parse_part-printed unit n small fits = elim (Bool-cases (n == 0)) [
  | inl z ↦ rw (z) (unfold parse_part in ground arith)
  | inr z ↦ rw (z) (parse_part-to_string unit n small fits)
]
