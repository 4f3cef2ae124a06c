-- ===== src/Duration.antt =====
-- src/common/DurationParse.cpp: ISO 8601 durations, with a text as the list of its bytes. The two
-- regular expressions are read from the left: each of their parts is digits and one letter, so there is
-- only one way to match. `none` is an exception, and also an `int` that overflows, which is undefined.
pub mod Digits
pub mod Parts
pub mod RoundTrip
mod Examples
use app_mesh.Prelude.{
  ℕ, zero, suc, ◌+◌, ◌-◌, ◌*◌, ◌/◌, ◌%◌, Bool, true, false, not, ◌&&◌, ◌||◌, Option, none, some,
  List, [], ◌∷◌, ◌++◌, ltb, leb, ◌==◌, if◌then◌else◌,
}
use app_mesh.Prelude.Int.{ℤ, pos, neg_ℤ}

abbrev pub Bytes : Type 0
Bytes = List ℕ

abbrev pub int_limit : ℕ
int_limit = 2147483648

infixl 5 ◌>>=◌
abbrev pub ◌>>=◌ {ℓ κ} : {A : Type ℓ} {B : Type κ} → Option A → (A → Option B) → Option B
none >>= f = none
some a >>= f = f a

-- A result as an `int`.
abbrev pub as_int : ℕ → Option ℕ
as_int n = if ltb n int_limit then some n else none

unfoldable pub is_digit : ℕ → Bool
is_digit c = leb b'0' c && leb c b'9'

unfoldable pub all_digits : Bytes → Bool
unfolding is_digit
all_digits [] = true
all_digits (c ∷ s) = is_digit c && all_digits s

-- The number that digits stand for, after a first part.
unfoldable pub value_from : ℕ → Bytes → ℕ
value_from acc [] = acc
value_from acc (c ∷ s) = value_from (acc * 10 + (c - b'0')) s

-- std::stoi of digits
unfoldable pub stoi : Bytes → Option ℕ
unfolding value_from
stoi s = as_int (value_from 0 s)

-- std::to_string of a number, on fuel: a number has no more digits than its successor.
unfoldable pub digits_on : ℕ → ℕ → Bytes → Bytes
digits_on zero n rest = rest
digits_on (suc fuel) n rest =
    let more = digits_on fuel (n / 10) ((b'0' + n % 10) ∷ rest) in
    if ltb n 10 then (b'0' + n) ∷ rest else more

-- std::to_string(n), before the text `rest`.
unfoldable pub to_string : ℕ → Bytes → Bytes
unfolding digits_on
to_string n rest = digits_on (suc n) n rest

-- Utility::isNumber
unfoldable pub is_number : Bytes → Bool
unfolding all_digits
is_number [] = false
is_number (c ∷ []) = is_digit c
is_number (c ∷ d ∷ s) = (c == b'-' || is_digit c) && is_digit d && all_digits s

unfoldable pub number_value : Bytes → Option ℤ
unfolding stoi
number_value [] = none
number_value (c ∷ s) =
    if c == b'-'
    then (if leb (value_from 0 s) int_limit then some (neg_ℤ (pos (value_from 0 s))) else none)
    else (stoi (c ∷ s) >>= λ n. some (pos n))

-- The digits that a text starts with, and the rest.
unfoldable pub scan : Bytes → Bytes × Bytes
unfolding is_digit
scan [] = ([], [])
scan (c ∷ s) = let rest = scan s in if is_digit c then (c ∷ rest.0, rest.1) else ([], c ∷ s)

abbrev pub is_nil : Bytes → Bool
is_nil [] = true
is_nil (c ∷ s) = false

abbrev pub starts : ℕ → Bytes → Bool
starts letter [] = false
starts letter (c ∷ s) = c == letter

abbrev pub tail : Bytes → Bytes
tail [] = []
tail (c ∷ s) = s

-- One optional part `([0-9]+X)?` of the expression for the letter X: its digits, which are empty
-- where the part is missing, and the rest.
unfoldable pub part : ℕ → Bytes → Bytes × Bytes
unfolding scan
part letter s =
    let scanned = scan s in
    if not (is_nil scanned.0) && starts letter scanned.1
    then (scanned.0, tail scanned.1)
    else ([], s)

-- parsePart, for digits of a part whose unit is so many seconds.
unfoldable pub parse_part : ℕ → Bytes → Option ℕ
unfolding stoi
parse_part unit [] = some 0
parse_part unit (c ∷ s) = do n ← stoi (c ∷ s); as_int (n * unit)

-- parsePart for months, which are an error unless there are none.
unfoldable pub parse_months : Bytes → Option ℕ
unfolding stoi
parse_months [] = some 0
parse_months (c ∷ s) = do n ← stoi (c ∷ s); if n == 0 then some 0 else none

unfoldable pub add_int : Option ℕ → Option ℕ → Option ℕ
add_int a b = do m ← a; n ← b; as_int (m + n)

unfoldable pub parse_time : Bytes → Option ℕ
unfolding part parse_part add_int
parse_time s =
    let h = part b'H' s in
    let m = part b'M' h.1 in
    let t = part b'S' m.1 in
    if is_nil t.1
    then add_int (add_int (parse_part 3600 h.0) (parse_part 60 m.0)) (parse_part 1 t.0)
    else none

-- What follows the date, which was read already.
unfoldable pub parse_after_date : Option ℕ → Bytes → Option ℕ
unfolding parse_time
parse_after_date date s =
    if is_nil s then date else if starts b'T' s then add_int date (parse_time (tail s)) else none

unfoldable pub parse_date_time : Bytes → Option ℕ
unfolding parse_after_date parse_months
parse_date_time s =
    let y = part b'Y' s in
    let m = part b'M' y.1 in
    let d = part b'D' m.1 in
    parse_after_date
      (add_int (add_int (parse_part 31536000 y.0) (parse_months m.0)) (parse_part 86400 d.0)) d.1

-- What follows the letter P.
unfoldable pub parse_period : Bytes → Option ℕ
unfolding parse_date_time
parse_period s =
    let w = part b'W' s in
    if not (is_nil w.0) && is_nil w.1 then parse_part 604800 w.0 else parse_date_time s

-- DurationParse::parse
unfoldable pub parse : Bytes → Option ℤ
unfolding is_number number_value parse_period
parse [] = some (pos 0)
parse (c ∷ s) =
    if is_number (c ∷ s)
    then number_value (c ∷ s)
    else if c == b'P'
    then (parse_period s >>= λ n. some (pos n))
    else none

-- The text that composePart makes for a part, before the text that follows.
unfoldable pub part_text : ℕ → ℕ → Bytes → Bytes
unfolding to_string
part_text letter n rest = if n == 0 then rest else to_string n (letter ∷ rest)

-- The parts for hours, minutes and seconds.
unfoldable pub time_text : ℕ → Bytes
unfolding part_text
time_text time =
    part_text b'H' (time / 3600) (part_text b'M' (time % 3600 / 60) (part_text b'S' (time % 60) []))

-- DurationParse::compose, of a time that is not negative.
unfoldable pub compose : ℕ → Bool → Bytes
unfolding time_text
compose time true = b'P' ∷ to_string (time / 604800) (b'W' ∷ [])
compose time false =
    let rest = time_text (time % 86400) in
    b'P' ∷ part_text b'D' (time / 86400) (if time % 86400 == 0 then [] else b'T' ∷ rest)
