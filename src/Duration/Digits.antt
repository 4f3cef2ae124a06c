-- ===== src/Duration/Digits.antt =====
-- Printing a number and reading it again, as DurationParse of src/common/DurationParse.cpp does.
use app_mesh.Prelude.{ℕ, zero, suc, ◌+◌, ◌/◌, ◌%◌, ◌<◌, false, [], ◌∷◌, ◌≡◌, ◌∙◌, refl, arith}
use app_mesh.Duration.{Bytes, is_digit, value_from, digits_on, to_string, scan, is_nil}

scan-digits_on :
    (fuel n : ℕ) (s : Bytes) → scan (digits_on fuel n s) ≡ (digits_on fuel n (scan s).0, (scan s).1)
unfolding scan digits_on is_digit
scan-digits_on zero n s = refl
scan-digits_on (suc fuel) n s = ground (arith, scan-digits_on fuel (n / 10) ((b'0' + n % 10) ∷ s))

value_from-digits_on :
    (fuel n : ℕ) (s : Bytes) → n < fuel → value_from 0 (digits_on fuel n s) ≡ value_from n s
unfolding value_from digits_on
value_from-digits_on zero n s h = ground arith
value_from-digits_on (suc fuel) n s h =
    ground (arith, value_from-digits_on fuel (n / 10) ((b'0' + n % 10) ∷ s))

-- A number that is printed before other text is read back from it.
pub value_from-to_string : (n : ℕ) → value_from 0 (to_string n []) ≡ n
unfolding to_string value_from
value_from-to_string n = value_from-digits_on (suc n) n [] (ground arith)

pub scan-to_string :
    (n letter : ℕ) (s : Bytes)
    → is_digit letter ≡ false
    → scan (to_string n (letter ∷ s)) ≡ (to_string n [], letter ∷ s)
unfolding to_string scan
scan-to_string n letter s d = scan-digits_on (suc n) n (letter ∷ s) ∙ rw (d) refl

digits_on-ne-nil : (fuel n c : ℕ) (s : Bytes) → is_nil (digits_on fuel n (c ∷ s)) ≡ false
unfolding digits_on
digits_on-ne-nil zero n c s = refl
digits_on-ne-nil (suc fuel) n c s =
    ground (arith, digits_on-ne-nil fuel (n / 10) (b'0' + n % 10) (c ∷ s))

pub to_string-ne-nil : (n : ℕ) (s : Bytes) → is_nil (to_string n s) ≡ false
unfolding to_string digits_on
to_string-ne-nil n s = ground (arith, digits_on-ne-nil n (n / 10) (b'0' + n % 10) s)
