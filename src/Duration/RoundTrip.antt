-- ===== src/Duration/RoundTrip.antt =====
-- DurationParse::compose and DurationParse::parse of src/common/DurationParse.cpp are inverse.
use app_mesh.Prelude.{
  ℕ, ◌+◌, ◌*◌, ◌/◌, ◌%◌, ◌<◌, true, false, some, [], ◌∷◌, ◌==◌, ◌≡◌, ◌∙◌, refl, arith,
  if◌then◌else◌, Bool-cases, inl, inr,
}
use app_mesh.Prelude.Int.{pos}
use app_mesh.Duration.{
  Bytes, ◌>>=◌, int_limit, is_digit, to_string, part, part_text, parse_part, parse_months, add_int,
  scan, parse_time, parse_after_date, parse_date_time, parse_period, parse, compose, time_text,
  is_number,
}
use app_mesh.Duration.Digits.{to_string-ne-nil}
use app_mesh.Duration.Parts.{
  Misses, part-letter, part-to_string, parse_part-to_string, part-part_text, part-part_text_other,
  parse_part-printed, printed,
}

Misses-nil : (letter : ℕ) → Misses letter []
unfolding part scan
Misses-nil letter = refl

-- The times of a day.
parse_time-time_text : (time : ℕ) → time < 86400 → parse_time (time_text time) ≡ some time
unfolding parse_time time_text is_digit add_int
parse_time-time_text time day =
    let seconds = part_text b'S' (time % 60) [] in
    let minutes = part_text b'M' (time % 3600 / 60) seconds in
    let s_h : Misses b'H' seconds =
      part-part_text_other b'H' b'S' (time % 60) [] refl refl (Misses-nil b'H') in
    let s_m : Misses b'M' seconds =
      part-part_text_other b'M' b'S' (time % 60) [] refl refl (Misses-nil b'M') in
    let m_h : Misses b'H' minutes =
      part-part_text_other b'H' b'M' (time % 3600 / 60) seconds refl refl s_h in
    rw
      (
        part-part_text b'H' (time / 3600) minutes refl m_h,
        part-part_text b'M' (time % 3600 / 60) seconds refl s_m,
        part-part_text b'S' (time % 60) [] refl (Misses-nil b'S'),
        parse_part-printed 3600 (time / 3600) (omega arith) (omega arith),
        parse_part-printed 60 (time % 3600 / 60) (omega arith) (omega arith),
        parse_part-printed 1 (time % 60) (omega arith) (omega arith),
      )
      (ground arith)

-- The text after the days.
abbrev after_days : ℕ → Bytes
after_days time = if time == 0 then [] else b'T' ∷ time_text time

Misses-after_days : (letter time : ℕ) → Misses letter (after_days time)
Misses-after_days letter time = elim (Bool-cases (time == 0)) [
  | inl z ↦ rw (z) (Misses-nil letter)
  | inr z ↦ rw (z) (part-letter letter b'T' (time_text time) (unfold is_digit in refl))
]

parse_after_date-after_days :
    (date time : ℕ)
    → time < 86400
    → date + time < int_limit
    → parse_after_date (some date) (after_days time) ≡ some (date + time)
unfolding parse_after_date add_int
parse_after_date-after_days date time day fits = elim (Bool-cases (time == 0)) [
  | inl z ↦ rw (z) (ground arith)
  | inr z ↦ rw (z, parse_time-time_text time day) (ground arith)
]

-- The sum of a date that has days only.
date_of_days :
    (days : ℕ)
    → days * 86400 < int_limit
    → add_int (add_int (parse_part 31536000 []) (parse_months [])) (parse_part 86400 (printed days))
      ≡ some (days * 86400)
unfolding add_int parse_months
date_of_days days fits =
    rw (parse_part-printed 86400 days (omega arith) fits) (unfold parse_part in ground arith)

parse_date_time-part_text :
    (days time : ℕ)
    → time < 86400
    → days * 86400 + time < int_limit
    → parse_date_time (part_text b'D' days (after_days time)) ≡ some (days * 86400 + time)
unfolding parse_date_time is_digit
parse_date_time-part_text days time day fits =
    let rest = after_days time in
    let m_y = part-part_text_other b'Y' b'D' days rest refl refl (Misses-after_days b'Y' time) in
    let m_m = part-part_text_other b'M' b'D' days rest refl refl (Misses-after_days b'M' time) in
    rw
      (
        m_y,
        m_m,
        part-part_text b'D' days rest refl (Misses-after_days b'D' time),
        date_of_days days (omega arith),
      )
      (parse_after_date-after_days (days * 86400) time day fits)

is_number-period : (s : Bytes) → is_number (b'P' ∷ s) ≡ false
unfolding is_number is_digit
is_number-period [] = refl
is_number-period (c ∷ s) = refl

parse-period : (s : Bytes) → parse (b'P' ∷ s) ≡ (parse_period s >>= λ n. some (pos n))
unfolding parse
parse-period s = rw (is_number-period s) refl

-- A duration that was composed without weeks is parsed to the same number of seconds, for every number
-- of seconds that an `int` holds.
pub parse-compose : (time : ℕ) → time < int_limit → parse (compose time false) ≡ some (pos time)
unfolding compose is_digit parse_period
parse-compose time small =
    let rest = after_days (time % 86400) in
    let days = time / 86400 in
    let no_week : Misses b'W' (part_text b'D' days rest) =
      part-part_text_other b'W' b'D' days rest refl refl (Misses-after_days b'W' (time % 86400)) in
    let date = parse_date_time-part_text days (time % 86400) (omega arith) (omega arith) in
    parse-period (part_text b'D' days rest) ∙ rw (no_week, date) (ground arith)

-- A duration that was composed in weeks is parsed to its whole weeks.
pub parse-compose_weeks :
    (time : ℕ) → time < int_limit → parse (compose time true) ≡ some (pos (time / 604800 * 604800))
unfolding compose is_digit parse_period
parse-compose_weeks time small =
    let weeks = time / 604800 in
    parse-period (to_string weeks (b'W' ∷ []))
    ∙ rw
        (
          part-to_string b'W' b'W' weeks [] refl,
          to_string-ne-nil weeks [],
          parse_part-to_string 604800 weeks (omega arith) (omega arith),
        )
        refl
