-- ===== src/Prelude/Order.antt =====
-- The order of texts is transitive, and no text is before itself.
use Prim.Native.Char.{Char, code}
use Prim.Native.String.{String as Text, compare as compare_text, then as or_else}
use Prim.Native.String.compare
use Prim.Native.Nat.{ℕ, ◌<◌, compare as compare_ℕ, Ordering}
use mathlib.Core.Path.{◌≡◌, refl, ap, ap₂, ◌∙◌}
use mathlib.Core.Logic.{◌⊎◌, inl, inr}
use text.Mathlib.TextEquality.{Char-path}
use mathlib.Core.Bool.{Bool, true, false}
use native.Mathlib.Omega.{arith}
use app_mesh.Prelude.Tests.{str_lt, ltb, ◌==◌, if◌then◌else◌}

is_before : Ordering → Bool
is_before Ordering.lt = true
is_before Ordering.eq = false
is_before Ordering.gt = false

before-codes :
    (m n : ℕ) (o : Ordering)
    → is_before (or_else (compare_ℕ m n) o)
      ≡ (if ltb m n then true else if m == n then is_before o else false)
unfolding is_before
before-codes m n o = by_order (compare_ℕ m n)
  where
    by_order :
        (r : Ordering)
        → is_before (or_else r o) ≡ (
            if (elim r [ Ordering.lt ↦ true | _ ↦ false ])
            then true
            else if (elim r [ Ordering.eq ↦ true | _ ↦ false ])
            then is_before o
            else false)
    by_order Ordering.lt = refl
    by_order Ordering.eq = refl
    by_order Ordering.gt = refl

str_lt-cons :
    (c d : Char) (s t : Text)
    → str_lt (Text.◌∷◌ c s) (Text.◌∷◌ d t)
      ≡ (if ltb (code c) (code d) then true else if code c == code d then str_lt s t else false)
unfolding is_before
str_lt-cons c d s t =
    ap is_before (compare.cons-cons c d s t) ∙ before-codes (code c) (code d) (compare_text s t)

str_lt-nil : (s : Text) → str_lt s Text.[] ≡ false
unfolding is_before
str_lt-nil Text.[] = ap is_before compare.nil-nil
str_lt-nil (Text.◌∷◌ c s) = ap is_before (compare.cons-nil c s)

nil-str_lt : (c : Char) (s : Text) → str_lt Text.[] (Text.◌∷◌ c s) ≡ true
unfolding is_before
nil-str_lt c s = ap is_before (compare.nil-cons c s)

pub str_lt_trans : (s t u : Text) → str_lt s t ≡ true → str_lt t u ≡ true → str_lt s u ≡ true
str_lt_trans s Text.[] u h k = absurd (ground (arith, str_lt-nil s))
str_lt_trans s (Text.◌∷◌ d t) Text.[] h k = absurd (ground (arith, str_lt-nil (Text.◌∷◌ d t)))
str_lt_trans Text.[] (Text.◌∷◌ d t) (Text.◌∷◌ e u) h k = nil-str_lt e u
str_lt_trans (Text.◌∷◌ c s) (Text.◌∷◌ d t) (Text.◌∷◌ e u) h k =
    ground
      (arith, str_lt-cons c d s t, str_lt-cons d e t u, str_lt-cons c e s u, str_lt_trans s t u)

pub str_lt_irrefl : (s : Text) → str_lt s s ≡ false
str_lt_irrefl Text.[] = str_lt-nil Text.[]
str_lt_irrefl (Text.◌∷◌ c s) = ground (arith, str_lt-cons c c s s, str_lt_irrefl s)

compared : (m n : ℕ) → (m < n) ⊎ ((m ≡ n) ⊎ (n < m))
compared m n = ground arith

-- Two texts are equal, or one of them is before the other.
pub str_lt_total : (s t : Text) → (str_lt s t ≡ true) ⊎ ((s ≡ t) ⊎ (str_lt t s ≡ true))
str_lt_total Text.[] Text.[] = inr (inl refl)
str_lt_total Text.[] (Text.◌∷◌ d t) = inl (nil-str_lt d t)
str_lt_total (Text.◌∷◌ c s) Text.[] = inr (inr (nil-str_lt c s))
str_lt_total (Text.◌∷◌ c s) (Text.◌∷◌ d t) = elim (str_lt_total s t) [
  | inl h ↦ elim (compared (code c) (code d)) [
    | inl l ↦ inl (ground (arith, str_lt-cons c d s t))
    | inr (inl e) ↦ inl (ground (arith, str_lt-cons c d s t))
    | inr (inr g) ↦ inr (inr (ground (arith, str_lt-cons d c t s)))
  ]
  | inr (inl h) ↦ elim (compared (code c) (code d)) [
    | inl l ↦ inl (ground (arith, str_lt-cons c d s t))
    | inr (inl e) ↦ inr (inl (ap₂ Text.◌∷◌ (Char-path c d e) h))
    | inr (inr g) ↦ inr (inr (ground (arith, str_lt-cons d c t s)))
  ]
  | inr (inr h) ↦ elim (compared (code c) (code d)) [
    | inl l ↦ inl (ground (arith, str_lt-cons c d s t))
    | inr (inl e) ↦ inr (inr (ground (arith, str_lt-cons d c t s)))
    | inr (inr g) ↦ inr (inr (ground (arith, str_lt-cons d c t s)))
  ]
]
