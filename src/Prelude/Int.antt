-- ===== src/Prelude/Int.antt =====
-- Signed integers over the native numbers, and the division of C++, which rounds towards zero.
use Prim.Native.Nat.{ℕ, suc, ◌<◌, ◌+◌, ◌-◌, ◌*◌, ◌/◌, ◌%◌}
use mathlib.Core.Bool.{Bool, true}
use mathlib.Core.Logic.{inl, inr}
use mathlib.Core.Path.{◌≡◌, ap}
use native.Mathlib.Omega.{arith}
use native.Mathlib.Nat.{mod-eq_of_lt}
use app_mesh.Prelude.Tests.{leb, ltb, ltb→lt, Bool-cases, ◌==◌, if◌then◌else◌}

-- `negsuc n` is -(n + 1).
pub data ℤ : Type 0 where
  pos : ℕ → ℤ
  negsuc : ℕ → ℤ

abbrev pub pos_part : ℤ → ℕ
pos_part (pos n) = n
pos_part (negsuc n) = 0

abbrev pub neg_part : ℤ → ℕ
neg_part (pos n) = 0
neg_part (negsuc n) = suc n

-- a - b, as an integer.
abbrev pub sub_ℕ : ℕ → ℕ → ℤ
sub_ℕ a b = if leb b a then pos (a - b) else negsuc (b - a - 1)

abbrev pub neg_ℤ : ℤ → ℤ
neg_ℤ a = sub_ℕ (neg_part a) (pos_part a)

abbrev pub leb_ℤ : ℤ → ℤ → Bool
leb_ℤ a b = leb (pos_part a + neg_part b) (pos_part b + neg_part a)

abbrev pub eqb_ℤ : ℤ → ℤ → Bool
eqb_ℤ a b = pos_part a + neg_part b == pos_part b + neg_part a

-- a / n and a % n for a positive n.
abbrev pub div_ℤ : ℤ → ℕ → ℤ
div_ℤ (pos a) n = pos (a / n)
div_ℤ (negsuc a) n = sub_ℕ 0 (suc a / n)

abbrev pub mod_ℤ : ℤ → ℕ → ℤ
mod_ℤ (pos a) n = pos (a % n)
mod_ℤ (negsuc a) n = sub_ℕ 0 (suc a % n)

-- n * a
abbrev pub scale_ℤ : ℕ → ℤ → ℤ
scale_ℤ n (pos a) = pos (n * a)
scale_ℤ n (negsuc a) = sub_ℕ 0 (n * suc a)

-- The conversion to a signed integer of the values below `half` and from -`half` on.
unfoldable pub signed : ℕ → ℤ → ℤ
signed half (pos n) =
    let m = n % (2 * half) in if ltb m half then pos m else negsuc (2 * half - 1 - m)
signed half (negsuc n) =
    let m = n % (2 * half) in if ltb m half then negsuc m else pos (2 * half - 1 - m)

abbrev pub IsSigned : ℕ → ℤ → Type 0
IsSigned half (pos n) = n < half
IsSigned half (negsuc n) = n < half

pub signed-IsSigned : (half : ℕ) (z : ℤ) → IsSigned half z → signed half z ≡ z
unfolding signed
signed-IsSigned half (pos n) h =
    let kept : n % (2 * half) ≡ n = mod-eq_of_lt {n = n} {m = 2 * half} (omega arith) in
    rw (kept) (ground arith)
signed-IsSigned half (negsuc n) h =
    let kept : n % (2 * half) ≡ n = mod-eq_of_lt {n = n} {m = 2 * half} (omega arith) in
    rw (kept) (ground arith)

pub signed-range : (half : ℕ) (z : ℤ) → 0 < half → IsSigned half (signed half z)
unfolding signed
signed-range half (pos n) h = elim (Bool-cases (ltb (n % (2 * half)) half)) [
  | inl e ↦ rw (e) (ltb→lt (n % (2 * half)) half e)
  | inr e ↦ rw (e) (ground arith)
]
signed-range half (negsuc n) h = elim (Bool-cases (ltb (n % (2 * half)) half)) [
  | inl e ↦ rw (e) (ltb→lt (n % (2 * half)) half e)
  | inr e ↦ rw (e) (ground arith)
]

pub eqb_ℤ→≡ : (a b : ℤ) → eqb_ℤ a b ≡ true → a ≡ b
eqb_ℤ→≡ (pos a) (pos b) h = ap pos (ground arith)
eqb_ℤ→≡ (pos a) (negsuc b) h = absurd (ground arith)
eqb_ℤ→≡ (negsuc a) (pos b) h = absurd (ground arith)
eqb_ℤ→≡ (negsuc a) (negsuc b) h = ap negsuc (ground arith)
