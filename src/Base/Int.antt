-- ===== src/Base/Int.antt =====
-- Signed integers over the native numbers, under the library's names, and the signed machine words.
use Prim.Native.Nat.{ℕ, suc, ◌+◌, ◌-◌, ◌*◌, ◌%◌, ◌^◌, ◌≤◌}
use mathlib.Core.Path.{◌≡◌}
use mathlib.Core.Bool.{Bool}
use native.Mathlib.Omega.{arith}
use minimum_redis.Base.Tests.{ltb, leb, ◌==◌, if◌then◌else◌}

-- `negsuc n` is -(n + 1).
pub data ℤ : Type 0 where
  pos : ℕ → ℤ
  negsuc : ℕ → ℤ

abbrev pub pos_part : ℤ → ℕ
pos_part (pos n) = n
pos_part (negsuc n) = 0

abbrev pub neg_part : ℤ → ℕ
neg_part (pos n) = 0
neg_part (negsuc n) = suc n

-- a - b, as an integer.
abbrev pub sub_ℕ : ℕ → ℕ → ℤ
sub_ℕ a b = if leb b a then pos (a - b) else negsuc (b - a - 1)

infixl 65 ◌+ℤ◌
infixl 65 ◌-ℤ◌
infix 50 ◌≤ℤ◌
unfoldable pub ◌+ℤ◌ : ℤ → ℤ → ℤ
a +ℤ b = sub_ℕ (pos_part a + pos_part b) (neg_part a + neg_part b)

unfoldable pub ◌-ℤ◌ : ℤ → ℤ → ℤ
a -ℤ b = sub_ℕ (pos_part a + neg_part b) (neg_part a + pos_part b)

abbrev pub ◌≤ℤ◌ : ℤ → ℤ → Type 0
a ≤ℤ b = pos_part a + neg_part b ≤ pos_part b + neg_part a

abbrev pub ltb_ℤ : ℤ → ℤ → Bool
ltb_ℤ a b = ltb (pos_part a + neg_part b) (pos_part b + neg_part a)

abbrev pub leb_ℤ : ℤ → ℤ → Bool
leb_ℤ a b = leb (pos_part a + neg_part b) (pos_part b + neg_part a)

abbrev pub eq_ℤ : ℤ → ℤ → Bool
eq_ℤ a b = (pos_part a + neg_part b) == (pos_part b + neg_part a)

-- The pattern that a 64-bit word gives an integer, and the signed reading of a pattern.
unfoldable pub bits_64 : ℤ → ℕ
bits_64 a = (pos_part a % 2 ^ 64 + 2 ^ 64 - neg_part a % 2 ^ 64) % 2 ^ 64

unfoldable pub signed_64 : ℕ → ℤ
signed_64 w = if ltb w (2 ^ 63) then pos w else negsuc (2 ^ 64 - w - 1)

-- Conversion to `int64_t`, modulo 2 ^ 64.
unfoldable pub wrap_64 : ℤ → ℤ
unfolding bits_64 signed_64
wrap_64 a = signed_64 (bits_64 a)

abbrev pub IsInt64 : ℤ → Type 0
IsInt64 a = (pos_part a ≤ 2 ^ 63 - 1) × (neg_part a ≤ 2 ^ 63)

pub wrap_64-id : (a : ℤ) → IsInt64 a → wrap_64 a ≡ a
unfolding wrap_64
wrap_64-id (pos n) h = ground arith
wrap_64-id (negsuc n) h = ground arith

-- `a * k` for a factor that is not negative.
unfoldable pub scale : ℕ → ℤ → ℤ
scale k a = sub_ℕ (k * pos_part a) (k * neg_part a)

-- Conversion to `int`, modulo 2 ^ 32.
unfoldable pub wrap_32 : ℤ → ℤ
wrap_32 a =
    let w = (pos_part a % 2 ^ 32 + 2 ^ 32 - neg_part a % 2 ^ 32) % 2 ^ 32 in
    if ltb w (2 ^ 31) then pos w else negsuc (2 ^ 32 - w - 1)

abbrev pub IsInt32 : ℤ → Type 0
IsInt32 a = (pos_part a ≤ 2 ^ 31 - 1) × (neg_part a ≤ 2 ^ 31)

pub wrap_32-id : (a : ℤ) → IsInt32 a → wrap_32 a ≡ a
unfolding wrap_32
wrap_32-id (pos n) h = ground arith
wrap_32-id (negsuc n) h = ground arith

pub wrap_64-sub : (a b : ℕ) → b ≤ a → a ≤ 2 ^ 63 - 1 → wrap_64 (pos a -ℤ pos b) ≡ pos (a - b)
wrap_64-sub a b h k =
    let e : pos a -ℤ pos b ≡ pos (a - b) = unfold ◌-ℤ◌ in ground arith in
    rw e (wrap_64-id (pos (a - b)) (omega arith, omega arith))

pub wrap_64-add : (a b : ℕ) → a + b ≤ 2 ^ 63 - 1 → wrap_64 (pos a +ℤ pos b) ≡ pos (a + b)
wrap_64-add a b h =
    let e : pos a +ℤ pos b ≡ pos (a + b) = unfold ◌+ℤ◌ in ground arith in
    rw e (wrap_64-id (pos (a + b)) (omega arith, omega arith))

pub wrap_64-scale : (k a : ℕ) → k * a ≤ 2 ^ 63 - 1 → wrap_64 (scale k (pos a)) ≡ pos (k * a)
wrap_64-scale k a h =
    let e : scale k (pos a) ≡ pos (k * a) = unfold scale in ground arith in
    rw e (wrap_64-id (pos (k * a)) (omega arith, omega arith))
