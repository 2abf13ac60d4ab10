-- ===== src/Double.antt =====
-- `double` as its IEEE 754 bit pattern, a number below 2 ^ 64, with the comparisons of C++.
use minimum_redis.Base.{
  ℕ, ◌+◌, ◌-◌, ◌*◌, ◌%◌, ◌^◌, Bool, true, false, not, ◌&&◌, ltb, ◌==◌, if◌then◌else◌, ◌≡◌, refl,
}

abbrev pub Double : Type 0
Double = ℕ

abbrev magnitude : Double → ℕ
magnitude d = d % 2 ^ 63

unfoldable pub is_nan : Double → Bool
is_nan d = ltb (2047 * 2 ^ 52) (magnitude d)

-- The numbers in order; both zeros have the rank 2 ^ 63.
unfoldable pub rank_of : Double → ℕ
rank_of d = if ltb d (2 ^ 63) then 2 ^ 63 + magnitude d else 2 ^ 63 - magnitude d

-- `a < b`
unfoldable pub lt : Double → Double → Bool
unfolding is_nan rank_of
lt a b = not (is_nan a) && (not (is_nan b) && ltb (rank_of a) (rank_of b))

-- `a == b`
unfoldable pub eq : Double → Double → Bool
unfolding is_nan rank_of
eq a b = not (is_nan a) && (not (is_nan b) && rank_of a == rank_of b)

abbrev pub one : Double
one = 1023 * 2 ^ 52

zeros : (eq 0 (2 ^ 63) ≡ true) × (lt (2 ^ 63) 0 ≡ false) × (lt (2 ^ 63 + one) 0 ≡ true)
unfolding lt eq
zeros = (refl, refl, refl)

nan : eq (2047 * 2 ^ 52 + 1) (2047 * 2 ^ 52 + 1) ≡ false
unfolding eq
nan = refl

-- Two numbers are compared by their ranks.
pub lt-numbers :
    (a b : Double) → is_nan a ≡ false → is_nan b ≡ false → lt a b ≡ ltb (rank_of a) (rank_of b)
unfolding lt
lt-numbers a b h k = unfold is_nan in rw (h, k)
