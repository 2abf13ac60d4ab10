-- ===== src/Base/Number/RoundTrip.antt =====
-- Reading what `std::to_string` printed.
use minimum_redis.Base.Tests.{◌==◌, Bool-cases}
use minimum_redis.Base.Text.{Bytes}
use minimum_redis.Base.Number.{digits_onto, to_string, is_digit, scan, strto, stoul}
use Prim.Native.Nat.{ℕ, zero, suc, ◌+◌, ◌-◌, ◌*◌, ◌/◌, ◌%◌, ◌^◌, ◌<◌}
use mathlib.Core.Path.{◌≡◌, refl, ◌∙◌}
use mathlib.Core.Bool.{true, false}
use mathlib.Core.Logic.{inl, inr}
use mathlib.Core.Option.{some}
use mathlib.Core.List.{[], ◌∷◌}
use native.Mathlib.Numerals.{add-one}
use native.Mathlib.Omega.{arith}

scan-digit : (n m : ℕ) (s : Bytes) → scan n ((b'0' + m % 10) ∷ s) ≡ scan (n * 10 + m % 10) s
unfolding scan
scan-digit n m s = let e : b'0' + m % 10 - b'0' ≡ m % 10 = omega arith in rw e (ground arith)

scan-digits_onto : (f n : ℕ) (out : Bytes) → n < f → scan 0 (digits_onto f n out) ≡ scan n out
unfolding digits_onto
scan-digits_onto zero n out h = absurd (omega arith)
scan-digits_onto (suc f) n out h = elim (Bool-cases (n == 0)) [
  | inl done ↦ rw done (let e : n ≡ 0 = ground arith in rw e)
  | inr more ↦ rw more (
      scan-digits_onto f (n / 10) _ (ground arith)
      ∙ scan-digit (n / 10) n out
      ∙ (let e : n / 10 * 10 + n % 10 ≡ n = omega arith in rw e))
]

-- The front of a printed number is a digit.
abbrev pub Leads : Bytes → Type 0
Leads [] = ⊥
Leads (c ∷ s) = is_digit c ≡ true

digits_onto-Leads : (f n : ℕ) (out : Bytes) → Leads out → Leads (digits_onto f n out)
unfolding digits_onto
digits_onto-Leads zero n out h = h
digits_onto-Leads (suc f) n out h = elim (Bool-cases (n == 0)) [
  | inl done ↦ rw done h
  | inr more ↦ rw more (digits_onto-Leads f (n / 10) _ (ground arith))
]

digits_onto-nil_Leads : (f n : ℕ) → 0 < n → Leads (digits_onto (suc f) n [])
unfolding digits_onto
digits_onto-nil_Leads f n h =
    let e : (n == 0) ≡ false = ground arith in
    rw e (digits_onto-Leads f (n / 10) ((b'0' + n % 10) ∷ []) (ground arith))

pub to_string-Leads : (n : ℕ) → Leads (to_string n)
unfolding to_string
to_string-Leads n = elim (Bool-cases (n == 0)) [
  | inl zeroes ↦ rw zeroes refl
  | inr more ↦ rw (more, add-one) (digits_onto-nil_Leads n n (ground arith))
]

strto-Leads : (s : Bytes) → Leads s → strto s ≡ some (false, scan 0 s)
unfolding strto
strto-Leads [] h = absurd h
strto-Leads (c ∷ s) h = ground arith

scan-to_string : (n : ℕ) → scan 0 (to_string n) ≡ n
unfolding to_string
scan-to_string n = elim (Bool-cases (n == 0)) [
  | inl zeroes ↦ rw zeroes (unfold scan in ground arith)
  | inr more ↦ rw more (scan-digits_onto (n + 1) n [] (omega arith) ∙ unfold scan in refl)
]

-- `std::stoul` reads back what `std::to_string` printed.
pub stoul-to_string : (n : ℕ) → n < 2 ^ 64 → stoul (to_string n) ≡ some n
unfolding stoul
stoul-to_string n h =
    rw (strto-Leads (to_string n) (to_string-Leads n), scan-to_string n) (ground arith)

abbrev pub Digits : Bytes → Type 0
Digits [] = Unit
Digits (c ∷ s) = (is_digit c ≡ true) × Digits s

digits_onto-Digits : (f n : ℕ) (out : Bytes) → Digits out → Digits (digits_onto f n out)
unfolding digits_onto
digits_onto-Digits zero n out h = h
digits_onto-Digits (suc f) n out h = elim (Bool-cases (n == 0)) [
  | inl done ↦ rw done h
  | inr more ↦ rw more (digits_onto-Digits f (n / 10) _ (ground arith, h))
]

pub to_string-Digits : (n : ℕ) → Digits (to_string n)
unfolding to_string
to_string-Digits n = elim (Bool-cases (n == 0)) [
  | inl zeroes ↦ rw zeroes (refl, tt)
  | inr more ↦ rw more (digits_onto-Digits (n + 1) n [] tt)
]
