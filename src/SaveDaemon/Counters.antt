-- ===== src/SaveDaemon/Counters.antt =====
-- save_daemon.h: the counters of type `std::atomic<int>`, which wrap.
use minimum_redis.Base.{
  ℕ, suc, ◌+◌, ◌-◌, ◌%◌, ◌^◌, ◌≤◌, ◌<◌, leb, ltb, Bool, true, false, Bool-cases, inl, inr,
  if◌then◌else◌, ◌≡◌, refl, sym, ap, ◌∙◌, arith,
}
use minimum_redis.Base.Int.{
  ℤ, pos, negsuc, pos_part, neg_part, sub_ℕ, ◌+ℤ◌, wrap_32, wrap_32-id, IsInt32,
}
use minimum_redis.SaveDaemon.{increment}

-- The pattern that a 32-bit word gives an integer, and the signed reading of a pattern.
abbrev bits_32 : ℤ → ℕ
bits_32 a = (pos_part a % 2 ^ 32 + 2 ^ 32 - neg_part a % 2 ^ 32) % 2 ^ 32

abbrev signed_32 : ℕ → ℤ
signed_32 w = if ltb w (2 ^ 31) then pos w else negsuc (2 ^ 32 - w - 1)

wrap_32-signed_32 : (a : ℤ) → wrap_32 a ≡ signed_32 (bits_32 a)
unfolding wrap_32
wrap_32-signed_32 a = refl

bits_32-signed_32 : (w : ℕ) → w < 2 ^ 32 → bits_32 (signed_32 w) ≡ w
bits_32-signed_32 w h = ground arith

bits_32-pos : (m n : ℕ) → bits_32 (pos (m + n)) ≡ (bits_32 (pos m) + n) % 2 ^ 32
bits_32-pos m n = omega arith

bits_32-sub_ℕ : (m n : ℕ) → bits_32 (sub_ℕ n (suc m)) ≡ (bits_32 (negsuc m) + n) % 2 ^ 32
bits_32-sub_ℕ m n = elim (Bool-cases (leb (suc m) n)) [
  | inl e ↦ let h : suc m ≤ n = ground arith in rw e (omega arith)
  | inr e ↦ let h : n < suc m = ground arith in rw e (omega arith)
]

bits_32-add : (a : ℤ) (n : ℕ) → bits_32 (a +ℤ pos n) ≡ (bits_32 a + n) % 2 ^ 32
bits_32-add (pos m) n =
    let sum : pos m +ℤ pos n ≡ pos (m + n) = unfold ◌+ℤ◌ in ground arith in rw sum (bits_32-pos m n)
bits_32-add (negsuc m) n =
    let sum : negsuc m +ℤ pos n ≡ sub_ℕ n (suc m) = unfold ◌+ℤ◌ in ground arith in
    ap bits_32 sum ∙ bits_32-sub_ℕ m n

bits_32-wrap_32 : (a : ℤ) → bits_32 (wrap_32 a) ≡ bits_32 a
bits_32-wrap_32 a = ap bits_32 (wrap_32-signed_32 a) ∙ bits_32-signed_32 (bits_32 a) (omega arith)

-- A sum may wrap in between.
pub wrap_32-add :
    (a : ℤ) (m n : ℕ) → wrap_32 (wrap_32 (a +ℤ pos m) +ℤ pos n) ≡ wrap_32 (a +ℤ pos (m + n))
wrap_32-add a m n =
    let once = bits_32-wrap_32 (a +ℤ pos m) ∙ bits_32-add a m in
    let wrapped = bits_32-add (wrap_32 (a +ℤ pos m)) n ∙ (ap (λ w. (w + n) % 2 ^ 32) once) in
    let whole = bits_32-add a (m + n) in
    let same : (((bits_32 a + m) % 2 ^ 32) + n) % 2 ^ 32 ≡ (bits_32 a + (m + n)) % 2 ^ 32 =
      omega arith in
    wrap_32-signed_32 _ ∙ (ap signed_32 (wrapped ∙ (same ∙ sym whole)) ∙ sym (wrap_32-signed_32 _))

pub wrap_32-IsInt32 : (a : ℤ) → IsInt32 (wrap_32 a)
unfolding wrap_32
wrap_32-IsInt32 a =
    let w = (pos_part a % 2 ^ 32 + 2 ^ 32 - neg_part a % 2 ^ 32) % 2 ^ 32 in
    (ground arith, ground arith)

pub wrap_32-add_zero : (a : ℤ) → IsInt32 a → a ≡ wrap_32 (a +ℤ pos 0)
wrap_32-add_zero a h =
    let sum : a +ℤ pos 0 ≡ a = unfold ◌+ℤ◌ in ground arith in rw sum (sym (wrap_32-id a h))

pub increment_if :
    (c : Bool) (a : ℤ)
    → IsInt32 a
    → (if c then increment a else a) ≡ wrap_32 (a +ℤ pos (if c then 1 else 0))
increment_if true a h = refl
increment_if false a h = wrap_32-add_zero a h

-- One more for a count that has begun with an increment.
pub increment_again :
    (c : Bool) (a : ℤ)
    → (if c then increment (increment a) else increment a)
      ≡ wrap_32 (a +ℤ pos (1 + (if c then 1 else 0)))
increment_again c a =
    increment_if c (increment a) (wrap_32-IsInt32 (a +ℤ pos 1))
    ∙ wrap_32-add a 1 (if c then 1 else 0)
