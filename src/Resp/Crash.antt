-- ===== src/Resp/Crash.antt =====
-- Inputs on which the parser of resp.cpp throws `std::length_error`, which the caller in main.cpp
-- does not catch.
use minimum_redis.Base.{
  ℕ, ◌+◌, Bool, none, [], ◌∷◌, Bytes, length, ◌==◌, ◌||◌, true, false, ◌≡◌, refl, arith,
}
use native.Mathlib.Numerals.{add-one}
use minimum_redis.Resp.{RespParser, split_line, read_line, parse_type, parse_on, parse}
use minimum_redis.Resp.Consume.{line_of-nil}
use minimum_redis.Resp.Value.{RespValue, err, length_error, incomplete_line, Result}

-- The bytes on which `parse` has a case.
abbrev pub is_type : ℕ → Bool
is_type c = c == b'+' || c == b'-' || c == b':' || c == b'$' || c == b'*'

read_line-empty :
    (s : Bytes) (pos : ℕ) → read_line (record { rest = b'\n' ∷ s; pos = pos }) ≡ err length_error
read_line-empty s pos = unfold read_line in line_of-nil (record { rest = b'\n' ∷ s; pos = pos }) s

parse_type-empty :
    (rec : RespParser → Result (RespValue × RespParser)) (c : ℕ) (s : Bytes) (pos : ℕ)
    → is_type c ≡ true
    → parse_type rec c (record { rest = b'\n' ∷ s; pos = pos }) ≡ err length_error
parse_type-empty rec c s pos h = unfold parse_type in ground arith

-- A message whose first line is a type byte and an empty line ended by '\n' alone makes the parser
-- throw `std::length_error`, whatever follows: the length of the line wraps to 2 ^ 64 - 1.
pub parse-empty_line :
    (c : ℕ) (s : Bytes) → is_type c ≡ true → parse (c ∷ b'\n' ∷ s) ≡ err length_error
unfolding parse parse_on
parse-empty_line c s h =
    rw add-one (parse_type-empty (parse_on (length (c ∷ b'\n' ∷ s))) c s (0 + 1) h)

-- No byte of the text is `b`.
abbrev pub HasNo : ℕ → Bytes → Type 0
HasNo b [] = Unit
HasNo b (c ∷ s) = ((c == b) ≡ false) × HasNo b s

no_newline : (s : Bytes) → HasNo b'\n' s → split_line s ≡ none
unfolding split_line
no_newline [] h = refl
no_newline (c ∷ s) h = rw (h.0, no_newline s h.1)

parse_type-no_newline :
    (rec : RespParser → Result (RespValue × RespParser)) (c : ℕ) (s : Bytes) (pos : ℕ)
    → is_type c ≡ true
    → HasNo b'\n' s
    → parse_type rec c (record { rest = s; pos = pos }) ≡ err incomplete_line
parse_type-no_newline rec c s pos h n = unfold parse_type in rw (no_newline s n) (ground arith)

-- A message that has its type byte, and no line end yet, makes the parser throw "Incomplete line",
-- which is not the "Incomplete command" that its caller waits on.
pub parse-no_newline :
    (c : ℕ) (s : Bytes) → is_type c ≡ true → HasNo b'\n' s → parse (c ∷ s) ≡ err incomplete_line
unfolding parse parse_on
parse-no_newline c s h n =
    rw add-one (parse_type-no_newline (parse_on (length (c ∷ s))) c s (0 + 1) h n)
