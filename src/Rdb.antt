-- ===== src/Rdb.antt =====
-- db.cpp: the length-encoded strings of the RDB files, as functions on the file's bytes, on a
-- machine that stores words with the low byte first. A read that fails is `none`; every caller gives
-- up on it.
pub mod Strings
pub mod File
pub mod Reload
use minimum_redis.Base.{
  ℕ, zero, suc, ◌+◌, ◌*◌, ◌/◌, ◌%◌, ◌^◌, Bool, true, false, Option, none, some, List, [], ◌∷◌, ◌++◌,
  Bytes, codes, length, take, drop, ltb, ◌==◌, if◌then◌else◌, ◌≡◌, refl,
}

-- The bytes of a `uint32_t`.
abbrev pub word_bytes : ℕ → Bytes
word_bytes n = n % 256 ∷ n / 256 % 256 ∷ n / 65536 % 256 ∷ n / 16777216 % 256 ∷ []

abbrev pub word_of : Bytes → ℕ
word_of [] = 0
word_of (b ∷ bs) = b + 256 * word_of bs

-- `file.write`, onto the bytes that follow; the length is a `uint32_t`.
abbrev pub write_prefix : ℕ → Bytes
write_prefix len = if ltb len 64 then len ∷ [] else 128 ∷ word_bytes len

unfoldable pub write_length_encoded : Bytes → Bytes
write_length_encoded str = let len = length str % 2 ^ 32 in write_prefix len ++ take len str

-- `file.read` of `n` bytes, which fails at the end of the file.
unfoldable pub read_bytes : ℕ → Bytes → Option (Bytes × Bytes)
read_bytes n file = if ltb (length file) n then none else some (take n file, drop n file)

abbrev pub read_word : Option (Bytes × Bytes) → Option (Bytes × Bytes)
read_word none = none
read_word (some (word, file)) = read_bytes (word_of word) file

-- The two high bits of the first byte tell how the length is written.
unfoldable pub read_length_encoded : Bytes → Option (Bytes × Bytes)
unfolding read_bytes
read_length_encoded [] = none
read_length_encoded (first_byte ∷ file) =
    if first_byte / 64 == 0
    then read_bytes (first_byte % 64) file
    else if first_byte / 64 == 2
    then read_word (read_bytes 4 file)
    else none

short_string : write_length_encoded (codes "abc") ≡ 3 ∷ codes "abc"
unfolding write_length_encoded
short_string = refl
