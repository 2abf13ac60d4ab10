-- ===== src/Rdb/Strings.antt =====
-- db.cpp: a length-encoded string is read back.
use minimum_redis.Base.{
  ℕ, ◌/◌, ◌%◌, ◌^◌, ◌<◌, true, false, some, [], ◌∷◌, ◌++◌, append_assoc, Bytes, length, take, ltb,
  ◌==◌, length-append, take-append_length, drop-append_length, ltb-eq_false, ◌≡◌, refl, arith,
  Bool-cases, inl, inr, ltb→lt,
}
use minimum_redis.Rdb.{
  word_bytes, word_of, write_prefix, write_length_encoded, read_bytes, read_length_encoded,
}

word_of-word_bytes : (n : ℕ) → n < 2 ^ 32 → word_of (word_bytes n) ≡ n
word_of-word_bytes n h = omega arith

read_bytes-append : (s rest : Bytes) → read_bytes (length s) (s ++ rest) ≡ some (s, rest)
unfolding read_bytes
read_bytes-append s rest =
    let enough : ltb (length (s ++ rest)) (length s) ≡ false =
      ltb-eq_false (length (s ++ rest)) (length s) (omega (arith, length-append {0} s rest)) in
    rw enough (rw (take-append_length s rest) (rw (drop-append_length s rest) refl))

read-prefix :
    (len : ℕ) (file : Bytes)
    → len < 2 ^ 32
    → read_length_encoded (write_prefix len ++ file) ≡ read_bytes len file
read-prefix len file h = elim (Bool-cases (ltb len 64)) [
  | inl short ↦
      let small = ltb→lt len 64 short in
      let low : len % 64 ≡ len = omega arith in
      let kind : (len / 64 == 0) ≡ true = ground arith in
      unfold read_length_encoded in rw short (rw kind (rw low refl))
  | inr long ↦
      unfold read_length_encoded in
      rw long (rw (read_bytes-append (word_bytes len) file) (rw (word_of-word_bytes len h) refl))
]

take-length : (s : Bytes) → take (length s) s ≡ s
take-length [] = refl
take-length (c ∷ s) = rw (take-length s)

-- A string of fewer than 2 ^ 32 bytes is read back as it was written, with what follows it in the
-- file left to read.
pub read-write_length_encoded :
    (s rest : Bytes)
    → length s < 2 ^ 32
    → read_length_encoded (write_length_encoded s ++ rest) ≡ some (s, rest)
read-write_length_encoded s rest h =
    let fits : length s % 2 ^ 32 ≡ length s = omega arith in
    unfold write_length_encoded in
    rw fits (
      rw (take-length s) (
        rw (append_assoc (write_prefix (length s)) s rest)
          (rw (read-prefix (length s) (s ++ rest) h) (read_bytes-append s rest))))
