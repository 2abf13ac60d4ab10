-- ===== src/Lua/Digest.antt =====
-- lua_scripting.cpp: validate_script and calculate_sha1.
use minimum_redis.Base.{
  ℕ, zero, suc, ◌+◌, ◌-◌, ◌*◌, ◌/◌, ◌%◌, ◌^◌, ltb, ◌==◌, Bool, true, false, not, ◌&&◌, ◌||◌, [],
  ◌∷◌, Bytes, text, codes, if◌then◌else◌, ◌≡◌, refl,
}

-- `script.find(word) != npos`
unfoldable pub is_prefix : Bytes → Bytes → Bool
is_prefix [] s = true
is_prefix (c ∷ word) [] = false
is_prefix (c ∷ word) (d ∷ s) = c == d && is_prefix word s

unfoldable pub occurs : Bytes → Bytes → Bool
unfolding is_prefix
occurs word [] = is_prefix word []
occurs word (c ∷ s) = is_prefix word (c ∷ s) || occurs word s

unfoldable pub validate_script : Bytes → Bool
unfolding occurs
validate_script script =
    not (
      occurs (text "os.") script || (occurs (text "io.") script || occurs (text "package.") script))

-- The loop of `calculate_sha1`: a `char` is signed, and becomes a `size_t`.
abbrev pub char_word : ℕ → ℕ
char_word c = if ltb c 128 then c else 2 ^ 64 - 256 + c

unfoldable pub hash_onto : ℕ → Bytes → ℕ
hash_onto hash [] = hash
hash_onto hash (c ∷ s) = hash_onto ((hash * 31 + char_word c) % 2 ^ 64) s

-- `std::hex`
abbrev pub hex_digit : ℕ → ℕ
hex_digit n = if ltb n 10 then b'0' + n else b'a' + (n - 10)

-- The digits of `n` in front of `out`; 16 rounds are enough for a word of 64 bits.
unfoldable pub hex_onto : ℕ → ℕ → Bytes → Bytes
hex_onto zero n out = out
hex_onto (suc f) n out =
    let rest = hex_onto f (n / 16) (hex_digit (n % 16) ∷ out) in if n == 0 then out else rest

unfoldable pub to_hex : ℕ → Bytes
unfolding hex_onto
to_hex n = if n == 0 then b'0' ∷ [] else hex_onto 16 n []

unfoldable pub calculate_sha1 : Bytes → Bytes
unfolding hash_onto to_hex
calculate_sha1 script = to_hex (hash_onto 0 script)

sha1_of_ab : calculate_sha1 (codes "ab") ≡ codes "c21"
unfolding calculate_sha1
sha1_of_ab = refl
