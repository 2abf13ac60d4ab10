-- ===== src/Database/TextFile/Reload.antt =====
-- db.cpp: load_from_file sets the strings that save_to_file has written.
use minimum_redis.Base.{
  lacks, ℕ, ◌==◌, Bool, true, false, not, ◌&&◌, none, some, [], ◌∷◌, ◌++◌, append_assoc, Bytes,
  text, equal_refl, if◌then◌else◌, ◌≡◌, refl, ap, ◌∙◌, sym, arith, Bool-cases, inl, inr,
}
use minimum_redis.Value.{RedisType, RedisValue, same_type}
use minimum_redis.Database
use minimum_redis.Database.{Keyspace}
use minimum_redis.Database.TextFile.{
  string_line, save_to_file, up_to, getline, load_line, onto_first, file_lines, load_lines,
  load_from_file,
}

abbrev pub is_empty : Bytes → Bool
is_empty [] = true
is_empty (c ∷ s) = false

-- What the text format can hold: the strings' keys have no '=' and no line end, their values no line
-- end, and none of the values is empty.
abbrev pub IsPlain : Keyspace → Type 0
IsPlain [] = Unit
IsPlain ((key, v) ∷ d) =
    ((same_type v.type RedisType.string ≡ true)
      → (lacks b'=' key ≡ true)
        × (lacks b'\n' key ≡ true)
        × (lacks b'\n' v.str_val ≡ true)
        × (is_empty v.str_val ≡ false))
    × IsPlain d

-- SET of every string of the first map, in its order.
unfoldable pub set_all : Keyspace → Keyspace → Keyspace
set_all [] e = e
set_all ((key, v) ∷ d) e =
    set_all d (if same_type v.type RedisType.string then (Database.set key v.str_val e).0 else e)

both : (a b : Bool) → (a && b) ≡ true → (a ≡ true) × (b ≡ true)
both a b h = (ground arith, ground arith)

up_to-append :
    (c : ℕ) (s rest : Bytes) → lacks c s ≡ true → up_to c (s ++ c ∷ rest) ≡ (s, some rest)
unfolding up_to
up_to-append c [] rest h = let e : (c == c) ≡ true = ground arith in rw e refl
up_to-append c (d ∷ s) rest h =
    let (other, later) = both (not (d == c)) (lacks c s) h in
    let differs : (d == c) ≡ false = ground arith in
    rw differs (rw (up_to-append c s rest later) refl)

up_to-all : (c : ℕ) (s : Bytes) → lacks c s ≡ true → up_to c s ≡ (s, none)
unfolding up_to
up_to-all c [] h = refl
up_to-all c (d ∷ s) h =
    let (other, later) = both (not (d == c)) (lacks c s) h in
    let differs : (d == c) ≡ false = ground arith in rw differs (rw (up_to-all c s later) refl)

file_lines-append :
    (line rest : Bytes)
    → lacks b'\n' line ≡ true
    → file_lines (line ++ b'\n' ∷ rest) ≡ line ∷ file_lines rest
unfolding file_lines
file_lines-append [] rest h = refl
file_lines-append (c ∷ line) rest h =
    let (other, later) = both (not (c == b'\n')) (lacks b'\n' line) h in
    let differs : (c == b'\n') ≡ false = ground arith in
    rw differs (ap (onto_first c) (file_lines-append line rest later))

lacks-append : (c : ℕ) (s t : Bytes) → lacks c s ≡ true → lacks c t ≡ true → lacks c (s ++ t) ≡ true
lacks-append c [] t h k = k
lacks-append c (d ∷ s) t h k =
    let (other, later) = both (not (d == c)) (lacks c s) h in rw other (lacks-append c s t later k)

getline-append :
    (c : ℕ) (s rest : Bytes)
    → lacks c s ≡ true
    → getline c (some (s ++ c ∷ rest)) ≡ some (s, some rest)
getline-append c [] rest h = ap some (up_to-append c [] rest h)
getline-append c (d ∷ s) rest h = ap some (up_to-append c (d ∷ s) rest h)

getline-all :
    (c : ℕ) (s : Bytes)
    → lacks c s ≡ true
    → is_empty s ≡ false
    → getline c (some s) ≡ some (s, none)
getline-all c [] h k = absurd (ground arith)
getline-all c (d ∷ s) h k = ap some (up_to-all c (d ∷ s) h)

-- A line without its end.
abbrev line_of : Bytes → Bytes → Bytes
line_of key value = text "string" ++ b':' ∷ (key ++ b'=' ∷ value)

colon_free : lacks b':' (text "string") ≡ true
unfolding text
colon_free = refl

end_free : lacks b'\n' (text "string") ≡ true
unfolding text
end_free = refl

load_line-string :
    (key value : Bytes) (d : Keyspace)
    → lacks b'=' key ≡ true
    → lacks b'\n' value ≡ true
    → is_empty value ≡ false
    → load_line (line_of key value) d ≡ (Database.set key value d).0
load_line-string key value d h k some_value =
    unfold load_line in
    rw (getline-append b':' (text "string") (key ++ b'=' ∷ value) colon_free) (
      rw (getline-append b'=' key value h)
        (rw (getline-all b'\n' value k some_value) (rw (equal_refl (text "string")) refl)))

line_of-lines :
    (key value rest : Bytes)
    → lacks b'\n' key ≡ true
    → lacks b'\n' value ≡ true
    → file_lines (string_line key value rest) ≡ line_of key value ∷ file_lines rest
line_of-lines key value rest h k =
    let tail : lacks b'\n' (key ++ b'=' ∷ value) ≡ true =
      lacks-append b'\n' key (b'=' ∷ value) h k in
    let whole = lacks-append b'\n' (text "string") (b':' ∷ (key ++ b'=' ∷ value)) end_free tail in
    let joined : line_of key value ++ b'\n' ∷ rest ≡ string_line key value rest =
      append_assoc (text "string") (b':' ∷ (key ++ b'=' ∷ value)) (b'\n' ∷ rest)
      ∙ ap (λ s. text "string" ++ b':' ∷ s) (append_assoc key (b'=' ∷ value) (b'\n' ∷ rest)) in
    ap file_lines (sym joined) ∙ file_lines-append (line_of key value) rest whole

load-string_line :
    (key value rest : Bytes) (e : Keyspace)
    → lacks b'\n' key ≡ true
    → lacks b'\n' value ≡ true
    → load_from_file (string_line key value rest) e
      ≡ load_from_file rest (load_line (line_of key value) e)
unfolding load_from_file
load-string_line key value rest e h k =
    ap (λ lines. load_lines lines e) (line_of-lines key value rest h k)

save_to_file-string :
    (key : Bytes) (v : RedisValue) (d : Keyspace)
    → same_type v.type RedisType.string ≡ true
    → save_to_file ((key, v) ∷ d) ≡ string_line key v.str_val (save_to_file d)
unfolding save_to_file
save_to_file-string key v d string = rw string refl

-- A file that save_to_file writes of a map whose strings the format can hold: load_from_file sets
-- each of the strings, in the order of the map, in whatever map it is given, and nothing else.
pub load_from_file-save_to_file :
    (d e : Keyspace) → IsPlain d → load_from_file (save_to_file d) e ≡ set_all d e
unfolding set_all
load_from_file-save_to_file [] e h =
    unfold load_from_file save_to_file file_lines load_lines in refl
load_from_file-save_to_file ((key, v) ∷ d) e (plain, later) =
    elim (Bool-cases (same_type v.type RedisType.string)) [
      | inl string ↦
          let (no_sign, no_end, value_no_end, some_value) = plain string in
          let line = load_line-string key v.str_val e no_sign value_no_end some_value in
          rw string (
            ap (λ file. load_from_file file e) (save_to_file-string key v d string)
            ∙ (load-string_line key v.str_val (save_to_file d) e no_end value_no_end
                ∙ (ap (load_from_file (save_to_file d)) line
                    ∙ load_from_file-save_to_file d (Database.set key v.str_val e).0 later)))
      | inr other ↦
          let skipped : save_to_file ((key, v) ∷ d) ≡ save_to_file d =
            unfold save_to_file in rw other refl in
          rw other
            (ap (λ file. load_from_file file e) skipped ∙ load_from_file-save_to_file d e later)
    ]
