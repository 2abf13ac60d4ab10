-- ===== src/Database/TextFile.antt =====
-- db.cpp: save_to_file and load_from_file, on the bytes of a file that can be opened, which have a
-- line for each string.
pub mod Reload
use minimum_redis.Base.{
  ℕ, ◌==◌, Bool, true, false, Option, none, some, List, [], ◌∷◌, ◌++◌, Bytes, text, equal,
  if◌then◌else◌,
}
use minimum_redis.Value.{RedisType, RedisValue, same_type}
use minimum_redis.Database
use minimum_redis.Database.{Keyspace}

-- `"string:" << pair.first << "=" << pair.second.str_val << "\n"`, onto what follows.
abbrev pub string_line : Bytes → Bytes → Bytes → Bytes
string_line key value rest = text "string" ++ b':' ∷ (key ++ b'=' ∷ (value ++ b'\n' ∷ rest))

unfoldable pub save_to_file : Keyspace → Bytes
save_to_file [] = []
save_to_file ((key, v) ∷ d) =
    let rest = save_to_file d in
    if same_type v.type RedisType.string then string_line key v.str_val rest else rest

-- The text up to the delimiter, and what stands behind it; `none` is a stream that has come to its
-- end before the delimiter.
unfoldable pub up_to : ℕ → Bytes → Bytes × Option Bytes
up_to delimiter [] = ([], none)
up_to delimiter (c ∷ s) =
    let (piece, rest) = up_to delimiter s in
    if c == delimiter then ([], some s) else (c ∷ piece, rest)

-- `std::getline`, which fails if there is no byte left.
abbrev pub getline : ℕ → Option Bytes → Option (Bytes × Option Bytes)
getline delimiter none = none
getline delimiter (some []) = none
getline delimiter (some (c ∷ s)) = some (up_to delimiter (c ∷ s))

abbrev pub set_string : Bytes → Bytes → Bytes → Keyspace → Keyspace
set_string type_str key value d =
    if equal type_str (text "string") then (Database.set key value d).0 else d

abbrev pub with_value : Bytes → Bytes → Option (Bytes × Option Bytes) → Keyspace → Keyspace
with_value type_str key none d = d
with_value type_str key (some (value, rest)) d = set_string type_str key value d

abbrev pub with_field : Bytes → Option (Bytes × Option Bytes) → Keyspace → Keyspace
with_field type_str none d = d
with_field type_str (some (key, rest)) d = with_value type_str key (getline b'\n' rest) d

abbrev pub with_type : Option (Bytes × Option Bytes) → Keyspace → Keyspace
with_type none d = d
with_type (some (type_str, rest)) d = with_field type_str (getline b'=' rest) d

-- The body of the loop.
unfoldable pub load_line : Bytes → Keyspace → Keyspace
unfolding up_to
load_line line d = with_type (getline b':' (some line)) d

abbrev pub onto_first : ℕ → List Bytes → List Bytes
onto_first c [] = (c ∷ []) ∷ []
onto_first c (line ∷ lines) = (c ∷ line) ∷ lines

-- The lines that `std::getline` reads from the file: behind the last line end there is none.
unfoldable pub file_lines : Bytes → List Bytes
file_lines [] = []
file_lines (c ∷ s) = if c == b'\n' then [] ∷ file_lines s else onto_first c (file_lines s)

unfoldable pub load_lines : List Bytes → Keyspace → Keyspace
unfolding load_line
load_lines [] d = d
load_lines (line ∷ lines) d = load_lines lines (load_line line d)

unfoldable pub load_from_file : Bytes → Keyspace → Keyspace
unfolding file_lines load_lines
load_from_file file d = load_lines (file_lines file) d
