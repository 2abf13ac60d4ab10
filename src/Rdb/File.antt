-- ===== src/Rdb/File.antt =====
-- db.cpp: `save_rdb` and `load_rdb` on the bytes of the file, where the file can be opened.
use minimum_redis.Base.{
  ℕ, zero, suc, ◌+◌, ◌/◌, ◌%◌, ◌^◌, Bool, true, false, Option, none, some, List, [], ◌∷◌, ◌++◌,
  Bytes, equal, not, length, ◌==◌, if◌then◌else◌,
}
use minimum_redis.Base.Int.{ℤ, pos, negsuc, ltb_ℤ, signed_64, bits_64}
use minimum_redis.Dict.{Dict, find, put}
use minimum_redis.Double.{Double}
use minimum_redis.Value.{RedisType, RedisValue}
use minimum_redis.Database.{Keyspace, set}
use minimum_redis.Database.Lists.{rpush}
use minimum_redis.Database.Sets.{sadd}
use minimum_redis.Database.Hashes.{hset}
use minimum_redis.Database.SortedSets.{ScoreMap, zadd}
use minimum_redis.Rdb.{word_bytes, word_of, write_length_encoded, read_bytes, read_length_encoded}

-- The bytes of a 64-bit word.
abbrev pub long_bytes : ℕ → Bytes
long_bytes n = word_bytes (n % 2 ^ 32) ++ word_bytes (n / 2 ^ 32)

-- The count of a container, a `uint32_t`.
abbrev pub count_bytes : ℕ → Bytes
count_bytes n = word_bytes (n % 2 ^ 32)

abbrev pub write_items : List Bytes → Bytes
write_items [] = []
write_items (s ∷ ss) = write_length_encoded s ++ write_items ss

abbrev pub write_scores : ScoreMap → Bytes
write_scores [] = []
write_scores ((score, member) ∷ r) =
    write_length_encoded member ++ (long_bytes score ++ write_scores r)

abbrev pub write_fields : Dict Bytes → Bytes
write_fields [] = []
write_fields ((f, v) ∷ h) = write_length_encoded f ++ (write_length_encoded v ++ write_fields h)

-- The switch on the type.
abbrev pub write_value : Bytes → RedisValue → RedisType → Bytes
write_value key v RedisType.string =
    0 ∷ (write_length_encoded key ++ write_length_encoded v.str_val)
write_value key v RedisType.list =
    1 ∷ (write_length_encoded key ++ (count_bytes (length v.list_val) ++ write_items v.list_val))
write_value key v RedisType.set =
    2 ∷ (write_length_encoded key ++ (count_bytes (length v.set_val) ++ write_items v.set_val))
write_value key v RedisType.zset =
    3
    ∷ (write_length_encoded key
        ++ (count_bytes (length v.zset_member_to_score) ++ write_scores v.zset_score_to_member))
write_value key v RedisType.hash =
    4 ∷ (write_length_encoded key ++ (count_bytes (length v.hash_val) ++ write_fields v.hash_val))

abbrev pub write_expiry : ℤ → Bytes
write_expiry t = if ltb_ℤ (pos 0) t then 252 ∷ long_bytes (bits_64 t) else []

abbrev pub write_entries : Keyspace → Bytes
write_entries [] = []
write_entries ((key, v) ∷ d) =
    write_expiry v.expiry_time ++ (write_value key v v.type ++ write_entries d)

-- "REDIS", the version, the opcode of the database's number, and the number 0.
abbrev pub header : Bytes
header = 82 ∷ 69 ∷ 68 ∷ 73 ∷ 83 ∷ 9 ∷ 254 ∷ 0 ∷ []

unfoldable pub save_rdb : Keyspace → Bytes
save_rdb d = header ++ (write_entries d ++ 255 ∷ [])

-- What a step of loading leaves: the keyspace, and the rest of the file unless a read failed.
abbrev pub Loaded : Type 0
Loaded = Keyspace × Option Bytes

abbrev pub and_then {ℓ κ} : {A : Type ℓ} {B : Type κ} → Option (A × Bytes) → B → (A → Bytes → B) → B
and_then none failed next = failed
and_then (some (a, rest)) failed next = next a rest

-- `count` strings.
unfoldable pub read_items : ℕ → Bytes → Option (List Bytes × Bytes)
unfolding read_length_encoded
read_items zero file = some ([], file)
read_items (suc n) file =
    and_then (read_length_encoded file) none
      (λ s rest. and_then (read_items n rest) none (λ ss last. some (s ∷ ss, last)))

unfoldable pub read_scores : ℕ → Bytes → Option (List (Double × Bytes) × Bytes)
unfolding read_length_encoded read_bytes
read_scores zero file = some ([], file)
read_scores (suc n) file = and_then (read_length_encoded file) none (λ m rest.
    and_then (read_bytes 8 rest) none (λ score more.
      and_then (read_scores n more) none (λ ms last. some ((word_of score, m) ∷ ms, last))))

-- The fields are set as they are read.
unfoldable pub load_fields : ℕ → Bytes → Bytes → Keyspace → Loaded
unfolding read_length_encoded hset
load_fields zero key file d = (d, some file)
load_fields (suc n) key file d =
    and_then (read_length_encoded file) (d, none)
      (λ field rest.
        and_then (read_length_encoded rest) (d, none)
          (λ value last. load_fields n key last (hset key field value d).0))

abbrev pub push_each : Bytes → List Bytes → Keyspace → Keyspace
push_each key [] d = d
push_each key (v ∷ vs) d = push_each key vs (rpush key (v ∷ []) d).0

-- `if (expiry_ms > 0)`, on the value that has just been set
abbrev pub expiring : ℤ → Option RedisValue → Bytes → Keyspace → Keyspace
expiring expiry_ms none key d = d
expiring expiry_ms (some v) key d =
    if ltb_ℤ (pos 0) expiry_ms then put key (record v { expiry_time = expiry_ms }) d else d

abbrev pub load_string : ℤ → Bytes → Bytes → Keyspace → Keyspace
load_string expiry_ms key value d =
    let d1 = (set key value d).0 in expiring expiry_ms (find key d1) key d1

-- The switch on the type of an entry, behind its key.
unfoldable pub load_value : ℕ → ℤ → Bytes → Bytes → Keyspace → Loaded
unfolding read_length_encoded read_bytes read_items read_scores load_fields
load_value type expiry_ms key file d =
    if type == 0
    then and_then (read_length_encoded file) (d, none)
        (λ value rest. (load_string expiry_ms key value d, some rest))
    else if type == 1
    then and_then (read_bytes 4 file) (d, none)
        (λ size rest.
          and_then (read_items (word_of size) rest) (d, none)
            (λ values last. (push_each key values d, some last)))
    else if type == 2
    then and_then (read_bytes 4 file) (d, none)
        (λ size rest.
          and_then (read_items (word_of size) rest) (d, none)
            (λ members last. ((sadd key members d).0, some last)))
    else if type == 3
    then and_then (read_bytes 4 file) (d, none)
        (λ size rest.
          and_then (read_scores (word_of size) rest) (d, none)
            (λ members last. ((zadd key members d).0, some last)))
    else if type == 4
    then and_then (read_bytes 4 file) (d, none) (λ size rest. load_fields (word_of size) key rest d)
    else if type == 254
    then and_then (read_bytes 1 file) (d, none)
        (λ db_num rest. (d, if word_of db_num == 0 then some rest else none))
    else (d, some file)

-- The key comes before the switch, for every opcode.
unfoldable pub load_entry : ℕ → ℤ → Bytes → Keyspace → Loaded
unfolding read_length_encoded load_value
load_entry type expiry_ms file d =
    and_then (read_length_encoded file) (d, none) (λ key rest. load_value type expiry_ms key rest d)

-- One round of the loop, from the opcode on.
unfoldable pub load_opcode : ℕ → Bytes → Keyspace → Loaded
unfolding read_bytes load_entry
load_opcode opcode file d =
    if opcode == 252
    then and_then (read_bytes 8 file) (d, none)
        (λ timestamp rest.
          and_then (read_bytes 1 rest) (d, none)
            (λ type last. load_entry (word_of type) (signed_64 (word_of timestamp)) last d))
    else load_entry opcode (negsuc 0) file d

abbrev pub continue_with : (Bytes → Keyspace → Keyspace × Bool) → Loaded → Keyspace × Bool
continue_with loop (d, none) = (d, false)
continue_with loop (d, some rest) = loop rest d

-- The loop; each round takes at least the opcode.
unfoldable pub load_loop : ℕ → Bytes → Keyspace → Keyspace × Bool
unfolding load_opcode
load_loop zero file d = (d, false)
load_loop (suc f) [] d = (d, true)
load_loop (suc f) (opcode ∷ file) d =
    if opcode == 255 then (d, true) else continue_with (load_loop f) (load_opcode opcode file d)

abbrev pub magic : Bytes
magic = 82 ∷ 69 ∷ 68 ∷ 73 ∷ 83 ∷ []

-- The magic string is compared, the version is not.
unfoldable pub load_rdb : Bytes → Keyspace → Keyspace × Bool
unfolding load_loop read_bytes equal
load_rdb file d =
    and_then (read_bytes 5 file) (d, false)
      (λ first rest.
        if not (equal first magic)
        then (d, false)
        else and_then (read_bytes 1 rest) (d, false)
            (λ version entries. load_loop (length entries + 1) entries d))
