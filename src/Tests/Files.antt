-- ===== src/Tests/Files.antt =====
-- The RDB files, the text files and the replies that a client reads, at concrete contents.
use minimum_redis.Base.{length, some, [], ◌∷◌, ◌++◌, codes, ◌≡◌, refl, arith}
use minimum_redis.Value.{RedisType, new_value}
use minimum_redis.Database.{Keyspace}
use minimum_redis.Database.TextFile.{save_to_file, load_from_file}
use minimum_redis.Database.TextFile.Reload.{IsPlain, set_all, load_from_file-save_to_file}
use minimum_redis.RedisClient.{get_next_message}
use minimum_redis.RedisClient.Messages.{crlf, get_next_message-line}
use minimum_redis.Rdb.{write_length_encoded, read_length_encoded}
use minimum_redis.Rdb.Strings.{read-write_length_encoded}

read-write_length_encoded_example :
    read_length_encoded (write_length_encoded (codes "value") ++ codes "rest")
    ≡ some (codes "value", codes "rest")
read-write_length_encoded_example =
    read-write_length_encoded (codes "value") (codes "rest") (omega arith)

abbrev one_list : Keyspace
one_list = (codes "k", record (new_value RedisType.list) { list_val = codes "a" ∷ [] }) ∷ []

-- A string and a list.
abbrev two_keys : Keyspace
two_keys =
    (codes "k", record (new_value RedisType.string) { str_val = codes "a=b" })
    ∷ (codes "l", record (new_value RedisType.list) { list_val = codes "x" ∷ [] })
    ∷ []

two_keys-IsPlain : IsPlain two_keys
two_keys-IsPlain = (λ e. (refl, refl, refl, refl), (λ e. absurd (ground arith), tt))

load_from_file-save_to_file_example :
    load_from_file (save_to_file two_keys) [] ≡ set_all two_keys []
load_from_file-save_to_file_example = load_from_file-save_to_file two_keys [] two_keys-IsPlain

-- The reply to GET of a key with the value `hi`, of which the first line has been read.
get_next_message-line_example :
    get_next_message (record {
      buffer = codes "$2\r\n" ++ (codes "hi" ++ crlf (codes ":1"));
      pos = length (codes "$2\r\n");
    })
    ≡ (
      record {
        buffer = codes "$2\r\n" ++ (codes "hi" ++ crlf (codes ":1"));
        pos = length (codes "$2\r\n" ++ (codes "hi" ++ crlf []));
      },
      codes "hi" ++ crlf [],
    )
get_next_message-line_example =
    get_next_message-line (codes "$2\r\n") (codes "hi") (codes ":1") refl
