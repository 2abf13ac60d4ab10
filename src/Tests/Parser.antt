-- ===== src/Tests/Parser.antt =====
-- The parser of resp.cpp and the client's requests, at concrete messages.
use minimum_redis.Base.{List, [], ◌∷◌, ◌++◌, Bytes, codes, length, ◌≡◌, refl, arith}
use minimum_redis.Resp.{parser_on, parse}
use minimum_redis.Resp.Value.{ok, err, array, integer, length_error}
use minimum_redis.Resp.Consume.{Sound, parse-Sound}
use minimum_redis.Resp.Stream.{parse-append}
use minimum_redis.Resp.Encode.{request, bulks, parse-request}
use minimum_redis.Resp.Crash.{parse-empty_line}
use minimum_redis.Base.Int.{pos}
use minimum_redis.Base.Number.{to_string}

abbrev message : Bytes
message = codes "*2\r\n$3\r\nGET\r\n$1\r\nk\r\n"

parse-Sound_example : Sound 1 (parser_on message) (parse message)
parse-Sound_example = parse-Sound message (omega arith)

abbrev parts : List Bytes
parts = codes "SET" ∷ codes "k" ∷ codes "a\r\nb" ∷ []

short : length (request parts ++ message) ≡ 50
unfolding request to_string
short = refl

parse-request_example :
    parse (request parts ++ message)
    ≡ ok (array (bulks parts), record { rest = message; pos = length (request parts) })
parse-request_example = parse-request parts message (omega (arith, short))

parse-append_example :
    parse (codes ":12\r\n+" ++ message)
    ≡ ok (integer (pos 12), record { rest = codes "+" ++ message; pos = 5 })
parse-append_example =
    parse-append (codes ":12\r\n+") message (integer (pos 12))
      (record { rest = codes "+"; pos = 5 }) (omega arith) (unfold parse in refl)

parse-empty_line_example : parse (codes "+\n" ++ message) ≡ err length_error
parse-empty_line_example = parse-empty_line b'+' message refl
