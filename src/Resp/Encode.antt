-- ===== src/Resp/Encode.antt =====
-- clients/tui/redis_client.cpp: the request that `send_command` sends, and the server's parser on it.
use minimum_redis.Base.{
  ℕ, suc, ◌+◌, ◌-◌, ◌*◌, ◌%◌, ◌^◌, ◌≤◌, ◌<◌, false, Option, none, some, List, [], ◌∷◌, ◌++◌, Bytes,
  text, codes, equal, length, ltb, ◌==◌, if◌then◌else◌, ◌≡◌, refl, ap, arith, ltb-eq_false,
  append_assoc, length-append, take-append_length, drop-append_add,
}
use minimum_redis.Base.Number.{to_string, is_space}
use minimum_redis.Base.Number.RoundTrip.{
  Digits, Leads, to_string-Digits, to_string-Leads, stoul-to_string,
}
use minimum_redis.Resp.{
  RespParser, split_line, read_line, read_bulk_string, parse_bulk_string, parse_items, parse_array,
  parse_type, parse_rest, parse_on, parse, vector_max,
}
use minimum_redis.Resp.Consume.{construct-eq_ok}
use minimum_redis.Resp.Value.{RespValue, RespValues, Result, ok, bulk_string, array, nil, cons}

abbrev pub crlf : Bytes → Bytes
crlf s = b'\r' ∷ b'\n' ∷ s

-- `resp << "$" << p.length() << "\r\n" << p << "\r\n"`, in front of what is written later
unfoldable pub bulk_onto : Bytes → Bytes → Bytes
bulk_onto p rest = b'$' ∷ (to_string (length p) ++ crlf (p ++ crlf rest))

-- The loop over the parts.
unfoldable pub parts_onto : List Bytes → Bytes → Bytes
unfolding bulk_onto
parts_onto [] rest = rest
parts_onto (p ∷ ps) rest = bulk_onto p (parts_onto ps rest)

unfoldable pub request_onto : List Bytes → Bytes → Bytes
unfolding parts_onto
request_onto parts rest = b'*' ∷ (to_string (length parts) ++ crlf (parts_onto parts rest))

unfoldable pub request : List Bytes → Bytes
unfolding request_onto
request parts = request_onto parts []

-- `while (ss >> part)`: the words between white space; `word` is the part read so far.
abbrev close_word : Bytes → List Bytes → List Bytes
close_word [] words = words
close_word (c ∷ w) words = (c ∷ w) ∷ words

unfoldable pub words_from : Bytes → Bytes → List Bytes
words_from word [] = close_word word []
words_from word (c ∷ s) =
    let closed = close_word word (words_from [] s) in
    let longer = words_from (word ++ c ∷ []) s in if is_space c then closed else longer

-- What `send_command` sends; `none` where it returns false for a line with no words.
abbrev request_of : List Bytes → Option Bytes
request_of [] = none
request_of (p ∷ ps) = some (request (p ∷ ps))

unfoldable pub send_command : Bytes → Option Bytes
unfolding words_from request
send_command command = request_of (words_from [] command)

send_set :
    send_command (codes " SET k  v1\n") ≡ some (codes "*3\r\n$3\r\nSET\r\n$1\r\nk\r\n$2\r\nv1\r\n")
unfolding send_command to_string
send_set = refl

abbrev pub bulks : List Bytes → RespValues
bulks [] = nil
bulks (p ∷ ps) = cons (bulk_string p) (bulks ps)

split_line-printed :
    (s rest : Bytes) → Digits s → split_line (s ++ crlf rest) ≡ some (s ++ b'\r' ∷ [], rest)
unfolding split_line
split_line-printed [] rest h = refl
split_line-printed (c ∷ s) rest h =
    let other : (c == b'\n') ≡ false = ground arith in rw (other, split_line-printed s rest h.1)

read_line-printed :
    (s rest : Bytes) (pos : ℕ)
    → Digits s
    → length s < 2 ^ 62
    → read_line (record { rest = s ++ crlf rest; pos = pos })
      ≡ ok (s, record { rest = rest; pos = pos + length s + 2 })
read_line-printed s rest pos h l =
    let line : length (s ++ b'\r' ∷ []) ≡ length s + 1 = length-append s (b'\r' ∷ []) in
    let size : (length (s ++ b'\r' ∷ []) + 2 ^ 64 - 1) % 2 ^ 64 ≡ length s = omega arith in
    let read : pos + length (s ++ b'\r' ∷ []) + 1 ≡ pos + length s + 2 = omega arith in
    let fits : length s ≤ length (s ++ crlf rest) =
      omega (arith, length-append {0} s (crlf rest)) in
    unfold read_line in
    rw (
      split_line-printed s rest h,
      size,
      read,
      construct-eq_ok (length s) (s ++ crlf rest) (omega arith) fits,
      take-append_length s (crlf rest),
    )

read_bulk_string-printed :
    (s rest : Bytes) (pos : ℕ)
    → pos + length s < 2 ^ 62
    → read_bulk_string (length s) (record { rest = s ++ crlf rest; pos = pos })
      ≡ ok (s, record { rest = rest; pos = pos + length s + 2 })
read_bulk_string-printed s rest pos h =
    let total : length (s ++ crlf rest) ≡ length s + (length rest + 2) =
      omega (arith, length-append {0} s (crlf rest)) in
    let small : (pos + length s + 2) % 2 ^ 64 ≡ pos + length s + 2 = omega arith in
    let room : ltb (pos + length (s ++ crlf rest)) (pos + length s + 2) ≡ false =
      ltb-eq_false _ _ (omega arith) in
    let size : length s ≤ length (s ++ crlf rest) = omega arith in
    unfold read_bulk_string in
    rw (
      small,
      room,
      construct-eq_ok (length s) (s ++ crlf rest) (omega arith) size,
      take-append_length s (crlf rest),
      drop-append_add 2 s (crlf rest),
    )

not_minus_one : (s : Bytes) → Leads s → equal s (text "-1") ≡ false
unfolding equal text
not_minus_one [] h = absurd h
not_minus_one (c ∷ s) h = ground arith

-- Where the parser has read, behind what was printed onto `rest`.
abbrev at : ℕ → Bytes → RespParser
at pos rest = record { rest = rest; pos = pos }

-- The parser `run`, on `input` at `pos`, returns `v` and leaves `rest`.
abbrev Reads {ℓ} :
    {A : Type ℓ} → (RespParser → Result (A × RespParser)) → ℕ → Bytes → A → Bytes → Type ℓ
Reads run pos input v rest =
    (pos' : ℕ) × (run (at pos input) ≡ ok (v, at pos' rest))
    × (pos' + length rest ≡ pos + length input)

-- One bulk string, with the switch on its type byte; the parser for nested values plays no part.
parse_bulk_string-printed :
    (p rest : Bytes) (pos : ℕ)
    → pos + length (to_string (length p) ++ crlf (p ++ crlf rest)) < 2 ^ 62
    → Reads parse_bulk_string pos
        (to_string (length p) ++ crlf (p ++ crlf rest))
        (bulk_string p)
        rest
parse_bulk_string-printed p rest pos h =
    let n = to_string (length p) in
    let outer : length (n ++ crlf (p ++ crlf rest)) ≡ length n + (length (p ++ crlf rest) + 2) =
      omega (arith, length-append {0} n (crlf (p ++ crlf rest))) in
    let inner : length (p ++ crlf rest) ≡ length p + (length rest + 2) =
      omega (arith, length-append {0} p (crlf rest)) in
    (
      pos + length n + 2 + length p + 2,
      unfold parse_bulk_string in
          rw (
            read_line-printed n (p ++ crlf rest) pos (to_string-Digits (length p)) (omega arith),
            not_minus_one n (to_string-Leads (length p)),
            stoul-to_string (length p) (omega arith),
            read_bulk_string-printed p rest (pos + length n + 2) (omega arith),
          ),
      omega arith,
    )

parse_rest-bulk :
    (rec : RespParser → Result (RespValue × RespParser)) (p rest : Bytes) (pos : ℕ)
    → pos + length (bulk_onto p rest) < 2 ^ 62
    → Reads (λ q. parse_rest rec q.rest q) pos (bulk_onto p rest) (bulk_string p) rest
unfolding bulk_onto
parse_rest-bulk rec p rest pos h =
    let (pos', e, c) = parse_bulk_string-printed p rest (pos + 1) (omega arith) in
    (pos', unfold parse_type in e, omega arith)

parse_items-printed :
    (f : ℕ) (ps : List Bytes) (rest : Bytes) (pos : ℕ)
    → pos + length (parts_onto ps rest) < 2 ^ 62
    → Reads (parse_items (parse_on (suc f)) (length ps)) pos (parts_onto ps rest) (bulks ps) rest
unfolding parts_onto parse_items
parse_items-printed f [] rest pos h = (pos, refl, refl)
parse_items-printed f (p ∷ ps) rest pos h =
    let (pos1, e, c) = parse_rest-bulk (parse_on f) p (parts_onto ps rest) pos h in
    let (pos2, e', c') = parse_items-printed f ps rest pos1 (omega arith) in
    let one : parse_on (suc f) (at pos (bulk_onto p (parts_onto ps rest)))
        ≡ ok (bulk_string p, at pos1 (parts_onto ps rest)) =
      unfold parse_on in e in
    (pos2, rw (one, e'), omega arith)

-- A part takes five bytes at least.
length-parts_onto :
    (ps : List Bytes) (rest : Bytes) → 5 * length ps + length rest ≤ length (parts_onto ps rest)
unfolding parts_onto bulk_onto
length-parts_onto [] rest = omega arith
length-parts_onto (p ∷ ps) rest =
    let later = crlf (parts_onto ps rest) in
    omega (
      arith,
      length-parts_onto ps rest,
      length-append {0} (to_string (length p)) (crlf (p ++ later)),
      length-append {0} p later,
    )

parse_rest-request :
    (f : ℕ) (parts : List Bytes) (more : Bytes)
    → length (request_onto parts more) < 2 ^ 61
    → Reads
        (λ q. parse_rest (parse_on (suc f)) q.rest q)
        0
        (request_onto parts more)
        (array (bulks parts))
        more
unfolding request_onto
parse_rest-request f parts more h =
    let n = to_string (length parts) in
    let body = parts_onto parts more in
    let outer : length (n ++ crlf body) ≡ length n + (length body + 2) =
      omega (arith, length-append {0} n (crlf body)) in
    let count : length parts < 2 ^ 59 = omega (arith, length-parts_onto parts more) in
    let (pos', e, c) = parse_items-printed f parts more (0 + 1 + length n + 2) (omega arith) in
    (
      pos',
      unfold parse_type in
          unfold parse_array in
          rw (
            read_line-printed n body (0 + 1) (to_string-Digits (length parts)) (omega arith),
            stoul-to_string (length parts) (omega arith),
            ltb-eq_false vector_max (length parts) (omega arith),
            e,
          ),
      omega arith,
    )

parts_onto-append :
    (ps : List Bytes) (rest more : Bytes)
    → parts_onto ps rest ++ more ≡ parts_onto ps (rest ++ more)
unfolding parts_onto bulk_onto
parts_onto-append [] rest more = refl
parts_onto-append (p ∷ ps) rest more = simp (append_assoc, parts_onto-append ps rest more)

request-append :
    (parts : List Bytes) (more : Bytes) → request parts ++ more ≡ request_onto parts more
unfolding request
request-append parts more = simp (append_assoc, parts_onto-append parts [] more)

parse-request_onto :
    (parts : List Bytes) (more : Bytes)
    → length (request_onto parts more) < 2 ^ 61
    → Reads
        (λ p. parse_on (length (request_onto parts more) + 1) p)
        0
        (request_onto parts more)
        (array (bulks parts))
        more
parse-request_onto parts more h =
    let k = length (to_string (length parts) ++ crlf (parts_onto parts more)) in
    let (pos, e, c) = parse_rest-request k parts more h in
    let fuel : length (request_onto parts more) + 1 ≡ suc (suc k) =
      unfold request_onto in omega arith in
    (pos, rw fuel (unfold parse_on in e), c)

-- The server's parser reads back every request that the client sends, whatever bytes its parts
-- hold and whatever follows it: on a request of parts `parts` followed by the bytes `more`, fewer
-- than 2 ^ 61 bytes in all, `parse` returns the array of the parts as bulk strings, has consumed
-- exactly the bytes of the request, and leaves `more` unread.
pub parse-request :
    (parts : List Bytes) (more : Bytes)
    → length (request parts ++ more) < 2 ^ 61
    → parse (request parts ++ more)
      ≡ ok (array (bulks parts), record { rest = more; pos = length (request parts) })
parse-request parts more h =
    let onto = request-append parts more in
    let (pos, e, c) = parse-request_onto parts more (omega (arith, ap length onto)) in
    let total : pos + length more ≡ length (request parts) + length more =
      omega (arith, ap length onto, length-append {0} (request parts) more) in
    let count : length (request parts) ≡ pos = omega arith in rw (count, onto) (unfold parse in e)
