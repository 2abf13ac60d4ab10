-- ===== src/Resp.antt =====
-- resp.h and resp.cpp: the RESP values and the parser. The buffer is kept as its unread part and
-- the number of bytes read, so `len` is the sum of the two.
pub mod Value
pub mod Consume
pub mod Stream
pub mod Encode
pub mod Crash
use minimum_redis.Base.{
  ℕ, zero, suc, ◌+◌, ◌-◌, ◌%◌, ◌^◌, Bool, true, false, Option, none, some, List, [], ◌∷◌, ◌++◌,
  Bytes, text, equal, codes, length, take, drop, ltb, leb, ◌==◌, if◌then◌else◌, ◌≡◌, refl,
}
use minimum_redis.Base.Number.{stoul, stoll}
use Value.{
  RespValue, RespValues, simple_string, error, integer, bulk_string, array, nil, cons, Exception,
  incomplete_command, unknown_type, incomplete_line, invalid_integer, incomplete_bulk,
  invalid_bulk_length, invalid_array_length, length_error, out_of_bounds, out_of_fuel, Result, ok,
  err, ◌>>=◌,
}

pub record RespParser : Type 0 where
  pub rest : Bytes
  pub pos : ℕ

-- `RespParser(buffer, length)`
abbrev pub parser_on : Bytes → RespParser
parser_on buffer = record { rest = buffer; pos = 0 }

-- `max_size()` of `std::string`, and of a vector of 16-byte pointers.
abbrev pub string_max : ℕ
string_max = 2 ^ 63 - 1

abbrev pub vector_max : ℕ
vector_max = 2 ^ 59 - 1

-- `std::string(bytes, n)`: throws for an impossible size; a read past the buffer is a fault.
unfoldable pub construct : ℕ → Bytes → Result Bytes
construct n bytes =
    if ltb string_max n
    then err length_error
    else if ltb (length bytes) n
    then err out_of_bounds
    else ok (take n bytes)

-- The bytes before the first '\n' and those behind it.
abbrev pub push_front : ℕ → Option (Bytes × Bytes) → Option (Bytes × Bytes)
push_front c none = none
push_front c (some (a, b)) = some (c ∷ a, b)

unfoldable pub split_line : Bytes → Option (Bytes × Bytes)
split_line [] = none
split_line (c ∷ s) =
    let later = split_line s in if c == b'\n' then some ([], s) else push_front c later

-- The length is a `size_t`, which wraps for an empty line.
abbrev pub line_of : RespParser → Option (Bytes × Bytes) → Result (Bytes × RespParser)
line_of p none = err incomplete_line
line_of p (some (line, behind)) = do
  str ← construct ((length line + 2 ^ 64 - 1) % 2 ^ 64) p.rest
  ok (str, record { rest = behind; pos = p.pos + length line + 1 })

unfoldable pub read_line : RespParser → Result (Bytes × RespParser)
unfolding split_line construct
read_line p = line_of p (split_line p.rest)

unfoldable pub read_bulk_string : ℕ → RespParser → Result (Bytes × RespParser)
unfolding construct
read_bulk_string n p =
    if ltb (p.pos + length p.rest) ((p.pos + n + 2) % 2 ^ 64) then err incomplete_bulk else do
      str ← construct n p.rest
      ok (str, record { rest = drop (n + 2) p.rest; pos = (p.pos + n + 2) % 2 ^ 64 })

-- `if (!s.empty() && s.back() == '\r') s.pop_back();`
unfoldable pub pop_cr : Bytes → Bytes
pop_cr [] = []
pop_cr (c ∷ []) = if c == b'\r' then [] else c ∷ []
pop_cr (c ∷ d ∷ s) = c ∷ pop_cr (d ∷ s)

unfoldable pub parse_simple_string : RespParser → Result (RespValue × RespParser)
unfolding read_line pop_cr
parse_simple_string p = do (line, q) ← read_line p; ok (simple_string (pop_cr line), q)

unfoldable pub parse_error : RespParser → Result (RespValue × RespParser)
unfolding read_line pop_cr
parse_error p = do (line, q) ← read_line p; ok (error (pop_cr line), q)

-- A number that could not be read becomes the given exception.
abbrev pub or_throw {ℓ} : {A : Type ℓ} → Exception → Option A → Result A
or_throw e none = err e
or_throw e (some a) = ok a

unfoldable pub parse_integer : RespParser → Result (RespValue × RespParser)
unfolding read_line stoll
parse_integer p = do
  (line, q) ← read_line p
  n ← or_throw invalid_integer (stoll line)
  ok (integer n, q)

unfoldable pub parse_bulk_string : RespParser → Result (RespValue × RespParser)
unfolding read_line read_bulk_string stoul text equal
parse_bulk_string p = do
  (line, q) ← read_line p
  if equal line (text "-1") then ok (bulk_string [], q) else do
    n ← or_throw invalid_bulk_length (stoul line)
    (str, r) ← read_bulk_string n q
    ok (bulk_string str, r)

-- The loop of `parse_array`; `parse` is handed in.
unfoldable pub parse_items :
    (RespParser → Result (RespValue × RespParser))
    → ℕ
    → RespParser
    → Result (RespValues × RespParser)
parse_items parse zero p = ok (nil, p)
parse_items parse (suc n) p = do
  (v, q) ← parse p
  (vs, r) ← parse_items parse n q
  ok (cons v vs, r)

unfoldable pub parse_array :
    (RespParser → Result (RespValue × RespParser)) → RespParser → Result (RespValue × RespParser)
unfolding read_line stoul parse_items
parse_array parse p = do
  (line, q) ← read_line p
  n ← or_throw invalid_array_length (stoul line)
  if ltb vector_max n
      then err length_error
      else do (vs, r) ← parse_items parse n q; ok (array vs, r)

-- The switch of `parse` on the byte it has read.
unfoldable pub parse_type :
    (RespParser → Result (RespValue × RespParser))
    → ℕ
    → RespParser
    → Result (RespValue × RespParser)
unfolding parse_simple_string parse_error parse_integer parse_bulk_string parse_array
parse_type parse c p =
    if c == b'+'
    then parse_simple_string p
    else if c == b'-'
    then parse_error p
    else if c == b':'
    then parse_integer p
    else if c == b'$'
    then parse_bulk_string p
    else if c == b'*'
    then parse_array parse p
    else err unknown_type

abbrev pub parse_rest :
    (RespParser → Result (RespValue × RespParser))
    → Bytes
    → RespParser
    → Result (RespValue × RespParser)
parse_rest parse [] p = err incomplete_command
parse_rest parse (c ∷ s) p = parse_type parse c (record { rest = s; pos = p.pos + 1 })

-- `RespParser::parse`. The fuel bounds the depth of nested arrays.
unfoldable pub parse_on : ℕ → RespParser → Result (RespValue × RespParser)
unfolding parse_type
parse_on zero p = err out_of_fuel
parse_on (suc f) p = parse_rest (parse_on f) p.rest p

-- A parser made on `buffer`, run once; more fuel than bytes is enough.
unfoldable pub parse : Bytes → Result (RespValue × RespParser)
unfolding parse_on
parse buffer = parse_on (length buffer + 1) (parser_on buffer)

parse_get :
    parse (codes "*2\r\n$3\r\nGET\r\n$1\r\nk\r\n+x")
    ≡ ok (
      array (cons (bulk_string (codes "GET")) (cons (bulk_string (codes "k")) nil)),
      record { rest = codes "+x"; pos = 20 },
    )
unfolding parse
parse_get = refl

parse_errors :
    (parse (codes "*1\r\n$3\r\nGE") ≡ err incomplete_bulk)
    × (parse (codes "*1\r") ≡ err incomplete_line)
    × (parse (codes "?") ≡ err unknown_type)
    × (parse (codes ":x\r\n") ≡ err invalid_integer)
    × (parse (codes "$-2\r\n") ≡ err length_error)
    × (parse (codes "*-1\r\n") ≡ err length_error)
unfolding parse
parse_errors = (refl, refl, refl, refl, refl, refl)
