-- ===== src/Resp/Value.antt =====
-- resp.h: the values, and what the parser throws.
use minimum_redis.Base.{Bytes, List, [], ◌∷◌, text, ◌≡◌, refl}
use minimum_redis.Base.Int.{ℤ}

mutual
  pub data RespValue : Type 0 where
    simple_string : Bytes → RespValue
    error : Bytes → RespValue
    integer : ℤ → RespValue
    bulk_string : Bytes → RespValue
    array : RespValues → RespValue

  pub data RespValues : Type 0 where
    nil : RespValues
    cons : RespValue → RespValues → RespValues

-- `array_val` as a vector.
abbrev pub to_list : RespValues → List RespValue
to_list nil = []
to_list (cons v vs) = v ∷ to_list vs

abbrev pub of_list : List RespValue → RespValues
of_list [] = nil
of_list (v ∷ vs) = cons v (of_list vs)

-- The field `str_val`, which is empty for the types that do not set it.
abbrev pub str_val : RespValue → Bytes
str_val (simple_string s) = s
str_val (error s) = s
str_val (integer n) = []
str_val (bulk_string s) = s
str_val (array vs) = []

-- The first seven are the `std::runtime_error`s of the parser, each with its own message;
-- `length_error` is `std::length_error`, which is no `runtime_error`. The last two are no
-- exceptions: a read outside of the buffer, and the end of the model's fuel.
pub data Exception : Type 0 where
  incomplete_command unknown_type incomplete_line invalid_integer incomplete_bulk : Exception
  invalid_bulk_length invalid_array_length length_error out_of_bounds out_of_fuel : Exception

-- `e.what()` of the runtime errors.
unfoldable pub what : Exception → Bytes
what incomplete_command = text "Incomplete command"
what unknown_type = text "Unknown RESP type"
what incomplete_line = text "Incomplete line"
what invalid_integer = text "Invalid integer format"
what incomplete_bulk = text "Incomplete bulk string"
what invalid_bulk_length = text "Invalid bulk string length"
what invalid_array_length = text "Invalid array length"
what length_error = []
what out_of_bounds = []
what out_of_fuel = []

-- What a call gives back: an exception that it throws, or a value that it returns.
pub data Result {ℓ} (V : Type ℓ) : Type ℓ where
  err : Exception → Result V
  ok : V → Result V

-- The next statement runs on the value, and not at all behind an exception.
infixl 5 ◌>>=◌
abbrev pub ◌>>=◌ {κ ℓ} : {V : Type κ} {W : Type ℓ} → Result V → (V → Result W) → Result W
err thrown >>= rest = err thrown
ok v >>= rest = rest v

-- A value comes out of two statements only if each of them returned.
pub >>=-eq-ok {κ ℓ} :
    {V : Type κ} {W : Type ℓ} (call : Result V) (rest : V → Result W) {w : W}
    → (call >>= rest) ≡ ok w
    → (v : V) × (call ≡ ok v) × (rest v ≡ ok w)
>>=-eq-ok (err thrown) rest returned = cc
>>=-eq-ok (ok v) rest returned = (v, refl, returned)
