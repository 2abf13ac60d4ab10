-- ===== src/Base/Number.antt =====
-- Decimal numbers as the C++ library prints and reads them: `std::to_string`, `std::stoul`,
-- `std::stoll` and `std::stoi`. `none` stands for the exceptions `invalid_argument` and
-- `out_of_range`, which every caller treats alike.
pub mod RoundTrip
use minimum_redis.Base.Tests.{ltb, leb, ◌==◌, if◌then◌else◌}
use minimum_redis.Base.Text.{Bytes, codes}
use minimum_redis.Base.Int.{ℤ, pos, negsuc, pos_part, neg_part, sub_ℕ}
use Prim.Native.Nat.{ℕ, zero, suc, ◌+◌, ◌-◌, ◌*◌, ◌/◌, ◌%◌, ◌^◌}
use mathlib.Core.Path.{◌≡◌, refl}
use mathlib.Core.Bool.{Bool, true, false, ◌&&◌, ◌||◌}
use mathlib.Core.Option.{Option, none, some}
use mathlib.Core.List.{List, [], ◌∷◌, ◌++◌}

-- The digits of `n` in front of `out`; the fuel `n + 1` is enough, since each round divides by ten.
unfoldable pub digits_onto : ℕ → ℕ → Bytes → Bytes
digits_onto zero n out = out
digits_onto (suc f) n out =
    let rest = digits_onto f (n / 10) ((b'0' + n % 10) ∷ out) in if n == 0 then out else rest

-- `std::to_string` of an unsigned number.
unfoldable pub to_string : ℕ → Bytes
unfolding digits_onto
to_string n = if n == 0 then b'0' ∷ [] else digits_onto (n + 1) n []

-- `std::to_string` of a signed number.
unfoldable pub to_string_ℤ : ℤ → Bytes
unfolding to_string
to_string_ℤ (pos n) = to_string n
to_string_ℤ (negsuc n) = b'-' ∷ to_string (n + 1)

abbrev pub is_digit : ℕ → Bool
is_digit c = leb b'0' c && leb c b'9'

-- `isspace` in the "C" locale.
abbrev pub is_space : ℕ → Bool
is_space c = c == 32 || (leb 9 c && leb c 13)

-- The digits at the front, read onto the value `n`.
unfoldable pub scan : ℕ → Bytes → ℕ
scan n [] = n
scan n (c ∷ s) = let rest = scan (n * 10 + (c - b'0')) s in if is_digit c then rest else n

unfoldable pub magnitude : Bytes → Option ℕ
unfolding scan
magnitude [] = none
magnitude (c ∷ s) = if is_digit c then some (scan 0 (c ∷ s)) else none

-- An optional sign and digits: whether a minus stood there, and the magnitude.
abbrev pub signed : Bool → Option ℕ → Option (Bool × ℕ)
signed minus none = none
signed minus (some n) = some (minus, n)

unfoldable pub after_space : Bytes → Option (Bool × ℕ)
unfolding magnitude
after_space [] = none
after_space (c ∷ s) =
    if c == b'-'
    then signed true (magnitude s)
    else if c == b'+'
    then signed false (magnitude s)
    else signed false (magnitude (c ∷ s))

-- What `strtol` and its relatives read: spaces, a sign, digits; the rest of the text is ignored.
unfoldable pub strto : Bytes → Option (Bool × ℕ)
unfolding after_space
strto [] = none
strto (c ∷ s) = let rest = strto s in if is_space c then rest else after_space (c ∷ s)

-- `strtoul` takes a minus sign and negates modulo 2 ^ 64.
abbrev pub to_unsigned : Option (Bool × ℕ) → Option ℕ
to_unsigned none = none
to_unsigned (some (minus, n)) =
    if leb (2 ^ 64) n then none else if minus then some ((2 ^ 64 - n) % 2 ^ 64) else some n

unfoldable pub stoul : Bytes → Option ℕ
unfolding strto
stoul s = to_unsigned (strto s)

-- A signed result of `w` bits, where `half` is 2 ^ (w - 1).
abbrev pub to_signed : ℕ → Option (Bool × ℕ) → Option ℤ
to_signed half none = none
to_signed half (some (minus, n)) =
    if minus
    then if leb n half then some (sub_ℕ 0 n) else none
    else if ltb n half
    then some (pos n)
    else none

unfoldable pub stoll : Bytes → Option ℤ
unfolding strto
stoll s = to_signed (2 ^ 63) (strto s)

unfoldable pub stoi : Bytes → Option ℤ
unfolding strto
stoi s = to_signed (2 ^ 31) (strto s)

prints : to_string_ℤ (negsuc 1203) ≡ codes "-1204"
unfolding to_string_ℤ
prints = refl

reads :
    (stoul (codes " +12x") ≡ some 12)
    × (stoul (codes "-1") ≡ some (2 ^ 64 - 1))
    × (stoul (codes "18446744073709551616") ≡ none)
    × (stoi (codes "-2147483648") ≡ some (negsuc 2147483647))
    × (stoi (codes "2147483648") ≡ none)
    × (stoll (codes "x1") ≡ none)
unfolding stoul stoi stoll
reads = (refl, refl, refl, refl, refl, refl)
