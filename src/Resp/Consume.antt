-- ===== src/Resp/Consume.antt =====
-- What a run of the parser of resp.cpp reads: a front part of its input, counted by `pos`, and
-- never a byte outside of the buffer.
use minimum_redis.Base.{
  ℕ, zero, suc, ◌+◌, ◌-◌, ◌%◌, ◌^◌, ◌≤◌, ◌<◌, Bool, true, false, Option, none, some, [], ◌∷◌, ◌++◌,
  Bytes, text, equal, length, take, ltb, ◌==◌, if◌then◌else◌, ◌≡◌, refl, sym, ap, ◌∙◌, inl, inr,
  arith, Bool-cases, ltb→lt, append_assoc, length-append, length-take, take-append-drop,
}
use minimum_redis.Base.Number.{stoul, stoll}
use minimum_redis.Resp.{
  RespParser, parser_on, construct, split_line, line_of, read_line, read_bulk_string, pop_cr,
  parse_simple_string, parse_error, parse_integer, parse_bulk_string, parse_items, parse_array,
  parse_type, parse_rest, parse_on, parse, string_max, vector_max, push_front, or_throw,
}
use minimum_redis.Resp.Value.{
  RespValue, Exception, invalid_integer, incomplete_bulk, invalid_bulk_length, invalid_array_length,
  length_error, out_of_bounds, out_of_fuel, Result, ok, err, ◌>>=◌, simple_string, error,
  bulk_string,
}

-- `q` is `p` after at least `k` bytes more.
abbrev pub Consumes : ℕ → RespParser → RespParser → Type 0
Consumes k p q =
    (used : Bytes) × (p.rest ≡ used ++ q.rest) × (q.pos ≡ p.pos + length used) × (k ≤ length used)

-- The exceptions that the code can throw.
abbrev pub is_thrown : Exception → Bool
is_thrown out_of_bounds = false
is_thrown out_of_fuel = false
is_thrown _ = true

abbrev pub Sound {ℓ} : {A : Type ℓ} → ℕ → RespParser → Result (A × RespParser) → Type 0
Sound k p (ok (a, q)) = Consumes k p q
Sound k p (err e) = is_thrown e ≡ true

-- The buffer is no larger than a quarter of the address space.
abbrev pub Fits : RespParser → Type 0
Fits p = p.pos + length p.rest < 2 ^ 62

Consumes-trans :
    (j k : ℕ) (p q r : RespParser) → Consumes j p q → Consumes k q r → Consumes (j + k) p r
Consumes-trans j k p q r (u, e, c, l) (v, e', c', l') = (
  u ++ v,
  e ∙ ap (λ t. u ++ t) e' ∙ sym (append_assoc u v r.rest),
  omega (arith, length-append {0} u v),
  omega (arith, length-append {0} u v),
)

pub Consumes-length :
    (k : ℕ) (p q : RespParser)
    → Consumes k p q
    → (q.pos + length q.rest ≡ p.pos + length p.rest) × (k + length q.rest ≤ length p.rest)
Consumes-length k p q (u, e, c, l) =
    let total : length p.rest ≡ length u + length q.rest = ap length e ∙ length-append u q.rest in
    (omega arith, omega arith)

module _ {ℓ} {A : Type ℓ} where
  Sound-prepend :
      (j k : ℕ) (p q : RespParser) (r : Result (A × RespParser))
      → Consumes j p q
      → Sound k q r
      → Sound (j + k) p r
  Sound-prepend j k p q (ok (a, s)) c h = Consumes-trans j k p q s c h
  Sound-prepend j k p q (err e) c h = h

  Sound-mono :
      (j k : ℕ) (p : RespParser) (r : Result (A × RespParser)) → j ≤ k → Sound k p r → Sound j p r
  Sound-mono j k p (ok (a, s)) l (u, e, c, h) = (u, e, c, omega arith)
  Sound-mono j k p (err e) l h = h

  Sound-if :
      (k : ℕ) (p : RespParser) (b : Bool) (x y : Result (A × RespParser))
      → Sound k p x
      → Sound k p y
      → Sound k p (if b then x else y)
  Sound-if k p true x y hx hy = hx
  Sound-if k p false x y hx hy = hy

module _ {ℓ κ} {A : Type ℓ} {B : Type κ} where
  Sound-bind :
      (k : ℕ) (p : RespParser) (m : Result (A × RespParser))
      (f : A × RespParser → Result (B × RespParser))
      → Sound k p m
      → ((a : A) (q : RespParser) → Consumes k p q → Sound 0 q (f (a, q)))
      → Sound k p (m >>= f)
  Sound-bind k p (ok (a, q)) f h g =
      Sound-mono k (k + 0) p (f (a, q)) (omega arith) (Sound-prepend k 0 p q (f (a, q)) h (g a q h))
  Sound-bind k p (err e) f h g = h

  Sound-or_throw :
      (p : RespParser) (e : Exception) (o : Option A) (f : A → Result (B × RespParser))
      → is_thrown e ≡ true
      → ((a : A) → Sound 0 p (f a))
      → Sound 0 p (or_throw e o >>= f)
  Sound-or_throw p e none f t h = t
  Sound-or_throw p e (some a) f t h = h a

Consumes-refl : (p : RespParser) → Consumes 0 p p
Consumes-refl p = ([], refl, omega arith, omega arith)

pub push_front-eq_some :
    (c : ℕ) (o : Option (Bytes × Bytes)) {a b : Bytes}
    → push_front c o ≡ some (a, b)
    → (a' : Bytes) × (o ≡ some (a', b)) × (c ∷ a' ≡ a)
push_front-eq_some c none h = cc
push_front-eq_some c (some (x, y)) {a} {b} h = (x, ground arith, ground arith)

pub some_pair :
    {x y a b : Bytes}
    → ◌≡◌ {A = Option (Bytes × Bytes)} (some (x, y)) (some (a, b))
    → (x ≡ a) × (y ≡ b)
some_pair h = (cc, cc)

pub split_line_lem : (s : Bytes) {a b : Bytes} → split_line s ≡ some (a, b) → s ≡ a ++ b'\n' ∷ b
unfolding split_line
split_line_lem [] h = cc
split_line_lem (c ∷ s) {a} {b} h = elim (Bool-cases (c == b'\n')) [
  | inl here ↦
      let (nothing, rest) = some_pair {x = []} {y = s} {a = a} {b = b} (rw here at h) in
      let byte : c ≡ b'\n' = ground arith in rw (← nothing, ← rest, byte)
  | inr later ↦
      let found : push_front c (split_line s) ≡ some (a, b) = rw later at h in
      let (a', e, front) = push_front-eq_some c (split_line s) found in
      rw (← front) (ap (◌∷◌ c) (split_line_lem s e))
]

pub construct-eq_ok :
    (n : ℕ) (bytes : Bytes)
    → n ≤ string_max
    → n ≤ length bytes
    → construct n bytes ≡ ok (take n bytes)
unfolding construct
construct-eq_ok n bytes h k = ground arith

pub construct-too_long :
    (n : ℕ) (bytes : Bytes) → string_max < n → construct n bytes ≡ err length_error
unfolding construct
construct-too_long n bytes h = ground arith

-- An empty line wraps the length; another one is copied without its last byte.
pub line_of-nil :
    (p : RespParser) (behind : Bytes) → line_of p (some ([], behind)) ≡ err length_error
line_of-nil p behind = rw (construct-too_long (2 ^ 64 - 1) p.rest (omega arith))

pub line_of-cons :
    (p : RespParser) (c : ℕ) (line behind : Bytes)
    → length line ≤ string_max
    → length line ≤ length p.rest
    → line_of p (some (c ∷ line, behind))
      ≡ ok
          (take (length line) p.rest, record { rest = behind; pos = p.pos + length (c ∷ line) + 1 })
line_of-cons p c line behind h k =
    let size : (suc (length line) + 2 ^ 64 - 1) % 2 ^ 64 ≡ length line = omega arith in
    rw (size, construct-eq_ok (length line) p.rest h k)

line_of-Sound :
    (p : RespParser) (o : Option (Bytes × Bytes))
    → split_line p.rest ≡ o
    → Fits p
    → Sound 1 p (line_of p o)
line_of-Sound p none e h = refl
line_of-Sound p (some ([], b)) e h = rw line_of-nil refl
line_of-Sound p (some (c ∷ a, b)) e h =
    let splits : p.rest ≡ c ∷ a ++ b'\n' ∷ b = split_line_lem p.rest e in
    let total : length p.rest ≡ length (c ∷ a) + length (b'\n' ∷ b) =
      ap length splits ∙ length-append (c ∷ a) (b'\n' ∷ b) in
    rw (line_of-cons p c a b (omega arith) (omega arith)) (
      (c ∷ a) ++ b'\n' ∷ [],
      splits ∙ sym (append_assoc (c ∷ a) (b'\n' ∷ []) b),
      omega (arith, length-append {0} (c ∷ a) (b'\n' ∷ [])),
      omega (arith, length-append {0} (c ∷ a) (b'\n' ∷ [])),
    )

pub read_line-Sound : (p : RespParser) → Fits p → Sound 1 p (read_line p)
unfolding read_line
read_line-Sound p h = line_of-Sound p (split_line p.rest) refl h

pub read_bulk_string-Sound : (n : ℕ) (p : RespParser) → Fits p → Sound 2 p (read_bulk_string n p)
unfolding read_bulk_string
read_bulk_string-Sound n p h = elim (Bool-cases (ltb string_max n)) [
  | inl long ↦
      Sound-if 2 p (ltb (p.pos + length p.rest) ((p.pos + n + 2) % 2 ^ 64)) (err incomplete_bulk) _
        (refl) (rw (construct-too_long n p.rest (ltb→lt _ _ long)) refl)
  | inr short ↦ elim (Bool-cases (ltb (p.pos + length p.rest) ((p.pos + n + 2) % 2 ^ 64))) [
    | inl beyond ↦ rw beyond refl
    | inr within ↦
        let room : n + 2 ≤ length p.rest = ground arith in
        rw (within, construct-eq_ok n p.rest (omega arith) (omega arith))
          (
            take (n + 2) p.rest,
            sym (take-append-drop (n + 2) p.rest),
            omega (arith, length-take {0} (n + 2) p.rest),
            omega (arith, length-take {0} (n + 2) p.rest),
          )
  ]
]

pub Fits-step : (k : ℕ) (p q : RespParser) → Consumes k p q → Fits p → Fits q
Fits-step k p q c h = rw (Consumes-length k p q c).0 h

parse_simple_string-Sound : (p : RespParser) → Fits p → Sound 1 p (parse_simple_string p)
unfolding parse_simple_string
parse_simple_string-Sound p h =
    Sound-bind 1 p (read_line p) (λ (line, q). ok (simple_string (pop_cr line), q))
      (read_line-Sound p h) (λ line q c. Consumes-refl q)

parse_error-Sound : (p : RespParser) → Fits p → Sound 1 p (parse_error p)
unfolding parse_error
parse_error-Sound p h =
    Sound-bind 1 p (read_line p) (λ (line, q). ok (error (pop_cr line), q)) (read_line-Sound p h)
      (λ line q c. Consumes-refl q)

parse_integer-Sound : (p : RespParser) → Fits p → Sound 1 p (parse_integer p)
unfolding parse_integer
parse_integer-Sound p h =
    Sound-bind 1 p (read_line p) _ (read_line-Sound p h)
      (λ line q c. Sound-or_throw q invalid_integer (stoll line) _ refl (λ n. Consumes-refl q))

parse_bulk_string-Sound : (p : RespParser) → Fits p → Sound 1 p (parse_bulk_string p)
unfolding parse_bulk_string
parse_bulk_string-Sound p h = Sound-bind 1 p (read_line p) _ (read_line-Sound p h) (λ line q c.
    Sound-if 0 q (equal line (text "-1")) (ok (bulk_string [], q)) _ (Consumes-refl q) (
      Sound-or_throw q invalid_bulk_length (stoul line) _ refl (λ n.
        Sound-mono 0 2 q _ (omega arith) (
          Sound-bind 2 q (read_bulk_string n q) _ (read_bulk_string-Sound n q (Fits-step 1 p q c h))
            (λ str r d. Consumes-refl r)))))

-- Where the parser handed in is sound on shorter inputs, so is the loop over the items.
module _ (rec : RespParser → Result (RespValue × RespParser)) (f : ℕ)
    (rec-Sound : (q : RespParser) → Fits q → length q.rest < f → Sound 1 q (rec q)) where
  pub parse_items-Sound :
      (n : ℕ) (p : RespParser) → Fits p → length p.rest < f → Sound 0 p (parse_items rec n p)
  unfolding parse_items
  parse_items-Sound zero p h l = Consumes-refl p
  parse_items-Sound (suc n) p h l = Sound-mono 0 1 p _ (omega arith) (
      Sound-bind 1 p (rec p) _ (rec-Sound p h l) (λ v q c.
        Sound-bind 0 q (parse_items rec n q) _
          (parse_items-Sound n q (Fits-step 1 p q c h) (omega (arith, (Consumes-length 1 p q c).1)))
          (λ vs r d. Consumes-refl r)))

  parse_array-Sound : (p : RespParser) → Fits p → length p.rest < f → Sound 1 p (parse_array rec p)
  unfolding parse_array
  parse_array-Sound p h l = Sound-bind 1 p (read_line p) _ (read_line-Sound p h) (λ line q c.
      Sound-or_throw q invalid_array_length (stoul line) _ refl (λ n.
        Sound-if 0 q (ltb vector_max n) (err length_error) _ refl (
          Sound-bind 0 q (parse_items rec n q) _
            (parse_items-Sound n q (Fits-step 1 p q c h)
              (omega (arith, (Consumes-length 1 p q c).1)))
            (λ vs r d. Consumes-refl r))))

  parse_type-Sound :
      (c : ℕ) (p : RespParser) → Fits p → length p.rest < f → Sound 1 p (parse_type rec c p)
  unfolding parse_type
  parse_type-Sound c p h l = Sound-if 1 p (c == b'+') _ _ (parse_simple_string-Sound p h) (
      Sound-if 1 p (c == b'-') _ _ (parse_error-Sound p h) (
        Sound-if 1 p (c == b':') _ _ (parse_integer-Sound p h) (
          Sound-if 1 p (c == b'$') _ _ (parse_bulk_string-Sound p h)
            (Sound-if 1 p (c == b'*') _ _ (parse_array-Sound p h l) (refl)))))

  parse_rest-Sound :
      (s : Bytes) (p : RespParser)
      → p.rest ≡ s
      → Fits p
      → length s < suc f
      → Sound 1 p (parse_rest rec s p)
  parse_rest-Sound [] p e h l = refl
  parse_rest-Sound (c ∷ s) p e h l =
      let q : RespParser = record { rest = s; pos = p.pos + 1 } in
      let total : length p.rest ≡ suc (length s) = ap length e in
      Sound-mono 1 2 p _ (omega arith) (
        Sound-prepend 1 1 p q _ (c ∷ [], e, refl, omega arith)
          (parse_type-Sound c q (omega arith) (omega arith)))

pub parse_on-Sound :
    (f : ℕ) (p : RespParser) → Fits p → length p.rest < f → Sound 1 p (parse_on f p)
unfolding parse_on
parse_on-Sound zero p h l = absurd (omega arith)
parse_on-Sound (suc f) p h l = parse_rest-Sound (parse_on f) f (parse_on-Sound f) p.rest p refl h l

-- On every buffer of less than 2 ^ 62 bytes the parser ends within its fuel and reads no byte
-- outside of the buffer: it throws one of the code's exceptions, or it returns a value, and then
-- `get_consumed_bytes` counts exactly the bytes read from the front, at least one, and the unread
-- bytes are those behind them.
pub parse-Sound :
    (buffer : Bytes) → length buffer < 2 ^ 62 → Sound 1 (parser_on buffer) (parse buffer)
unfolding parse
parse-Sound buffer h =
    parse_on-Sound (length buffer + 1) (parser_on buffer) (omega arith) (omega arith)
