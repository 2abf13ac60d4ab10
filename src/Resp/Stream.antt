-- ===== src/Resp/Stream.antt =====
-- Pipelining: what the parser of resp.cpp read off the front of a buffer does not change when more
-- bytes arrive behind it.
use minimum_redis.Base.{
  ℕ, zero, suc, ◌+◌, ◌%◌, ◌^◌, ◌≤◌, ◌<◌, Bool, true, false, Option, none, some, [], ◌∷◌, ◌++◌,
  Bytes, text, equal, length, ltb, ◌==◌, if◌then◌else◌, ◌≡◌, refl, ap, ◌∙◌, arith, Bool-cases, inl,
  inr, ltb→lt, ltb-eq_false, length-append, take-append_le, drop-append_le,
}
use minimum_redis.Base.Number.{stoul, stoll}
use minimum_redis.Resp.{
  RespParser, parser_on, split_line, line_of, read_line, read_bulk_string, parse_simple_string,
  parse_error, parse_integer, parse_bulk_string, parse_items, parse_array, parse_type, parse_rest,
  parse_on, parse, string_max, vector_max, or_throw,
}
use minimum_redis.Resp.Consume.{
  Consumes, Consumes-length, Sound, Fits, Fits-step, read_line-Sound, read_bulk_string-Sound,
  construct-eq_ok, construct-too_long, line_of-nil, line_of-cons, split_line_lem,
  push_front-eq_some, some_pair, parse_items-Sound, parse_on-Sound,
}
use minimum_redis.Resp.Value.{RespValue, Exception, length_error, err, Result, ok, ◌>>=◌}

abbrev pub extend : Bytes → RespParser → RespParser
extend more p = record p { rest = p.rest ++ more }

-- If the first run returned, the second returns the same value and leaves `more` behind.
abbrev Extends {ℓ} :
    {A : Type ℓ} → Bytes → Result (A × RespParser) → Result (A × RespParser) → Type ℓ
Extends more (ok (a, q)) r = r ≡ ok (a, extend more q)
Extends more (err e) r = Unit

module _ {ℓ} {A : Type ℓ} (more : Bytes) where
  Extends-if :
      (b : Bool) (x y x' y' : Result (A × RespParser))
      → Extends more x x'
      → Extends more y y'
      → Extends more (if b then x else y) (if b then x' else y')
  Extends-if true x y x' y' hx hy = hx
  Extends-if false x y x' y' hx hy = hy

module _ {ℓ κ} {A : Type ℓ} {B : Type κ} (more : Bytes) where
  Extends-bind :
      (k : ℕ) (p : RespParser) (m m' : Result (A × RespParser))
      (f f' : A × RespParser → Result (B × RespParser))
      → Sound k p m
      → Extends more m m'
      → ((a : A) (q : RespParser)
          → Consumes k p q
          → Extends more (f (a, q)) (f' (a, extend more q)))
      → Extends more (m >>= f) (m' >>= f')
  Extends-bind k p (ok (a, q)) m' f f' s h g = rw h (g a q s)
  Extends-bind k p (err e) m' f f' s h g = tt

  Extends-or_throw :
      (e : Exception) (o : Option A) (f f' : A → Result (B × RespParser))
      → ((a : A) → Extends more (f a) (f' a))
      → Extends more (or_throw e o >>= f) (or_throw e o >>= f')
  Extends-or_throw e none f f' h = tt
  Extends-or_throw e (some a) f f' h = h a

split_line-append :
    (s more : Bytes) {a b : Bytes}
    → split_line s ≡ some (a, b)
    → split_line (s ++ more) ≡ some (a, b ++ more)
unfolding split_line
split_line-append [] more h = cc
split_line-append (c ∷ s) more {a} {b} h = elim (Bool-cases (c == b'\n')) [
  | inl here ↦
      let (nothing, rest) = some_pair {x = []} {y = s} {a = a} {b = b} (rw here at h) in
      rw (here, ← nothing, ← rest)
  | inr later ↦
      let (a', e, front) = push_front-eq_some c (split_line s) (rw later at h) in
      rw (later, split_line-append s more e, front)
]

line_of-Extends :
    (more : Bytes) (p : RespParser) (o : Option (Bytes × Bytes))
    → split_line p.rest ≡ o
    → Fits p
    → Extends more (line_of p o) (line_of (extend more p) (split_line (p.rest ++ more)))
line_of-Extends more p none e h = tt
line_of-Extends more p (some ([], b)) e h = rw line_of-nil tt
line_of-Extends more p (some (c ∷ a, b)) e h =
    let splits : p.rest ≡ c ∷ a ++ b'\n' ∷ b = split_line_lem p.rest e in
    let total : length p.rest ≡ length (c ∷ a) + length (b'\n' ∷ b) =
      ap length splits ∙ length-append (c ∷ a) (b'\n' ∷ b) in
    let room : length a ≤ length p.rest = omega arith in
    rw (line_of-cons p c a b (omega arith) room, split_line-append p.rest more e)
      (line_of-cons (extend more p) c a (b ++ more) (omega arith)
          (omega (arith, length-append {0} p.rest more))
        ∙ rw (take-append_le (length a) p.rest more room))

read_line-Extends :
    (more : Bytes) (p : RespParser)
    → Fits p
    → Extends more (read_line p) (read_line (extend more p))
read_line-Extends more p h = unfold read_line in line_of-Extends more p (split_line p.rest) refl h

read_bulk_string-Extends :
    (more : Bytes) (n : ℕ) (p : RespParser)
    → Fits p
    → Extends more (read_bulk_string n p) (read_bulk_string n (extend more p))
unfolding read_bulk_string
read_bulk_string-Extends more n p h =
    elim (Bool-cases (ltb (p.pos + length p.rest) ((p.pos + n + 2) % 2 ^ 64))) [
      | inl beyond ↦ rw beyond tt
      | inr within ↦
          let within' : ltb (p.pos + length (p.rest ++ more)) ((p.pos + n + 2) % 2 ^ 64) ≡ false =
            ltb-eq_false _ _ (ground (arith, length-append p.rest more)) in
          elim (Bool-cases (ltb string_max n)) [
            | inl long ↦ rw (within, construct-too_long n p.rest (ltb→lt _ _ long)) tt
            | inr short ↦
                let room : n + 2 ≤ length p.rest = ground arith in
                let more_room : n ≤ length (p.rest ++ more) =
                  omega (arith, length-append {0} p.rest more) in
                rw (
                  within,
                  within',
                  construct-eq_ok n p.rest (ground arith) (omega arith),
                  construct-eq_ok n (p.rest ++ more) (ground arith) more_room,
                  take-append_le n p.rest more (omega arith),
                  drop-append_le (n + 2) p.rest more room,
                )
          ]
    ]

read_line-bind :
    {B : Type 0} (more : Bytes) (p : RespParser)
    (f f' : Bytes × RespParser → Result (B × RespParser))
    → Fits p
    → ((a : Bytes) (q : RespParser)
        → Consumes 1 p q
        → Extends more (f (a, q)) (f' (a, extend more q)))
    → Extends more (read_line p >>= f) (read_line (extend more p) >>= f')
read_line-bind more p f f' h g =
    Extends-bind more 1 p (read_line p) (read_line (extend more p)) f f' (read_line-Sound p h)
      (read_line-Extends more p h) g

parse_simple_string-Extends :
    (more : Bytes) (p : RespParser)
    → Fits p
    → Extends more (parse_simple_string p) (parse_simple_string (extend more p))
unfolding parse_simple_string
parse_simple_string-Extends more p h = read_line-bind more p _ _ h (λ line q c. refl)

parse_error-Extends :
    (more : Bytes) (p : RespParser)
    → Fits p
    → Extends more (parse_error p) (parse_error (extend more p))
unfolding parse_error
parse_error-Extends more p h = read_line-bind more p _ _ h (λ line q c. refl)

parse_integer-Extends :
    (more : Bytes) (p : RespParser)
    → Fits p
    → Extends more (parse_integer p) (parse_integer (extend more p))
unfolding parse_integer
parse_integer-Extends more p h =
    read_line-bind more p _ _ h (λ line q c. Extends-or_throw more _ (stoll line) _ _ (λ n. refl))

parse_bulk_string-Extends :
    (more : Bytes) (p : RespParser)
    → Fits p
    → Extends more (parse_bulk_string p) (parse_bulk_string (extend more p))
unfolding parse_bulk_string
parse_bulk_string-Extends more p h = read_line-bind more p _ _ h (λ line q c.
    Extends-if more (equal line (text "-1")) _ _ _ _ (refl) (
      Extends-or_throw more _ (stoul line) _ _ (λ n.
        let fits = Fits-step 1 p q c h in
        Extends-bind more 2 q (read_bulk_string n q) (read_bulk_string n (extend more q)) _ _
          (read_bulk_string-Sound n q fits) (read_bulk_string-Extends more n q fits)
          (λ str r d. refl))))

-- The parsers handed in agree on inputs below the bound `f`.
module _ (more : Bytes) (rec rec' : RespParser → Result (RespValue × RespParser)) (f : ℕ)
    (rec-Sound : (q : RespParser) → Fits q → length q.rest < f → Sound 1 q (rec q))
    (rec-Extends : (q : RespParser)
      → Fits q
      → length q.rest < f
      → Extends more (rec q) (rec' (extend more q))) where
  parse_items-Extends :
      (n : ℕ) (p : RespParser)
      → Fits p
      → length p.rest < f
      → Extends more (parse_items rec n p) (parse_items rec' n (extend more p))
  unfolding parse_items
  parse_items-Extends zero p h l = refl
  parse_items-Extends (suc n) p h l =
      Extends-bind more 1 p (rec p) (rec' (extend more p)) _ _ (rec-Sound p h l) (rec-Extends p h l)
        (λ v q c.
          let fits = Fits-step 1 p q c h in
          let shorter : length q.rest < f = omega (arith, (Consumes-length 1 p q c).1) in
          Extends-bind more 0 q (parse_items rec n q) (parse_items rec' n (extend more q)) _ _
            (parse_items-Sound rec f rec-Sound n q fits shorter)
            (parse_items-Extends n q fits shorter) (λ vs r d. refl))

  parse_array-Extends :
      (p : RespParser)
      → Fits p
      → length p.rest < f
      → Extends more (parse_array rec p) (parse_array rec' (extend more p))
  unfolding parse_array
  parse_array-Extends p h l = read_line-bind more p _ _ h (λ line q c.
      let fits = Fits-step 1 p q c h in
      let shorter : length q.rest < f = omega (arith, (Consumes-length 1 p q c).1) in
      Extends-or_throw more _ (stoul line) _ _ (λ n.
        Extends-if more (ltb vector_max n) (err length_error) _ (err length_error) _ (tt) (
          Extends-bind more 0 q (parse_items rec n q) (parse_items rec' n (extend more q)) _ _
            (parse_items-Sound rec f rec-Sound n q fits shorter)
            (parse_items-Extends n q fits shorter) (λ vs r d. refl))))

  parse_type-Extends :
      (c : ℕ) (p : RespParser)
      → Fits p
      → length p.rest < f
      → Extends more (parse_type rec c p) (parse_type rec' c (extend more p))
  unfolding parse_type
  parse_type-Extends c p h l =
      Extends-if more (c == b'+') _ _ _ _ (parse_simple_string-Extends more p h) (
        Extends-if more (c == b'-') _ _ _ _ (parse_error-Extends more p h) (
          Extends-if more (c == b':') _ _ _ _ (parse_integer-Extends more p h) (
            Extends-if more (c == b'$') _ _ _ _ (parse_bulk_string-Extends more p h)
              (Extends-if more (c == b'*') _ _ _ _ (parse_array-Extends p h l) (tt)))))

  parse_rest-Extends :
      (s : Bytes) (p : RespParser)
      → p.rest ≡ s
      → Fits p
      → length s < suc f
      → Extends more (parse_rest rec s p) (parse_rest rec' (s ++ more) (extend more p))
  parse_rest-Extends [] p e h l = tt
  parse_rest-Extends (c ∷ s) p e h l =
      let total : length p.rest ≡ suc (length s) = ap length e in
      parse_type-Extends c (record { rest = s; pos = p.pos + 1 }) (omega arith) (omega arith)

parse_on-Extends :
    (more : Bytes) (f g : ℕ) (p : RespParser)
    → f ≤ g
    → Fits p
    → length p.rest < f
    → Extends more (parse_on f p) (parse_on g (extend more p))
unfolding parse_on
parse_on-Extends more zero g p fg h l = absurd (omega arith)
parse_on-Extends more (suc f) zero p fg h l = absurd (omega arith)
parse_on-Extends more (suc f) (suc g) p fg h l =
    parse_rest-Extends more (parse_on f) (parse_on g) f (parse_on-Sound f)
      (λ q. parse_on-Extends more f g q (omega arith)) p.rest p refl h l

-- If the parser returns a value from a buffer of less than 2 ^ 62 bytes, then with any bytes
-- appended to the buffer it returns the same value after the same number of bytes, and leaves the
-- appended bytes unread behind the rest.
pub parse-append :
    (buffer more : Bytes) (v : RespValue) (q : RespParser)
    → length buffer < 2 ^ 62
    → parse buffer ≡ ok (v, q)
    → parse (buffer ++ more) ≡ ok (v, record { rest = q.rest ++ more; pos = q.pos })
unfolding parse
parse-append buffer more v q h e = rw e at (
    parse_on-Extends more (length buffer + 1) (length (buffer ++ more) + 1) (parser_on buffer)
      (omega (arith, length-append {0} buffer more)) (omega arith) (omega arith))
