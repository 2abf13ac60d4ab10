-- ===== src/Server/Delivery.antt =====
-- main.cpp: bytes that come in two reads, where the loop waits between them. It does so at the end
-- of a command and between the elements of one; a cut inside of a line or of a bulk string makes the
-- parser throw another message than "Incomplete command", which closes the connection.
use minimum_redis.Base.{
  ℕ, zero, suc, ◌+◌, ◌^◌, ◌≤◌, ◌<◌, Bool, true, false, [], ◌∷◌, ◌++◌, append_assoc, Bytes, text,
  length, leb, drop, drop-append_le, length-append, ◌≡◌, refl, sym, ap, ◌∙◌, arith, Bool-cases, inl,
  inr, ◌-◌,
}
use minimum_redis.Resp.{RespParser, parser_on, parse}
use minimum_redis.Resp.Value.{
  RespValue, incomplete_command, unknown_type, incomplete_line, invalid_integer, incomplete_bulk,
  invalid_bulk_length, invalid_array_length, length_error, out_of_bounds, out_of_fuel, Result, ok,
  err,
}
use minimum_redis.Resp.Consume.{Sound, parse-Sound}
use minimum_redis.Resp.Stream.{parse-append}
use minimum_redis.Commands.Reply.{Clock}
use minimum_redis.Commands.State.{CommandProcessor, Shared, Outside}
use minimum_redis.Commands.Processor.{process_command}
use minimum_redis.Server.{
  Status, Client, caught, write_first, next_clock, process_buffer, parsed, buffer_size, check_space,
  handle_input,
}
use minimum_redis.Server.Pipeline.{process_buffer-ok}
use minimum_redis.Server.Fuel.{Sound-pos, Sound-shorter, process_buffer-fuel}

abbrev pub is_waiting : Status → Bool
is_waiting Status.waiting = true
is_waiting _ = false

-- The number of commands that the loop takes off the buffer.
abbrev pub parsed_count : (Bytes → ℕ) → Bytes → Result (RespValue × RespParser) → ℕ
parsed_count go buffer (err e) = 0
parsed_count go buffer (ok (command, q)) = suc (go (drop q.pos buffer))

unfoldable pub count_commands : ℕ → Bytes → ℕ
unfolding parse
count_commands zero buffer = 0
count_commands (suc f) [] = 0
count_commands (suc f) (c ∷ more) = parsed_count (count_commands f) (c ∷ more) (parse (c ∷ more))

-- The clocks behind the first `n`.
abbrev pub later_clocks : ℕ → (ℕ → Clock) → ℕ → Clock
later_clocks zero clocks = clocks
later_clocks (suc n) clocks = later_clocks n (next_clock clocks)

-- `n + g`
abbrev pub more_fuel : ℕ → ℕ → ℕ
more_fuel zero g = g
more_fuel (suc n) g = suc (more_fuel n g)

more_fuel_le : (n g : ℕ) → g ≤ more_fuel n g
more_fuel_le zero g = omega arith
more_fuel_le (suc n) g = omega (arith, more_fuel_le n g)

-- The loop goes on from what the client `c` is waiting with, when more bytes have come.
abbrev pub resume : Outside → ℕ → (ℕ → Clock) → Bytes → Client → Client
resume o g clocks more c =
    write_first c.written (process_buffer o g clocks (c.buffer ++ more) c.processor c.shared)

write_first-append :
    (a b : Bytes) (c : Client) → write_first a (write_first b c) ≡ write_first (a ++ b) c
write_first-append a b c = rw (append_assoc a b c.written) refl

-- What the loop makes of the longer buffer, and how much of the buffer it leaves.
abbrev Resumes :
    Outside → ℕ → (ℕ → Clock) → Bytes → Bytes → CommandProcessor → Shared → ℕ → Client → Type 0
Resumes o g clocks buffer more p s n c =
    (process_buffer o (more_fuel n g) clocks (buffer ++ more) p s
      ≡ resume o g (later_clocks n clocks) more c)
    × (length c.buffer ≤ length buffer)

parsed-Resumes :
    (o : Outside) (f g : ℕ) (clocks : ℕ → Clock) (c : ℕ) (cs more : Bytes) (p : CommandProcessor)
    (s : Shared) (r : Result (RespValue × RespParser))
    → parse (c ∷ cs) ≡ r
    → Sound 1 (parser_on (c ∷ cs)) r
    → length (c ∷ cs) < 2 ^ 62
    → is_waiting
        (parsed o (process_buffer o f (next_clock clocks)) (clocks 0) (c ∷ cs) p s r).status
      ≡ true
    → ((rest : Bytes) (q : CommandProcessor) (t : Shared)
        → length rest < length (c ∷ cs)
        → is_waiting (process_buffer o f (next_clock clocks) rest q t).status ≡ true
        → Resumes o g
            (next_clock clocks)
            rest
            more
            q
            t
            (count_commands f rest)
            (process_buffer o f (next_clock clocks) rest q t))
    → Resumes o g clocks
        (c ∷ cs)
        more
        p
        s
        (parsed_count (count_commands f) (c ∷ cs) r)
        (parsed o (process_buffer o f (next_clock clocks)) (clocks 0) (c ∷ cs) p s r)
unfolding caught
parsed-Resumes o f g clocks c cs more p s (err incomplete_command) e sound b w ih =
    (refl, omega arith)
parsed-Resumes o f g clocks c cs more p s (err unknown_type) e sound b w ih = absurd (ground arith)
parsed-Resumes o f g clocks c cs more p s (err incomplete_line) e sound b w ih =
    absurd (ground arith)
parsed-Resumes o f g clocks c cs more p s (err invalid_integer) e sound b w ih =
    absurd (ground arith)
parsed-Resumes o f g clocks c cs more p s (err incomplete_bulk) e sound b w ih =
    absurd (ground arith)
parsed-Resumes o f g clocks c cs more p s (err invalid_bulk_length) e sound b w ih =
    absurd (ground arith)
parsed-Resumes o f g clocks c cs more p s (err invalid_array_length) e sound b w ih =
    absurd (ground arith)
parsed-Resumes o f g clocks c cs more p s (err length_error) e sound b w ih = absurd (ground arith)
parsed-Resumes o f g clocks c cs more p s (err out_of_bounds) e sound b w ih = absurd (ground arith)
parsed-Resumes o f g clocks c cs more p s (err out_of_fuel) e sound b w ih = absurd (ground arith)
parsed-Resumes o f g clocks c cs more p s (ok (command, q)) e sound b w ih =
    let response = process_command o (clocks 0) command p s in
    let rest = drop q.pos (c ∷ cs) in
    let shorter = Sound-shorter (c ∷ cs) command q (omega arith) sound in
    let (resumed, left) = ih rest response.processor response.shared shorter w in
    let sent = process_buffer o f (next_clock clocks) rest response.processor response.shared in
    let n = count_commands f rest in
    let cut = drop-append_le q.pos (c ∷ cs) more (Sound-pos (c ∷ cs) command q sound).1 in
    (
      process_buffer-ok o (more_fuel n g) clocks (c ∷ cs ++ more) p s command
            (record { rest = q.rest ++ more; pos = q.pos })
            (parse-append (c ∷ cs) more command q b e)
          ∙ rw cut (
              ap (write_first response.reply) resumed
              ∙ write_first-append response.reply sent.written (
                  process_buffer o g (later_clocks n (next_clock clocks)) (sent.buffer ++ more)
                    sent.processor sent.shared)),
      omega arith,
    )

process_buffer-Resumes :
    (o : Outside) (f g : ℕ) (clocks : ℕ → Clock) (buffer more : Bytes) (p : CommandProcessor)
    (s : Shared)
    → length buffer < 2 ^ 62
    → is_waiting (process_buffer o f clocks buffer p s).status ≡ true
    → Resumes o g clocks buffer more p s
        (count_commands f buffer)
        (process_buffer o f clocks buffer p s)
unfolding process_buffer count_commands
process_buffer-Resumes o zero g clocks buffer more p s b w = absurd (ground arith)
process_buffer-Resumes o (suc f) g clocks [] more p s b w = (refl, omega arith)
process_buffer-Resumes o (suc f) g clocks (c ∷ cs) more p s b w =
    parsed-Resumes o f g clocks c cs more p s (parse (c ∷ cs)) refl (parse-Sound (c ∷ cs) b) b w
      (λ rest q t shorter waits.
        process_buffer-Resumes o f g (next_clock clocks) rest more q t (omega arith) waits)

leb-less : (n : ℕ) → leb (buffer_size - 1024) n ≡ false → n < buffer_size - 1024
leb-less n h = ground arith

check_space-write_first :
    (a : Bytes) (c : Client) → check_space (write_first a c) ≡ write_first a (check_space c)
check_space-write_first a c =
    elim c.status
      as (λ status.
        check_space (write_first a (record c { status = status }))
        ≡ write_first a (check_space (record c { status = status }))) [
          | Status.waiting ↦ elim (Bool-cases (leb (buffer_size - 1024) (length c.buffer))) [
            | inl e ↦ rw e (rw (append_assoc a c.written (text "-ERR Command too large\r\n")) refl)
            | inr e ↦ rw e refl
          ]
          | Status.closed ↦ refl
          | Status.terminated ↦ refl
          | Status.faulty ↦ refl
          | Status.exhausted ↦ refl
        ]

-- A client that waits behind the check waited before it, and has room for another read.
pub check_space-waiting :
    (c : Client)
    → is_waiting (check_space c).status ≡ true
    → (check_space c ≡ c) × ((is_waiting c.status ≡ true) × (length c.buffer < buffer_size - 1024))
check_space-waiting c =
    elim c.status
      as (λ status.
        is_waiting (check_space (record c { status = status })).status ≡ true
        → (check_space (record c { status = status }) ≡ record c { status = status })
          × ((is_waiting status ≡ true) × (length c.buffer < buffer_size - 1024))) [
            | Status.waiting ↦ elim (Bool-cases (leb (buffer_size - 1024) (length c.buffer))) [
              | inl e ↦ λ w. absurd (let refused = rw e at w in ground arith)
              | inr e ↦ λ w. (rw e refl, (refl, leb-less (length c.buffer) e))
            ]
            | Status.closed ↦ λ w. absurd (ground arith)
            | Status.terminated ↦ λ w. absurd (ground arith)
            | Status.faulty ↦ λ w. absurd (ground arith)
            | Status.exhausted ↦ λ w. absurd (ground arith)
          ]

-- A client is sent bytes, and the loop then waits for more. If further bytes are sent, all is as if
-- both had been sent at once: the same commands run in the same order, each at its own time, the
-- same replies are written, and the same is left, for all bytes of the two, with those that waited,
-- being fewer than 2 ^ 62.
pub handle_input-append :
    (o : Outside) (clocks : ℕ → Clock) (input more : Bytes) (c : Client)
    → length (c.buffer ++ (input ++ more)) < 2 ^ 62
    → is_waiting (handle_input o clocks input c).status ≡ true
    → handle_input o clocks (input ++ more) c
      ≡ write_first (handle_input o clocks input c).written (
          handle_input o
            (later_clocks
              (count_commands (length (c.buffer ++ input) + 1) (c.buffer ++ input))
              clocks)
            more
            (handle_input o clocks input c))
unfolding handle_input
handle_input-append o clocks input more c b w =
    let first = c.buffer ++ input in
    let sent = process_buffer o (length first + 1) clocks first c.processor c.shared in
    let (kept, (waits, room)) = check_space-waiting sent w in
    let n = count_commands (length first + 1) first in
    let bytes = append_assoc c.buffer input more in
    let size = ap length bytes in
    let total = length (first ++ more) + 1 in
    let (resumed, left) =
      process_buffer-Resumes o (length first + 1) total clocks first more c.processor c.shared
        (omega (arith, length-append {0} first more)) waits in
    let enough =
      process_buffer-fuel o total (more_fuel n total) clocks (first ++ more) c.processor c.shared
        (omega arith) (omega (arith, more_fuel_le n total)) (omega arith) in
    let again =
      process_buffer-fuel o total (length (sent.buffer ++ more) + 1) (later_clocks n clocks)
        (sent.buffer ++ more) sent.processor sent.shared
        (omega (arith, length-append {0} first more, length-append {0} sent.buffer more))
        (omega arith)
        (omega (arith, length-append {0} first more, length-append {0} sent.buffer more)) in
    ap (λ x. check_space (process_buffer o (length x + 1) clocks x c.processor c.shared))
      (sym bytes)
    ∙ (ap check_space (enough ∙ (resumed ∙ ap (write_first sent.written) again))
        ∙ (check_space-write_first sent.written (
              process_buffer o (length (sent.buffer ++ more) + 1) (later_clocks n clocks)
                (sent.buffer ++ more) sent.processor sent.shared)
            ∙ ap (λ k. write_first k.written (handle_input o (later_clocks n clocks) more k))
                (sym kept)))
