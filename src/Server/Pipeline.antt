-- ===== src/Server/Pipeline.antt =====
-- main.cpp: the loop over the buffer ends, and serves the requests in their order.
use minimum_redis.Base.{
  ℕ, zero, suc, ◌^◌, ◌≤◌, ◌<◌, Bool, true, false, List, [], ◌∷◌, ◌++◌, Bytes, length, drop,
  length-append, drop-append_length, length-drop, ◌≡◌, refl, ap, ◌∙◌, arith,
}
use minimum_redis.Resp.{RespParser, parser_on, parse}
use minimum_redis.Resp.Value.{
  RespValue, to_list, array, Exception, incomplete_command, Result, ok, err,
}
use minimum_redis.Resp.Consume.{Sound, is_thrown, parse-Sound}
use minimum_redis.Resp.Encode.{request, request_onto, bulks, parse-request}
use minimum_redis.Commands.Reply.{Clock}
use minimum_redis.Commands.State.{Outside, CommandProcessor, Shared}
use minimum_redis.Commands.Processor.{process_args, process_command}
use minimum_redis.Server.{
  Status, Client, stop, caught, write_first, next_clock, process_buffer, parsed,
}

-- A status that the code has.
abbrev pub is_real : Status → Bool
is_real Status.waiting = true
is_real Status.closed = true
is_real Status.terminated = true
is_real Status.faulty = false
is_real Status.exhausted = false

caught-real :
    (e : Exception) (p : CommandProcessor) (s : Shared) (buffer : Bytes)
    → is_thrown e ≡ true
    → is_real (caught e p s buffer).status ≡ true
unfolding caught
caught-real e p s buffer h = ground arith

parsed-real :
    (o : Outside) (go : Bytes → CommandProcessor → Shared → Client) (now : Clock) (buffer : Bytes)
    (p : CommandProcessor) (s : Shared) (r : Result (RespValue × RespParser))
    → Sound 1 (parser_on buffer) r
    → ((rest : Bytes) (q : CommandProcessor) (t : Shared)
        → length rest < length buffer
        → is_real (go rest q t).status ≡ true)
    → is_real (parsed o go now buffer p s r).status ≡ true
parsed-real o go now buffer p s (err e) thrown h = caught-real e p s buffer thrown
parsed-real o go now buffer p s (ok (command, parser)) (used, split, count, some_used) h =
    let response = process_command o now command p s in
    h (drop parser.pos buffer) response.processor response.shared (
      omega (
        arith,
        length-drop {0} parser.pos buffer,
        ap length split,
        length-append {0} used parser.rest,
      ))

-- From any buffer of less than 2 ^ 62 bytes, with more fuel than bytes, the loop over the buffer
-- ends: it waits for more bytes, or closes the connection, or an exception that is not caught ends
-- the server; and it never reads outside of the buffer.
pub process_buffer-real :
    (o : Outside) (f : ℕ) (clocks : ℕ → Clock) (buffer : Bytes) (p : CommandProcessor) (s : Shared)
    → length buffer < f
    → length buffer < 2 ^ 62
    → is_real (process_buffer o f clocks buffer p s).status ≡ true
unfolding process_buffer
process_buffer-real o zero clocks buffer p s h b = absurd (omega arith)
process_buffer-real o (suc f) clocks [] p s h b = refl
process_buffer-real o (suc f) clocks (c ∷ more) p s h b =
    parsed-real o (process_buffer o f (next_clock clocks)) (clocks 0) (c ∷ more) p s
      (parse (c ∷ more)) (parse-Sound (c ∷ more) b)
      (λ rest q t shorter.
        process_buffer-real o f (next_clock clocks) rest q t (omega arith) (omega arith))

-- Requests in their order, the bytes and what they should do.
unfoldable pub requests : List (List Bytes) → Bytes
requests [] = []
requests (r ∷ rs) = request r ++ requests rs

unfoldable pub serve :
    Outside → (ℕ → Clock) → List (List Bytes) → CommandProcessor → Shared → Client
unfolding process_args
serve o clocks [] p s = stop Status.waiting [] p s []
serve o clocks (r ∷ rs) p s =
    let response = process_args o (clocks 0) (to_list (bulks r)) p s in
    write_first response.reply (serve o (next_clock clocks) rs response.processor response.shared)

pub process_buffer-ok :
    (o : Outside) (f : ℕ) (clocks : ℕ → Clock) (buffer : Bytes) (p : CommandProcessor) (s : Shared)
    (command : RespValue) (q : RespParser)
    → parse buffer ≡ ok (command, q)
    → process_buffer o (suc f) clocks buffer p s
      ≡ parsed o (process_buffer o f (next_clock clocks)) (clocks 0) buffer p s (ok (command, q))
unfolding process_buffer
process_buffer-ok o f clocks [] p s command q h =
    let empty : parse [] ≡ err incomplete_command = unfold parse in refl in cc
process_buffer-ok o f clocks (c ∷ more) p s command q h = rw h refl

request-some : (r : List Bytes) → 1 ≤ length (request r)
unfolding request request_onto
request-some r = omega arith

process_command-bulks :
    (o : Outside) (now : Clock) (r : List Bytes) (p : CommandProcessor) (s : Shared)
    → process_command o now (array (bulks r)) p s ≡ process_args o now (to_list (bulks r)) p s
unfolding process_command
process_command-bulks o now r p s = refl

-- A buffer that holds any number of requests of a client, fewer than 2 ^ 61 bytes in all: with more
-- fuel than bytes, the loop runs exactly these commands, in their order, each on what the one before
-- left; it writes their replies in that order, and then waits with an empty buffer.
pub process_buffer-requests :
    (o : Outside) (f : ℕ) (clocks : ℕ → Clock) (rs : List (List Bytes)) (p : CommandProcessor)
    (s : Shared)
    → length (requests rs) < f
    → length (requests rs) < 2 ^ 61
    → process_buffer o f clocks (requests rs) p s ≡ serve o clocks rs p s
unfolding requests serve
process_buffer-requests o zero clocks rs p s h b = absurd (omega arith)
process_buffer-requests o (suc f) clocks [] p s h b = unfold process_buffer in refl
process_buffer-requests o (suc f) clocks (r ∷ rs) p s h b =
    let response = process_args o (clocks 0) (to_list (bulks r)) p s in
    let size = length-append {0} (request r) (requests rs) in
    let shorter = request-some r in
    let more =
      process_buffer-requests o f (next_clock clocks) rs response.processor response.shared
        (omega arith) (omega arith) in
    process_buffer-ok o f clocks (request r ++ requests rs) p s (array (bulks r))
      (record { rest = requests rs; pos = length (request r) }) (parse-request r (requests rs) b)
    ∙ rw (drop-append_length (request r) (requests rs))
        (rw (process_command-bulks o (clocks 0) r p s) (ap (write_first response.reply) more))
