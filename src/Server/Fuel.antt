-- ===== src/Server/Fuel.antt =====
-- main.cpp: the loop over the buffer does not depend on the fuel, once it is more than the bytes.
use minimum_redis.Base.{
  ℕ, zero, suc, ◌^◌, ◌≤◌, ◌<◌, [], ◌∷◌, Bytes, length, drop, length-drop, length-append, ◌≡◌, refl,
  ap, arith,
}
use minimum_redis.Resp.{RespParser, parser_on, parse}
use minimum_redis.Resp.Value.{RespValue, Result, ok, err}
use minimum_redis.Resp.Consume.{Sound, parse-Sound}
use minimum_redis.Commands.Reply.{Clock}
use minimum_redis.Commands.State.{CommandProcessor, Shared, Outside}
use minimum_redis.Commands.Processor.{process_command}
use minimum_redis.Server.{Client, write_first, next_clock, process_buffer, parsed}

-- A value takes at least one byte of the buffer, and none behind it.
pub Sound-pos :
    (buffer : Bytes) (command : RespValue) (q : RespParser)
    → Sound 1 (parser_on buffer) (ok (command, q))
    → (1 ≤ q.pos) × (q.pos ≤ length buffer)
Sound-pos buffer command q (used, split, count, some_used) =
    (omega arith, omega (arith, ap length split, length-append {0} used q.rest))

pub Sound-shorter :
    (buffer : Bytes) (command : RespValue) (q : RespParser)
    → 1 ≤ length buffer
    → Sound 1 (parser_on buffer) (ok (command, q))
    → length (drop q.pos buffer) < length buffer
Sound-shorter buffer command q h sound =
    omega (arith, length-drop {0} q.pos buffer, (Sound-pos buffer command q sound).0)

parsed-fuel :
    (o : Outside) (go more : Bytes → CommandProcessor → Shared → Client) (now : Clock)
    (buffer : Bytes) (p : CommandProcessor) (s : Shared) (r : Result (RespValue × RespParser))
    → 1 ≤ length buffer
    → Sound 1 (parser_on buffer) r
    → ((rest : Bytes) (q : CommandProcessor) (t : Shared)
        → length rest < length buffer
        → go rest q t ≡ more rest q t)
    → parsed o go now buffer p s r ≡ parsed o more now buffer p s r
parsed-fuel o go more now buffer p s (err e) h sound same = refl
parsed-fuel o go more now buffer p s (ok (command, q)) h sound same =
    let response = process_command o now command p s in
    ap (write_first response.reply) (
      same (drop q.pos buffer) response.processor response.shared
        (Sound-shorter buffer command q h sound))

pub process_buffer-fuel :
    (o : Outside) (f g : ℕ) (clocks : ℕ → Clock) (buffer : Bytes) (p : CommandProcessor)
    (s : Shared)
    → length buffer < f
    → length buffer < g
    → length buffer < 2 ^ 62
    → process_buffer o f clocks buffer p s ≡ process_buffer o g clocks buffer p s
unfolding process_buffer
process_buffer-fuel o zero g clocks buffer p s h k b = absurd (omega arith)
process_buffer-fuel o (suc f) zero clocks buffer p s h k b = absurd (omega arith)
process_buffer-fuel o (suc f) (suc g) clocks [] p s h k b = refl
process_buffer-fuel o (suc f) (suc g) clocks (c ∷ cs) p s h k b =
    parsed-fuel o (process_buffer o f (next_clock clocks)) (process_buffer o g (next_clock clocks))
      (clocks 0) (c ∷ cs) p s (parse (c ∷ cs)) (omega arith) (parse-Sound (c ∷ cs) b)
      (λ rest q t shorter.
        process_buffer-fuel o f g (next_clock clocks) rest q t (omega arith) (omega arith)
          (omega arith))
