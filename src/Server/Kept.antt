-- ===== src/Server/Kept.antt =====
-- main.cpp: the loop over the buffer keeps the clients of `client_processors`.
use minimum_redis.Base.{
  ℕ, zero, suc, ◌+◌, ◌-◌, Bool, true, false, [], ◌∷◌, ◌++◌, Bytes, length, drop, leb, if◌then◌else◌,
  ◌≡◌, refl, ◌∙◌,
}
use minimum_redis.Resp.{RespParser, parse}
use minimum_redis.Resp.Value.{
  RespValue, Exception, incomplete_command, unknown_type, incomplete_line, invalid_integer,
  incomplete_bulk, invalid_bulk_length, invalid_array_length, length_error, out_of_bounds,
  out_of_fuel, Result, ok, err,
}
use minimum_redis.Commands.Reply.{Clock}
use minimum_redis.Commands.State.{Outside, CommandProcessor, Shared}
use minimum_redis.Commands.Processor.{process_command}
use minimum_redis.Commands.Steps.Clients.{fds_of, IsOrderly}
use minimum_redis.Commands.Steps.Clients.Dispatch.{process_command-Same}
use minimum_redis.Server.{
  Status, Client, stop, caught, next_clock, parsed, process_buffer, buffer_size, check_space,
  handle_input,
}

-- The same clients, and the same descriptor in the processor.
abbrev pub Kept : CommandProcessor → Shared → Client → Type 0
Kept p s c = (fds_of c.shared.inboxes ≡ fds_of s.inboxes) × (c.processor.client_fd ≡ p.client_fd)

caught-Kept :
    (e : Exception) (p : CommandProcessor) (s : Shared) (buffer : Bytes)
    → Kept p s (caught e p s buffer)
unfolding caught
caught-Kept incomplete_command p s buffer = (refl, refl)
caught-Kept unknown_type p s buffer = (refl, refl)
caught-Kept incomplete_line p s buffer = (refl, refl)
caught-Kept invalid_integer p s buffer = (refl, refl)
caught-Kept incomplete_bulk p s buffer = (refl, refl)
caught-Kept invalid_bulk_length p s buffer = (refl, refl)
caught-Kept invalid_array_length p s buffer = (refl, refl)
caught-Kept length_error p s buffer = (refl, refl)
caught-Kept out_of_bounds p s buffer = (refl, refl)
caught-Kept out_of_fuel p s buffer = (refl, refl)

parsed-Kept :
    (o : Outside) (orderly : IsOrderly o) (go : Bytes → CommandProcessor → Shared → Client)
    (now : Clock) (buffer : Bytes) (p : CommandProcessor) (s : Shared)
    (r : Result (RespValue × RespParser))
    → ((rest : Bytes) (q : CommandProcessor) (t : Shared) → Kept q t (go rest q t))
    → Kept p s (parsed o go now buffer p s r)
parsed-Kept o orderly go now buffer p s (err e) h = caught-Kept e p s buffer
parsed-Kept o orderly go now buffer p s (ok (command, parser)) h =
    let response = process_command o now command p s in
    let (boxes, fd) = process_command-Same o orderly now command p s in
    let (later_boxes, later_fd) = h (drop parser.pos buffer) response.processor response.shared in
    (later_boxes ∙ boxes, later_fd ∙ fd)

process_buffer-Kept :
    (o : Outside) (orderly : IsOrderly o) (f : ℕ) (clocks : ℕ → Clock) (buffer : Bytes)
    (p : CommandProcessor) (s : Shared)
    → Kept p s (process_buffer o f clocks buffer p s)
unfolding process_buffer
process_buffer-Kept o orderly zero clocks buffer p s = (refl, refl)
process_buffer-Kept o orderly (suc f) clocks [] p s = (refl, refl)
process_buffer-Kept o orderly (suc f) clocks (c ∷ more) p s =
    parsed-Kept o orderly (process_buffer o f (next_clock clocks)) (clocks 0) (c ∷ more) p s
      (parse (c ∷ more)) (process_buffer-Kept o orderly f (next_clock clocks))

if-Kept :
    (p : CommandProcessor) (s : Shared) (b : Bool) (x y : Client)
    → Kept p s x
    → Kept p s y
    → Kept p s (if b then x else y)
if-Kept p s true x y h k = h
if-Kept p s false x y h k = k

check_stopped-Kept :
    (p : CommandProcessor) (s : Shared) (status : Status) (written : Bytes) (q : CommandProcessor)
    (t : Shared) (buffer : Bytes)
    → Kept p s (stop status written q t buffer)
    → Kept p s (check_space (stop status written q t buffer))
check_stopped-Kept p s Status.waiting written q t buffer h =
    if-Kept p s (leb (buffer_size - 1024) (length buffer)) _ _ h h
check_stopped-Kept p s Status.closed written q t buffer h = h
check_stopped-Kept p s Status.terminated written q t buffer h = h
check_stopped-Kept p s Status.faulty written q t buffer h = h
check_stopped-Kept p s Status.exhausted written q t buffer h = h

pub handle_input-Kept :
    (o : Outside) (orderly : IsOrderly o) (clocks : ℕ → Clock) (input : Bytes) (c : Client)
    → Kept c.processor c.shared (handle_input o clocks input c)
unfolding handle_input
handle_input-Kept o orderly clocks input c =
    let buffer = c.buffer ++ input in
    let r = process_buffer o (length buffer + 1) clocks buffer c.processor c.shared in
    check_stopped-Kept c.processor c.shared r.status r.written r.processor r.shared r.buffer
      (process_buffer-Kept o orderly (length buffer + 1) clocks buffer c.processor c.shared)
