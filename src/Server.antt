-- ===== src/Server.antt =====
-- main.cpp, `handle_client`: the client's buffer and the commands in it. The system's calls are left
-- out: what `read` returned is an argument, what is given to `write` is the result, and `write` is
-- taken to succeed.
pub mod Pipeline
pub mod Fuel
pub mod Delivery
pub mod Kept
pub mod Clients
pub mod Start
use minimum_redis.Base.{
  ℕ, zero, suc, ◌+◌, ◌-◌, Bool, true, false, List, [], ◌∷◌, ◌++◌, Bytes, text, length, drop, leb,
  if◌then◌else◌, ◌≡◌, refl,
}
use minimum_redis.Resp.{RespParser, parse}
use minimum_redis.Resp.Value.{
  RespValue, Exception, incomplete_command, unknown_type, incomplete_line, invalid_integer,
  incomplete_bulk, invalid_bulk_length, invalid_array_length, length_error, out_of_bounds,
  out_of_fuel, what, Result, ok, err,
}
use minimum_redis.Commands.Reply.{Clock}
use minimum_redis.Commands.State.{Outside, CommandProcessor, Shared, Outcome}
use minimum_redis.Commands.Processor.{process_command}

-- The loop over the buffer goes on to wait for more, or closes the connection (`goto cleanup`), or
-- an exception that is not caught ends the server. The last two are no states of the code: a read
-- outside of the buffer, and the end of the model's fuel.
pub data Status : Type 0 where
  waiting closed terminated faulty exhausted : Status

pub record Client : Type 0 where
  pub processor : CommandProcessor
  pub shared : Shared
  pub written : Bytes
  pub buffer : Bytes
  pub status : Status

abbrev pub stop : Status → Bytes → CommandProcessor → Shared → Bytes → Client
stop status written p s buffer = record {
  processor = p;
  shared = s;
  written = written;
  buffer = buffer;
  status = status;
}

-- `"-ERR " + err_msg + "\r\n"`
abbrev pub error_line : Bytes → Bytes
error_line message = text "-ERR " ++ (message ++ (b'\r' ∷ b'\n' ∷ []))

-- What the handler of `std::runtime_error` does; `std::length_error` is none.
unfoldable pub caught : Exception → CommandProcessor → Shared → Bytes → Client
caught incomplete_command p s buffer = stop Status.waiting [] p s buffer
caught length_error p s buffer = stop Status.terminated [] p s buffer
caught out_of_bounds p s buffer = stop Status.faulty [] p s buffer
caught out_of_fuel p s buffer = stop Status.exhausted [] p s buffer
caught e p s buffer = stop Status.closed (error_line (what e)) p s buffer

abbrev pub write_first : Bytes → Client → Client
write_first reply c = record c { written = reply ++ c.written }

-- `while (processed_pos < buf_pos)`, on the part of the buffer that is not processed. The clock of
-- the `i`-th command is `clocks i`. Each round takes at least one byte.
abbrev pub next_clock : (ℕ → Clock) → ℕ → Clock
next_clock clocks i = clocks (suc i)

abbrev pub parsed :
    Outside
    → (Bytes → CommandProcessor → Shared → Client)
    → Clock
    → Bytes
    → CommandProcessor
    → Shared
    → Result (RespValue × RespParser)
    → Client
parsed o go now buffer p s (err e) = caught e p s buffer
parsed o go now buffer p s (ok (command, parser)) =
    let response = process_command o now command p s in
    write_first response.reply (go (drop parser.pos buffer) response.processor response.shared)

unfoldable pub process_buffer :
    Outside → ℕ → (ℕ → Clock) → Bytes → CommandProcessor → Shared → Client
unfolding parse process_command caught
process_buffer o zero clocks buffer p s = stop Status.exhausted [] p s buffer
process_buffer o (suc f) clocks [] p s = stop Status.waiting [] p s []
process_buffer o (suc f) clocks (c ∷ more) p s =
    parsed o (process_buffer o f (next_clock clocks)) (clocks 0) (c ∷ more) p s (parse (c ∷ more))

abbrev pub buffer_size : ℕ
buffer_size = 8192

-- The check behind the loop.
abbrev pub check_space : Client → Client
check_space c =
    let full = leb (buffer_size - 1024) (length c.buffer) in
    let refused = record c {
      written = c.written ++ text "-ERR Command too large\r\n";
      status = Status.closed;
    } in
    elim c.status [
      | Status.waiting ↦ if full then refused else c
      | Status.closed ↦ c
      | Status.terminated ↦ c
      | Status.faulty ↦ c
      | Status.exhausted ↦ c
    ]

-- The bytes that `read` put behind those of the buffer.
unfoldable pub handle_input : Outside → (ℕ → Clock) → Bytes → Client → Client
unfolding process_buffer
handle_input o clocks input c =
    let buffer = c.buffer ++ input in
    check_space (process_buffer o (length buffer + 1) clocks buffer c.processor c.shared)
