-- ===== src/RedisTui/Served/Reply.antt =====
-- clients/tui/redis_tui.cpp at a server that runs main.cpp: a request that the server reads at once,
-- and how its reply comes back.
use minimum_redis.Base.{
  ℕ, zero, suc, ◌≤◌, Bool, true, false, some, [], ◌∷◌, ◌++◌, Bytes, length, take, drop, c_str,
  if◌then◌else◌, ◌≡◌, refl, ap, ◌∙◌, arith,
}
use minimum_redis.Commands.Reply.{Clock}
use minimum_redis.Commands.State.{Outside}
use minimum_redis.Server.Clients.{Session, find_session, room, read_input}
use minimum_redis.RedisClient.{
  RedisClient, Received, append, get_next_message, on_received, get_response,
}
use minimum_redis.RedisClient.Messages.{without_return, crlf, get_next_message-line}
use minimum_redis.RedisTui.Served.{Wire, written, deliver_part, deliver}

take-all : (n : ℕ) (s : Bytes) → length s ≤ n → take n s ≡ s
take-all zero [] h = refl
take-all zero (c ∷ s) h = absurd (omega arith)
take-all (suc n) [] h = refl
take-all (suc n) (c ∷ s) h = ap (◌∷◌ c) (take-all n s (omega arith))

drop-all : (n : ℕ) (s : Bytes) → length s ≤ n → drop n s ≡ []
drop-all zero [] h = refl
drop-all zero (c ∷ s) h = absurd (omega arith)
drop-all (suc n) [] h = refl
drop-all (suc n) (c ∷ s) h = drop-all n s (omega arith)

if-false : {A : Type 0} {b : Bool} (x y : A) → b ≡ false → (if b then x else y) ≡ y
if-false x y h = rw h refl

if-true : {A : Type 0} {b : Bool} (x y : A) → b ≡ true → (if b then x else y) ≡ x
if-true x y h = rw h refl

module _ (o : Outside) (clocks : ℕ → ℕ → Clock) (fd : ℕ) where
  -- Where there is room for the bytes, the server reads them in one go.
  pub deliver-once :
      (f b : ℕ) (bytes : Bytes) (w : Wire) (c : Session)
      → w.network.is_terminated ≡ false
      → find_session fd w.network.sessions ≡ some c
      → length (b ∷ bytes) ≤ room c
      → deliver o clocks fd (suc (suc f)) (b ∷ bytes) w
        ≡ written w (read_input o (clocks w.reads) fd (b ∷ bytes) c w.network)
  unfolding deliver
  deliver-once f b bytes w c up found fits =
      if-false w
        (deliver_part o clocks fd (deliver o clocks fd (suc f)) (b ∷ bytes) w
          (find_session fd w.network.sessions))
        up
      ∙ (ap (λ s. deliver_part o clocks fd (deliver o clocks fd (suc f)) (b ∷ bytes) w s) found
          ∙ rw (take-all (room c) (b ∷ bytes) fits, drop-all (room c) (b ∷ bytes) fits) refl)

-- A client that has read all it was sent takes the next line for the reply.
pub get_response-line :
    (line : Bytes) (c : RedisClient)
    → c.connected ≡ true
    → c.parser.pos ≡ length c.parser.buffer
    → without_return line ≡ true
    → c_str (line ++ crlf []) ≡ line ++ crlf []
    → (get_response (Received.bytes (line ++ crlf [])) c).1 ≡ line ++ crlf []
unfolding get_response append
get_response-line line c on read plain whole =
    let message = line ++ crlf [] in
    ap (λ x. x.1) (if-true (on_received (Received.bytes message) c) (c, []) on)
    ∙ (ap (λ s. (get_next_message (record { buffer = c.parser.buffer ++ s; pos = c.parser.pos })).1)
          whole
        ∙ (ap (λ n. (get_next_message (record { buffer = c.parser.buffer ++ message; pos = n })).1)
              read
            ∙ ap (λ x. x.1) (get_next_message-line c.parser.buffer line [] plain)))
