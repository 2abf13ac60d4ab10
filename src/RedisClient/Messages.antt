-- ===== src/RedisClient/Messages.antt =====
-- clients/tui/redis_client.cpp: the client takes a reply line by line.
use minimum_redis.Base.{
  ℕ, ◌+◌, ◌==◌, ◌&&◌, not, Bool, true, false, some, [], ◌∷◌, ◌++◌, append_assoc, Bytes, take, drop,
  length, take-append_length, drop-append_length, length-append, ◌≡◌, refl, ap, sym, ◌∙◌, arith,
}
use minimum_redis.RedisClient.{starts_crlf, find_crlf, get_next_message}

-- No '\r' occurs.
abbrev pub without_return : Bytes → Bool
without_return [] = true
without_return (c ∷ s) = not (c == b'\r') && without_return s

abbrev pub crlf : Bytes → Bytes
crlf rest = b'\r' ∷ b'\n' ∷ rest

starts_crlf-other : (c : ℕ) (s : Bytes) → (c == b'\r') ≡ false → starts_crlf (c ∷ s) ≡ false
starts_crlf-other c [] h = refl
starts_crlf-other c (d ∷ s) h = rw h refl

find_crlf-line :
    (line rest : Bytes)
    → without_return line ≡ true
    → find_crlf (line ++ crlf rest) ≡ some (length line)
unfolding find_crlf
find_crlf-line [] rest h = refl
find_crlf-line (c ∷ line) rest h =
    let other : (c == b'\r') ≡ false = ground arith in
    let later : without_return line ≡ true = ground arith in
    rw (starts_crlf-other c (line ++ crlf rest) other) (rw (find_crlf-line line rest later) refl)

-- The parser has read some bytes, and behind them stands a line without '\r', its end, and whatever
-- follows: the next message is that line with its end, and then these bytes count as read too. So a
-- reply of several lines, as that of GET, is several messages.
pub get_next_message-line :
    (before line rest : Bytes)
    → without_return line ≡ true
    → get_next_message (record { buffer = before ++ (line ++ crlf rest); pos = length before }) ≡ (
      record { buffer = before ++ (line ++ crlf rest); pos = length (before ++ (line ++ crlf [])) },
      line ++ crlf [],
    )
get_next_message-line before line rest h =
    let unread = drop-append_length before (line ++ crlf rest) in
    let found = find_crlf-line line rest h in
    let cut = append_assoc line (crlf []) rest in
    let end : length before + length line + 2 ≡ length (before ++ (line ++ crlf [])) =
      omega (arith, length-append {0} before (line ++ crlf []), length-append {0} line (crlf [])) in
    let size : length line + 2 ≡ length (line ++ crlf []) =
      omega (arith, length-append {0} line (crlf [])) in
    let taken : take (length line + 2) (drop (length before) (before ++ (line ++ crlf rest)))
        ≡ line ++ crlf [] =
      ap (take (length line + 2)) (unread ∙ sym cut)
      ∙ (ap (λ n. take n ((line ++ crlf []) ++ rest)) size
          ∙ take-append_length (line ++ crlf []) rest) in
    unfold get_next_message in rw unread (rw found (rw end (rw taken refl)))
