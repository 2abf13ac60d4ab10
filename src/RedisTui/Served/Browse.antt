-- ===== src/RedisTui/Served/Browse.antt =====
-- clients/tui/redis_tui.cpp, refresh_data, at a server that runs main.cpp.
use minimum_redis.Base.{
  ℕ, ◌+◌, true, false, some, [], ◌∷◌, ◌++◌, Bytes, text, codes, length, take, inl, inr, ◌≡◌, refl,
  sym, ap, c_str, if◌then◌else◌, ◌∙◌, arith,
}
use minimum_redis.Resp.Encode.{request}
use minimum_redis.Commands.Reply.{Clock}
use minimum_redis.Commands.State.{CommandProcessor, Outside}
use minimum_redis.Base.Number.{to_string}
use minimum_redis.Server.Clients.{Session, Network, find_session, read_input}
use minimum_redis.RedisClient.{RedisClient, Received, Link, get_response}
use minimum_redis.RedisClient.Messages.{without_return, crlf}
use minimum_redis.RedisTui.Served.{Wire, deliver, take_bytes, server_link}
use minimum_redis.RedisTui.{EnhancedRedisTui, client_response}
use minimum_redis.RedisTui.Browser.{refresh_data}
use minimum_redis.RedisTui.Kept.{client_send-map, client_send-world, client_response-response}
use minimum_redis.RedisTui.Keys.{asked, refresh_data-line_of}
use minimum_redis.RedisTui.Served.Reply.{deliver-once, get_response-line}
use minimum_redis.RedisTui.Served.Request.{
  keys_star, sends_keys, reply_to, IsReply, reply_to-IsReply, process_args-keys_star,
  handle_input-keys,
}

received :
    (fd d : ℕ) (line : Bytes) (c : RedisClient) (w : Wire)
    → take 8191 (d ∷ (line ++ crlf [])) ≡ d ∷ (line ++ crlf [])
    → c.connected ≡ true
    → c.parser.pos ≡ length c.parser.buffer
    → without_return (d ∷ line) ≡ true
    → c_str (d ∷ (line ++ crlf [])) ≡ d ∷ (line ++ crlf [])
    → (get_response (take_bytes fd (d ∷ (line ++ crlf [])) w).1 c).1 ≡ d ∷ (line ++ crlf [])
unfolding take_bytes
received fd d line c w small on read plain whole =
    ap (λ s. (get_response (Received.bytes s) c).1) small
    ∙ get_response-line (d ∷ line) c on read plain whole

reply-response :
    (fd : ℕ) (r : Bytes) (c : RedisClient) (w : Wire)
    → IsReply r
    → w.waiting ≡ r
    → c.connected ≡ true
    → c.parser.pos ≡ length c.parser.buffer
    → (get_response (take_bytes fd w.waiting w).1 c).1 ≡ r
reply-response fd r c w known sent on read =
    ap (λ s. (get_response (take_bytes fd s w).1 c).1) sent ∙ elim known [
      | inl e ↦
          ap (λ s. (get_response (take_bytes fd s w).1 c).1) e
          ∙ (received fd b'-' (codes "ERR KEYS requires no arguments") c w refl on read refl
                (unfold c_str in refl)
              ∙ sym e)
      | inr e ↦
          ap (λ s. (get_response (take_bytes fd s w).1 c).1) e
          ∙ (received fd b'+' (codes "QUEUED") c w refl on read refl (unfold c_str in refl) ∙ sym e)
    ]

abbrev request_bytes : Bytes
request_bytes = codes "*2\r\n$4\r\nKEYS\r\n$1\r\n*\r\n"

request-bytes : request keys_star ≡ request_bytes
unfolding request to_string
request-bytes = refl

abbrev with_processor : CommandProcessor → Session
with_processor p = record { processor = p; buffer = [] }

module _ (o : Outside) (clocks : ℕ → ℕ → Clock) (fd : ℕ) where
  read_input-keys :
      (n : ℕ) (p : CommandProcessor) (w : Network)
      → (read_input o (clocks n) fd (request keys_star) (with_processor p) w).0 ≡ reply_to p
  unfolding read_input
  read_input-keys n p w =
      handle_input-keys o (clocks n) p w.shared ∙ process_args-keys_star o (clocks n 0) p w.shared

  delivered :
      (p : CommandProcessor) (w : Wire)
      → w.waiting ≡ []
      → w.network.is_terminated ≡ false
      → find_session fd w.network.sessions ≡ some (with_processor p)
      → (deliver o clocks fd (length (request keys_star) + 1) (request keys_star) w).waiting
        ≡ reply_to p
  delivered p w empty up found =
      let c = with_processor p in
      let once =
        deliver-once o clocks fd 20 b'*' (codes "2\r\n$4\r\nKEYS\r\n$1\r\n*\r\n") w c up found
          (omega arith) in
      let all =
        ap (λ b. (deliver o clocks fd (length b + 1) b w).waiting) request-bytes
        ∙ (ap (λ v. v.waiting) once
            ∙ (ap (λ s. s ++ (read_input o (clocks w.reads) fd request_bytes c w.network).0) empty
                ∙ ap (λ b. (read_input o (clocks w.reads) fd b c w.network).0)
                    (sym request-bytes))) in
      all ∙ read_input-keys w.reads p w.network

  line_of-reply :
      (link : Link Wire) (t : EnhancedRedisTui Wire) (r : Bytes)
      → IsReply r
      → (client_response link (asked link t)).1 ≡ r
      → (refresh_data link t).key_value_pairs ≡ []
  line_of-reply link t r (inl e) response =
      refresh_data-line_of link (codes "-ERR KEYS requires no arguments\r") t refl (response ∙ e)
  line_of-reply link t r (inr e) response =
      refresh_data-line_of link (codes "+QUEUED\r") t refl (response ∙ e)

  -- A client that is connected to the server and has read all it was sent, while the server's thread
  -- has nothing left of it: whatever keys the server has, what the client reads behind its request
  -- `KEYS *` is the error that KEYS requires no arguments, or "QUEUED" where the client is in a
  -- transaction, and the data browser finds no key.
  pub refresh_data-served :
      (p : CommandProcessor) (t : EnhancedRedisTui Wire)
      → t.client.connected ≡ true
      → t.client.parser.pos ≡ length t.client.parser.buffer
      → t.world.waiting ≡ []
      → t.world.network.is_terminated ≡ false
      → find_session fd t.world.network.sessions ≡ some (with_processor p)
      → ((client_response (server_link o clocks fd) (asked (server_link o clocks fd) t)).1 ≡ (
          if p.in_transaction
          then codes "+QUEUED\r\n"
          else codes "-ERR KEYS requires no arguments\r\n"))
        × ((refresh_data (server_link o clocks fd) t).key_value_pairs ≡ [])
  refresh_data-served p t on read empty up found =
      let link = server_link o clocks fd in
      let start = record t { key_value_pairs = [] } in
      let u = asked link t in
      let client = client_send-map (λ v. v.client) (λ t w. refl) link (text "KEYS *") start in
      let world = client_send-world link (text "KEYS *") (request keys_star) start on sends_keys in
      let waiting = ap (λ v. v.waiting) world ∙ delivered p t.world empty up found in
      let response =
        client_response-response link u (ap (λ c. c.connected) client ∙ on)
        ∙ reply-response fd (reply_to p) u.client u.world (reply_to-IsReply p) waiting
            (ap (λ c. c.connected) client ∙ on)
            (ap (λ c. c.parser.pos) client
              ∙ (read ∙ ap (λ c. length c.parser.buffer) (sym client))) in
      (response, line_of-reply link t (reply_to p) (reply_to-IsReply p) response)
