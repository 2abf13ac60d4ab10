-- ===== src/RedisTui/Keys.antt =====
-- clients/tui/redis_tui.cpp: what the views make of a reply of which they read one line.
use minimum_redis.Base.{
  ◌==◌, Bool, true, false, Bool-cases, none, [], ◌∷◌, ◌++◌, Bytes, text, inl, inr, ◌≡◌, refl, ap,
  ◌∙◌, lacks, arith,
}
use minimum_redis.RedisClient.{Link}
use minimum_redis.RedisTui.{EnhancedRedisTui, client_send, client_response}
use minimum_redis.RedisTui.Browser.{
  lines, is_ended, is_size, keys_in, reply_keys, on_keys, after_keys, get_values, refresh_data,
}
use minimum_redis.RedisTui.Info.{at_colon, is_comment, info_of, after_info, fetch_server_info}
use minimum_redis.RedisTui.Kept.{
  client_send-key_value_pairs, client_response-key_value_pairs, client_send-map,
  client_response-map,
}

abbrev pub line_of : Bytes → Bytes
line_of line = line ++ (b'\n' ∷ [])

lines-line_of : (line : Bytes) → lacks b'\n' line ≡ true → lines (line_of line) ≡ line ∷ []
unfolding lines
lines-line_of [] h = refl
lines-line_of (c ∷ line) h =
    let other : (c == b'\n') ≡ false = ground arith in
    let later : lacks b'\n' line ≡ true = ground arith in
    rw other (rw (lines-line_of line later) refl)

is_ended-line_of : (line : Bytes) → is_ended (line_of line) ≡ true
is_ended-line_of [] = refl
is_ended-line_of (c ∷ []) = refl
is_ended-line_of (c ∷ d ∷ line) = is_ended-line_of (d ∷ line)

one_line : (line : Bytes) → keys_in true (line ∷ []) ≡ []
unfolding keys_in
one_line line = elim (Bool-cases (is_size line)) [ inl e ↦ rw e refl | inr e ↦ rw e refl ]

reply_keys-line_of : (line : Bytes) → lacks b'\n' line ≡ true → reply_keys (line_of line) ≡ []
reply_keys-line_of line h =
    unfold reply_keys in rw (is_ended-line_of line, lines-line_of line h) (one_line line)

at_colon-lacks : (line : Bytes) → lacks b':' line ≡ true → at_colon line ≡ none
unfolding at_colon
at_colon-lacks [] h = refl
at_colon-lacks (c ∷ line) h =
    let other : (c == b':') ≡ false = ground arith in
    let later : lacks b':' line ≡ true = ground arith in
    rw other (rw (at_colon-lacks line later) refl)

info_of-lacks : (line : Bytes) → lacks b':' line ≡ true → info_of (line ∷ []) [] ≡ []
unfolding info_of
info_of-lacks line h = elim (Bool-cases (is_comment line)) [
  | inl e ↦ rw e refl
  | inr e ↦ rw e (rw (at_colon-lacks line h) refl)
]

module _ {W : Type 0} where
  on_keys-line_of :
      (link : Link W) (line : Bytes) (t : EnhancedRedisTui W) (response : Bytes)
      → lacks b'\n' line ≡ true
      → response ≡ line_of line
      → t.key_value_pairs ≡ []
      → (on_keys link (t, response)).key_value_pairs ≡ []
  on_keys-line_of link line t [] h e empty = empty
  on_keys-line_of link line t (c ∷ s) h e empty =
      let none_found : reply_keys (c ∷ s) ≡ [] = ap reply_keys e ∙ reply_keys-line_of line h in
      rw none_found (unfold get_values in empty)

  after_keys-line_of :
      (link : Link W) (line : Bytes) (x : EnhancedRedisTui W × Bool)
      → lacks b'\n' line ≡ true
      → (client_response link x.0).1 ≡ line_of line
      → x.0.key_value_pairs ≡ []
      → (after_keys link x).key_value_pairs ≡ []
  after_keys-line_of link line (t, false) h e empty = empty
  after_keys-line_of link line (t, true) h e empty =
      on_keys-line_of link line (client_response link t).0 (client_response link t).1 h e
        (client_response-key_value_pairs link t ∙ empty)

  -- The client asks for the keys.
  abbrev pub asked : Link W → EnhancedRedisTui W → EnhancedRedisTui W
  asked link t = (client_send link (text "KEYS *") (record t { key_value_pairs = [] })).0

  -- If what the client takes for the reply to KEYS is a single line, whatever stands in it, then the
  -- data browser finds no key.
  pub refresh_data-line_of :
      (link : Link W) (line : Bytes) (t : EnhancedRedisTui W)
      → lacks b'\n' line ≡ true
      → (client_response link (asked link t)).1 ≡ line_of line
      → (refresh_data link t).key_value_pairs ≡ []
  refresh_data-line_of link line t h e =
      unfold refresh_data in
      after_keys-line_of link line
        (client_send link (text "KEYS *") (record t { key_value_pairs = [] })) h e
        (client_send-key_value_pairs link (text "KEYS *") (record t { key_value_pairs = [] }))

  after_info-line_of :
      (link : Link W) (line : Bytes) (x : EnhancedRedisTui W × Bool)
      → lacks b'\n' line ≡ true
      → lacks b':' line ≡ true
      → (client_response link x.0).1 ≡ line_of line
      → x.0.server_info ≡ []
      → (after_info link x).server_info ≡ []
  after_info-line_of link line (t, false) h colon e empty = empty
  after_info-line_of link line (t, true) h colon e empty =
      let kept = client_response-map (λ u. u.server_info) (λ t c w. refl) link t ∙ empty in
      rw (e, lines-line_of line h, kept) (info_of-lacks line colon)

  -- The client asks for the server's information.
  abbrev pub inquired : Link W → EnhancedRedisTui W → EnhancedRedisTui W
  inquired link t = (client_send link (text "INFO") (record t { server_info = [] })).0

  -- If what the client takes for the reply to INFO is a single line with no colon, as the line with
  -- the size of the reply is, then the client has no information about the server.
  pub fetch_server_info-line_of :
      (link : Link W) (line : Bytes) (t : EnhancedRedisTui W)
      → lacks b'\n' line ≡ true
      → lacks b':' line ≡ true
      → (client_response link (inquired link t)).1 ≡ line_of line
      → (fetch_server_info link t).server_info ≡ []
  fetch_server_info-line_of link line t h colon e =
      unfold fetch_server_info in
      after_info-line_of link line (client_send link (text "INFO") (record t { server_info = [] }))
        h colon e
        (client_send-map (λ u. u.server_info) (λ t w. refl) link (text "INFO")
          (record t { server_info = [] }))
