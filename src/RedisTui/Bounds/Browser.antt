-- ===== src/RedisTui/Bounds/Browser.antt =====
-- clients/tui/redis_tui.cpp: what the view of the data keeps.
use minimum_redis.Base.{
  ℕ, suc, ◌+◌, ◌*◌, ◌%◌, ◌^◌, ◌==◌, ◌≤◌, Bool, true, false, Bool-cases, List, [], ◌∷◌, ◌++◌, Bytes,
  text, length, take, length-append, length-take, ltb, ltb→lt, inl, inr, ◌≡◌, ap, ◌∙◌, arith,
}
use minimum_redis.Base.Number.{is_space}
use minimum_redis.RedisClient.{Link}
use minimum_redis.RedisTui.{
  EnhancedRedisTui, page_size, skip_byte, replicate, print, display_header, client_send,
  client_response,
}
use minimum_redis.RedisTui.Browser.{
  reply_keys, is_value, read_command, first_byte, add_pair, after_get, get_values, on_keys,
  after_keys, refresh_data, shown, show_rows, show_page, show_pairs, display_data, next_page,
  previous_page, turn_page, choose_page, handle_data_browser,
}
use minimum_redis.RedisTui.Kept.{client_send-key_value_pairs, client_response-key_value_pairs}
use minimum_redis.RedisTui.Bounds.{
  Bounded, skip_byte-shorter, if-IsBounded, client_send-IsBounded, client_response-IsBounded,
}

first_byte-shorter : (s : Bytes) → length (first_byte s).1 ≤ length s
unfolding first_byte
first_byte-shorter [] = omega arith
first_byte-shorter (c ∷ s) = elim (Bool-cases (is_space c)) [
  | inl e ↦ rw e (omega (arith, first_byte-shorter s))
  | inr e ↦ rw e (omega arith)
]

module _ {W : Type 0} where
  client_send-pairs :
      (link : Link W) (command : Bytes) (t : EnhancedRedisTui W) (m : ℕ)
      → length t.key_value_pairs + m ≤ 50
      → length (client_send link command t).0.key_value_pairs + m ≤ 50
  client_send-pairs link command t m h = rw (client_send-key_value_pairs link command t) h

  client_response-pairs :
      (link : Link W) (t : EnhancedRedisTui W) (m : ℕ)
      → length t.key_value_pairs + m ≤ 50
      → length (client_response link t).0.key_value_pairs + m ≤ 50
  client_response-pairs link t m h = rw (client_response-key_value_pairs link t) h

  -- Room for some pairs more.
  abbrev HasRoom : ℕ → ℕ → EnhancedRedisTui W → Type 0
  HasRoom n m t = Bounded n t × (length t.key_value_pairs + m ≤ 50)

module _ {W : Type 0} {n : ℕ} where
  add_pair-HasRoom :
      (m : ℕ) (key : Bytes) (x : EnhancedRedisTui W × Bytes)
      → HasRoom n (suc m) x.0
      → HasRoom n m (add_pair key x)
  add_pair-HasRoom m key (t, value) (h, room) =
      let more = length-append t.key_value_pairs ((key, value) ∷ []) in
      elim (Bool-cases (is_value value)) [
        | inl e ↦ rw e ((h.0, h.1, h.2, omega (arith, more), h.4, h.5), omega (arith, more))
        | inr e ↦ rw e (h, omega arith)
      ]

  after_get-HasRoom :
      (link : Link W) (m : ℕ) (key : Bytes) (x : EnhancedRedisTui W × Bool)
      → HasRoom n (suc m) x.0
      → HasRoom n m (after_get link key x)
  after_get-HasRoom link m key (t, false) (h, room) = (h, omega arith)
  after_get-HasRoom link m key (t, true) (h, room) =
      add_pair-HasRoom m key (client_response link t)
        (client_response-IsBounded link t h, client_response-pairs link t (suc m) room)

  get_values-IsBounded :
      (link : Link W) (keys : List Bytes) (t : EnhancedRedisTui W)
      → HasRoom n (length keys) t
      → Bounded n (get_values link keys t)
  unfolding get_values
  get_values-IsBounded link [] t h = h.0
  get_values-IsBounded link (key ∷ keys) t (h, room) =
      let sent = client_send link (text "GET " ++ key) t in
      get_values-IsBounded link keys (after_get link key sent) (
        after_get-HasRoom link (length keys) key sent (
          client_send-IsBounded link (text "GET " ++ key) t h,
          client_send-pairs link (text "GET " ++ key) t (suc (length keys)) room,
        ))

  on_keys-IsBounded :
      (link : Link W) (x : EnhancedRedisTui W × Bytes)
      → Bounded n x.0
      → x.0.key_value_pairs ≡ []
      → Bounded n (on_keys link x)
  on_keys-IsBounded link (t, []) h empty = h
  on_keys-IsBounded link (t, c ∷ s) h empty =
      let found = length-take 50 (reply_keys (c ∷ s)) in
      let none_yet : length t.key_value_pairs ≡ 0 = ap length empty in
      get_values-IsBounded link (take 50 (reply_keys (c ∷ s))) t (h, omega (arith, found, none_yet))

  after_keys-IsBounded :
      (link : Link W) (x : EnhancedRedisTui W × Bool)
      → Bounded n x.0
      → x.0.key_value_pairs ≡ []
      → Bounded n (after_keys link x)
  after_keys-IsBounded link (t, false) h empty = h
  after_keys-IsBounded link (t, true) h empty =
      on_keys-IsBounded link (client_response link t) (client_response-IsBounded link t h)
        (client_response-key_value_pairs link t ∙ empty)

  pub refresh_data-IsBounded :
      (link : Link W) (t : EnhancedRedisTui W) → Bounded n t → Bounded n (refresh_data link t)
  unfolding refresh_data
  refresh_data-IsBounded link t h =
      let cleared = record t { key_value_pairs = [] } in
      let some_room : 0 ≤ 50 = omega arith in
      let h : Bounded n cleared = (h.0, h.1, h.2, some_room, h.4, h.5) in
      after_keys-IsBounded link (client_send link (text "KEYS *") cleared)
        (client_send-IsBounded link (text "KEYS *") cleared h)
        (client_send-key_value_pairs link (text "KEYS *") cleared)

  show_rows-IsBounded :
      (i : ℕ) (rows : List (Bytes × Bytes)) (t : EnhancedRedisTui W)
      → Bounded n t
      → Bounded n (show_rows i rows t)
  unfolding show_rows print
  show_rows-IsBounded i [] t h = h
  show_rows-IsBounded i ((key, value) ∷ rows) t h = show_rows-IsBounded (suc i) rows _ h

  show_page-IsBounded : (t : EnhancedRedisTui W) → Bounded n t → Bounded n (show_page t)
  unfolding print
  show_page-IsBounded t h = if-IsBounded (ltb page_size (length t.key_value_pairs)) _ _ h h

  show_pairs-IsBounded :
      (pairs : List (Bytes × Bytes)) (t : EnhancedRedisTui W)
      → Bounded n t
      → Bounded n (show_pairs pairs t)
  unfolding print
  show_pairs-IsBounded [] t h = h
  show_pairs-IsBounded (pair ∷ pairs) t h =
      let u = print (replicate 80 b'-' ++ text "\n") t in
      let rows = show_rows (u.current_page * page_size % 2 ^ 64) (shown u) u in
      show_page-IsBounded rows
        (show_rows-IsBounded (u.current_page * page_size % 2 ^ 64) (shown u) u h)

  display_data-IsBounded : (t : EnhancedRedisTui W) → Bounded n t → Bounded n (display_data t)
  unfolding display_data print display_header
  display_data-IsBounded t h = show_pairs-IsBounded t.key_value_pairs _ h

  next_page-IsBounded : (t : EnhancedRedisTui W) → Bounded n t → Bounded n (next_page t)
  unfolding next_page
  next_page-IsBounded t h =
      let following = (t.current_page + 1) % 2 ^ 64 in
      let there = ltb (following * page_size % 2 ^ 64) (length t.key_value_pairs) in
      elim (Bool-cases there) [
        | inl e ↦
            let some_left = ltb→lt (following * page_size % 2 ^ 64) (length t.key_value_pairs) e in
            rw e (h.0, h.1, h.2, h.3, omega (arith, some_left, h.3, h.4), h.5)
        | inr e ↦ rw e h
      ]

  previous_page-IsBounded : (t : EnhancedRedisTui W) → Bounded n t → Bounded n (previous_page t)
  unfolding previous_page
  previous_page-IsBounded t h =
      if-IsBounded (ltb 0 t.current_page) _ _ (h.0, h.1, h.2, h.3, omega (arith, h.4), h.5) h

  turn_page-IsBounded :
      (cmd : ℕ) (t : EnhancedRedisTui W) → Bounded n t → Bounded n (turn_page cmd t)
  unfolding turn_page
  turn_page-IsBounded cmd t h =
      if-IsBounded (cmd == b'n') _ _ (next_page-IsBounded t h)
        (if-IsBounded (cmd == b'p') _ _ (previous_page-IsBounded t h) h)

  choose_page-IsBounded :
      (unset : ℕ) (t : EnhancedRedisTui W) → Bounded n t → Bounded n (choose_page unset t)
  unfolding choose_page
  choose_page-IsBounded unset t h =
      let rest = (first_byte t.input).1 in
      let fewer : length (skip_byte rest) ≤ n =
        omega (arith, first_byte-shorter t.input, skip_byte-shorter rest, h.5) in
      turn_page-IsBounded (read_command unset (first_byte t.input).0)
        (record t { input = skip_byte rest }) (h.0, h.1, h.2, h.3, h.4, fewer)

  pub handle_data_browser-IsBounded :
      (link : Link W) (unset : ℕ) (t : EnhancedRedisTui W)
      → Bounded n t
      → Bounded n (handle_data_browser link unset t)
  unfolding handle_data_browser
  handle_data_browser-IsBounded link unset t h =
      let fresh = refresh_data link t in
      choose_page-IsBounded unset (display_data fresh)
        (display_data-IsBounded fresh (refresh_data-IsBounded link t h))
