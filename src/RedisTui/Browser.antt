-- ===== src/RedisTui/Browser.antt =====
-- clients/tui/redis_tui.cpp: the view of the keys and their values. `while (std::getline(ss, line))`
-- is a recursion on the lines of the reply.
use minimum_redis.Base.{
  ℕ, suc, ◌+◌, ◌-◌, ◌*◌, ◌/◌, ◌%◌, ◌^◌, ◌==◌, not, min, Bool, true, false, Option, none, some, List,
  [], ◌∷◌, ◌++◌, Bytes, text, length, take, drop, ltb, if◌then◌else◌,
}
use minimum_redis.Base.Number.{to_string, is_space}
use minimum_redis.RedisClient.{Link}
use minimum_redis.RedisTui.{
  EnhancedRedisTui, page_size, skip_byte, replicate, print, pad, display_header, client_send,
  client_response,
}

-- The lines of a text, without their ends.
abbrev pub onto_first : ℕ → List Bytes → List Bytes
onto_first c [] = (c ∷ []) ∷ []
onto_first c (line ∷ later) = (c ∷ line) ∷ later

unfoldable pub lines : Bytes → List Bytes
lines [] = []
lines (c ∷ s) = let later = lines s in if c == b'\n' then [] ∷ later else onto_first c later

-- Whether the text's last line has its end.
abbrev pub is_ended : Bytes → Bool
is_ended [] = true
is_ended (c ∷ []) = c == b'\n'
is_ended (c ∷ d ∷ s) = is_ended (d ∷ s)

-- `line.size() > 1 && line[0] == '$'`
abbrev pub is_size : Bytes → Bool
is_size [] = false
is_size (c ∷ []) = false
is_size (c ∷ d ∷ s) = c == b'$'

-- `if (!line.empty()) keys.push_back(line)`
abbrev pub push_key : Bytes → List Bytes → List Bytes
push_key [] keys = keys
push_key (c ∷ s) keys = (c ∷ s) ∷ keys

-- The line behind a `$` is a key. Behind the last line there is none: then `line` is empty, or it
-- stays as it is if it had no end.
unfoldable pub keys_in : Bool → List Bytes → List Bytes
keys_in ended [] = []
keys_in ended (line ∷ []) = if is_size line then (if ended then [] else line ∷ []) else []
keys_in ended (line ∷ next ∷ later) =
    let found = push_key next (keys_in ended later) in
    let others = keys_in ended (next ∷ later) in if is_size line then found else others

-- The keys that are read out of a reply to KEYS.
unfoldable pub reply_keys : Bytes → List Bytes
unfolding lines keys_in
reply_keys response = keys_in (is_ended response) (lines response)

-- `!value.empty() && value[0] != '-'`
abbrev pub is_value : Bytes → Bool
is_value [] = false
is_value (c ∷ s) = not (c == b'-')

-- `std::cin >> cmd`: the first byte that is not white space, and what is left.
unfoldable pub first_byte : Bytes → Option ℕ × Bytes
first_byte [] = (none, [])
first_byte (c ∷ s) = let later = first_byte s in if is_space c then later else (some c, s)

-- `cmd` has no value where nothing could be read, which leaves its value to the machine.
abbrev pub read_command : ℕ → Option ℕ → ℕ
read_command unset none = unset
read_command unset (some cmd) = cmd

module _ {W : Type 0} where
  abbrev pub add_pair : Bytes → EnhancedRedisTui W × Bytes → EnhancedRedisTui W
  add_pair key (t, value) =
      if is_value value
      then record t { key_value_pairs = t.key_value_pairs ++ ((key, value) ∷ []) }
      else t

  abbrev pub after_get : Link W → Bytes → EnhancedRedisTui W × Bool → EnhancedRedisTui W
  after_get link key (t, false) = t
  after_get link key (t, true) = add_pair key (client_response link t)

  unfoldable pub get_values : Link W → List Bytes → EnhancedRedisTui W → EnhancedRedisTui W
  unfolding client_send client_response
  get_values link [] t = t
  get_values link (key ∷ keys) t =
      get_values link keys (after_get link key (client_send link (text "GET " ++ key) t))

  abbrev pub on_keys : Link W → EnhancedRedisTui W × Bytes → EnhancedRedisTui W
  on_keys link (t, []) = t
  on_keys link (t, c ∷ s) = get_values link (take 50 (reply_keys (c ∷ s))) t

  abbrev pub after_keys : Link W → EnhancedRedisTui W × Bool → EnhancedRedisTui W
  after_keys link (t, false) = t
  after_keys link (t, true) = on_keys link (client_response link t)

  unfoldable pub refresh_data : Link W → EnhancedRedisTui W → EnhancedRedisTui W
  unfolding client_send client_response reply_keys get_values
  refresh_data link t =
      after_keys link (client_send link (text "KEYS *") (record t { key_value_pairs = [] }))

  -- The pairs from `start` to `end`; `size_t` wraps.
  unfoldable pub shown : EnhancedRedisTui W → List (Bytes × Bytes)
  shown t =
      let start = t.current_page * page_size % 2 ^ 64 in
      let end = min ((start + page_size) % 2 ^ 64) (length t.key_value_pairs) in
      take (end - start) (drop start t.key_value_pairs)

  -- A row. The arrow is one of UTF-8. `std::left` stays set for the rows behind.
  unfoldable pub show_rows : ℕ → List (Bytes × Bytes) → EnhancedRedisTui W → EnhancedRedisTui W
  unfolding print to_string replicate
  show_rows i [] t = t
  show_rows i ((key, value) ∷ rows) t =
      let number = pad 3 (to_string (suc i)) t in
      let t = record t { left = true } in
      let row =
        number
        ++ (text ". "
            ++ (pad 25 (take 25 key) t
                ++ ((32 ∷ 226 ∷ 134 ∷ 146 ∷ 32 ∷ []) ++ (take 45 value ++ text "\n")))) in
      show_rows (suc i) rows (print row t)

  abbrev pub show_page : EnhancedRedisTui W → EnhancedRedisTui W
  show_page t =
      let size = length t.key_value_pairs in
      let pages = (size + page_size - 1) / page_size in
      let line =
        text "\n[PAGE] Page "
        ++ (to_string ((t.current_page + 1) % 2 ^ 64)
            ++ (text " of " ++ (to_string pages ++ text "\n"))) in
      if ltb page_size size then print line t else t

  abbrev pub show_pairs : List (Bytes × Bytes) → EnhancedRedisTui W → EnhancedRedisTui W
  show_pairs [] t = print (text "[EMPTY] No keys found in database\n") t
  show_pairs (pair ∷ pairs) t =
      let t = print (replicate 80 b'-' ++ text "\n") t in
      show_page (show_rows (t.current_page * page_size % 2 ^ 64) (shown t) t)

  unfoldable pub display_data : EnhancedRedisTui W → EnhancedRedisTui W
  unfolding print display_header to_string replicate shown show_rows
  display_data t =
      let t =
        print
          (text "\n[DATA] DATA BROWSER\nTotal keys found: "
            ++ (to_string (length t.key_value_pairs) ++ text "\n"))
          (display_header t) in
      let t = show_pairs t.key_value_pairs t in
      print (text "\nCommands: n(ext), p(rev), r(efresh), b(ack): ") t

  unfoldable pub next_page : EnhancedRedisTui W → EnhancedRedisTui W
  next_page t =
      let following = (t.current_page + 1) % 2 ^ 64 in
      if ltb (following * page_size % 2 ^ 64) (length t.key_value_pairs)
      then record t { current_page = following }
      else t

  unfoldable pub previous_page : EnhancedRedisTui W → EnhancedRedisTui W
  previous_page t =
      if ltb 0 t.current_page then record t { current_page = t.current_page - 1 } else t

  -- The `switch`.
  unfoldable pub turn_page : ℕ → EnhancedRedisTui W → EnhancedRedisTui W
  unfolding next_page previous_page
  turn_page cmd t = if cmd == b'n' then next_page t else if cmd == b'p' then previous_page t else t

  unfoldable pub choose_page : ℕ → EnhancedRedisTui W → EnhancedRedisTui W
  unfolding first_byte turn_page
  choose_page unset t =
      let (cmd, rest) = first_byte t.input in
      turn_page (read_command unset cmd) (record t { input = skip_byte rest })

  unfoldable pub handle_data_browser : Link W → ℕ → EnhancedRedisTui W → EnhancedRedisTui W
  unfolding refresh_data display_data choose_page
  handle_data_browser link unset t = choose_page unset (display_data (refresh_data link t))
