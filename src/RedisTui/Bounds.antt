-- ===== src/RedisTui/Bounds.antt =====
-- clients/tui/redis_tui.cpp: how much the client keeps, whatever is typed and whatever the server
-- sends.
pub mod Connection
pub mod Browser
pub mod Info
pub mod Monitor
pub mod Run
use minimum_redis.Base.{
  ℕ, zero, suc, ◌+◌, ◌-◌, ◌*◌, ◌%◌, ◌^◌, ◌==◌, ◌≤◌, ◌<◌, Bool, true, false, Bool-cases, Option,
  none, some, Option-cases, List, [], ◌∷◌, ◌++◌, Bytes, text, length, take, length-append,
  length-take, ltb, ltb→lt, if◌then◌else◌, equal, inl, inr, ◌≡◌, refl, arith,
}
use minimum_redis.Base.Int.{ℤ}
use minimum_redis.Double.{Double}
use minimum_redis.Dict.{find}
use minimum_redis.RedisClient.{RedisClient, Link, get_response, stop}
use minimum_redis.Resp.Encode.{send_command}
use minimum_redis.RedisTui.{
  EnhancedRedisTui, max_history, max_history_cmds, page_size, remember, erase_first, with_response,
  print, read_line, getline, skip_byte, read_byte, command_prompt, wait_for_enter, display_header,
  display_menu, client_send, client_response, client_connect, send_bytes, show_response, after_send,
  on_command, execute, handle_command_interface,
}

ltb-false→le : (a b : ℕ) → ltb a b ≡ false → b ≤ a
ltb-false→le a b h = ground arith

erase_first-length :
    {A : Type 0} (max : ℕ) (xs : List A) → length xs ≤ suc max → length (erase_first xs) ≤ max
erase_first-length max [] h = omega arith
erase_first-length max (x ∷ xs) h = omega arith

-- One entry more, and no more than `max`.
pub length-remember :
    {A : Type 0} (max : ℕ) (a : A) (xs : List A)
    → length xs ≤ max
    → length (remember max a xs) ≤ max
unfolding remember
length-remember max a xs h =
    let more : length (xs ++ (a ∷ [])) ≡ length xs + 1 = length-append xs (a ∷ []) in
    elim (Bool-cases (ltb max (length (xs ++ (a ∷ []))))) [
      | inl e ↦ rw e (erase_first-length max (xs ++ (a ∷ [])) (omega arith))
      | inr e ↦ rw e (ltb-false→le max (length (xs ++ (a ∷ []))) e)
    ]

getline-shorter : (s : Bytes) → length (getline s).1 ≤ length s - 1
unfolding getline
getline-shorter [] = omega arith
getline-shorter (c ∷ s) = elim (Bool-cases (c == b'\n')) [
  | inl e ↦ rw e (omega arith)
  | inr e ↦ rw e (omega (arith, getline-shorter s))
]

pub skip_byte-shorter : (s : Bytes) → length (skip_byte s) ≤ length s
skip_byte-shorter [] = omega arith
skip_byte-shorter (c ∷ s) = omega arith

-- The histories and the pairs of the data browser are limited, and so are its pages; and what is
-- still to be read is at most `n` bytes.
abbrev pub Bounded : {W : Type 0} → ℕ → EnhancedRedisTui W → Type 0
Bounded n t =
    (length t.command_history ≤ max_history_cmds)
    × (length t.memory_history ≤ max_history)
    × (length t.connections_history ≤ max_history)
    × (length t.key_value_pairs ≤ 50)
    × (t.current_page ≤ 2)
    × (length t.input ≤ n)

module _ {W : Type 0} {n : ℕ} where
  pub read_line-shorter : (t : EnhancedRedisTui W) → Bounded n t → Bounded (n - 1) (read_line t).0
  unfolding read_line
  read_line-shorter t h = (h.0, h.1, h.2, h.3, h.4, omega (arith, getline-shorter t.input, h.5))

  pub Bounded-weaken : {m : ℕ} → n ≤ m → (t : EnhancedRedisTui W) → Bounded n t → Bounded m t
  Bounded-weaken le t h = (h.0, h.1, h.2, h.3, h.4, omega (arith, h.5))

  pub read_line-IsBounded : (t : EnhancedRedisTui W) → Bounded n t → Bounded n (read_line t).0
  unfolding read_line
  read_line-IsBounded t h = (h.0, h.1, h.2, h.3, h.4, omega (arith, getline-shorter t.input, h.5))

  pub read_byte-IsBounded : (t : EnhancedRedisTui W) → Bounded n t → Bounded n (read_byte t)
  unfolding read_byte
  read_byte-IsBounded t h = (h.0, h.1, h.2, h.3, h.4, omega (arith, skip_byte-shorter t.input, h.5))

  pub wait_for_enter-IsBounded :
      (t : EnhancedRedisTui W) → Bounded n t → Bounded n (wait_for_enter t)
  unfolding print
  wait_for_enter-IsBounded t h =
      read_byte-IsBounded (print (text "\nPress Enter to continue...") t) h

  send_bytes-IsBounded :
      (link : Link W) (t : EnhancedRedisTui W) (b : Option Bytes)
      → Bounded n t
      → Bounded n (send_bytes link t b).0
  send_bytes-IsBounded link t none h = h
  send_bytes-IsBounded link t (some b) h = h

  pub if-IsBounded :
      (b : Bool) (t u : EnhancedRedisTui W)
      → Bounded n t
      → Bounded n u
      → Bounded n (if b then t else u)
  if-IsBounded true t u h i = h
  if-IsBounded false t u h i = i

  pub if_first-IsBounded :
      {A : Type 0} (b : Bool) (x y : EnhancedRedisTui W × A)
      → Bounded n x.0
      → Bounded n y.0
      → Bounded n (if b then x else y).0
  if_first-IsBounded true x y h i = h
  if_first-IsBounded false x y h i = i

  pub client_send-IsBounded :
      (link : Link W) (command : Bytes) (t : EnhancedRedisTui W)
      → Bounded n t
      → Bounded n (client_send link command t).0
  unfolding client_send
  client_send-IsBounded link command t h =
      if_first-IsBounded t.client.connected _ _
        (send_bytes-IsBounded link t (send_command command) h) h

  pub client_response-IsBounded :
      (link : Link W) (t : EnhancedRedisTui W) → Bounded n t → Bounded n (client_response link t).0
  unfolding client_response
  client_response-IsBounded link t h =
      if_first-IsBounded t.client.connected
        ((let (world, received) = link.receive t.world in
          with_response (record t { world = world }) (get_response received t.client)))
        (t, []) h h

  show_response-IsBounded :
      (x : EnhancedRedisTui W × Bytes) → Bounded n x.0 → Bounded n (show_response x)
  unfolding print
  show_response-IsBounded (t, []) h = h
  show_response-IsBounded (t, c ∷ s) h = h

  after_send-IsBounded :
      (link : Link W) (x : EnhancedRedisTui W × Bool)
      → Bounded n x.0
      → Bounded n (after_send link x)
  unfolding print
  after_send-IsBounded link (t, false) h = h
  after_send-IsBounded link (t, true) h =
      wait_for_enter-IsBounded (show_response (client_response link t))
        (show_response-IsBounded (client_response link t) (client_response-IsBounded link t h))

  execute-IsBounded :
      (link : Link W) (cmd : Bytes) (t : EnhancedRedisTui W)
      → Bounded n t
      → Bounded n (execute link cmd t)
  unfolding execute print
  execute-IsBounded link cmd t h =
      let u = record t { command_history = remember max_history_cmds cmd t.command_history } in
      let u = print (text "\n[EXEC]  Executing: " ++ (cmd ++ text "\n")) u in
      let h : Bounded n u =
        (length-remember max_history_cmds cmd t.command_history h.0, h.1, h.2, h.3, h.4, h.5) in
      after_send-IsBounded link (client_send link cmd u) (client_send-IsBounded link cmd u h)

  on_command-IsBounded :
      (link : Link W) (x : EnhancedRedisTui W × Bytes)
      → Bounded n x.0
      → Bounded n (on_command link x)
  unfolding print
  on_command-IsBounded link (t, cmd) h =
      if-IsBounded (equal cmd (text "back")) _ _ h
        (if-IsBounded (equal cmd []) _ _ h (execute-IsBounded link cmd t h))

  pub handle_command_interface-IsBounded :
      (link : Link W) (t : EnhancedRedisTui W)
      → Bounded n t
      → Bounded n (handle_command_interface link t)
  unfolding handle_command_interface print display_header
  handle_command_interface-IsBounded link t h =
      on_command-IsBounded link (read_line (command_prompt t))
        (read_line-IsBounded (command_prompt t) h)
