-- ===== src/RedisTui/Kept.antt =====
-- clients/tui/redis_tui.cpp: what a request and its response leave as it is.
pub mod Display
use minimum_redis.Base.{
  ℕ, Bool, true, false, Bool-cases, Option, none, some, List, [], ◌∷◌, Bytes, if◌then◌else◌, ◌≡◌,
  refl, ap, ◌∙◌,
}
use minimum_redis.RedisClient.{RedisClient, Link, get_response}
use minimum_redis.Resp.Encode.{send_command}
use minimum_redis.RedisTui.{
  EnhancedRedisTui, client_send, client_response, send_bytes, with_response,
}

if-map :
    {A B C : Type 0} (f : B → C) (c : C) (b : Bool) (x y : B × A)
    → f x.0 ≡ c
    → f y.0 ≡ c
    → f (if b then x else y).0 ≡ c
if-map f c true x y h i = h
if-map f c false x y h i = i

if-second : {A B : Type 0} {b : Bool} (x y : A × B) → b ≡ true → (if b then x else y).1 ≡ x.1
if-second x y h = rw h refl

if-true : {A : Type 0} {b : Bool} (x y : A) → b ≡ true → (if b then x else y) ≡ x
if-true x y h = rw h refl

module _ {W : Type 0} where
  send_bytes-map :
      {C : Type 0} (f : EnhancedRedisTui W → C)
      (stays : (t : EnhancedRedisTui W) (w : W) → f (record t { world = w }) ≡ f t) (link : Link W)
      (t : EnhancedRedisTui W) (b : Option Bytes)
      → f (send_bytes link t b).0 ≡ f t
  send_bytes-map f stays link t none = refl
  send_bytes-map f stays link t (some b) = stays t (link.send b t.world).0

  -- What does not depend on the other end stays.
  pub client_send-map :
      {C : Type 0} (f : EnhancedRedisTui W → C)
      (stays : (t : EnhancedRedisTui W) (w : W) → f (record t { world = w }) ≡ f t) (link : Link W)
      (command : Bytes) (t : EnhancedRedisTui W)
      → f (client_send link command t).0 ≡ f t
  unfolding client_send
  client_send-map f stays link command t =
      if-map f (f t) t.client.connected (send_bytes link t (send_command command)) (t, false)
        (send_bytes-map f stays link t (send_command command)) refl

  -- What does not depend on the client or the other end stays.
  pub client_response-map :
      {C : Type 0} (f : EnhancedRedisTui W → C)
      (stays : (t : EnhancedRedisTui W) (c : RedisClient) (w : W)
        → f (record t { client = c; world = w }) ≡ f t)
      (link : Link W) (t : EnhancedRedisTui W)
      → f (client_response link t).0 ≡ f t
  unfolding client_response
  client_response-map f stays link t =
      if-map f (f t) t.client.connected
        (let (world, received) = link.receive t.world in
          with_response (record t { world = world }) (get_response received t.client))
        (t, [])
        (stays t (get_response (link.receive t.world).1 t.client).0 (link.receive t.world).0) refl

  pub client_send-key_value_pairs :
      (link : Link W) (command : Bytes) (t : EnhancedRedisTui W)
      → (client_send link command t).0.key_value_pairs ≡ t.key_value_pairs
  client_send-key_value_pairs = client_send-map (λ u. u.key_value_pairs) (λ t w. refl)

  pub client_response-key_value_pairs :
      (link : Link W) (t : EnhancedRedisTui W)
      → (client_response link t).0.key_value_pairs ≡ t.key_value_pairs
  client_response-key_value_pairs = client_response-map (λ u. u.key_value_pairs) (λ t c w. refl)

  -- A request goes to the other end, if the client is connected.
  pub client_send-world :
      (link : Link W) (command bytes : Bytes) (t : EnhancedRedisTui W)
      → t.client.connected ≡ true
      → send_command command ≡ some bytes
      → (client_send link command t).0.world ≡ (link.send bytes t.world).0
  unfolding client_send
  client_send-world link command bytes t on sends =
      ap (λ x. x.0.world) (if-true (send_bytes link t (send_command command)) (t, false) on)
      ∙ ap (λ b. (send_bytes link t b).0.world) sends

  pub client_response-response :
      (link : Link W) (t : EnhancedRedisTui W)
      → t.client.connected ≡ true
      → (client_response link t).1 ≡ (get_response (link.receive t.world).1 t.client).1
  unfolding client_response
  client_response-response link t on =
      if-second
        (let (world, received) = link.receive t.world in
          with_response (record t { world = world }) (get_response received t.client))
        (t, []) on
