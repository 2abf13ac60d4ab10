-- ===== src/Commands/Keys/RoundTrip.antt =====
-- commands.cpp: the replies of GET, EXISTS, TYPE and DEL behind a SET.
use minimum_redis.Base.{◌+◌, ◌%◌, ◌^◌, true, false, some, [], ◌∷◌, Bytes, ◌≡◌, refl}
use minimum_redis.Base.Int.{ℤ, pos}
use minimum_redis.Dict.{find}
use minimum_redis.Dict.Laws.{find-put_self}
use minimum_redis.Resp.Value.{RespValue, bulk_string}
use minimum_redis.Value.{RedisType, RedisValue, is_expired}
use minimum_redis.Database
use minimum_redis.Database.{Keyspace, at_key, increment_mod_count}
use minimum_redis.Commands.Reply.{Clock, bulk_reply, with_key, with_two}
use minimum_redis.Commands.Keys.{handle_set, handle_get}

-- What SET leaves under its key.
abbrev pub stored : Bytes → Bytes → Keyspace → RedisValue
stored key value d =
    let v = at_key key d in
    record v { type = RedisType.string; str_val = value; mod_count = (v.mod_count + 1) % 2 ^ 64 }

-- The keyspace after the SET command.
abbrev pub after_set : Clock → RespValue → Bytes → Bytes → Keyspace → Keyspace
after_set now c key value d = (handle_set now (c ∷ bulk_string key ∷ bulk_string value ∷ []) d).0

find-after_set :
    (now : Clock) (c : RespValue) (key value : Bytes) (d : Keyspace)
    → find key (after_set now c key value d) ≡ some (stored key value d)
find-after_set now c key value d =
    unfold handle_set with_two increment_mod_count Database.set in
    rw find-put_self (rw find-put_self refl)

stored-live :
    (t : ℤ) (key value : Bytes) (d : Keyspace)
    → (at_key key d).expiry_time ≡ pos 0
    → is_expired t (stored key value d) ≡ false
unfolding is_expired
stored-live t key value d h = rw h refl

-- A client's SET of a key without an expiry, then a GET of it with nothing between, at any times:
-- the reply is the value, as a bulk string.
pub handle_get-handle_set :
    (now later : Clock) (c b : RespValue) (key value : Bytes) (d : Keyspace)
    → (at_key key d).expiry_time ≡ pos 0
    → (handle_get later (b ∷ bulk_string key ∷ []) (after_set now c key value d)).1
      ≡ bulk_reply value
handle_get-handle_set now later c b key value d h =
    let e = after_set now c key value d in
    let found = find-after_set now c key value d in
    let there : Database.exists (later 0) key e ≡ (e, true) =
      unfold Database.exists in rw found (rw (stored-live (later 0) key value d h) refl) in
    let kind : Database.type (later 1) key e ≡ (e, RedisType.string) =
      unfold Database.type in rw found (rw (stored-live (later 1) key value d h) refl) in
    let got : Database.get (later 2) key e ≡ (e, value) =
      unfold Database.get in rw found (rw (stored-live (later 2) key value d h) refl) in
    unfold handle_get with_key bulk_reply in rw there (rw kind (rw got refl))
