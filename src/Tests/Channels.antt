-- ===== src/Tests/Channels.antt =====
-- The subscribers of db.cpp, at concrete channels.
use minimum_redis.Base.{[], ◌∷◌, Bytes, codes}
use minimum_redis.PubSub.{Subscribers}
use minimum_redis.PubSub.Channels.{NoneEmpty, PubSubStep, run, run-NoneEmpty}

abbrev news : Bytes
news = codes "news"

abbrev chat : Bytes
chat = codes "chat"

abbrev two_channels : Subscribers
two_channels = (news, 4 ∷ 5 ∷ 4 ∷ []) ∷ (chat, 4 ∷ []) ∷ []

run-NoneEmpty_example :
    NoneEmpty
      (run (PubSubStep.join 4 news ∷ PubSubStep.join 5 chat ∷ PubSubStep.leave_all 4 ∷ []) [])
run-NoneEmpty_example =
    run-NoneEmpty (PubSubStep.join 4 news ∷ PubSubStep.join 5 chat ∷ PubSubStep.leave_all 4 ∷ [])
