-- ===== src/Dict/Laws.antt =====
-- Laws of the dictionary, in terms of what `find` sees.
use minimum_redis.Base.{
  ℕ, suc, ◌+◌, ◌-◌, Bool, true, false, Option, none, some, List, [], ◌∷◌, Bytes, equal, equal_iff,
  equal_refl, if◌then◌else◌, ◌≡◌, refl, arith, length,
}
use minimum_redis.Dict.{Dict, find, put, erase, has, Unique}

module _ {ℓ} {V : Type ℓ} where
  pub find-put :
      (k j : Bytes) (v : V) (m : Dict V)
      → find j (put k v m) ≡ (if equal k j then some v else find j m)
  unfolding find put
  find-put k j v [] = refl
  find-put k j v ((i, w) ∷ m) =
      ground (arith, equal_iff k j, equal_iff i k, equal_iff i j, find-put k j v m)

  pub find-erase :
      (k j : Bytes) (m : Dict V) → find j (erase k m) ≡ (if equal k j then none else find j m)
  unfolding find erase
  find-erase k j [] = ground arith
  find-erase k j ((i, w) ∷ m) =
      ground (arith, equal_iff k j, equal_iff i k, equal_iff i j, find-erase k j m)

  pub find-put_self : (k : Bytes) (v : V) (m : Dict V) → find k (put k v m) ≡ some v
  find-put_self k v m = simp (find-put, equal_refl)

  pub find-erase_self : (k : Bytes) (m : Dict V) → find k (erase k m) ≡ none
  find-erase_self k m = simp (find-erase, equal_refl)

  pub put-put : (k : Bytes) (v w : V) (m : Dict V) → put k v (put k w m) ≡ put k v m
  unfolding put
  put-put k v w [] = rw equal_refl
  put-put k v w ((i, u) ∷ m) = ground (arith, put-put k v w m)

  pub has-put :
      (k j : Bytes) (v : V) (m : Dict V) → has j (put k v m) ≡ (if equal k j then true else has j m)
  unfolding has
  has-put k j v m = ground (arith, find-put k j v m)

  pub has-erase :
      (k j : Bytes) (m : Dict V) → has j (erase k m) ≡ (if equal k j then false else has j m)
  unfolding has
  has-erase k j m = ground (arith, find-erase k j m)

  pub put-Unique : (k : Bytes) (v : V) (m : Dict V) → Unique m → Unique (put k v m)
  unfolding put
  put-Unique k v [] u = (unfold has find in refl, tt)
  put-Unique k v ((i, w) ∷ m) u =
      ground (arith, put-Unique k v m u.1, has-put k i v m, equal_iff i k, equal_iff k i)

  pub erase-Unique : (k : Bytes) (m : Dict V) → Unique m → Unique (erase k m)
  unfolding erase
  erase-Unique k [] u = tt
  erase-Unique k ((i, w) ∷ m) u =
      ground (arith, erase-Unique k m u.1, has-erase k i m, equal_iff i k, equal_iff k i)

pub ruleset dict_laws = (find-put, find-erase, equal_refl)
