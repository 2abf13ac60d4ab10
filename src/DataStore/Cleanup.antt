-- ===== src/DataStore/Cleanup.antt =====
-- data_store.cpp: what the removal of the expired entries keeps.
use minimum_redis.Base.{
  ℕ, suc, false, Bool-cases, none, [], ◌∷◌, Bytes, equal, equal_iff, ◌⊎◌, inl, inr, ◌≡◌, refl,
  subst, arith,
}
use minimum_redis.Base.Int.{ℤ}
use minimum_redis.Dict.{Dict, find, has, Unique}
use minimum_redis.DataStore.{KeyValuePair, is_expired, cleanup}

has-none : (key : Bytes) (m : Dict KeyValuePair) → has key m ≡ false → find key m ≡ none
unfolding has
has-none key m h = ground arith

none-has : (key : Bytes) (m : Dict KeyValuePair) → find key m ≡ none → has key m ≡ false
unfolding has
none-has key m h = rw (h, has) refl

cleanup-none :
    (clock : ℕ → ℤ) (key : Bytes) (m : Dict KeyValuePair)
    → find key m ≡ none
    → find key (cleanup clock m) ≡ none
unfolding cleanup find
cleanup-none clock key [] h = h
cleanup-none clock key ((k, kvp) ∷ m) h = elim (Bool-cases (equal k key)) [
  | inl e ↦ absurd (ground arith)
  | inr e ↦
      let later = cleanup-none (λ i. clock (suc i)) key m (ground arith) in
      elim (Bool-cases (is_expired (clock 0) kvp)) [
        | inl x ↦ rw x later
        | inr x ↦ rw x (rw e later)
      ]
]

pub cleanup-Unique : (clock : ℕ → ℤ) (m : Dict KeyValuePair) → Unique m → Unique (cleanup clock m)
unfolding cleanup
cleanup-Unique clock [] u = tt
cleanup-Unique clock ((k, kvp) ∷ m) (only, u) =
    let later = cleanup-Unique (λ i. clock (suc i)) m u in
    let left = cleanup-none (λ i. clock (suc i)) k m (has-none k m only) in
    elim (Bool-cases (is_expired (clock 0) kvp)) [
      | inl x ↦ rw x later
      | inr x ↦ rw x (none-has k (cleanup (λ i. clock (suc i)) m) left, later)
    ]

-- An entry is kept or gone.
pub find-cleanup :
    (clock : ℕ → ℤ) (key : Bytes) (m : Dict KeyValuePair)
    → Unique m
    → (find key (cleanup clock m) ≡ find key m) ⊎ (find key (cleanup clock m) ≡ none)
unfolding cleanup find
find-cleanup clock key [] u = inl refl
find-cleanup clock key ((k, kvp) ∷ m) (only, u) =
    let later = find-cleanup (λ i. clock (suc i)) key m u in
    elim (Bool-cases (is_expired (clock 0) kvp)) [
      | inl x ↦ elim (Bool-cases (equal k key)) [
        | inl e ↦
            let same : k ≡ key = (equal_iff k key).0 e in
            let gone = subst (λ j. find j m ≡ none) same (has-none k m only) in
            rw x (inr (cleanup-none (λ i. clock (suc i)) key m gone))
        | inr e ↦ rw (x, e) later
      ]
      | inr x ↦ elim (Bool-cases (equal k key)) [
        | inl e ↦ rw (x, e) (inl refl)
        | inr e ↦ rw (x, e) later
      ]
    ]
