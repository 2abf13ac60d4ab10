-- ===== src/Database/SortedSets/Consistent.antt =====
-- db.cpp: the two maps of a sorted set tell the same, and the multimap stays in the order of the
-- scores.
use minimum_redis.Base.{
  ℕ, ◌≤◌, Bool, false, Option, none, some, List, [], ◌∷◌, Bytes, equal, equal_iff, equal_refl,
  if◌then◌else◌, ◌≡◌, refl, ap, arith, Bool-cases, ltb-eq_false, inl, inr, ◌∙◌,
}
use minimum_redis.Dict.{find, put, erase}
use minimum_redis.Dict.Laws.{find-put, find-erase}
use minimum_redis.Double.{Double, lt, is_nan, rank_of, lt-numbers}
use minimum_redis.Database.SortedSets.{
  ScoreMap, Zset, insert_entry, erase_entry, zadd_one, zadd_all, zrem_all, erase_old, zrem_found,
}

-- The scores of the entries that hold the member.
unfoldable pub scores_of : Bytes → ScoreMap → List Double
scores_of member [] = []
scores_of member ((s, m) ∷ r) =
    if equal m member then s ∷ scores_of member r else scores_of member r

-- Every score is a number, and at least the given rank.
abbrev pub AllFrom : ℕ → ScoreMap → Type 0
AllFrom k [] = Unit
AllFrom k ((s, m) ∷ r) = (k ≤ rank_of s) × AllFrom k r

abbrev pub AllNumbers : ScoreMap → Type 0
AllNumbers [] = Unit
AllNumbers ((s, m) ∷ r) = (is_nan s ≡ false) × AllNumbers r

abbrev pub Sorted : ScoreMap → Type 0
Sorted [] = Unit
Sorted ((s, m) ∷ r) = AllFrom (rank_of s) r × Sorted r

abbrev pub as_list : Option Double → List Double
as_list none = []
as_list (some s) = s ∷ []

-- Each member that the map knows stands in exactly one entry, with the score that the map has for
-- it, and no other member stands in an entry.
pub record IsConsistent (z : Zset) : Type 0 where
  pub agree : (m : Bytes) → scores_of m z.score_to_member ≡ as_list (find m z.member_to_score)
  pub sorted : Sorted z.score_to_member
  pub numbers : AllNumbers z.score_to_member

AllFrom-mono : (j k : ℕ) (e : ScoreMap) → j ≤ k → AllFrom k e → AllFrom j e
AllFrom-mono j k [] l h = tt
AllFrom-mono j k ((s, m) ∷ r) l h = (omega arith, AllFrom-mono j k r l h.1)

module _ (score : Double) (member : Bytes) where
  scores_of-insert_ne :
      (m : Bytes) (e : ScoreMap)
      → equal member m ≡ false
      → scores_of m (insert_entry score member e) ≡ scores_of m e
  unfolding scores_of insert_entry
  scores_of-insert_ne m [] h = ground arith
  scores_of-insert_ne m ((s, n) ∷ r) h = ground (arith, scores_of-insert_ne m r h)

  scores_of-insert_new :
      (e : ScoreMap)
      → scores_of member e ≡ []
      → scores_of member (insert_entry score member e) ≡ score ∷ []
  unfolding scores_of insert_entry
  scores_of-insert_new [] h = rw equal_refl
  scores_of-insert_new ((s, n) ∷ r) h = ground (arith, scores_of-insert_new r, equal_refl member)

  AllFrom-insert :
      (k : ℕ) (e : ScoreMap)
      → AllFrom k e
      → k ≤ rank_of score
      → AllFrom k (insert_entry score member e)
  unfolding insert_entry
  AllFrom-insert k [] h l = (l, tt)
  AllFrom-insert k ((s, n) ∷ r) h l = ground (arith, AllFrom-insert k r h.1 l)

  AllNumbers-insert :
      (e : ScoreMap)
      → AllNumbers e
      → is_nan score ≡ false
      → AllNumbers (insert_entry score member e)
  unfolding insert_entry
  AllNumbers-insert [] h l = (l, tt)
  AllNumbers-insert ((s, n) ∷ r) h l = ground (arith, AllNumbers-insert r h.1 l)

  scores_of-erase_ne :
      (m : Bytes) (e : ScoreMap)
      → equal member m ≡ false
      → scores_of m (erase_entry score member e) ≡ scores_of m e
  unfolding scores_of erase_entry
  scores_of-erase_ne m [] h = refl
  scores_of-erase_ne m ((s, n) ∷ r) h = ground (arith, scores_of-erase_ne m r h, equal_iff n member)

  AllFrom-erase : (k : ℕ) (e : ScoreMap) → AllFrom k e → AllFrom k (erase_entry score member e)
  unfolding erase_entry
  AllFrom-erase k [] h = tt
  AllFrom-erase k ((s, n) ∷ r) h = ground (arith, AllFrom-erase k r h.1)

  AllNumbers-erase : (e : ScoreMap) → AllNumbers e → AllNumbers (erase_entry score member e)
  unfolding erase_entry
  AllNumbers-erase [] h = tt
  AllNumbers-erase ((s, n) ∷ r) h = ground (arith, AllNumbers-erase r h.1)

  -- An entry that goes in keeps the order.
  insert-Sorted :
      (e : ScoreMap)
      → AllNumbers e
      → is_nan score ≡ false
      → Sorted e
      → Sorted (insert_entry score member e)
  unfolding insert_entry
  insert-Sorted [] n l h = (tt, tt)
  insert-Sorted ((s, m) ∷ r) n l h =
      let less = lt-numbers score s l n.0 in
      elim (Bool-cases (lt score s)) [
        | inl first ↦
            rw first
              ((ground arith, AllFrom-mono (rank_of score) (rank_of s) r (ground arith) h.0), h)
        | inr later ↦
            rw later (AllFrom-insert (rank_of s) r h.0 (ground arith), insert-Sorted r n.1 l h.1)
      ]

  erase-Sorted : (e : ScoreMap) → Sorted e → Sorted (erase_entry score member e)
  unfolding erase_entry
  erase-Sorted [] h = tt
  erase-Sorted ((s, m) ∷ r) h = ground (arith, AllFrom-erase (rank_of s) r h.0, erase-Sorted r h.1)

  -- The search of the loop finds the one entry that holds the member.
  scores_of-erase :
      (e : ScoreMap)
      → is_nan score ≡ false
      → scores_of member e ≡ score ∷ []
      → scores_of member (erase_entry score member e) ≡ []
  unfolding scores_of erase_entry
  scores_of-erase [] n h = cc
  scores_of-erase ((s, m) ∷ r) n h = elim (Bool-cases (equal m member)) [
    | inl here ↦
        let there : s ∷ scores_of member r ≡ score ∷ [] = rw here at h in
        let same : s ≡ score = cc in
        let none_left : scores_of member r ≡ [] = cc in
        let tie : lt score score ≡ false =
          lt-numbers score score n n ∙ ltb-eq_false (rank_of score) (rank_of score) (omega arith) in
        rw (same, tie, here) none_left
    | inr other ↦ ground (arith, scores_of-erase r n)
  ]

  number_of : (e : ScoreMap) → AllNumbers e → scores_of member e ≡ score ∷ [] → is_nan score ≡ false
  unfolding scores_of
  number_of [] n h = cc
  number_of ((s, m) ∷ r) n h = elim (Bool-cases (equal m member)) [
    | inl here ↦
        let there : s ∷ scores_of member r ≡ score ∷ [] = rw here at h in
        let same : s ≡ score = cc in rw (← same) n.0
    | inr other ↦ number_of r n.1 (rw other at h)
  ]

abbrev pub AllScores : List (Double × Bytes) → Type 0
AllScores [] = Unit
AllScores ((score, member) ∷ r) = (is_nan score ≡ false) × AllScores r

-- What is left once the entry that the map knows of is erased: the member stands nowhere, the
-- others stand as before.
record IsErased (member : Bytes) (z : Zset) (e : ScoreMap) : Type 0 where
  gone : scores_of member e ≡ []
  others : (m : Bytes) → equal member m ≡ false → scores_of m e ≡ scores_of m z.score_to_member
  order : Sorted e
  finite : AllNumbers e

erase_old-IsErased :
    (member : Bytes) (z : Zset) (o : Option Double)
    → IsConsistent z
    → find member z.member_to_score ≡ o
    → IsErased member z (erase_old o member z.score_to_member)
erase_old-IsErased member z none c h = record {
  gone = c.agree member ∙ ap as_list h;
  others = λ m ne. refl;
  order = c.sorted;
  finite = c.numbers;
}
erase_old-IsErased member z (some old) c h =
    let there : scores_of member z.score_to_member ≡ old ∷ [] = c.agree member ∙ ap as_list h in
    let number = number_of old member z.score_to_member c.numbers there in
    record {
      gone = scores_of-erase old member z.score_to_member number there;
      others = λ m ne. scores_of-erase_ne old member m z.score_to_member ne;
      order = erase-Sorted old member z.score_to_member c.sorted;
      finite = AllNumbers-erase old member z.score_to_member c.numbers;
    }

zadd_one-agree :
    (score : Double) (member m : Bytes) (z : Zset) (e : ScoreMap)
    → IsConsistent z
    → IsErased member z e
    → scores_of m (insert_entry score member e)
      ≡ as_list (find m (put member score z.member_to_score))
zadd_one-agree score member m z e c h = rw find-put (elim (Bool-cases (equal member m)) [
  | inl same ↦ rw (same, ← (equal_iff member m).0 same) (scores_of-insert_new score member e h.gone)
  | inr other ↦ rw other (scores_of-insert_ne score member m e other ∙ h.others m other ∙ c.agree m)
])

zadd_one-IsConsistent :
    (score : Double) (member : Bytes) (z : Zset)
    → is_nan score ≡ false
    → IsConsistent z
    → IsConsistent (zadd_one score member z)
unfolding zadd_one
zadd_one-IsConsistent score member z n c =
    let e = erase_old (find member z.member_to_score) member z.score_to_member in
    let h = erase_old-IsErased member z (find member z.member_to_score) c refl in
    record {
      agree = λ m. zadd_one-agree score member m z e c h;
      sorted = insert-Sorted score member e h.finite n h.order;
      numbers = AllNumbers-insert score member e h.finite n;
    }

pub zadd_all-IsConsistent :
    (members : List (Double × Bytes)) (z : Zset)
    → AllScores members
    → IsConsistent z
    → IsConsistent (zadd_all members z)
unfolding zadd_all
zadd_all-IsConsistent [] z n c = c
zadd_all-IsConsistent ((score, member) ∷ r) z n c =
    zadd_all-IsConsistent r (zadd_one score member z) n.1
      (zadd_one-IsConsistent score member z n.0 c)

zrem_found-agree :
    (member m : Bytes) (z : Zset) (e : ScoreMap)
    → IsConsistent z
    → IsErased member z e
    → scores_of m e ≡ as_list (find m (erase member z.member_to_score))
zrem_found-agree member m z e c h = rw find-erase (elim (Bool-cases (equal member m)) [
  | inl same ↦ rw (same, ← (equal_iff member m).0 same) h.gone
  | inr other ↦ rw other (h.others m other ∙ c.agree m)
])

zrem_found-IsConsistent :
    (member : Bytes) (z : Zset) (removed : Bool) (o : Option Double)
    → find member z.member_to_score ≡ o
    → IsConsistent z
    → IsConsistent (zrem_found member z removed o).0
zrem_found-IsConsistent member z removed none e c = c
zrem_found-IsConsistent member z removed (some old) e c =
    let h = erase_old-IsErased member z (some old) c e in
    record {
      agree = λ m. zrem_found-agree member m z (erase_entry old member z.score_to_member) c h;
      sorted = h.order;
      numbers = h.finite;
    }

pub zrem_all-IsConsistent :
    (members : List Bytes) (z : Zset) (removed : Bool)
    → IsConsistent z
    → IsConsistent (zrem_all members z removed).0
unfolding zrem_all
zrem_all-IsConsistent [] z removed c = c
zrem_all-IsConsistent (m ∷ ms) z removed c =
    zrem_all-IsConsistent ms _ _
      (zrem_found-IsConsistent m z removed (find m z.member_to_score) refl c)
