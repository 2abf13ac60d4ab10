-- ===== src/Dict.antt =====
-- `std::unordered_map<std::string, V>` as an association list and `std::unordered_set<std::string>`
-- as a list. The order of iteration, which C++ leaves open, is that of the list; new keys are put
-- at its end.
pub mod Laws
pub mod Members
use minimum_redis.Base.{
  Bool, true, false, not, ◌&&◌, Option, none, some, List, [], ◌∷◌, Bytes, equal, if◌then◌else◌, ◌≡◌,
}

abbrev pub Dict {ℓ} : Type ℓ → Type ℓ
Dict V = List (Bytes × V)

module _ {ℓ} {V : Type ℓ} where
  unfoldable pub find : Bytes → Dict V → Option V
  find k [] = none
  find k ((j, v) ∷ m) = if equal j k then some v else find k m

  -- `m[k] = v`
  unfoldable pub put : Bytes → V → Dict V → Dict V
  put k v [] = (k, v) ∷ []
  put k v ((j, w) ∷ m) = if equal j k then (j, v) ∷ m else (j, w) ∷ put k v m

  -- `m.erase(k)`
  unfoldable pub erase : Bytes → Dict V → Dict V
  erase k [] = []
  erase k ((j, v) ∷ m) = if equal j k then erase k m else (j, v) ∷ erase k m

  -- `m.find(k) != m.end()`
  unfoldable pub has : Bytes → Dict V → Bool
  unfolding find
  has k m = elim (find k m) [ none ↦ false | some v ↦ true ]

  abbrev pub keys_of : Dict V → List Bytes
  keys_of [] = []
  keys_of ((k, v) ∷ m) = k ∷ keys_of m

  abbrev pub values_of : Dict V → List V
  values_of [] = []
  values_of ((k, v) ∷ m) = v ∷ values_of m

  -- No key stands twice.
  abbrev pub Unique : Dict V → Type 0
  Unique [] = Unit
  Unique ((k, v) ∷ m) = (has k m ≡ false) × Unique m

-- `s.count(k) > 0`
unfoldable pub contains : Bytes → List Bytes → Bool
contains k [] = false
contains k (j ∷ s) = if equal j k then true else contains k s

-- `s.insert(k)`
unfoldable pub insert : Bytes → List Bytes → List Bytes
insert k [] = k ∷ []
insert k (j ∷ s) = if equal j k then j ∷ s else j ∷ insert k s

-- `s.erase(k)`
unfoldable pub remove : Bytes → List Bytes → List Bytes
remove k [] = []
remove k (j ∷ s) = if equal j k then remove k s else j ∷ remove k s

unfoldable pub insert_all : List Bytes → List Bytes → List Bytes
unfolding insert
insert_all [] s = s
insert_all (k ∷ ks) s = insert_all ks (insert k s)

unfoldable pub remove_all : List Bytes → List Bytes → List Bytes
unfolding remove
remove_all [] s = s
remove_all (k ∷ ks) s = remove_all ks (remove k s)

abbrev pub Distinct : List Bytes → Type 0
Distinct [] = Unit
Distinct (k ∷ s) = (contains k s ≡ false) × Distinct s
