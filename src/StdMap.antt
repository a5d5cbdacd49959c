-- ===== src/StdMap.antt =====
-- What the program uses of `std::map` with a `std::string` as the key: entries in the order of their
-- keys, each key once.
pub mod Laws
pub mod Filling
use uctool.Common.{
  Bool, true, false, List, [], ◌∷◌, Option, none, some, Bytes, bytes_eq, bytes_lt, if◌then◌else◌,
}

abbrev pub StdMap {ℓ} : Type ℓ → Type ℓ
StdMap A = List (Bytes × A)

module _ {ℓ} {A : Type ℓ} where
  -- `find`, and `count` where only its being there matters.
  unfoldable pub find : Bytes → StdMap A → Option A
  find k [] = none
  find k ((j, a) ∷ rest) = let later = find k rest in if bytes_eq j k then some a else later

  -- `insert`: an entry that is there stays.
  unfoldable pub insert : Bytes → A → StdMap A → StdMap A
  insert k a [] = (k, a) ∷ []
  insert k a ((j, b) ∷ rest) =
      let later = insert k a rest in
      if bytes_lt k j
      then (k, a) ∷ (j, b) ∷ rest
      else (if bytes_lt j k then (j, b) ∷ later else (j, b) ∷ rest)

  -- `map[k] = a`: an entry that is there is replaced.
  unfoldable pub assign : Bytes → A → StdMap A → StdMap A
  assign k a [] = (k, a) ∷ []
  assign k a ((j, b) ∷ rest) =
      let later = assign k a rest in
      if bytes_lt k j
      then (k, a) ∷ (j, b) ∷ rest
      else (if bytes_lt j k then (j, b) ∷ later else (k, a) ∷ rest)
