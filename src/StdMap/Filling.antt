-- ===== src/StdMap/Filling.antt =====
-- A map that is filled by `insert` from a table: under each key is the first entry of the table.
use uctool.Common.{
  ◌≡◌, refl, ap, subst, ◌∙◌, inl, inr, true, List, [], ◌∷◌, foldl, Option, none, some, Bytes,
  bytes_eq, bytes_eq_iff, bytes_eq_refl, bytes_lt, if◌then◌else◌, Bool-cases, map, All,
}
use uctool.StdMap.{StdMap, find, insert}
use uctool.StdMap.Laws.{IsSorted, insert-IsSorted, find-insert, find-insert_other, or_else}

-- Names in order, each before the ones behind it.
abbrev pub InOrder : List Bytes → Type 0
InOrder [] = Unit
InOrder (x ∷ xs) = All (λ y. bytes_lt x y ≡ true) xs × InOrder xs

module _ {ℓ} {A : Type ℓ} where
  -- The first entry of a table under a name.
  abbrev pub look_up : Bytes → List (Bytes × A) → Option A
  look_up k [] = none
  look_up k ((name, c) ∷ rest) =
      let later = look_up k rest in if bytes_eq name k then some c else later

  abbrev pub or_later : Option A → Option A → Option A
  or_later none o = o
  or_later (some c) o = some c

  abbrev pub add : StdMap A → Bytes × A → StdMap A
  add m entry = insert entry.0 entry.1 m

  or_later-none : (o : Option A) → o ≡ or_later o none
  or_later-none none = refl
  or_later-none (some c) = refl

  or_later-some : (o : Option A) (c : A) → some (or_else o c) ≡ or_later o (some c)
  or_later-some none c = refl
  or_later-some (some d) c = refl

  add-find :
      (k name : Bytes) (c : A) (m : StdMap A) (o : Option A)
      → IsSorted m
      → or_later (find k (insert name c m)) o
        ≡ or_later (find k m) (if bytes_eq name k then some c else o)
  add-find k name c m o h = elim (Bool-cases (bytes_eq name k)) [
    | inl e ↦
        subst
          (λ x.
            or_later (find x (insert name c m)) o
            ≡ or_later (find x m) (if bytes_eq name x then some c else o))
          ((bytes_eq_iff name k).0 e)
          (rw (bytes_eq_refl name)
            (ap (λ x. or_later x o) (find-insert name c m h).0 ∙ or_later-some (find name m) c))
    | inr e ↦ rw (e) (ap (λ x. or_later x o) (find-insert_other k name c m e).0)
  ]

  pub add_all-find :
      (k : Bytes) (table : List (Bytes × A)) (m : StdMap A)
      → IsSorted m
      → IsSorted (foldl add m table)
        × (find k (foldl add m table) ≡ or_later (find k m) (look_up k table))
  add_all-find k [] m h = (h, or_later-none (find k m))
  add_all-find k ((name, c) ∷ rest) m h =
      let (sorted, found) = add_all-find k rest (insert name c m) (insert-IsSorted name c m h).0 in
      (sorted, found ∙ add-find k name c m (look_up k rest) h)

  abbrev pub key : Bytes × A → Bytes
  key entry = entry.0

  pub keys-InOrder : (m : StdMap A) → IsSorted m → InOrder (map key m)
  keys-InOrder [] h = tt
  keys-InOrder ((k, c) ∷ rest) (up, h) = (above rest up, keys-InOrder rest h)
    where
      above :
          (m : StdMap A)
          → All (λ (e : Bytes × A). bytes_lt k e.0 ≡ true) m
          → All (λ y. bytes_lt k y ≡ true) (map key m)
      above [] a = tt
      above (e ∷ m) a = (a.0, above m a.1)
