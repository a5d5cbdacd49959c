-- ===== src/StdMap/Laws.antt =====
-- The laws of the map: what is found behind `insert` and `assign`, and that both keep the order.
use uctool.Common.{
  ◌≡◌, refl, sym, subst, inl, inr, true, false, [], ◌∷◌, Option, none, some, Bytes, bytes_eq,
  bytes_eq_iff, bytes_eq_refl, bytes_lt, bytes_lt_irrefl, bytes_lt_trans, bytes_lt_total, All,
  arith,
}
use uctool.StdMap.{StdMap, find, insert, assign}

bytes_lt-differs : (j k : Bytes) → bytes_lt j k ≡ true → bytes_eq j k ≡ false
bytes_lt-differs j k h = ground (arith, bytes_eq_iff j k, bytes_lt_irrefl j)

bytes_lt-differs_back : (j k : Bytes) → bytes_lt j k ≡ true → bytes_eq k j ≡ false
bytes_lt-differs_back j k h = ground (arith, bytes_eq_iff k j, bytes_lt_irrefl j)

-- How two keys compare: first, equal or second.
data Compared (k j : Bytes) : Type 0 where
  below : bytes_lt k j ≡ true → Compared k j
  above : bytes_lt k j ≡ false → bytes_lt j k ≡ true → Compared k j
  same : k ≡ j → bytes_lt k j ≡ false → bytes_lt j k ≡ false → Compared k j

compare_keys : (k j : Bytes) → Compared k j
compare_keys k j = elim (bytes_lt_total k j) [
  | inl h ↦ below h
  | inr (inl e) ↦
      let is : k ≡ j = (bytes_eq_iff k j).0 e in
      same is (subst (λ x. bytes_lt k x ≡ false) is (bytes_lt_irrefl k))
        (subst (λ x. bytes_lt x k ≡ false) is (bytes_lt_irrefl k))
  | inr (inr h) ↦ above (ground (arith, bytes_lt_trans k j k, bytes_lt_irrefl k)) h
]

module _ {ℓ} {A : Type ℓ} where
  -- Every key of the map is above `k`.
  abbrev pub Above : Bytes → StdMap A → Type 0
  Above k m = All (λ e. bytes_lt k e.0 ≡ true) m

  abbrev pub IsSorted : StdMap A → Type 0
  IsSorted [] = Unit
  IsSorted ((k, a) ∷ rest) = Above k rest × IsSorted rest

  Above-find : (k : Bytes) (m : StdMap A) → Above k m → find k m ≡ none
  unfolding find
  Above-find k [] h = refl
  Above-find k ((j, a) ∷ rest) h = rw (bytes_lt-differs_back k j h.0) (Above-find k rest h.1)

  Above-below : (j k : Bytes) (m : StdMap A) → bytes_lt j k ≡ true → Above k m → Above j m
  Above-below j k [] h a = tt
  Above-below j k ((i, x) ∷ rest) h a = (bytes_lt_trans j k i h a.0, Above-below j k rest h a.1)

  abbrev pub or_else : Option A → A → A
  or_else none a = a
  or_else (some b) a = b

  Above-insert :
      (i k : Bytes) (a : A) (m : StdMap A)
      → bytes_lt i k ≡ true
      → Above i m
      → Above i (insert k a m) × Above i (assign k a m)
  unfolding insert assign
  Above-insert i k a [] h up = ((h, tt), (h, tt))
  Above-insert i k a ((j, b) ∷ rest) h up =
      let (x, y) = Above-insert i k a rest h up.1 in
      elim (compare_keys k j) [
        | below e ↦ rw (e) ((h, up), (h, up))
        | above e d ↦ rw (e, d) ((up.0, x), (up.0, y))
        | same is e d ↦ rw (e, d) (up, (h, up.1))
      ]

  pub insert-IsSorted :
      (k : Bytes) (a : A) (m : StdMap A)
      → IsSorted m
      → IsSorted (insert k a m) × IsSorted (assign k a m)
  unfolding insert assign
  insert-IsSorted k a [] h = ((tt, tt), (tt, tt))
  insert-IsSorted k a ((j, b) ∷ rest) (up, h) =
      let (x, y) = insert-IsSorted k a rest h in
      elim (compare_keys k j) [
        | below e ↦
            let low = Above-below k j rest e up in rw (e) (((e, low), (up, h)), ((e, low), (up, h)))
        | above e d ↦ let (p, q) = Above-insert j k a rest d up in rw (e, d) ((p, x), (q, y))
        | same is e d ↦ rw (e, d) ((up, h), (subst (λ z. Above z rest) (sym is) up, h))
      ]

  -- What is found under the key itself.
  pub find-insert :
      (k : Bytes) (a : A) (m : StdMap A)
      → IsSorted m
      → (find k (insert k a m) ≡ some (or_else (find k m) a)) × (find k (assign k a m) ≡ some a)
  unfolding insert assign find
  find-insert k a [] h = rw (bytes_eq_refl k) (refl, refl)
  find-insert k a ((j, b) ∷ rest) (up, h) =
      let (x, y) = find-insert k a rest h in
      elim (compare_keys k j) [
        | below e ↦
            let out : find k rest ≡ none = Above-find k rest (Above-below k j rest e up) in
            rw (e, bytes_eq_refl k, bytes_lt-differs_back k j e, out) (refl, refl)
        | above e d ↦ rw (e, d, bytes_lt-differs j k d) (x, y)
        | same is e d ↦
            let own : bytes_eq j k ≡ true = (bytes_eq_iff j k).1 (sym is) in
            rw (e, d, own, bytes_eq_refl k) (refl, refl)
      ]

  -- What is found under any other key.
  pub find-insert_other :
      (i k : Bytes) (a : A) (m : StdMap A)
      → bytes_eq k i ≡ false
      → (find i (insert k a m) ≡ find i m) × (find i (assign k a m) ≡ find i m)
  unfolding insert assign find
  find-insert_other i k a [] other = rw (other) (refl, refl)
  find-insert_other i k a ((j, b) ∷ rest) other =
      let (x, y) = find-insert_other i k a rest other in
      elim (compare_keys k j) [
        | below e ↦ rw (e, other) (refl, refl)
        | above e d ↦ rw (e, d, x, y) (refl, refl)
        | same is e d ↦
            let not_j : bytes_eq j i ≡ false = subst (λ z. bytes_eq z i ≡ false) is other in
            rw (e, d, other, not_j) (refl, refl)
      ]
