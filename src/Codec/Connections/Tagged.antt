-- ===== src/Codec/Connections/Tagged.antt =====
-- Lists whose items are tagged with a connection, and folds over them.
use uctool.Common.{
  ℕ, ◌≡◌, refl, sym, ap, ◌∙◌, List, [], ◌∷◌, ◌++◌, map, foldl, ◌==◌, if◌then◌else◌, arith,
  append-nil, append_assoc, true, false, Bool-cases, inl, inr,
}

-- What belongs to connection `k`, in order.
unfoldable pub from {ℓ} : {A : Type ℓ} → ℕ → List (ℕ × A) → List A
from k [] = []
from k ((j, x) ∷ rest) = let own = from k rest in if j == k then x ∷ own else own

abbrev pub snoc {ℓ} : {A : Type ℓ} → List A → A → List A
snoc xs x = xs ++ x ∷ []

pub from-append {ℓ} :
    {A : Type ℓ} (k : ℕ) (xs ys : List (ℕ × A)) → from k (xs ++ ys) ≡ from k xs ++ from k ys
unfolding from
from-append k [] ys = refl
from-append k ((j, x) ∷ xs) ys =
    let ih = from-append k xs ys in
    elim (Bool-cases (j == k)) [ inl e ↦ rw (e, ih) refl | inr e ↦ rw (e, ih) refl ]

pub from-own {ℓ} : {A : Type ℓ} (k : ℕ) (xs : List A) → from k (map (λ x. (k, x)) xs) ≡ xs
unfolding from
from-own k [] = refl
from-own k (x ∷ xs) =
    let same : (k == k) ≡ true = ground arith in rw (same) (ap (λ l. x ∷ l) (from-own k xs))

pub from-other {ℓ} :
    {A : Type ℓ} (j k : ℕ) (xs : List A) → (j == k) ≡ false → from k (map (λ x. (j, x)) xs) ≡ []
unfolding from
from-other j k [] e = refl
from-other j k (x ∷ xs) e = rw (e) (from-other j k xs e)

pub foldl-tagged {ℓ κ} :
    {A : Type ℓ} {S : Type κ} (f : S → ℕ × A → S) (k : ℕ) (s : S) (xs : List A)
    → foldl f s (map (λ x. (k, x)) xs) ≡ foldl (λ u x. f u (k, x)) s xs
foldl-tagged f k s [] = refl
foldl-tagged f k s (x ∷ xs) = foldl-tagged f k (f s (k, x)) xs

pub foldl-snoc {ℓ} : {A : Type ℓ} (xs ys : List A) → foldl snoc xs ys ≡ xs ++ ys
foldl-snoc xs [] = sym (append-nil xs)
foldl-snoc xs (y ∷ ys) = foldl-snoc (xs ++ y ∷ []) ys ∙ append_assoc xs (y ∷ []) ys
