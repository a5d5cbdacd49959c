-- ===== src/Node/Order.antt =====
-- `CMNCoin` as a map key: its comparison is a strict total order that agrees with its equality.
use uctool.Common.{
  ◌≡◌, ◌≢◌, ◌↔◌, ◌⊎◌, inl, inr, Bool-cases, true, false, not, bytes_eq_iff, bytes_eq_refl,
  bytes_lt_irrefl, bytes_lt_trans, bytes_lt_total, arith,
}
use uctool.Node.{MnCoin, coin_eq, coin_ne, coin_lt}

-- `operator==` holds of equal coins only, and `operator!=` is its negation.
pub coin_eq_iff :
    (a b : MnCoin) → ((coin_eq a b ≡ true) ↔ (a ≡ b)) × (coin_ne a b ≡ not (coin_eq a b))
unfolding coin_eq coin_ne
coin_eq_iff a b = (ground (arith, bytes_eq_iff a.coin_txid b.coin_txid), ground arith)

-- Two coins are equal or not, as the test tells.
pub coin_cases :
    (a b : MnCoin) → ((a ≡ b) × (coin_eq a b ≡ true)) ⊎ ((a ≢ b) × (coin_eq a b ≡ false))
coin_cases a b =
    let same = (coin_eq_iff a b).0 in
    elim (Bool-cases (coin_eq a b)) [
      | inl e ↦ inl (same.0 e, e)
      | inr e ↦ inr ((λ h. ground (arith, same.1 h)), e)
    ]

-- `operator<` of coins is a strict total order, as `std::map` wants it: no coin is below itself, it
-- is transitive, and of two coins that are not equal by `operator==` one is below the other.
pub coin_lt_order :
    (a b c : MnCoin)
    → (coin_lt a a ≡ false)
      × (coin_lt a b ≡ true → coin_lt b c ≡ true → coin_lt a c ≡ true)
      × ((coin_lt a b ≡ true) ⊎ ((coin_eq a b ≡ true) ⊎ (coin_lt b a ≡ true)))
unfolding coin_lt coin_eq
coin_lt_order a b c =
    let x = a.coin_txid in
    let y = b.coin_txid in
    let z = c.coin_txid in
    (
      ground (arith, bytes_eq_refl x),
      ground (
        arith,
        bytes_eq_iff x y,
        bytes_eq_iff y z,
        bytes_eq_iff x z,
        bytes_lt_trans x y z,
        bytes_lt_trans x y x,
        bytes_lt_irrefl x,
      ),
      ground (arith, bytes_eq_iff x y, bytes_eq_iff y x, bytes_lt_total x y),
    )
