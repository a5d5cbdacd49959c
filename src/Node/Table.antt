-- ===== src/Node/Table.antt =====
-- The table of masternodes as an abstract view of the database: each coin with its node. What a
-- selection by a test may give.
use uctool.Common.{
  ◌≡◌, ◌≢◌, sym, ap, ◌∙◌, Bool, true, false, List, [], ◌∷◌, Option, some, All, arith,
}
use mathlib.Core.List.{Memᴰ}
use uctool.Node.{MNode, MnCoin, coin_of}

abbrev pub Table : Type 0
Table = MnCoin → Option MNode

-- Each node of the list that has this coin is this one.
abbrev pub IsOnly : MNode → List MNode → Type 0
IsOnly mn mns = All (λ (x : MNode). coin_of x ≡ coin_of mn → x ≡ mn) mns

-- A list that a selection may give: nodes of the table that pass its test, and all of them.
abbrev pub IsSelection : (MNode → Bool) → Table → List MNode → Type 0
IsSelection test table mns =
    All (λ (x : MNode). (table (coin_of x) ≡ some x) × (test x ≡ true)) mns
    × ((x : MNode) → table (coin_of x) ≡ some x → test x ≡ true → Memᴰ x mns)

pub selection-IsOnly :
    (test : MNode → Bool) (table : Table) (mn : MNode) (mns : List MNode)
    → table (coin_of mn) ≡ some mn
    → All (λ (x : MNode). (table (coin_of x) ≡ some x) × (test x ≡ true)) mns
    → IsOnly mn mns
selection-IsOnly test table mn [] at sound = tt
selection-IsOnly test table mn (x ∷ mns) at sound = (
  λ own. ground (arith, sym (sound.0.0) ∙ ap table own ∙ at),
  selection-IsOnly test table mn mns at sound.1,
)

pub selection-others :
    (test : MNode → Bool) (table : Table) (mn : MNode) (mns : List MNode)
    → table (coin_of mn) ≡ some mn
    → test mn ≡ false
    → All (λ (x : MNode). (table (coin_of x) ≡ some x) × (test x ≡ true)) mns
    → All (λ (x : MNode). coin_of x ≢ coin_of mn) mns
selection-others test table mn [] at left sound = tt
selection-others test table mn (x ∷ mns) at left sound = (
  λ own.
      let here : x ≡ mn = ground (arith, sym (sound.0.0) ∙ ap table own ∙ at) in
      let both : true ≡ false = sym (sound.0.1) ∙ ap test here ∙ left in cc both,
  selection-others test table mn mns at left sound.1,
)

-- The table keeps each node under its own coin.
abbrev pub IsTable : Table → Type 0
IsTable table = (coin : MnCoin) (mn : MNode) → table coin ≡ some mn → coin_of mn ≡ coin
