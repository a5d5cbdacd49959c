-- ===== src/Center/Keyed.antt =====
-- The map of the center's cache, each entry under the coin of its node.
use uctool.Common.{
  ◌≡◌, ◌≢◌, refl, sym, ap, ◌∙◌, inl, inr, List, [], ◌∷◌, Option, none, some, All, if◌then◌else◌,
  arith, Bool-cases,
}
use uctool.Node.{MNode, MnCoin, coin_eq, coin_of}
use uctool.Node.Order.{coin_eq_iff}
use uctool.Center.{NodeMap, find_node, put_node, merge_nodes, merged}

-- Each entry stands under the coin of its own node.
abbrev pub IsKeyed : NodeMap → Type 0
IsKeyed m = All (λ (e : MnCoin × MNode). coin_of e.1 ≡ e.0) m

pub find_node-put_node :
    (coin key : MnCoin) (mn : MNode) (m : NodeMap)
    → find_node coin (put_node key mn m) ≡ (if coin_eq key coin then some mn else find_node coin m)
unfolding find_node put_node
find_node-put_node coin key mn [] = refl
find_node-put_node coin key mn ((c, old) ∷ rest) = ground (
  arith,
  find_node-put_node coin key mn rest,
  (coin_eq_iff c key).0,
  (coin_eq_iff c coin).0,
  (coin_eq_iff key coin).0,
)

pub put_node-IsKeyed :
    (key : MnCoin) (mn : MNode) (m : NodeMap)
    → coin_of mn ≡ key
    → IsKeyed m
    → IsKeyed (put_node key mn m)
unfolding put_node
put_node-IsKeyed key mn [] e h = (e, tt)
put_node-IsKeyed key mn ((c, old) ∷ rest) e h = elim (Bool-cases (coin_eq c key)) [
  | inl same ↦ rw same (e ∙ sym ((coin_eq_iff c key).0.0 same), h.1)
  | inr other ↦ rw other (h.0, put_node-IsKeyed key mn rest e h.1)
]

pub merge_nodes-IsKeyed : (mns : List MNode) (m : NodeMap) → IsKeyed m → IsKeyed (merge_nodes mns m)
unfolding merge_nodes
merge_nodes-IsKeyed [] m h = h
merge_nodes-IsKeyed (mn ∷ mns) m h =
    merge_nodes-IsKeyed mns (put_node (coin_of mn) mn m) (put_node-IsKeyed (coin_of mn) mn m refl h)

pub find_node-IsKeyed :
    (coin : MnCoin) (m : NodeMap) (mn : MNode)
    → IsKeyed m
    → find_node coin m ≡ some mn
    → coin_of mn ≡ coin
unfolding find_node
find_node-IsKeyed coin [] mn h e = absurd (ground arith)
find_node-IsKeyed coin ((c, old) ∷ rest) mn h e = elim (Bool-cases (coin_eq c coin)) [
  | inl same ↦
      let q : old ≡ mn = ground (arith, same) in
      sym (ap coin_of q) ∙ h.0 ∙ (coin_eq_iff c coin).0.0 same
  | inr other ↦ find_node-IsKeyed coin rest mn h.1 (sym (rw other) ∙ e)
]

-- Nothing that a selection brings takes an entry out of the cache.
pub merge_nodes-keeps :
    (coin : MnCoin) (mns : List MNode) (m : NodeMap)
    → find_node coin m ≢ none
    → find_node coin (merge_nodes mns m) ≢ none
unfolding merge_nodes
merge_nodes-keeps coin [] m h = h
merge_nodes-keeps coin (mn ∷ mns) m h =
    merge_nodes-keeps coin mns (put_node (coin_of mn) mn m)
      (ground (arith, find_node-put_node coin (coin_of mn) mn m))

pub find_node-merged :
    (coin : MnCoin) (found : Option (List MNode)) (m : NodeMap)
    → IsKeyed m
    → IsKeyed (merged found m) × (find_node coin m ≢ none → find_node coin (merged found m) ≢ none)
find_node-merged coin none m h = (h, λ k. k)
find_node-merged coin (some mns) m h = (merge_nodes-IsKeyed mns m h, merge_nodes-keeps coin mns m)
