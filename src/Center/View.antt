-- ===== src/Center/View.antt =====
-- The cache of the center as a map from coins to nodes, and what the operations make of it.
use uctool.Common.{
  ◌≡◌, refl, sym, ap, subst, ◌∙◌, inl, inr, false, List, [], ◌∷◌, Option, none, some, Bytes, ℕ, ℤ,
  if◌then◌else◌, Bool-cases, Option-cases,
}
use uctool.Chain.{ChainApi, MstNodeData}
use uctool.Node.{MNode, MnCoin, coin_eq, coin_of}
use uctool.Node.Order.{coin_cases}
use uctool.Mysql.{MysqlApi, Session, Answer, done, null_handle, out_of_fuel, pure, ◌>>=◌}
use uctool.Mysql.Post.{Post, Post-bind}
use uctool.Db.{select_sql, select_mnode}
use uctool.Db.Selects.{Asked, select_mnode-Asked}
use uctool.Center.{
  Center, NodeMap, find_node, put_node, insert_node, insert_nodes, merge_nodes, merged, data_of,
  is_fresh, stale_filters, missing_filters, refresh, look_up, select_mn_data,
}
use uctool.Center.Keyed.{find_node-put_node}
use uctool.Center.Cache.{select_mn_data-missing, select_mn_data-stale, select_mn_data-fresh}

abbrev pub or_else : Option MNode → Option MNode → Option MNode
or_else none b = b
or_else (some a) b = some a

or_else_assoc : (a b c : Option MNode) → or_else (or_else a b) c ≡ or_else a (or_else b c)
or_else_assoc none b c = refl
or_else_assoc (some a) b c = refl

or_else-none : (a : Option MNode) → or_else a none ≡ a
or_else-none none = refl
or_else-none (some a) = refl

-- This node, if it has the coin.
abbrev at_coin : MnCoin → MNode → Option MNode
at_coin coin mn = if coin_eq (coin_of mn) coin then some mn else none

-- The last and the first node of a list that has the coin.
abbrev pub last_with : MnCoin → List MNode → Option MNode
last_with coin [] = none
last_with coin (mn ∷ mns) = or_else (last_with coin mns) (at_coin coin mn)

abbrev pub first_with : MnCoin → List MNode → Option MNode
first_with coin [] = none
first_with coin (mn ∷ mns) = or_else (at_coin coin mn) (first_with coin mns)

put_node-view :
    (coin : MnCoin) (mn : MNode) (m : NodeMap)
    → find_node coin (put_node (coin_of mn) mn m) ≡ or_else (at_coin coin mn) (find_node coin m)
put_node-view coin mn m =
    find_node-put_node coin (coin_of mn) mn m ∙ elim (Bool-cases (coin_eq (coin_of mn) coin)) [
      | inl hit ↦ rw (hit) refl
      | inr miss ↦ rw (miss) refl
    ]

-- A selection puts the last node with a coin into the cache, whatever stood there.
pub merge_nodes-view :
    (coin : MnCoin) (mns : List MNode) (m : NodeMap)
    → find_node coin (merge_nodes mns m) ≡ or_else (last_with coin mns) (find_node coin m)
unfolding merge_nodes
merge_nodes-view coin [] m = refl
merge_nodes-view coin (mn ∷ mns) m =
    merge_nodes-view coin mns (put_node (coin_of mn) mn m)
    ∙ ap (or_else (last_with coin mns)) (put_node-view coin mn m)
    ∙ sym (or_else_assoc (last_with coin mns) (at_coin coin mn) (find_node coin m))

insert_node-view :
    (coin : MnCoin) (mn : MNode) (m : NodeMap)
    → find_node coin (insert_node (coin_of mn) mn m) ≡ or_else (find_node coin m) (at_coin coin mn)
unfolding find_node insert_node
insert_node-view coin mn [] = refl
insert_node-view coin mn ((c, old) ∷ rest) = elim (coin_cases c (coin_of mn)) [
  | inl (own, same) ↦ elim (Bool-cases (coin_eq c coin)) [
    | inl hit ↦ rw (same, hit) refl
    | inr miss ↦
        let off : coin_eq (coin_of mn) coin ≡ false = ap (λ k. coin_eq k coin) (sym own) ∙ miss in
        rw (same, miss, off) (sym (or_else-none (find_node coin rest)))
  ]
  | inr (_, other) ↦ elim (Bool-cases (coin_eq c coin)) [
    | inl hit ↦ rw (other, hit) refl
    | inr miss ↦ rw (other, miss) (insert_node-view coin mn rest)
  ]
]

-- The start of the cache keeps the first node with a coin.
pub insert_nodes-view :
    (coin : MnCoin) (mns : List MNode) (m : NodeMap)
    → find_node coin (insert_nodes mns m) ≡ or_else (find_node coin m) (first_with coin mns)
unfolding insert_nodes
insert_nodes-view coin [] m = sym (or_else-none (find_node coin m))
insert_nodes-view coin (mn ∷ mns) m =
    insert_nodes-view coin mns (insert_node (coin_of mn) mn m)
    ∙ ap (λ o. or_else o (first_with coin mns)) (insert_node-view coin mn m)
    ∙ or_else_assoc (find_node coin m) (at_coin coin mn) (first_with coin mns)

abbrev pub nodes_of : Option (List MNode) → List MNode
nodes_of none = []
nodes_of (some mns) = mns

merged-view :
    (coin : MnCoin) (found : Option (List MNode)) (m : NodeMap)
    → find_node coin (merged found m) ≡ or_else (last_with coin (nodes_of found)) (find_node coin m)
merged-view coin none m = refl
merged-view coin (some mns) m = merge_nodes-view coin mns m

-- By which filters a lookup selects: none where a fresh entry is cached.
abbrev pub wanted : Center → Bytes → ℕ → ℤ → Option (List Bytes)
wanted c txid voutid now =
    elim (find_node (record { coin_txid = txid; coin_voutid = voutid }) c.mnode_list) [
      | none ↦ some (missing_filters txid)
      | some mn ↦ if is_fresh c now mn then none else some (stale_filters c now)
    ]

module _ (chain : ChainApi) (mysql : MysqlApi) where
  Post-self :
      {A : Type 0} (P : A → Session mysql → Type 0) (r : Answer mysql A)
      → Post mysql P r
      → Post mysql (λ a t. r ≡ done a t) r
  Post-self P (done a t) h = refl
  Post-self P null_handle h = tt
  Post-self P out_of_fuel h = absurd h

  -- What was selected by these filters, and the session behind it.
  abbrev pub Selected :
      Center → Option (List Bytes) → Session mysql → Option (List MNode) → Session mysql → Type 0
  Selected c none s found t = (found ≡ none) × (t ≡ s)
  Selected c (some filters) s found t = select_mnode chain mysql c.db filters s ≡ done found t

  -- The selection lies over the cache before, and the result is what the cache holds then.
  abbrev pub Overlaid :
      Center
      → Option (List Bytes)
      → MnCoin
      → Session mysql
      → Option MstNodeData
      → Center
      → Session mysql
      → Type 0
  Overlaid c filters coin s r c' t =
      (found : Option (List MNode)) × Selected c filters s found t
      × ((k : MnCoin)
          → find_node k c'.mnode_list
            ≡ or_else (last_with k (nodes_of found)) (find_node k c.mnode_list))
      × (r ≡ data_of (find_node coin c'.mnode_list))

  refresh-Overlaid :
      (c : Center) (filters : List Bytes) (coin : MnCoin) (s : Session mysql)
      → Post mysql
          (λ r t. Overlaid c (some filters) coin s r.0 r.1 t)
          (◌>>=◌ mysql
            (refresh chain mysql c filters)
            (λ c'. pure mysql (look_up chain mysql coin c'))
            s)
  unfolding refresh
  refresh-Overlaid c filters coin s =
      Post-bind mysql
        (λ c' t. Overlaid c (some filters) coin s (data_of (find_node coin c'.mnode_list)) c' t) _
        (refresh chain mysql c filters s) _
        (Post-bind mysql (λ found t. select_mnode chain mysql c.db filters s ≡ done found t) _
          (select_mnode chain mysql c.db filters s) _
          (Post-self (λ _ t. Asked (select_sql c.db filters) s.queries t.queries)
            (select_mnode chain mysql c.db filters s)
            (select_mnode-Asked chain mysql c.db filters s))
          λ found t is. (found, is, (λ k. merged-view k found c.mnode_list), refl))
        λ c' t h. h

  -- The cache is a map from coins to nodes for `SelectMNData`. A lookup that comes to its end
  -- makes at most one selection, by the filters for a missing or for a stale entry, and none where
  -- the entry is fresh; it lays the nodes that were selected over the map, the last one with a
  -- coin on top, and gives what the map then holds for the coin that was asked for.
  pub select_mn_data-Overlaid :
      (c : Center) (txid : Bytes) (voutid : ℕ) (now : ℤ) (s : Session mysql)
      → Post mysql
          (λ r t.
            Overlaid c
              (wanted c txid voutid now)
              (record { coin_txid = txid; coin_voutid = voutid })
              s
              r.0
              r.1
              t)
          (select_mn_data chain mysql c txid voutid now s)
  select_mn_data-Overlaid c txid voutid now s =
      let coin : MnCoin = record { coin_txid = txid; coin_voutid = voutid } in
      let Goal : Option (List Bytes) → Option MstNodeData × Center → Session mysql → Type 0 =
        λ filters r t. Overlaid c filters coin s r.0 r.1 t in
      elim (Option-cases (find_node coin c.mnode_list)) [
        | inl e ↦
            let asks : wanted c txid voutid now ≡ some (missing_filters txid) =
              rw (e, wanted) refl in
            subst (λ f. Post mysql (Goal f) (select_mn_data chain mysql c txid voutid now s))
              (sym asks)
              (subst (Post mysql (Goal (some (missing_filters txid))))
                (sym (select_mn_data-missing chain mysql c txid voutid now s e))
                (refresh-Overlaid c (missing_filters txid) coin s))
        | inr (mn, e) ↦ elim (Bool-cases (is_fresh c now mn)) [
          | inl new ↦
              let asks : wanted c txid voutid now ≡ none = rw (e, new, wanted) refl in
              subst (λ f. Post mysql (Goal f) (select_mn_data chain mysql c txid voutid now s))
                (sym asks)
                (subst (Post mysql (Goal none))
                  (sym (select_mn_data-fresh chain mysql c txid voutid now s mn e new))
                  (none, (refl, refl), (λ k. refl), sym (ap data_of e)))
          | inr old ↦
              let asks : wanted c txid voutid now ≡ some (stale_filters c now) =
                rw (e, old, wanted) refl in
              subst (λ f. Post mysql (Goal f) (select_mn_data chain mysql c txid voutid now s))
                (sym asks)
                (subst (Post mysql (Goal (some (stale_filters c now))))
                  (sym (select_mn_data-stale chain mysql c txid voutid now s mn e old))
                  (refresh-Overlaid c (stale_filters c now) coin s))
        ]
      ]
