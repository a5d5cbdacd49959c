-- ===== src/Center/Start.antt =====
-- The cache that `InitUCenterKey` fills.
use uctool.Common.{◌≡◌, refl, inl, inr, List, [], ◌∷◌, Option, none, some, codes, pos, Bool-cases}
use uctool.Chain.{ChainApi}
use uctool.Node.{MNode, MnCoin, coin_eq, coin_of}
use uctool.Numbers.{show_int}
use uctool.Mysql.{MysqlApi, Session}
use uctool.Mysql.Post.{Post, Post-bind}
use uctool.Db.{select_columns_sql}
use uctool.Db.Selects.{Asked, select_mnode_columns-Asked}
use uctool.Center.{Center, NodeMap, insert_node, insert_nodes, init_cache}
use uctool.Center.Keyed.{IsKeyed}

insert_node-IsKeyed :
    (key : MnCoin) (mn : MNode) (m : NodeMap)
    → coin_of mn ≡ key
    → IsKeyed m
    → IsKeyed (insert_node key mn m)
unfolding insert_node
insert_node-IsKeyed key mn [] e h = (e, tt)
insert_node-IsKeyed key mn ((c, old) ∷ rest) e h = elim (Bool-cases (coin_eq c key)) [
  | inl same ↦ rw same h
  | inr other ↦ rw other (h.0, insert_node-IsKeyed key mn rest e h.1)
]

insert_nodes-IsKeyed : (mns : List MNode) (m : NodeMap) → IsKeyed m → IsKeyed (insert_nodes mns m)
unfolding insert_nodes
insert_nodes-IsKeyed [] m h = h
insert_nodes-IsKeyed (mn ∷ mns) m h =
    insert_nodes-IsKeyed mns (insert_node (coin_of mn) mn m)
      (insert_node-IsKeyed (coin_of mn) mn m refl h)

module _ (chain : ChainApi) (mysql : MysqlApi) where
  -- The first cache is keyed by the nodes' coins, also where the database could not be read, and
  -- the keys stay.
  pub init_cache-IsKeyed :
      (c : Center) (s : Session mysql)
      → Post mysql
          (λ c' t. IsKeyed c'.mnode_list × (c'.ucenter_keys ≡ c.ucenter_keys))
          (init_cache chain mysql c s)
  unfolding init_cache
  init_cache-IsKeyed c s =
      Post-bind mysql
        (λ _ t.
          Asked (select_columns_sql c.db ((codes "status", show_int (pos 1)) ∷ [])) s.queries
            t.queries)
        _ _ _
        (select_mnode_columns-Asked chain mysql c.db ((codes "status", show_int (pos 1)) ∷ []) s)
        λ found t asked. filled found
    where
      filled :
          (found : Option (List MNode))
          → IsKeyed (elim found [ none ↦ [] | some mns ↦ insert_nodes mns [] ])
            × (c.ucenter_keys ≡ c.ucenter_keys)
      filled none = (tt, refl)
      filled (some mns) = (insert_nodes-IsKeyed mns [] tt, refl)
