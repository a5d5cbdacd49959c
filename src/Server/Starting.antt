-- ===== src/Server/Starting.antt =====
-- The start of the center on a database that is up, followed on the table of masternodes.
use mathlib.Core.List.{Memᴰ}
use mathlib.Core.List.Memᴰ.{head, tail}
use uctool.Common.{
  ℕ, ◌≡◌, refl, sym, ap, ◌∙◌, inl, inr, Bool, true, List, [], ◌∷◌, some, Bytes, codes, ℤ, pos,
  eqb_ℤ,
}
use uctool.Chain.{ChainApi}
use uctool.KeyRing.{init_keys}
use uctool.Node.{MNode, MnCoin, coin_of}
use uctool.Node.Order.{coin_cases, coin_eq_iff}
use uctool.Node.Table.{Table, IsOnly, IsSelection, selection-IsOnly}
use uctool.Numbers.{show_int}
use uctool.Mysql.{MysqlApi, Session}
use uctool.Mysql.Live.{IsLive, Returns, Returns-bind}
use uctool.Db.{DbConfig, select_columns_sql, select_mnode_columns}
use uctool.Db.Live.{Gives, select_mnode_columns-live}
use uctool.Center.{Center, find_node, insert_nodes, init_cache}
use uctool.Center.View.{first_with, insert_nodes-view}
use uctool.Server.{init_ucenter_key}
use uctool.Server.Main.{serves, threads_of, center_main}

abbrev pub is_bound : MNode → Bool
is_bound mn = eqb_ℤ mn.status (pos 1)

-- The columns by which the first cache is selected.
abbrev pub bound_columns : List (Bytes × Bytes)
bound_columns = (codes "status", show_int (pos 1)) ∷ []

first_with-member :
    (mns : List MNode) (mn : MNode)
    → IsOnly mn mns
    → Memᴰ mn mns
    → first_with (coin_of mn) mns ≡ some mn
first_with-member [] mn only h = elim h [ ]
first_with-member (x ∷ mns) mn only (head here) =
    rw ((coin_eq_iff (coin_of x) (coin_of mn)).0.1 (ap coin_of (sym here))) (ap some (sym here))
first_with-member (x ∷ mns) mn only (tail more) = elim (coin_cases (coin_of x) (coin_of mn)) [
  | inl (own, hit) ↦ rw (hit) (ap some (only.0 own))
  | inr (_, miss) ↦ rw (miss) (first_with-member mns mn only.1 more)
]

insert_nodes-first :
    (coin : MnCoin) (mns : List MNode) → find_node coin (insert_nodes mns []) ≡ first_with coin mns
unfolding find_node
insert_nodes-first coin mns = insert_nodes-view coin mns []

module _ (chain : ChainApi) (mysql : MysqlApi) (table : mysql.World → Table)
    (live : IsLive mysql table) where
  init_cache-live :
      (c : Center) (mn : MNode) (s : Session mysql)
      → Gives chain mysql table live
          (select_columns_sql c.db bound_columns)
          (table s.world)
          (IsSelection is_bound (table s.world))
      → table s.world (coin_of mn) ≡ some mn
      → is_bound mn ≡ true
      → Returns mysql
          (λ c' _.
            (find_node (coin_of mn) c'.mnode_list ≡ some mn) × (c'.ucenter_keys ≡ c.ucenter_keys))
          (init_cache chain mysql c s)
  unfolding init_cache
  init_cache-live c mn s gives at bound =
      Returns-bind mysql
        (λ found t.
          ((mns : List MNode) × (found ≡ some mns) × IsSelection is_bound (table s.world) mns)
          × (table t.world ≡ table s.world))
        _ (select_mnode_columns chain mysql c.db bound_columns s) _
        (select_mnode_columns-live chain mysql table live c.db bound_columns
          (IsSelection is_bound (table s.world)) s gives)
        λ found t selected.
          let ((mns, some_found, (sound, complete)), _) = selected in
          let own =
            first_with-member mns mn (selection-IsOnly is_bound (table s.world) mn mns at sound)
              (complete mn at bound) in
          rw (some_found) (insert_nodes-first (coin_of mn) mns ∙ own, refl)

  -- On a server that is up, and that answers the selection of the bound nodes as documented, the
  -- center whose keys load comes to serve, with these keys and with every bound node of the table
  -- in its cache, each under its own coin.
  pub center_main-Starts :
      (arg : ℕ → Bytes) (fuel : ℕ) (db : DbConfig) (thread : ℤ) (keys : List (ℕ × Bytes))
      (mn : MNode) (s : Session mysql)
      → init_keys chain arg fuel ≡ some keys
      → Gives chain mysql table live
          (select_columns_sql db bound_columns)
          (table s.world)
          (IsSelection is_bound (table s.world))
      → table s.world (coin_of mn) ≡ some mn
      → is_bound mn ≡ true
      → Returns mysql
          (λ r _.
            (c : Center) × (r ≡ serves (threads_of thread) c)
            × (c.ucenter_keys ≡ keys)
            × (find_node (coin_of mn) c.mnode_list ≡ some mn))
          (center_main chain mysql arg fuel db thread s)
  unfolding center_main init_ucenter_key
  center_main-Starts arg fuel db thread keys mn s loaded gives at bound =
      let fresh : Center = record { ucenter_keys = keys; db = db; mnode_list = [] } in
      rw (loaded, init_ucenter_key)
        (Returns-bind mysql
          (λ r _.
            (c : Center) × (r ≡ some c)
            × (c.ucenter_keys ≡ keys)
            × (find_node (coin_of mn) c.mnode_list ≡ some mn))
          _ _ _
          (Returns-bind mysql
            (λ c _. (find_node (coin_of mn) c.mnode_list ≡ some mn) × (c.ucenter_keys ≡ keys)) _ _ _
            (init_cache-live fresh mn s gives at bound) λ c t h. (c, refl, h.1, h.0))
          λ r t found. let (c, is, same, cached) = found in rw (is) (c, refl, same, cached))
