-- ===== src/Center/Serving.antt =====
-- A lookup of the center on a database that is up, followed on the table of masternodes.
use mathlib.Core.List.{Memᴰ}
use mathlib.Core.List.Memᴰ.{head, tail}
use uctool.Common.{
  ◌≡◌, sym, ap, subst, ◌∙◌, inl, inr, Bool, true, false, ◌&&◌, List, [], ◌∷◌, some, Bytes, bytes_eq,
  bytes_eq_refl, ℤ, pos, ◌+ℤ◌, ltb_ℤ, eqb_ℤ, arith, Option-cases,
}
use uctool.Chain.{ChainApi}
use uctool.Node.{MNode, coin_of}
use uctool.Node.Order.{coin_cases, coin_eq_iff}
use uctool.Node.Table.{Table, IsOnly, IsSelection, selection-IsOnly}
use uctool.Mysql.{MysqlApi, Session, pure, ◌>>=◌}
use uctool.Mysql.Live.{IsLive, Returns, Returns-bind}
use uctool.Db.{select_sql, select_mnode}
use uctool.Db.Live.{Gives, select_mnode-live}
use uctool.Center.{
  Center, NodeMap, find_node, put_node, merge_nodes, merged, data_of, is_fresh, stale_filters,
  missing_filters, refresh, look_up, select_mn_data,
}
use uctool.Center.Keyed.{find_node-put_node}
use uctool.Center.Cache.{select_mn_data-missing, select_mn_data-stale}

-- The filters of a lookup, as tests of a node.
abbrev pub is_long : Center → ℤ → MNode → Bool
is_long c now mn = eqb_ℤ mn.status (pos 1) && ltb_ℤ (now +ℤ c.db.need_update_period) mn.licperiod

abbrev pub has_txid : Bytes → MNode → Bool
has_txid txid mn = eqb_ℤ mn.status (pos 1) && bytes_eq mn.txid txid

put_node-hit :
    (x mn : MNode) (m : NodeMap)
    → x ≡ mn
    → find_node (coin_of mn) (put_node (coin_of x) x m) ≡ some mn
put_node-hit x mn m same =
    find_node-put_node (coin_of mn) (coin_of x) x m
    ∙ rw ((coin_eq_iff (coin_of x) (coin_of mn)).0.1 (ap coin_of same)) (ap some same)

merge_nodes-kept :
    (mns : List MNode) (m : NodeMap) (mn : MNode)
    → IsOnly mn mns
    → find_node (coin_of mn) m ≡ some mn
    → find_node (coin_of mn) (merge_nodes mns m) ≡ some mn
unfolding merge_nodes
merge_nodes-kept [] m mn only h = h
merge_nodes-kept (x ∷ mns) m mn only h =
    merge_nodes-kept mns (put_node (coin_of x) x m) mn only.1
      (elim (coin_cases (coin_of x) (coin_of mn)) [
        | inl (own, _) ↦ put_node-hit x mn m (only.0 own)
        | inr (_, other) ↦ find_node-put_node (coin_of mn) (coin_of x) x m ∙ rw (other) h
      ])

merge_nodes-member :
    (mns : List MNode) (m : NodeMap) (mn : MNode)
    → IsOnly mn mns
    → Memᴰ mn mns
    → find_node (coin_of mn) (merge_nodes mns m) ≡ some mn
unfolding merge_nodes
merge_nodes-member [] m mn only h = elim h [ ]
merge_nodes-member (x ∷ mns) m mn only (head here) =
    merge_nodes-kept mns (put_node (coin_of x) x m) mn only.1 (put_node-hit x mn m (sym here))
merge_nodes-member (x ∷ mns) m mn only (tail more) =
    merge_nodes-member mns (put_node (coin_of x) x m) mn only.1 more

module _ (chain : ChainApi) (mysql : MysqlApi) (table : mysql.World → Table)
    (live : IsLive mysql table) where
  refresh-live :
      (c : Center) (filters : List Bytes) (test : MNode → Bool) (mn : MNode) (s : Session mysql)
      → Gives chain mysql table live
          (select_sql c.db filters)
          (table s.world)
          (IsSelection test (table s.world))
      → table s.world (coin_of mn) ≡ some mn
      → test mn ≡ true
      → Returns mysql
          (λ r _. r.0 ≡ some mn.node_data)
          (◌>>=◌ mysql
            (refresh chain mysql c filters)
            (λ c'. pure mysql (look_up chain mysql (coin_of mn) c'))
            s)
  unfolding refresh
  refresh-live c filters test mn s gives at passes =
      Returns-bind mysql (λ c' _. find_node (coin_of mn) c'.mnode_list ≡ some mn) _
        (refresh chain mysql c filters s) _
        (Returns-bind mysql
          (λ found t.
            ((mns : List MNode) × (found ≡ some mns) × IsSelection test (table s.world) mns)
            × (table t.world ≡ table s.world))
          _ (select_mnode chain mysql c.db filters s) _
          (select_mnode-live chain mysql table live c.db filters (IsSelection test (table s.world))
            s gives)
          λ found t selected.
            let ((mns, some_found, (sound, complete)), _) = selected in
            ap (λ f. find_node (coin_of mn) (merged f c.mnode_list)) some_found
            ∙ merge_nodes-member mns c.mnode_list mn
                (selection-IsOnly test (table s.world) mn mns at sound) (complete mn at passes))
        λ c' t e. ap data_of e

  -- Where the server is up and carries out the two selections of a lookup as documented, a node of
  -- the table that is bound and whose licence lasts beyond the update period is what
  -- `SelectMNData` gives for its coin, if the cache has none for it or one that is no longer fresh.
  pub select_mn_data-current :
      (c : Center) (mn : MNode) (now : ℤ) (s : Session mysql)
      → Gives chain mysql table live
          (select_sql c.db (stale_filters c now))
          (table s.world)
          (IsSelection (is_long c now) (table s.world))
      → Gives chain mysql table live
          (select_sql c.db (missing_filters mn.txid))
          (table s.world)
          (IsSelection (has_txid mn.txid) (table s.world))
      → table s.world (coin_of mn) ≡ some mn
      → is_long c now mn ≡ true
      → ((old : MNode)
          → find_node (coin_of mn) c.mnode_list ≡ some old
          → is_fresh c now old ≡ false)
      → Returns mysql
          (λ r _. r.0 ≡ some mn.node_data)
          (select_mn_data chain mysql c mn.txid mn.voutid now s)
  select_mn_data-current c mn now s stale missing at long old =
      elim (Option-cases (find_node (coin_of mn) c.mnode_list)) [
        | inl e ↦
            subst (Returns mysql (λ r _. r.0 ≡ some mn.node_data))
              (sym (select_mn_data-missing chain mysql c mn.txid mn.voutid now s e))
              (refresh-live c (missing_filters mn.txid) (has_txid mn.txid) mn s missing at
                (ground (arith, long, bytes_eq_refl mn.txid)))
        | inr (cached, e) ↦
            subst (Returns mysql (λ r _. r.0 ≡ some mn.node_data))
              (sym (
                select_mn_data-stale chain mysql c mn.txid mn.voutid now s cached e (old cached e)))
              (refresh-live c (stale_filters c now) (is_long c now) mn s stale at long)
      ]
