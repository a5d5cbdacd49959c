-- ===== src/Center.antt =====
-- ulordcenter/ulordcenter.cc: the server that answers licence requests from a cache of masternodes
-- and its keys. The state is the map of keys, the cache and the database behind it; the boost and
-- stream serialisations are the chain's, a parameter. Logging is left out.
pub mod Keyed
pub mod Cache
pub mod Requests
pub mod Start
pub mod Covered
pub mod Replies
pub mod Archive
pub mod Idle
pub mod Events
pub mod Serving
pub mod View
use uctool.Common.{
  ℕ, Bool, true, false, List, [], ◌∷◌, ◌++◌, Option, none, some, Bytes, codes, if◌then◌else◌, ℤ,
  pos, ◌+ℤ◌, leb_ℤ, c_string,
}
use uctool.Chain.{ChainApi, MstNodeData}
use uctool.Node.{MNode, MnCoin, coin_eq, coin_of}
use uctool.Numbers.{show_int}
use uctool.Mysql.{MysqlApi, M, ◌>>=◌, pure}
use uctool.Db.{DbConfig, select_mnode, select_mnode_columns}

abbrev pub NodeMap : Type 0
NodeMap = List (MnCoin × MNode)

pub record Center : Type 0 where
  pub ucenter_keys : List (ℕ × Bytes)
  pub db : DbConfig
  pub mnode_list : NodeMap

-- `mapMNodeList_`, a `std::map` whose order the program does not use.
unfoldable pub find_node : MnCoin → NodeMap → Option MNode
find_node coin [] = none
find_node coin ((c, mn) ∷ rest) = if coin_eq c coin then some mn else find_node coin rest

-- `map[tx] = mn` where the coin is there, `insert` where it is not.
unfoldable pub put_node : MnCoin → MNode → NodeMap → NodeMap
put_node coin mn [] = (coin, mn) ∷ []
put_node coin mn ((c, old) ∷ rest) =
    if coin_eq c coin then (c, mn) ∷ rest else (c, old) ∷ put_node coin mn rest

-- `insert` alone leaves an entry that is there.
unfoldable pub insert_node : MnCoin → MNode → NodeMap → NodeMap
insert_node coin mn [] = (coin, mn) ∷ []
insert_node coin mn ((c, old) ∷ rest) =
    if coin_eq c coin then (c, old) ∷ rest else (c, old) ∷ insert_node coin mn rest

unfoldable pub merge_nodes : List MNode → NodeMap → NodeMap
merge_nodes [] m = m
merge_nodes (mn ∷ mns) m = merge_nodes mns (put_node (coin_of mn) mn m)

unfoldable pub insert_nodes : List MNode → NodeMap → NodeMap
insert_nodes [] m = m
insert_nodes (mn ∷ mns) m = insert_nodes mns (insert_node (coin_of mn) mn m)

-- What a selection that may have failed adds to the cache.
abbrev pub merged : Option (List MNode) → NodeMap → NodeMap
merged none m = m
merged (some mns) m = merge_nodes mns m

abbrev pub data_of : Option MNode → Option MstNodeData
data_of none = none
data_of (some mn) = some mn.node_data

unfoldable pub is_fresh : Center → ℤ → MNode → Bool
is_fresh c now mn = leb_ℤ (now +ℤ c.db.need_update_period) mn.licperiod

-- The filters by which a stale and a missing entry are looked for; `Format` takes the txid as a C
-- string.
unfoldable pub stale_filters : Center → ℤ → List Bytes
stale_filters c now =
    codes "status=1" ∷ (codes "validdate>" ++ show_int (now +ℤ c.db.need_update_period)) ∷ []

unfoldable pub missing_filters : Bytes → List Bytes
missing_filters txid = codes "status=1" ∷ (codes "trade_txid='" ++ c_string txid ++ codes "'") ∷ []

module _ (chain : ChainApi) (mysql : MysqlApi) where
  -- The second half of `InitUCenterKey`: the cache from all bound nodes.
  unfoldable pub init_cache : Center → M mysql Center
  init_cache c =
      ◌>>=◌ mysql (select_mnode_columns chain mysql c.db ((codes "status", show_int (pos 1)) ∷ []))
        λ found.
          pure mysql
            (record c { mnode_list = elim found [ none ↦ [] | some mns ↦ insert_nodes mns [] ] })

  unfoldable pub refresh : Center → List Bytes → M mysql Center
  refresh c filters =
      ◌>>=◌ mysql (select_mnode chain mysql c.db filters)
        λ found. pure mysql (record c { mnode_list = merged found c.mnode_list })

  -- The end of `SelectMNData`: what the cache holds now.
  abbrev pub look_up : MnCoin → Center → Option MstNodeData × Center
  look_up coin c = (data_of (find_node coin c.mnode_list), c)

  -- `SelectMNData` at time `now`; the lock is held all through.
  unfoldable pub select_mn_data : Center → Bytes → ℕ → ℤ → M mysql (Option MstNodeData × Center)
  select_mn_data c txid voutid now =
      let coin : MnCoin = record { coin_txid = txid; coin_voutid = voutid } in
      elim (find_node coin c.mnode_list) [
        | none ↦ ◌>>=◌ mysql (refresh c (missing_filters txid)) λ c'. pure mysql (look_up coin c')
        | some mn ↦
            if is_fresh c now mn
            then pure mysql (some mn.node_data, c)
            else ◌>>=◌ mysql (refresh c (stale_filters c now)) λ c'. pure mysql (look_up coin c')
      ]
