-- ===== src/Node.antt =====
-- common/ulordDB.h and the methods of `CMNode` in common/ulordDB.cc: a masternode as a row of the
-- database holds it, the key of the cache, and the check of a row. `LOG` lines are left out.
pub mod Order
pub mod Check
pub mod Table
use uctool.Common.{
  ℕ, ◌+◌, Bool, true, false, not, ◌&&◌, ◌||◌, [], ◌∷◌, Option, none, some, ◌++◌, Bytes, codes, ltb,
  ◌==◌, if◌then◌else◌, bytes_eq, bytes_lt, ℤ, pos, negsuc, ◌+ℤ◌, ltb_ℤ, eqb_ℤ,
}
use uctool.Chain.{ChainApi, MstNodeData}
use uctool.Keys.{KeyExtension, from_string}

-- `CMNode` extends `CMstNodeData` by two fields.
pub record MNode : Type 0 where
  pub node_data : MstNodeData
  pub open node_data use *
  pub name : Bytes
  pub ipaddr : Bytes

-- `CMNode::IsNull`, as it is written: false if a field is missing, true otherwise.
unfoldable pub is_null : MNode → Bool
is_null mn =
    if bytes_eq mn.txid (codes "NULL")
      || bytes_eq mn.privkey (codes "NULL")
      || bytes_eq mn.ipaddr (codes "NULL")
      || bytes_eq mn.licence (codes "NULL")
      || eqb_ℤ mn.status (negsuc 0)
      || eqb_ℤ mn.licperiod (negsuc 0)
      || eqb_ℤ mn.nodeperiod (negsuc 0)
      || eqb_ℤ mn.licversion (pos 0)
    then false
    else true

-- `CMNCoin`, by which the cache of the center is keyed.
pub record MnCoin : Type 0 where
  pub coin_txid : Bytes
  pub coin_voutid : ℕ

unfoldable pub coin_eq : MnCoin → MnCoin → Bool
coin_eq a b = bytes_eq a.coin_txid b.coin_txid && a.coin_voutid == b.coin_voutid

unfoldable pub coin_ne : MnCoin → MnCoin → Bool
coin_ne a b = not (bytes_eq a.coin_txid b.coin_txid) || not (a.coin_voutid == b.coin_voutid)

unfoldable pub coin_lt : MnCoin → MnCoin → Bool
coin_lt a b =
    if bytes_eq a.coin_txid b.coin_txid
    then ltb a.coin_voutid b.coin_voutid
    else bytes_lt a.coin_txid b.coin_txid

abbrev pub coin_of : MNode → MnCoin
coin_of mn = record { coin_txid = mn.txid; coin_voutid = mn.voutid }

module _ (chain : ChainApi) where
  -- `CMNode::SetKey`: the text is stored also when it is no key; the public key is then as before.
  unfoldable pub set_node_key : MNode → Bytes → MNode
  set_node_key mn str_key = elim (from_string chain str_key) [
    | none ↦ record mn { node_data = record mn.node_data { privkey = str_key } }
    | some key ↦ record mn {
      node_data = record mn.node_data { privkey = str_key; pubkey = key.pubkey };
    }
  ]

  unfoldable pub key_is_bad : MNode → Bool
  key_is_bad mn = elim (from_string chain mn.privkey) [ none ↦ true | some key ↦ false ]

  -- `CMNode::Check` at time `now`: the verdict, and what is appended to the text of the node.
  unfoldable pub check : MNode → ℤ → ℤ → Bool × Bytes
  unfolding key_is_bad is_null
  check mn now need_update_period =
      if not (eqb_ℤ mn.status (pos 1))
      then (true, [])
      else (let bad = key_is_bad mn in
          let expired = ltb_ℤ mn.nodeperiod now in
          let due = ltb_ℤ mn.licperiod (now +ℤ need_update_period) in
          (
            not bad && not expired && not due && is_null mn,
            (if bad then codes ", privkey is invalid" else [])
                ++ (if expired then codes ", node period is expired" else [])
                ++ (if due then codes ", license need update" else []),
          ))
