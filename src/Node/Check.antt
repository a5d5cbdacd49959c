-- ===== src/Node/Check.antt =====
-- `CMNode::Check` and `CMNode::IsNull`.
use uctool.Common.{◌≡◌, ◌≢◌, ◌↔◌, true, codes, bytes_eq_iff, arith, pos, negsuc, eqb_ℤ_iff}
use uctool.Node.{MNode, is_null}

-- Despite its name `IsNull` is true of a node with all its fields: it is false as soon as one of
-- the texts is "NULL", a number is the -1 of a missing column, or the licence version is 0.
pub is_null_iff :
    (mn : MNode)
    → (is_null mn ≡ true) ↔ (
        (mn.txid ≢ codes "NULL")
        × (mn.privkey ≢ codes "NULL")
        × (mn.ipaddr ≢ codes "NULL")
        × (mn.licence ≢ codes "NULL")
        × (mn.status ≢ negsuc 0)
        × (mn.licperiod ≢ negsuc 0)
        × (mn.nodeperiod ≢ negsuc 0)
        × (mn.licversion ≢ pos 0))
unfolding is_null
is_null_iff mn = ground (
  arith,
  bytes_eq_iff mn.txid (codes "NULL"),
  bytes_eq_iff mn.privkey (codes "NULL"),
  bytes_eq_iff mn.ipaddr (codes "NULL"),
  bytes_eq_iff mn.licence (codes "NULL"),
  eqb_ℤ_iff mn.status (negsuc 0),
  eqb_ℤ_iff mn.licperiod (negsuc 0),
  eqb_ℤ_iff mn.nodeperiod (negsuc 0),
  eqb_ℤ_iff mn.licversion (pos 0),
)
