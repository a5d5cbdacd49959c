-- ===== src/Watcher.antt =====
-- licensetool/licensewatcher.cc: the daemon that renews the licences of masternodes in the database.
-- `GetTime` is a parameter of each call; times are whole seconds that do not wrap.
pub mod Signing
pub mod Rounds
pub mod Table
pub mod Writing
pub mod Renewal
use uctool.Common.{
  ℕ, Bool, true, false, not, ◌||◌, List, [], ◌∷◌, ◌++◌, map, Option, none, some, Bytes, codes,
  if◌then◌else◌, ℤ, pos, ◌+ℤ◌, ltb_ℤ, leb_ℤ, eqb_ℤ,
}
use uctool.Chain.{ChainApi, MstNodeData}
use uctool.Keys.{from_string}
use uctool.Node.{MNode}
use uctool.Numbers.{show_int}
use uctool.Mysql.{MysqlApi, M, ◌>>=◌, pure}
use uctool.Db.{DbConfig, select_mnode, update_license}
use uctool.KeyRing.{key_at}

pub record Watcher : Type 0 where
  pub lic_period_limit : ℤ
  pub need_update_period : ℤ
  pub db : DbConfig
  pub watcher_keys : List (ℕ × Bytes)
  pub key_version : ℕ

-- The filters of `SelectNeedUpdateMNData`.
unfoldable pub need_update_filters : Watcher → ℤ → List Bytes
need_update_filters w now =
    codes "status=1"
    ∷ (codes "validdate<" ++ show_int (now +ℤ w.need_update_period))
    ∷ (codes "node_period>" ++ show_int now)
    ∷ []

-- The test at the head of `SignMNLicense`: nothing to do for this node.
unfoldable pub needs_no_license : Watcher → ℤ → MNode → Bool
needs_no_license w now mn =
    leb_ℤ mn.nodeperiod mn.licperiod
    || ltb_ℤ (now +ℤ w.need_update_period) mn.licperiod
    || not (eqb_ℤ mn.status (pos 1))

-- The new end of the licence, cut at the end of the node.
unfoldable pub new_period : Watcher → ℤ → MNode → ℤ
new_period w now mn =
    let limit = now +ℤ w.lic_period_limit in
    if ltb_ℤ mn.nodeperiod limit then mn.nodeperiod else limit

module _ (chain : ChainApi) where
  -- The public key of the node, read from its private key where it is not there yet.
  unfoldable pub with_pubkey : MNode → Option MNode
  with_pubkey mn =
      if chain.pubkey_is_valid mn.pubkey then some mn else elim (from_string chain mn.privkey) [
        | none ↦ none
        | some key ↦ some (record mn { node_data = record mn.node_data { pubkey = key.pubkey } })
      ]

  unfoldable pub dated : Watcher → ℤ → MNode → MNode
  dated w now mn = record mn {
    node_data = record mn.node_data {
      licperiod = new_period w now mn;
      licversion = pos w.key_version;
    };
  }

  unfoldable pub with_license : MNode → Bytes → MNode
  with_license mn sig = record mn {
    node_data = record mn.node_data { licence = chain.encode_base64 sig };
  }

  -- The signature with the watcher's newest key, of the licence word of the node.
  unfoldable pub sign_word : Watcher → MNode → Option Bytes
  sign_word w mn = elim (key_at w.watcher_keys w.key_version) [
    | none ↦ none
    | some key ↦ chain.sign_compact key (chain.get_license_word mn.node_data)
  ]

  -- `SignMNLicense`: whether the licence is signed, and the node, which it changes in place.
  unfoldable pub sign_mn_license : Watcher → ℤ → MNode → Bool × MNode
  sign_mn_license w now mn =
      if needs_no_license w now mn then (false, mn) else elim (with_pubkey mn) [
        | none ↦ (false, mn)
        | some keyed ↦ elim (sign_word w (dated w now keyed)) [
          | none ↦ (false, dated w now keyed)
          | some sig ↦
              let signed = with_license (dated w now keyed) sig in
              (chain.verify_license signed.node_data, signed)
        ]
      ]

  module _ (mysql : MysqlApi) where
    -- `UpdateDB`; `clock mn` is the time at which the node `mn` is signed.
    unfoldable pub update_db : Watcher → (MNode → ℤ) → List MNode → M mysql Unit
    update_db w clock [] = pure mysql tt
    update_db w clock (mn ∷ mns) =
        let (signed, mn') = sign_mn_license w (clock mn) mn in
        let rest = update_db w clock mns in
        if signed then ◌>>=◌ mysql (update_license chain mysql w.db mn') (λ _. rest) else rest

    -- One round of `Run`: a failing selection leaves the list empty.
    unfoldable pub run_round : Watcher → ℤ → (MNode → ℤ) → M mysql Unit
    run_round w now clock =
        ◌>>=◌ mysql (select_mnode chain mysql w.db (need_update_filters w now))
          λ found. elim found [ none ↦ update_db w clock [] | some mns ↦ update_db w clock mns ]
