-- ===== src/Watcher/Table.antt =====
-- What `UpdateDB` makes of the table of masternodes, node by node.
use uctool.Common.{
  ◌≡◌, ◌≢◌, refl, sym, ap, ◌∙◌, inl, inr, Bool, true, ◌&&◌, List, [], ◌∷◌, none, some,
  if◌then◌else◌, ℤ, pos, ◌+ℤ◌, ltb_ℤ, eqb_ℤ, Bool-cases,
}
use mathlib.Core.Option
use uctool.Chain.{ChainApi}
use uctool.Node.{MNode, MnCoin, coin_eq, coin_of}
use uctool.Node.Order.{coin_cases}
use uctool.Node.Table.{Table}
use uctool.Watcher.{Watcher, sign_mn_license}
use uctool.Watcher.Signing.{sign_mn_license-IsSigned}

-- A node with the three columns that `UpdateLicense` writes.
abbrev pub relicensed : MNode → MNode → MNode
relicensed out mn = record mn {
  node_data = record mn.node_data {
    licperiod = out.licperiod;
    licence = out.licence;
    licversion = out.licversion;
  };
}

-- The table after the statement of `UpdateLicense` for `out`.
unfoldable pub stored : MNode → Table → Table
stored out table coin =
    if coin_eq (coin_of out) coin then Option.map (relicensed out) (table coin) else table coin

-- The filters of `SelectNeedUpdateMNData`, as a test of a node.
abbrev pub is_selected : Watcher → ℤ → MNode → Bool
is_selected w now mn =
    eqb_ℤ mn.status (pos 1)
    && ltb_ℤ mn.licperiod (now +ℤ w.need_update_period)
    && ltb_ℤ now mn.nodeperiod

module _ (chain : ChainApi) (w : Watcher) (clock : MNode → ℤ) where
  -- A node with the licence of its signing, where that one answers true.
  unfoldable pub relicensed_by : MNode → MNode → MNode
  relicensed_by mn m =
      let (signed, out) = sign_mn_license chain w (clock mn) mn in
      if signed then relicensed out m else m

  -- What a round makes of a node.
  unfoldable pub renewed : ℤ → MNode → MNode
  unfolding relicensed_by
  renewed now mn = if is_selected w now mn then relicensed_by mn mn else mn

  abbrev pub renewed_table : ℤ → Table → Table
  renewed_table now table coin = Option.map (renewed now) (table coin)

  -- `UpdateDB` for a node and for several, on the table.
  unfoldable pub written : MNode → Table → Table
  written mn table =
      let (signed, out) = sign_mn_license chain w (clock mn) mn in
      if signed then stored out table else table

  unfoldable pub all_written : List MNode → Table → Table
  all_written [] table = table
  all_written (mn ∷ mns) table = all_written mns (written mn table)

  sign-coin_of :
      (mn : MNode)
      → (sign_mn_license chain w (clock mn) mn).0 ≡ true
      → coin_of (sign_mn_license chain w (clock mn) mn).1 ≡ coin_of mn
  sign-coin_of mn e =
      let out : MNode = (sign_mn_license chain w (clock mn) mn).1 in
      let (_, signed) = sign_mn_license-IsSigned chain w (clock mn) mn out (ap (λ b. (b, out)) e) in
      rw (signed.same_txid, signed.same_voutid) refl

  pub relicensed_by-again :
      (mn : MNode) → relicensed_by mn (relicensed_by mn mn) ≡ relicensed_by mn mn
  unfolding relicensed_by
  relicensed_by-again mn = elim (Bool-cases (sign_mn_license chain w (clock mn) mn).0) [
    | inl e ↦ rw e refl
    | inr e ↦ rw e refl
  ]

  -- The node that the signing of this one leaves.
  abbrev out_of : MNode → MNode
  out_of mn = (sign_mn_license chain w (clock mn) mn).1

  pub written-none :
      (mn : MNode) (table : Table) (coin : MnCoin)
      → table coin ≡ none
      → written mn table coin ≡ none
  unfolding written stored
  written-none mn table coin h = elim (Bool-cases (sign_mn_license chain w (clock mn) mn).0) [
    | inl e ↦ elim (coin_cases (coin_of (out_of mn)) coin) [
      | inl (_, same) ↦ rw (e, same, h) refl
      | inr (_, other) ↦ rw (e, other) h
    ]
    | inr e ↦ rw e h
  ]

  pub written-other :
      (mn : MNode) (table : Table) (coin : MnCoin)
      → coin_of mn ≢ coin
      → written mn table coin ≡ table coin
  unfolding written stored
  written-other mn table coin h = elim (Bool-cases (sign_mn_license chain w (clock mn) mn).0) [
    | inl e ↦ elim (coin_cases (coin_of (out_of mn)) coin) [
      | inl (same, _) ↦ absurd (h (sym (sign-coin_of mn e) ∙ same))
      | inr (_, other) ↦ rw (e, other) refl
    ]
    | inr e ↦ rw e refl
  ]

  pub written-own :
      (mn m : MNode) (table : Table) (coin : MnCoin)
      → coin_of mn ≡ coin
      → table coin ≡ some m
      → written mn table coin ≡ some (relicensed_by mn m)
  unfolding written stored relicensed_by
  written-own mn m table coin own h = elim (Bool-cases (sign_mn_license chain w (clock mn) mn).0) [
    | inl e ↦ elim (coin_cases (coin_of (out_of mn)) coin) [
      | inl (_, same) ↦ rw (e, same, h) refl
      | inr (other, _) ↦ absurd (other (sign-coin_of mn e ∙ own))
    ]
    | inr e ↦ rw (e, h) refl
  ]
