-- ===== src/Tests/TableServer.antt =====
-- A server with a table of one node, which knows the statements of the licence tool and of the
-- center, and what it answers to them.
use mathlib.Core.List.Memᴰ.{head}
use uctool.Common.{
  ◌≡◌, refl, sym, ap, subst, ◌∙◌, inl, inr, Bool, true, false, List, [], ◌∷◌, map, Option, none,
  some, Bytes, codes, bytes_eq, if◌then◌else◌, ℤ, pos, ◌+ℤ◌, eqb_ℤ, arith,
}
use uctool.Chain.{ChainApi}
use uctool.Node.{MNode, MnCoin, coin_eq, coin_of, set_node_key}
use uctool.Node.Order.{coin_cases, coin_eq_iff}
use uctool.Node.Table.{Table, IsTable, IsSelection}
use uctool.Mysql.{MysqlApi, Row}
use uctool.Mysql.Live.{IsLive}
use uctool.Db.{decode_row, select_sql, update_sql}
use uctool.Db.Live.{Gives}
use uctool.Watcher.{
  need_update_filters, sign_mn_license, needs_no_license, new_period, with_pubkey, dated,
  with_license, sign_word,
}
use uctool.Watcher.Table.{is_selected, stored}
use uctool.Center.{stale_filters}
use uctool.Center.Serving.{is_long, has_txid}
use uctool.KeyRing.{key_at}
use uctool.Tests.Toys.{toy_chain, toy_node}
use uctool.Tests.KeysTests.{toy_watcher}
use uctool.Tests.CenterTests.{toy_center}

-- The chain of the tests, on which a new node has a public key.
abbrev pub keyed_chain : ChainApi
keyed_chain = record toy_chain { null_node = record (toy_node (pos 0) [] 0) { pubkey = 2 ∷ [] } }

-- The one row of the table, with the end of its licence, its certificate and the version of that.
abbrev pub row_of : (period licence version : Bytes) → Row
row_of period licence version =
    some (codes "tx")
    ∷ some (codes "1")
    ∷ some (codes "key")
    ∷ some (codes "n")
    ∷ some (codes "ip")
    ∷ some (codes "1")
    ∷ some period
    ∷ some licence
    ∷ some version
    ∷ some (codes "1000")
    ∷ []

abbrev pub old_row : Row
old_row = row_of (codes "400") (codes "old") (codes "1")

abbrev pub new_row : Row
new_row = row_of (codes "700") (7 ∷ codes "tx") (codes "1")

abbrev pub node_with : (period : ℤ) (licence : Bytes) → MNode
node_with period licence = record {
  node_data = record {
    version = pos 0;
    txid = codes "tx";
    voutid = 1;
    privkey = codes "key";
    pubkey = 2 ∷ [];
    status = pos 1;
    licversion = pos 1;
    licperiod = period;
    licence = licence;
    nodeperiod = pos 1000;
  };
  name = codes "n";
  ipaddr = codes "ip";
}

abbrev pub old_node : MNode
old_node = node_with (pos 400) (codes "old")

abbrev pub new_node : MNode
new_node = node_with (pos 700) (7 ∷ codes "tx")

pub rows_decode :
    (decode_row keyed_chain old_row ≡ old_node) × (decode_row keyed_chain new_row ≡ new_node)
unfolding decode_row set_node_key uctool.Keys.from_string uctool.Numbers.atoi uctool.Keys.finish
    uctool.Keys.is_valid
rows_decode = (refl, refl)

pub old_node-signed : sign_mn_license keyed_chain toy_watcher (pos 400) old_node ≡ (true, new_node)
unfolding sign_mn_license needs_no_license with_pubkey sign_word dated with_license new_period
    key_at ◌+ℤ◌
old_node-signed = refl

-- The table of one node.
abbrev pub only : MNode → Table
only mn coin = if coin_eq (coin_of mn) coin then some mn else none

abbrev pub rows_of : (MNode → Bool) → Option MNode → List Row
rows_of test none = []
rows_of test (some mn) =
    if test mn then (if eqb_ℤ mn.licperiod (pos 400) then old_row else new_row) ∷ [] else []

pub record TableWorld : Type 0 where
  pub kept : Table
  pub rows : List Row

-- Which nodes a selection of the tests is for.
abbrev pub test_of : Bytes → MNode → Bool
test_of sql mn =
    if bytes_eq sql (select_sql toy_watcher.db (need_update_filters toy_watcher (pos 400)))
    then is_selected toy_watcher (pos 400) mn
    else (if bytes_eq sql (select_sql toy_center.db (stale_filters toy_center (pos 500)))
        then is_long toy_center (pos 500) mn
        else has_txid (codes "tx") mn)

abbrev pub server : MysqlApi
server = record {
  World = TableWorld;
  init = λ w. (true, w);
  real_connect = λ i w. (true, w);
  configure = λ w. w;
  close = λ w. w;
  ping = λ w. (0, w);
  query = λ sql w. (
    0,
    if bytes_eq sql (update_sql toy_watcher.db new_node)
        then record w { kept = stored new_node w.kept }
        else record w { rows = rows_of (test_of sql) (w.kept (coin_of old_node)) },
  );
  store_result = λ w. (w.rows, w);
  affected_rows = λ w. 0;
}

abbrev pub kept_of : server.World → Table
kept_of w = w.kept

pub server-IsLive : IsLive server kept_of
server-IsLive = record {
  init_ok = λ w. refl;
  connect_ok = λ i w. refl;
  ping_ok = λ w. refl;
  init_keeps = λ w. refl;
  connect_keeps = λ i w. refl;
  configure_keeps = λ w. refl;
  close_keeps = λ w. refl;
  ping_keeps = λ w. refl;
  store_keeps = λ w. refl;
}

pub only-IsTable : (mn : MNode) → IsTable (only mn)
only-IsTable mn coin x e = elim (coin_cases (coin_of mn) coin) [
  | inl (same, hit) ↦ let here : mn ≡ x = ground (arith, e, hit) in ap coin_of (sym here) ∙ same
  | inr (_, miss) ↦ absurd (ground (arith, e, miss))
]

pub only-own : (mn : MNode) → only mn (coin_of mn) ≡ some mn
only-own mn = rw ((coin_eq_iff (coin_of mn) (coin_of mn)).0.1 refl) refl

pub only-some : (mn x : MNode) (coin : MnCoin) → only mn coin ≡ some x → x ≡ mn
only-some mn x coin e = elim (coin_cases (coin_of mn) coin) [
  | inl (_, hit) ↦ ground (arith, e, hit)
  | inr (_, miss) ↦ absurd (ground (arith, e, miss))
]

-- A table with one node, and a selection that it passes.
pub only-IsSelection :
    (test : MNode → Bool) (mn : MNode) (table : Table)
    → ((coin : MnCoin) → table coin ≡ only mn coin)
    → test mn ≡ true
    → IsSelection test table (mn ∷ [])
only-IsSelection test mn table same passes = (
  ((same (coin_of mn) ∙ only-own mn, passes), tt),
  λ x at _. head (only-some mn x (coin_of x) (sym (same (coin_of x)) ∙ at)),
)

pub only-Gives :
    (sql : Bytes) (test : MNode → Bool) (mn : MNode) (row : Row) (table : Table)
    → bytes_eq sql (update_sql toy_watcher.db new_node) ≡ false
    → rows_of (test_of sql) (some mn) ≡ row ∷ []
    → decode_row keyed_chain row ≡ mn
    → ((coin : MnCoin) → table coin ≡ only mn coin)
    → coin_of mn ≡ coin_of old_node
    → test mn ≡ true
    → Gives keyed_chain server kept_of server-IsLive sql table (IsSelection test table)
only-Gives sql test mn row table other rows decoded same coin passes w e =
    let found : map (decode_row keyed_chain) (rows_of (test_of sql) (w.kept (coin_of old_node)))
        ≡ mn ∷ [] =
      ap
        (λ (t : Table). map (decode_row keyed_chain) (rows_of (test_of sql) (t (coin_of old_node))))
        e
      ∙ ap (λ o. map (decode_row keyed_chain) (rows_of (test_of sql) o))
          (ap table (sym coin) ∙ same (coin_of mn) ∙ only-own mn)
      ∙ ap (map (decode_row keyed_chain)) rows
      ∙ ap (λ n. n ∷ []) decoded in
    rw (other) (
      refl,
      e,
      subst (IsSelection test table) (sym found) (only-IsSelection test mn table same passes),
    )
