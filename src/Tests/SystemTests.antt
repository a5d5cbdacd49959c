-- ===== src/Tests/SystemTests.antt =====
-- The licence tool and the center over the server of a table with one node.
use uctool.Common.{
  ◌≡◌, refl, sym, ap, subst, inl, inr, Bool, true, false, [], ◌∷◌, some, codes, bytes_eq,
  bytes_eq_refl, pos, ◌+ℤ◌, ◌<ℤ◌, ◌≤ℤ◌, arith,
}
use uctool.Node.{MNode, MnCoin, coin_eq, coin_of}
use uctool.Node.Order.{coin_cases}
use uctool.Node.Table.{Table}
use uctool.Mysql.{Session}
use uctool.Mysql.Live.{Returns}
use uctool.Db.{select_sql, update_sql, conditions}
use uctool.Db.Live.{Changes}
use uctool.Watcher.{need_update_filters, run_round}
use uctool.Watcher.Table.{is_selected, stored, relicensed_by, renewed, renewed_table}
use uctool.Watcher.Renewal.{IsStored, run_round-Renews}
use uctool.Center.{Center, stale_filters, missing_filters, find_node, is_fresh}
use uctool.Center.Serving.{is_long, has_txid}
use uctool.System.{ServesRound, ServesLookup, run_round-fresh}
use uctool.Tests.Toys.{toy_info}
use uctool.Tests.KeysTests.{toy_watcher}
use uctool.Tests.CenterTests.{toy_center}
use uctool.Mysql.{done}
use uctool.Codec.Delivery.{sent, start, receive_all}
use uctool.Client.{ClientApi, license, license_quest, ask_license}
use uctool.Server.{Server, running, serve}
use uctool.Server.EndToEnd.{covered_data, license_items}
use uctool.System.Delivered.{renewed-delivered}
use uctool.Tests.ListBuffer.{list_buffer}
use uctool.Tests.ServerTests.{asking_client, one_reply, toy_reply}
use uctool.Common.{◌++◌, append-nil, bytes_eq, Bytes}
use uctool.Tests.TableServer.{
  keyed_chain, old_row, new_row, old_node, new_node, rows_decode, old_node-signed, only, rows_of,
  TableWorld, test_of, server, kept_of, server-IsLive, only-IsTable, only-own, only-some,
  only-Gives,
}

abbrev pub first_world : TableWorld
first_world = record { kept = only old_node; rows = [] }

abbrev pub session : Session server
session = record { info = toy_info; conn = false; world = first_world; queries = [] }

old_node-due : is_selected toy_watcher (pos 400) old_node ≡ true
unfolding ◌+ℤ◌
old_node-due = refl

old_node-IsStored :
    IsStored keyed_chain toy_watcher (λ mn. pos 400) server kept_of server-IsLive old_node
old_node-IsStored =
    subst
      (λ (signed : Bool × MNode).
        signed.0 ≡ true
        → (now_table : Table)
        → Changes keyed_chain server kept_of server-IsLive (update_sql toy_watcher.db signed.1)
            now_table (stored signed.1 now_table))
      (sym old_node-signed)
      λ _ now_table w e.
        rw (bytes_eq_refl (update_sql toy_watcher.db new_node)) (refl, ap (stored new_node) e)

-- Selections are told from the update at their first letters, and from each other at `validdate`.
pub due-other :
    bytes_eq
      (select_sql toy_watcher.db (need_update_filters toy_watcher (pos 400)))
      (update_sql toy_watcher.db new_node)
    ≡ false
unfolding select_sql update_sql bytes_eq
due-other = refl

due-rows :
    rows_of
      (test_of (select_sql toy_watcher.db (need_update_filters toy_watcher (pos 400))))
      (some old_node)
    ≡ old_row ∷ []
due-rows =
    rw (bytes_eq_refl (select_sql toy_watcher.db (need_update_filters toy_watcher (pos 400))))
      (rw (old_node-due) refl)

pub serves_round :
    ServesRound keyed_chain toy_watcher
      (λ mn. pos 400)
      server
      kept_of
      server-IsLive
      (pos 400)
      (only old_node)
serves_round = record {
  keyed = only-IsTable old_node;
  selects =
      only-Gives (select_sql toy_watcher.db (need_update_filters toy_watcher (pos 400)))
        (is_selected toy_watcher (pos 400)) old_node old_row (only old_node) due-other due-rows
        rows_decode.0 (λ coin. refl) refl old_node-due;
  stores = λ mn at _.
      subst (IsStored keyed_chain toy_watcher (λ mn. pos 400) server kept_of server-IsLive)
        (sym (only-some old_node mn (coin_of mn) at)) old_node-IsStored;
}

run_round-Renews_example :
    Returns server
      (λ _ t.
        kept_of t.world
        ≡ renewed_table keyed_chain toy_watcher (λ mn. pos 400) (pos 400) (only old_node))
      (run_round keyed_chain server toy_watcher (pos 400) (λ mn. pos 400) session)
run_round-Renews_example =
    run_round-Renews keyed_chain toy_watcher (λ mn. pos 400) server kept_of server-IsLive (pos 400)
      session (only-IsTable old_node) serves_round.selects serves_round.stores

new_node-long : is_long toy_center (pos 500) new_node ≡ true
unfolding ◌+ℤ◌
new_node-long = refl

stale-other :
    (bytes_eq
        (select_sql toy_center.db (stale_filters toy_center (pos 500)))
        (update_sql toy_watcher.db new_node)
      ≡ false)
    × (bytes_eq
          (select_sql toy_center.db (stale_filters toy_center (pos 500)))
          (select_sql toy_watcher.db (need_update_filters toy_watcher (pos 400)))
        ≡ false)
unfolding select_sql update_sql conditions stale_filters need_update_filters bytes_eq
stale-other = (refl, refl)

missing-other :
    (bytes_eq
        (select_sql toy_center.db (missing_filters (codes "tx")))
        (update_sql toy_watcher.db new_node)
      ≡ false)
    × (bytes_eq
          (select_sql toy_center.db (missing_filters (codes "tx")))
          (select_sql toy_watcher.db (need_update_filters toy_watcher (pos 400)))
        ≡ false)
    × (bytes_eq
          (select_sql toy_center.db (missing_filters (codes "tx")))
          (select_sql toy_center.db (stale_filters toy_center (pos 500)))
        ≡ false)
unfolding select_sql update_sql conditions stale_filters need_update_filters missing_filters
    bytes_eq
missing-other = (refl, refl, refl)

stale-rows :
    rows_of
      (test_of (select_sql toy_center.db (stale_filters toy_center (pos 500))))
      (some new_node)
    ≡ new_row ∷ []
stale-rows =
    rw
      (stale-other.1, bytes_eq_refl (select_sql toy_center.db (stale_filters toy_center (pos 500))))
      (rw (new_node-long) refl)

missing-rows :
    rows_of (test_of (select_sql toy_center.db (missing_filters (codes "tx")))) (some new_node)
    ≡ new_row ∷ []
missing-rows = rw (missing-other.1, missing-other.2, bytes_eq_refl (codes "tx")) refl

pub renewed-only :
    (coin : MnCoin)
    → renewed_table keyed_chain toy_watcher (λ mn. pos 400) (pos 400) (only old_node) coin
      ≡ only new_node coin
unfolding renewed relicensed_by
renewed-only coin = elim (coin_cases (coin_of old_node) coin) [
  | inl (_, hit) ↦ rw (hit, old_node-due, old_node-signed) refl
  | inr (_, miss) ↦ rw (miss) refl
]

serves_lookup :
    ServesLookup keyed_chain toy_watcher
      (λ mn. pos 400)
      server
      kept_of
      server-IsLive
      toy_center
      old_node
      (pos 500)
      (renewed_table keyed_chain toy_watcher (λ mn. pos 400) (pos 400) (only old_node))
serves_lookup = record {
  stale =
      only-Gives (select_sql toy_center.db (stale_filters toy_center (pos 500)))
        (is_long toy_center (pos 500)) new_node new_row _ stale-other.0 stale-rows rows_decode.1
        renewed-only refl new_node-long;
  missing =
      only-Gives (select_sql toy_center.db (missing_filters (codes "tx"))) (has_txid (codes "tx"))
        new_node new_row _ missing-other.0 missing-rows rows_decode.1 renewed-only refl
        (bytes_eq_refl (codes "tx"));
}

new_node-lasts : pos 500 +ℤ toy_center.db.need_update_period <ℤ new_node.licperiod
unfolding ◌+ℤ◌
new_node-lasts = ground arith

cached-old :
    (old : MNode)
    → find_node (coin_of old_node) toy_center.mnode_list ≡ some old
    → is_fresh toy_center (pos 500) old ≡ false
unfolding find_node coin_eq bytes_eq is_fresh ◌+ℤ◌
cached-old old e = ground (arith, e)

ends_later : pos 400 +ℤ toy_center.db.need_update_period ≤ℤ old_node.nodeperiod
unfolding ◌+ℤ◌
ends_later = ground arith

run_round-fresh_example :
    Returns server
      (λ _ t.
        (mn' : MNode) × (kept_of t.world (coin_of old_node) ≡ some mn')
        × (is_fresh toy_center (pos 400) mn' ≡ true))
      (run_round keyed_chain server toy_watcher (pos 400) (λ mn. pos 400) session)
run_round-fresh_example =
    run_round-fresh keyed_chain toy_watcher (λ mn. pos 400) server kept_of server-IsLive toy_center
      old_node (pos 400) session serves_round (only-own old_node) refl refl (ground arith)
      (ground arith) ends_later (ground arith) λ due. ap (λ p. p.0) old_node-signed

-- A client that reads the renewed node in the reply.
abbrev reading_client : ClientApi
reading_client = record asking_client {
  read_node = λ is_new bs. some (covered_data new_node.node_data, []);
}

renewed-delivered_example :
    let callback : Server keyed_chain server → Bytes → Server keyed_chain server =
      λ u m. serve keyed_chain server 3 2 (λ n. pos 500) u (1, m) in
    let reply : Bytes =
      keyed_chain.encode_stream
        (license_items keyed_chain server (pos 111) (covered_data new_node.node_data)) in
    (t : Session server) × (run_round keyed_chain server toy_watcher
        (pos 400)
        (λ mn. pos 400)
        session
      ≡ done tt t)
    × ((c' : Center) × (u : Session server) × ((receive_all list_buffer callback
            (start list_buffer callback (running 0 [] toy_center t))
            (sent list_buffer (codes "tx") ∷ [])).state
          ≡ running 1 ([] ++ (1, reply) ∷ []) c' u)
        × (ask_license reading_client true (codes "tx") 1 (pos 5) one_reply
            ≡ license (covered_data new_node.node_data)))
renewed-delivered_example =
    renewed-delivered keyed_chain toy_watcher (λ mn. pos 400) server kept_of server-IsLive
      reading_client list_buffer 3 2 1 0 (λ n. pos 500) old_node new_node (pos 5) one_reply
      toy_center (pos 400) session [] (codes "tx") (sent list_buffer (codes "tx") ∷ []) serves_round
      (only-own old_node) old_node-due old_node-signed serves_lookup new_node-lasts cached-old
      (λ bs h. refl) refl (ground arith)
      record {
        has_length = refl;
        sendable = omega arith;
        reads = unfold license_quest in refl;
        framed = unfold license_quest in refl;
        arrives = unfold license_quest in append-nil _;
      }
      record {
        small = omega arith;
        rest = toy_reply;
        left = [];
        reads_head = refl;
        reads_node = refl;
        connected = record {
          configured = unfold bytes_eq in refl;
          is_up = refl;
          is_selectable = refl;
          is_sent = refl;
        };
        seconds = 2;
        later_receipts = [];
        receives = refl;
        soon = omega arith;
      }
