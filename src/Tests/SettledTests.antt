-- ===== src/Tests/SettledTests.antt =====
-- Rounds of the licence tool at one time, over the server of a table with one node.
use uctool.Common.{
  ℕ, ◌∙◌, map, ◌≡◌, refl, sym, ap, subst, true, false, [], some, bytes_eq_refl, pos, ◌+ℤ◌, arith,
}
use uctool.Node.{MNode, MnCoin, coin_of}
use uctool.Node.Table.{Table}
use uctool.Mysql.Live.{Returns}
use uctool.Db.{select_sql}
use uctool.Watcher.{need_update_filters}
use uctool.Watcher.Table.{is_selected, renewed_table}
use uctool.System.{ServesRound}
use uctool.Tests.KeysTests.{toy_watcher}
use uctool.Tests.TableServer.{
  keyed_chain, old_node, new_node, only, rows_of, test_of, server, kept_of, server-IsLive,
  only-IsTable, only-own, only-some,
}
use uctool.LicenseTool.{Times, run_rounds}
use uctool.LicenseTool.Settled.{run_rounds-Settles}
use uctool.Db.{decode_row}
use uctool.Node.Table.{IsSelection}
use uctool.Tests.SystemTests.{session, serves_round, due-other, renewed-only}

new_node-kept : is_selected toy_watcher (pos 400) new_node ≡ false
unfolding ◌+ℤ◌
new_node-kept = refl

not_due : (mn : MNode) → mn ≡ new_node → is_selected toy_watcher (pos 400) mn ≡ true → ⊥
not_due mn e due =
    let both : true ≡ false = sym due ∙ ap (is_selected toy_watcher (pos 400)) e ∙ new_node-kept in
    cc both

abbrev renewed_toy : Table
renewed_toy = renewed_table keyed_chain toy_watcher (λ mn. pos 400) (pos 400) (only old_node)

renewed_toy-some : (mn : MNode) (coin : MnCoin) → renewed_toy coin ≡ some mn → mn ≡ new_node
renewed_toy-some mn coin e = only-some new_node mn coin (sym (renewed-only coin) ∙ e)

no_rows :
    (w : server.World)
    → kept_of w ≡ renewed_toy
    → rows_of
        (test_of (select_sql toy_watcher.db (need_update_filters toy_watcher (pos 400))))
        (w.kept (coin_of old_node))
      ≡ []
no_rows w e =
    ap
      (λ (t : Table).
        rows_of (test_of (select_sql toy_watcher.db (need_update_filters toy_watcher (pos 400))))
          (t (coin_of old_node)))
      e
    ∙ ap (rows_of (test_of (select_sql toy_watcher.db (need_update_filters toy_watcher (pos 400)))))
        (renewed-only (coin_of new_node) ∙ only-own new_node)
    ∙ rw (bytes_eq_refl (select_sql toy_watcher.db (need_update_filters toy_watcher (pos 400))))
        (rw (new_node-kept) refl)

serves_again :
    ServesRound keyed_chain toy_watcher
      (λ mn. pos 400)
      server
      kept_of
      server-IsLive
      (pos 400)
      renewed_toy
serves_again = record {
  keyed = λ coin mn e. only-IsTable new_node coin mn (sym (renewed-only coin) ∙ e);
  selects = λ w e. rw (due-other) (
    refl,
    e,
    subst (IsSelection (is_selected toy_watcher (pos 400)) renewed_toy)
        (sym (ap (map (decode_row keyed_chain)) (no_rows w e)))
        (tt, λ mn at due. absurd (not_due mn (renewed_toy-some mn (coin_of mn) at) due)),
  );
  stores = λ mn at due. absurd (not_due mn (renewed_toy-some mn (coin_of mn) at) due);
}

run_rounds-Settles_example :
    let at_once : ℕ → Times = λ _. record { now = pos 400; clock = λ mn. pos 400 } in
    Returns server
      (λ _ t. kept_of t.world ≡ renewed_toy)
      (run_rounds keyed_chain server toy_watcher at_once 3 session)
run_rounds-Settles_example =
    run_rounds-Settles keyed_chain toy_watcher (λ mn. pos 400) server kept_of server-IsLive
      (pos 400) 2 session serves_round serves_again (λ mn. ground arith) (ground arith)
