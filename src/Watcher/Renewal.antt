-- ===== src/Watcher/Renewal.antt =====
-- Rounds of the licence tool on a database that is up, followed on its table.
use mathlib.Core.Path.{fun_ext}
use uctool.Common.{
  ◌≡◌, refl, ap, ◌∙◌, inl, inr, Bool, true, List, [], ◌∷◌, some, ℤ, All, Bool-cases,
}
use uctool.Chain.{ChainApi}
use uctool.Node.{MNode, coin_of}
use uctool.Node.Table.{Table, IsTable, IsSelection}
use uctool.Mysql.{MysqlApi, Session}
use uctool.Mysql.Live.{IsLive, Returns, Returns-bind, Returns-mono}
use uctool.Db.{update_sql, select_sql, update_license, select_mnode}
use uctool.Db.Live.{Changes, Gives, update_license-live, select_mnode-live}
use uctool.Watcher.{Watcher, need_update_filters, sign_mn_license, update_db, run_round}
use uctool.Watcher.Table.{is_selected, stored, written, all_written, renewed_table}
use uctool.Watcher.Writing.{all_written-renewed}

module _ (chain : ChainApi) (w : Watcher) (clock : MNode → ℤ) (mysql : MysqlApi)
    (table : mysql.World → Table) (live : IsLive mysql table) where
  -- The server carries out the update of this node, if it is signed, in whatever state it is.
  abbrev pub IsStored : MNode → Type 0
  IsStored mn =
      (sign_mn_license chain w (clock mn) mn).0 ≡ true
      → (now_table : Table)
      → let out = (sign_mn_license chain w (clock mn) mn).1 in
        Changes chain mysql table live (update_sql w.db out) now_table (stored out now_table)

  update_db-live :
      (mns : List MNode) (s : Session mysql)
      → All IsStored mns
      → Returns mysql
          (λ _ t. table t.world ≡ all_written chain w clock mns (table s.world))
          (update_db chain mysql w clock mns s)
  unfolding update_db all_written written
  update_db-live [] s laws = refl
  update_db-live (mn ∷ mns) s laws =
      let out : MNode = (sign_mn_license chain w (clock mn) mn).1 in
      elim (Bool-cases (sign_mn_license chain w (clock mn) mn).0) [
        | inl e ↦ rw (e) (
            Returns-bind mysql (λ ok t. (ok ≡ true) × (table t.world ≡ stored out (table s.world)))
              _ (update_license chain mysql w.db out s) _
              (update_license-live chain mysql table live w.db out (stored out (table s.world)) s
                (laws.0 e (table s.world)))
              λ ok t h.
                Returns-mono mysql
                  (λ _ u. table u.world ≡ all_written chain w clock mns (table t.world)) _
                  (update_db chain mysql w clock mns t) (update_db-live mns t laws.1)
                  λ a u more. more ∙ ap (all_written chain w clock mns) h.1)
        | inr e ↦ rw (e) (update_db-live mns s laws.1)
      ]

  IsStored-All :
      (test : MNode → Bool) (now_table : Table) (mns : List MNode)
      → ((mn : MNode) → now_table (coin_of mn) ≡ some mn → test mn ≡ true → IsStored mn)
      → All (λ (x : MNode). (now_table (coin_of x) ≡ some x) × (test x ≡ true)) mns
      → All IsStored mns
  IsStored-All test now_table [] law sound = tt
  IsStored-All test now_table (mn ∷ mns) law sound =
      (law mn sound.0.0 sound.0.1, IsStored-All test now_table mns law sound.1)

  -- On a server that is up, that carries out the selection of due nodes and the updates of those
  -- nodes as documented, and whose table has each node under its own coin, a round comes to its
  -- end and renews the table: each node that is selected and can be signed has its new licence,
  -- its end and version, and nothing else has changed.
  pub run_round-Renews :
      (now : ℤ) (s : Session mysql)
      → IsTable (table s.world)
      → Gives chain mysql table live
          (select_sql w.db (need_update_filters w now))
          (table s.world)
          (IsSelection (is_selected w now) (table s.world))
      → ((mn : MNode)
          → table s.world (coin_of mn) ≡ some mn
          → is_selected w now mn ≡ true
          → IsStored mn)
      → Returns mysql
          (λ _ t. table t.world ≡ renewed_table chain w clock now (table s.world))
          (run_round chain mysql w now clock s)
  unfolding run_round
  run_round-Renews now s keyed gives law =
      Returns-bind mysql
        (λ found t.
          ((mns : List MNode) × (found ≡ some mns)
            × IsSelection (is_selected w now) (table s.world) mns)
          × (table t.world ≡ table s.world))
        _ (select_mnode chain mysql w.db (need_update_filters w now) s) _
        (select_mnode-live chain mysql table live w.db (need_update_filters w now)
          (IsSelection (is_selected w now) (table s.world)) s gives)
        λ found t selected.
          let ((mns, some_found, selection), same) = selected in
          rw (some_found) (
            Returns-mono mysql
              (λ _ u. table u.world ≡ all_written chain w clock mns (table t.world)) _
              (update_db chain mysql w clock mns t)
              (update_db-live mns t
                (IsStored-All (is_selected w now) (table s.world) mns law selection.0))
              λ a u done_all.
                done_all
                ∙ ap (all_written chain w clock mns) same
                ∙ fun_ext
                    (all_written-renewed chain w clock now (table s.world) mns keyed selection))
