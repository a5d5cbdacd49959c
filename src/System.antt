-- ===== src/System.antt =====
-- licensetool/licensewatcher.cc and ulordcenter/ulordcenter.cc over one database: what the licence
-- tool writes there, the center reads.
pub mod Delivered
use uctool.Common.{
  ◌≡◌, refl, sym, ap, subst, ◌∙◌, true, false, some, ℤ, pos, ◌+ℤ◌, ◌<ℤ◌, arith, ◌≤ℤ◌, ◌↔◌,
  eqb_ℤ_iff, Bool-cases, inl, inr,
}
use uctool.Chain.{ChainApi}
use uctool.Node.{MNode, coin_of}
use uctool.Node.Table.{Table, IsTable, IsSelection}
use uctool.Mysql.{MysqlApi, Session, ◌>>=◌}
use uctool.Mysql.Live.{IsLive, Returns, Returns-bind, Returns-mono}
use uctool.Db.{select_sql}
use uctool.Db.Live.{Gives}
use uctool.Watcher.{Watcher, new_period, need_update_filters, sign_mn_license, run_round}
use uctool.Watcher.Signing.{sign_mn_license-IsSigned}
use uctool.Watcher.Table.{is_selected, relicensed, renewed, renewed_table, relicensed_by}
use uctool.Watcher.Renewal.{IsStored, run_round-Renews}
use uctool.Center.{Center, find_node, is_fresh, stale_filters, missing_filters, select_mn_data}
use uctool.Center.Serving.{is_long, has_txid, select_mn_data-current}

-- The two programs agree on which licences are to be renewed: where the update periods of their
-- configurations are the same, a node is selected by the licence tool exactly if it is bound, its
-- entry would be stale for the center, and it has not ended itself.
pub is_selected_iff_stale :
    (w : Watcher) (c : Center) (now : ℤ) (mn : MNode)
    → w.need_update_period ≡ c.db.need_update_period
    → (is_selected w now mn ≡ true)
      ↔ ((mn.status ≡ pos 1) × (is_fresh c now mn ≡ false) × (now <ℤ mn.nodeperiod))
unfolding is_fresh ◌+ℤ◌
is_selected_iff_stale w c now mn same = ground (arith, eqb_ℤ_iff mn.status (pos 1), same)

module _ (chain : ChainApi) (w : Watcher) (clock : MNode → ℤ) (mysql : MysqlApi)
    (table : mysql.World → Table) (live : IsLive mysql table) where
  -- The selection of a round is answered as documented from this table, and so is the update of
  -- each node that it selects.
  pub record ServesRound (now : ℤ) (before : Table) : Type 0 where
    pub keyed : IsTable before
    pub selects :
        Gives chain mysql table live
          (select_sql w.db (need_update_filters w now))
          before
          (IsSelection (is_selected w now) before)
    pub stores :
        (mn : MNode)
        → before (coin_of mn) ≡ some mn
        → is_selected w now mn ≡ true
        → IsStored chain w clock mysql table live mn

  -- The two selections of a lookup are answered as documented from this table.
  pub record ServesLookup (c : Center) (mn : MNode) (now : ℤ) (before : Table) : Type 0 where
    pub stale :
        Gives chain mysql table live
          (select_sql c.db (stale_filters c now))
          before
          (IsSelection (is_long c now) before)
    pub missing :
        Gives chain mysql table live
          (select_sql c.db (missing_filters mn.txid))
          before
          (IsSelection (has_txid mn.txid) before)

  renewed-signed :
      (now : ℤ) (mn out : MNode)
      → is_selected w now mn ≡ true
      → sign_mn_license chain w (clock mn) mn ≡ (true, out)
      → renewed chain w clock now mn ≡ relicensed out mn
  unfolding renewed relicensed_by
  renewed-signed now mn out due signed = rw (due, signed) refl

  -- The lookup behind a round that has renewed the table.
  pub renewed-looked_up :
      (c : Center) (mn out : MNode) (now later : ℤ) (before : Table) (t : Session mysql)
      → before (coin_of mn) ≡ some mn
      → is_selected w now mn ≡ true
      → sign_mn_license chain w (clock mn) mn ≡ (true, out)
      → ServesLookup c mn later (renewed_table chain w clock now before)
      → later +ℤ c.db.need_update_period <ℤ out.licperiod
      → ((old : MNode)
          → find_node (coin_of mn) c.mnode_list ≡ some old
          → is_fresh c later old ≡ false)
      → table t.world ≡ renewed_table chain w clock now before
      → Returns mysql
          (λ r _. r.0 ≡ some (relicensed out mn).node_data)
          (select_mn_data chain mysql c mn.txid mn.voutid later t)
  renewed-looked_up c mn out now later before t at due signed lookup lasts old same =
      let serves : ServesLookup c mn later (table t.world) =
        subst (ServesLookup c mn later) (sym same) lookup in
      let stored_at : table t.world (coin_of mn) ≡ some (relicensed out mn) =
        ap (λ (v : Table). v (coin_of mn)) same
        ∙ rw (at) (ap some (renewed-signed now mn out due signed)) in
      select_mn_data-current chain mysql table live c (relicensed out mn) later t serves.stale
        serves.missing stored_at (ground (arith, due, lasts)) old

  -- A licence that is due reaches the clients of the center: when a node of the table is selected
  -- by a round and can be signed, and after that round the center is asked for its coin, with no
  -- entry for it or one that is no longer fresh, then both come to their end and the center gives
  -- the node with its new licence, provided this lasts beyond the center's update period. The server
  -- is up and answers the statements of the round and of the lookup as documented.
  pub renewed-served :
      (c : Center) (mn out : MNode) (now later : ℤ) (s : Session mysql)
      → ServesRound now (table s.world)
      → table s.world (coin_of mn) ≡ some mn
      → is_selected w now mn ≡ true
      → sign_mn_license chain w (clock mn) mn ≡ (true, out)
      → ServesLookup c mn later (renewed_table chain w clock now (table s.world))
      → later +ℤ c.db.need_update_period <ℤ out.licperiod
      → ((old : MNode)
          → find_node (coin_of mn) c.mnode_list ≡ some old
          → is_fresh c later old ≡ false)
      → Returns mysql
          (λ r _. r.0 ≡ some (relicensed out mn).node_data)
          (◌>>=◌ mysql
            (run_round chain mysql w now clock)
            (λ _. select_mn_data chain mysql c mn.txid mn.voutid later)
            s)
  renewed-served c mn out now later s round at due signed lookup lasts old =
      Returns-bind mysql (λ _ t. table t.world ≡ renewed_table chain w clock now (table s.world)) _
        (run_round chain mysql w now clock s) _
        (run_round-Renews chain w clock mysql table live now s round.keyed round.selects
          round.stores)
        λ _ t same.
          renewed-looked_up c mn out now later (table s.world) t at due signed lookup lasts old same

  -- What the signing of a node leaves is fresh, if the node lasts and the period is long enough.
  signed-fresh :
      (c : Center) (mn out : MNode) (now : ℤ)
      → sign_mn_license chain w (clock mn) mn ≡ (true, out)
      → now ≤ℤ clock mn
      → now +ℤ c.db.need_update_period ≤ℤ mn.nodeperiod
      → c.db.need_update_period ≤ℤ w.lic_period_limit
      → is_fresh c now (relicensed out mn) ≡ true
  unfolding is_fresh new_period ◌+ℤ◌
  signed-fresh c mn out now signed at lasts enough =
      let is = (sign_mn_license-IsSigned chain w (clock mn) mn out signed).1.period in
      ground (arith, is, at, lasts, enough)

  lasts-beyond :
      (c : Center) (mn : MNode) (now : ℤ)
      → pos 1 ≤ℤ c.db.need_update_period
      → now +ℤ c.db.need_update_period ≤ℤ mn.nodeperiod
      → now <ℤ mn.nodeperiod
  unfolding ◌+ℤ◌
  lasts-beyond c mn now positive lasts = ground (arith, positive, lasts)

  renewed-fresh :
      (c : Center) (mn : MNode) (now : ℤ)
      → mn.status ≡ pos 1
      → w.need_update_period ≡ c.db.need_update_period
      → pos 1 ≤ℤ c.db.need_update_period
      → c.db.need_update_period ≤ℤ w.lic_period_limit
      → now +ℤ c.db.need_update_period ≤ℤ mn.nodeperiod
      → now ≤ℤ clock mn
      → (is_selected w now mn ≡ true → (sign_mn_license chain w (clock mn) mn).0 ≡ true)
      → is_fresh c now (renewed chain w clock now mn) ≡ true
  unfolding renewed
  renewed-fresh c mn now bound same positive enough lasts later signs =
      let out : MNode = (sign_mn_license chain w (clock mn) mn).1 in
      elim (Bool-cases (is_selected w now mn)) [
        | inl due ↦
            let signed : sign_mn_license chain w (clock mn) mn ≡ (true, out) =
              ap (λ b. (b, out)) (signs due) in
            ap (is_fresh c now) (renewed-signed now mn out due signed)
            ∙ signed-fresh c mn out now signed later lasts enough
        | inr left ↦ elim (Bool-cases (is_fresh c now mn)) [
          | inl fresh ↦ rw (left) fresh
          | inr stale ↦
              let both : true ≡ false =
                sym (
                  (is_selected_iff_stale w c now mn same).1
                    (bound, stale, lasts-beyond c mn now positive lasts))
                ∙ left in
              absurd (cc both)
        ]
      ]

  -- After a round, on a server that is up and answers the round's statements as documented, the
  -- center finds the licence of a bound node fresh, whether it was renewed or had no need to be:
  -- where both programs have the same update period, of at least one second, the node itself lasts
  -- for that period and can be signed if it is selected, and licences are given for at least that
  -- period, by a clock that does not run back.
  pub run_round-fresh :
      (c : Center) (mn : MNode) (now : ℤ) (s : Session mysql)
      → ServesRound now (table s.world)
      → table s.world (coin_of mn) ≡ some mn
      → mn.status ≡ pos 1
      → w.need_update_period ≡ c.db.need_update_period
      → pos 1 ≤ℤ c.db.need_update_period
      → c.db.need_update_period ≤ℤ w.lic_period_limit
      → now +ℤ c.db.need_update_period ≤ℤ mn.nodeperiod
      → now ≤ℤ clock mn
      → (is_selected w now mn ≡ true → (sign_mn_license chain w (clock mn) mn).0 ≡ true)
      → Returns mysql
          (λ _ t.
            (mn' : MNode) × (table t.world (coin_of mn) ≡ some mn') × (is_fresh c now mn' ≡ true))
          (run_round chain mysql w now clock s)
  run_round-fresh c mn now s round at bound same positive enough lasts later signs =
      Returns-mono mysql (λ _ t. table t.world ≡ renewed_table chain w clock now (table s.world)) _
        _
        (run_round-Renews chain w clock mysql table live now s round.keyed round.selects
          round.stores)
        λ _ t is. (
          renewed chain w clock now mn,
          ap (λ (v : Table). v (coin_of mn)) is ∙ rw (at) refl,
          renewed-fresh c mn now bound same positive enough lasts later signs,
        )
