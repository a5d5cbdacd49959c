-- ===== src/LicenseTool/Statements.antt =====
-- What the licence tool does on the database, in any mode and over any number of rounds.
use uctool.Common.{
  ℕ, zero, suc, ◌≤◌, ◌≡◌, refl, ap, inl, inr, List, [], ◌∷◌, ◌++◌, Bytes, codes, Option, none, some,
  Option-cases, ℤ, ◌+ℤ◌, ◌∙◌,
}
use uctool.Numbers.{show_int}
use uctool.Chain.{ChainApi}
use uctool.Node.{MNode}
use uctool.Mysql.{MysqlApi, Session, done}
use uctool.Mysql.Post.{Post, Post-bind, Post-mono, Post-self, replicate}
use uctool.Db.{select_sql, select_mnode, clear_sql}
use uctool.Db.Selects.{Asked, select_mnode-Asked}
use uctool.Db.Updates.{SentOnly, update_license-SentOnly}
use uctool.Watcher.{Watcher, need_update_filters, run_round}
use uctool.Watcher.Rounds.{Writes, update_db-Writes}
use uctool.LicenseTool.{Mode, test, clear, nothing, run, Times, run_rounds, lic_main}

-- Bound nodes whose licence ends before the update period from `now`, and that have not ended.
abbrev pub due_filters : Watcher → ℤ → List Bytes
due_filters w now =
    codes "status=1"
    ∷ (codes "validdate<" ++ show_int (now +ℤ w.need_update_period))
    ∷ (codes "node_period>" ++ show_int now)
    ∷ []

-- The nodes of a selection that may have failed.
abbrev pub or_no_nodes : Option (List MNode) → List MNode
or_no_nodes none = []
or_no_nodes (some mns) = mns

module _ (chain : ChainApi) (w : Watcher) (mysql : MysqlApi) where
  -- A round: the selection of the due nodes, whose statement is passed on at most four times, and then
  -- the updates, for nodes that this selection has given and in their order.
  abbrev pub Round : ℤ → (MNode → ℤ) → Session mysql → Session mysql → Type 0
  Round now clock s t =
      (found : Option (List MNode)) × (u : Session mysql) × (select_mnode chain mysql w.db
          (due_filters w now) s
        ≡ done found u)
      × Asked (select_sql w.db (due_filters w now)) s.queries u.queries
      × ((log : List Bytes) × (t.queries ≡ u.queries ++ log)
          × Writes chain w clock (or_no_nodes found) log)

  -- Rounds one after the other, each at its times.
  abbrev pub Rounds : (ℕ → Times) → ℕ → Session mysql → Session mysql → Type 0
  Rounds times zero s t = t ≡ s
  Rounds times (suc rounds) s t =
      (u : Session mysql) × Rounds times rounds s u
      × Round (times rounds).now (times rounds).clock u t

  -- What a mode does to the session.
  abbrev pub Traced : (ℕ → Times) → ℕ → Mode → Session mysql → Session mysql → Type 0
  Traced times rounds test s t = Round (times 0).now (times 0).clock s t
  Traced times rounds clear s t =
      (k : ℕ) × (k ≤ 4) × (t.queries ≡ s.queries ++ replicate k (clear_sql w.db))
  Traced times rounds nothing s t = t ≡ s
  Traced times rounds run s t = Rounds times rounds s t

  run_round-Round :
      (now : ℤ) (clock : MNode → ℤ) (s : Session mysql)
      → Post mysql (λ _ t. Round now clock s t) (run_round chain mysql w now clock s)
  unfolding run_round need_update_filters
  run_round-Round now clock s =
      let sql = select_sql w.db (due_filters w now) in
      let selected = select_mnode chain mysql w.db (due_filters w now) s in
      Post-bind mysql (λ found u. Asked sql s.queries u.queries × (selected ≡ done found u))
        (λ _ t. Round now clock s t) selected _
        (Post-self mysql (λ found u. Asked sql s.queries u.queries) selected
          (select_mnode-Asked chain mysql w.db (due_filters w now) s))
        λ found u known. elim (Option-cases found) [
          | inl none_found ↦ rw (none_found) (
              Post-mono mysql
                (λ _ t.
                  (log : List Bytes) × (t.queries ≡ u.queries ++ log) × Writes chain w clock [] log)
                _ _ (update_db-Writes chain w clock mysql [] u)
                λ a t more. (none, u, known.1 ∙ ap (λ o. done o u) none_found, known.0, more))
          | inr (mns, some_found) ↦ rw (some_found) (
              Post-mono mysql
                (λ _ t.
                  (log : List Bytes) × (t.queries ≡ u.queries ++ log)
                  × Writes chain w clock mns log)
                _ _ (update_db-Writes chain w clock mysql mns u)
                λ a t more. (some mns, u, known.1 ∙ ap (λ o. done o u) some_found, known.0, more))
        ]

  run_rounds-Rounds :
      (times : ℕ → Times) (rounds : ℕ) (s : Session mysql)
      → Post mysql (λ _ t. Rounds times rounds s t) (run_rounds chain mysql w times rounds s)
  unfolding run_rounds
  run_rounds-Rounds times zero s = refl
  run_rounds-Rounds times (suc rounds) s =
      Post-bind mysql (λ _ t. Rounds times rounds s t) (λ _ t. Rounds times (suc rounds) s t) _ _
        (run_rounds-Rounds times rounds s)
        λ _ u before.
          Post-mono mysql (λ _ t. Round (times rounds).now (times rounds).clock u t) _ _
            (run_round-Round (times rounds).now (times rounds).clock u) λ a t one. (u, before, one)

  -- What the licence tool does on the database, by its mode. A single round, and each of the rounds of
  -- `Run` in turn, selects the bound nodes whose licence ends before the update period from the
  -- round's time and that have not ended themselves; then it passes on updates for nodes of that
  -- very selection alone, in their order, each to the licence that the node, being due, was given.
  -- "clear" passes on the one statement that clears, at most four times, and any other word nothing.
  pub lic_main-Traced :
      (times : ℕ → Times) (rounds : ℕ) (mode : Mode) (s : Session mysql)
      → Post mysql
          (λ _ t. Traced times rounds mode s t)
          (lic_main chain mysql w times rounds mode s)
  unfolding lic_main
  lic_main-Traced times rounds test s = run_round-Round (times 0).now (times 0).clock s
  lic_main-Traced times rounds clear s =
      let unnamed : MNode = record { node_data = chain.null_node; name = []; ipaddr = [] } in
      Post-bind mysql (λ ok t. SentOnly chain mysql (clear_sql w.db) s ok t.queries)
        (λ _ t. Traced times rounds clear s t) _ _
        (update_license-SentOnly chain mysql w.db unnamed s).1
        λ ok t sent. let (k, few, e, _) = sent in (k, few, e)
  lic_main-Traced times rounds nothing s = refl
  lic_main-Traced times rounds run s = run_rounds-Rounds times rounds s
