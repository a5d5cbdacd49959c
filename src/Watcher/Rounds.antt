-- ===== src/Watcher/Rounds.antt =====
-- What a round of the daemon writes to the database.
use uctool.Common.{
  ℕ, ◌≤◌, ◌≡◌, refl, sym, ap, ◌∙◌, inl, inr, false, List, [], ◌∷◌, ◌++◌, Bytes, ℤ, Bool-cases,
  append-nil, append_assoc,
}
use uctool.Chain.{ChainApi}
use uctool.Node.{MNode}
use uctool.Mysql.{MysqlApi, Session}
use uctool.Mysql.Post.{Post, Post-bind, Post-mono, replicate}
use uctool.Db.{update_sql, update_license}
use uctool.Db.Updates.{SentOnly, update_license-SentOnly}
use uctool.Watcher.{Watcher, sign_mn_license, update_db}
use uctool.Watcher.Signing.{IsDue, IsSigned, sign_mn_license-IsSigned}

module _ (chain : ChainApi) (w : Watcher) (clock : MNode → ℤ) where
  -- The log of `UpdateDB` over some nodes: at most four times the update of a node, for those nodes
  -- only that were due and are signed, and in their order. A node that is not signed writes nothing.
  pub data Writes : List MNode → List Bytes → Type 0 where
    no_more : {mns : List MNode} {log : List Bytes} → mns ≡ [] → log ≡ [] → Writes mns log
    skips :
        {mns : List MNode} {log : List Bytes} (mn : MNode) (rest : List MNode)
        → mns ≡ mn ∷ rest
        → (sign_mn_license chain w (clock mn) mn).0 ≡ false
        → Writes rest log
        → Writes mns log
    writes :
        {mns : List MNode} {log : List Bytes} (mn out : MNode) (rest : List MNode)
        (later : List Bytes) (k : ℕ)
        → mns ≡ mn ∷ rest
        → IsDue w (clock mn) mn
        → IsSigned chain w (clock mn) mn out
        → k ≤ 4
        → log ≡ replicate k (update_sql w.db out) ++ later
        → Writes rest later
        → Writes mns log

  module _ (mysql : MysqlApi) where
    -- `UpdateDB` writes to the database for the nodes only that it has signed: each statement that
    -- it passes on is the update of a node that was due, to the licence that it was given.
    pub update_db-Writes :
        (mns : List MNode) (s : Session mysql)
        → Post mysql
            (λ _ t. (log : List Bytes) × (t.queries ≡ s.queries ++ log) × Writes mns log)
            (update_db chain mysql w clock mns s)
    unfolding update_db
    update_db-Writes [] s = ([], sym (append-nil s.queries), no_more refl refl)
    update_db-Writes (mn ∷ mns) s = elim (Bool-cases (sign_mn_license chain w (clock mn) mn).0) [
      | inl yes_signed ↦
          let out : MNode = (sign_mn_license chain w (clock mn) mn).1 in
          let (due, signed) =
            sign_mn_license-IsSigned chain w (clock mn) mn out (ap (λ b. (b, out)) yes_signed) in
          rw yes_signed (
            Post-bind mysql (λ ok t. SentOnly chain mysql (update_sql w.db out) s ok t.queries) _
              (update_license chain mysql w.db out s) _
              (update_license-SentOnly chain mysql w.db out s).0
              λ ok t sent.
                let (k, few, q, _) = sent in
                Post-mono mysql
                  (λ _ u. (log : List Bytes) × (u.queries ≡ t.queries ++ log) × Writes mns log) _
                  (update_db chain mysql w clock mns t) (update_db-Writes mns t)
                  λ a u more.
                    let (log, e, ws) = more in
                    (
                      replicate k (update_sql w.db out) ++ log,
                      e ∙ ap (λ (l : List Bytes). l ++ log) q ∙ append_assoc s.queries _ log,
                      writes mn out mns log k refl due signed few refl ws,
                    ))
      | inr unsigned ↦ rw unsigned (
          Post-mono mysql
            (λ _ u. (log : List Bytes) × (u.queries ≡ s.queries ++ log) × Writes mns log) _
            (update_db chain mysql w clock mns s) (update_db-Writes mns s)
            λ a u more. let (log, e, ws) = more in (log, e, skips mn mns refl unsigned ws))
    ]
