-- ===== src/Db/Updates.antt =====
-- Which statements the methods of `CUlordDb` pass to the server.
use uctool.Common.{
  ℕ, zero, suc, ◌≤◌, ◌≡◌, refl, sym, ap, subst, ◌∙◌, ◌⊎◌, inl, inr, Bool, true, false, List, [],
  ◌∷◌, ◌++◌, Bytes, arith, Bool-cases, append-nil, append_assoc,
}
use uctool.Chain.{ChainApi}
use uctool.Node.{MNode}
use uctool.Mysql.{MysqlApi, Session, done, M, ping, execute, close_conn}
use uctool.Mysql.Post.{Post, Post-bind, Post-mono, Post-self, SameQueries, replicate}
use uctool.Mysql.Execute.{Executed, execute-Executed, ping-queries, close_conn-queries}
use uctool.Db.{
  DbConfig, online_loop, is_db_online, with_connection, run_statement, update_sql, clear_sql,
  update_license, clear_licenses, update_loop, update_licenses,
}

module _ (chain : ChainApi) (mysql : MysqlApi) where
  -- At most four copies of the statement, and at least one where the answer is true.
  abbrev pub SentOnly : Bytes → Session mysql → Bool → List Bytes → Type 0
  SentOnly sql s ok log =
      (k : ℕ) × (k ≤ 4) × (log ≡ s.queries ++ replicate k sql) × (ok ≡ true → 1 ≤ k)

  abbrev pub Sent : Bytes → Session mysql → Bool → Session mysql → Type 0
  Sent sql s ok t = SentOnly sql s ok t.queries

  pub online_loop-queries :
      (left : ℕ) (s : Session mysql)
      → Post mysql (SameQueries mysql s) (online_loop chain mysql left s)
  unfolding online_loop
  online_loop-queries zero s = refl
  online_loop-queries (suc left) s =
      Post-bind mysql (SameQueries mysql s) (SameQueries mysql s) (ping mysql s) _
        (ping-queries mysql s)
        λ ok t e. elim (Bool-cases ok) [
          | inl up ↦ rw up e
          | inr down ↦ rw down (
              Post-mono mysql (SameQueries mysql t) (SameQueries mysql s)
                (online_loop chain mysql left t) (online_loop-queries left t) λ a u f. f ∙ e)
        ]

  is_db_online-queries :
      (s : Session mysql) → Post mysql (SameQueries mysql s) (is_db_online chain mysql s)
  unfolding is_db_online
  is_db_online-queries s = online_loop-queries 3 s

  with_connection-at :
      {A : Type 0} (P : A → List Bytes → Type 0) (db : DbConfig) (m : M mysql A) (s : Session mysql)
      → Post mysql (λ a u. P a u.queries) (m (record s { info = db.dbinfo; conn = false }))
      → Post mysql (λ a u. P a u.queries) (with_connection chain mysql db m s)
  unfolding with_connection
  with_connection-at P db m s h =
      Post-bind mysql (λ a u. P a u.queries) (λ a u. P a u.queries) _ _ h
        λ a t p.
          Post-bind mysql (SameQueries mysql t) (λ b u. P b u.queries) (close_conn mysql t) _
            (close_conn-queries mysql t) λ _ u e. subst (P a) (sym e) p

  pub with_connection-Post :
      {A : Type 0} (P : A → List Bytes → Type 0) (db : DbConfig) (m : M mysql A) (s : Session mysql)
      → ((t : Session mysql) → t.queries ≡ s.queries → Post mysql (λ a u. P a u.queries) (m t))
      → Post mysql (λ a u. P a u.queries) (with_connection chain mysql db m s)
  with_connection-Post P db m s h =
      with_connection-at P db m s (h (record s { info = db.dbinfo; conn = false }) refl)

  run_statement-SentOnly :
      (sql : Bytes) (s t : Session mysql)
      → t.queries ≡ s.queries
      → Post mysql (Sent sql s) (run_statement chain mysql sql t)
  unfolding run_statement is_db_online
  run_statement-SentOnly sql s r same =
      Post-bind mysql (SameQueries mysql r) (Sent sql s) (online_loop chain mysql 3 r) _
        (online_loop-queries 3 r)
        λ ok t e. elim (Bool-cases ok) [
          | inl up ↦ rw up (
              Post-mono mysql (Executed mysql 4 sql t) (Sent sql s) (execute mysql sql t)
                (execute-Executed mysql sql t)
                λ b u ran.
                  let ((k, lo, hi, q), _) = ran in
                  (k, hi, q ∙ ap (λ (l : List Bytes). l ++ replicate k sql) (e ∙ same), λ _. lo))
          | inr down ↦ rw down (0, omega arith, e ∙ same ∙ sym (append-nil s.queries), λ h. cc)
        ]

  -- `UpdateLicense` and `ClearLicenses` pass their one statement to the server, at most four times,
  -- and no other; and at least once where they answer true.
  pub update_license-SentOnly :
      (db : DbConfig) (mn : MNode) (s : Session mysql)
      → Post mysql
          (λ ok t. SentOnly (update_sql db mn) s ok t.queries)
          (update_license chain mysql db mn s)
        × Post mysql
            (λ ok t. SentOnly (clear_sql db) s ok t.queries)
            (clear_licenses chain mysql db s)
  unfolding update_license clear_licenses
  update_license-SentOnly db mn s = (
    with_connection-Post (SentOnly (update_sql db mn) s) db _ s
        (run_statement-SentOnly (update_sql db mn) s),
    with_connection-Post (SentOnly (clear_sql db) s) db _ s
        (run_statement-SentOnly (clear_sql db) s),
  )

  -- The log of a batch: for each node in turn its statement, one to four times.
  abbrev pub Batch : DbConfig → List MNode → List Bytes → Type 0
  Batch db [] log = log ≡ []
  Batch db (mn ∷ mns) log =
      (k : ℕ) × (rest : List Bytes) × (1 ≤ k)
      × (k ≤ 4)
      × (log ≡ replicate k (update_sql db mn) ++ rest)
      × Batch db mns rest

  abbrev BatchFrom : DbConfig → List MNode → List Bytes → Bool → Session mysql → Type 0
  BatchFrom db mns before ok t = (log : List Bytes) × (t.queries ≡ before ++ log) × Batch db mns log

  update_loop-Batch :
      (db : DbConfig) (mns : List MNode) (s : Session mysql)
      → Post mysql
          (λ ok t. BatchFrom db mns s.queries ok t × (ok ≡ true))
          (update_loop chain mysql db mns s)
  unfolding update_loop
  update_loop-Batch db [] s = (([], sym (append-nil s.queries), refl), refl)
  update_loop-Batch db (mn ∷ mns) s =
      Post-bind mysql (Executed mysql 4 (update_sql db mn) s)
        (λ ok t. BatchFrom db (mn ∷ mns) s.queries ok t × (ok ≡ true))
        (execute mysql (update_sql db mn) s) _ (execute-Executed mysql (update_sql db mn) s)
        λ ok t ran.
          let ((k, lo, hi, q), _) = ran in
          Post-mono mysql (λ b u. BatchFrom db mns t.queries b u × (b ≡ true))
            (λ b u. BatchFrom db (mn ∷ mns) s.queries b u × (b ≡ true))
            (update_loop chain mysql db mns t) (update_loop-Batch db mns t)
            λ b u more.
              let ((log, e, batch), yes_ok) = more in
              (
                (
                  replicate k (update_sql db mn) ++ log,
                  e ∙ ap (λ (l : List Bytes). l ++ log) q ∙ append_assoc s.queries _ log,
                  (k, log, lo, hi, refl, batch),
                ),
                yes_ok,
              )

  -- What the new connection of a method says of the server.
  abbrev pub Reached : DbConfig → Session mysql → Bool → Type 0
  Reached db s up =
      (r : Session mysql) × (is_db_online chain mysql (record s { info = db.dbinfo; conn = false })
        ≡ done up r)

  -- `UpdateLicenses` answers true exactly if the pings of its new connection say that the server is
  -- up. Then it has passed on, for each node in order, its statement one to four times, also behind
  -- a statement that failed, and nothing else; otherwise nothing at all.
  pub update_licenses-Batch :
      (db : DbConfig) (mns : List MNode) (s : Session mysql)
      → Post mysql
          (λ ok t.
            (Reached db s true
              × (ok ≡ true)
              × ((log : List Bytes) × (t.queries ≡ s.queries ++ log) × Batch db mns log))
            ⊎ (Reached db s false × (ok ≡ false) × (t.queries ≡ s.queries)))
          (update_licenses chain mysql db mns s)
  unfolding update_licenses
  update_licenses-Batch db mns s =
      let r : Session mysql = record s { info = db.dbinfo; conn = false } in
      with_connection-at
        (λ ok log'.
          (Reached db s true
            × (ok ≡ true)
            × ((log : List Bytes) × (log' ≡ s.queries ++ log) × Batch db mns log))
          ⊎ (Reached db s false × (ok ≡ false) × (log' ≡ s.queries)))
        db _ s
        (Post-bind mysql
          (λ ok t. (t.queries ≡ s.queries) × (is_db_online chain mysql r ≡ done ok t)) _
          (is_db_online chain mysql r) _
          (Post-self mysql (SameQueries mysql r) (is_db_online chain mysql r)
            (is_db_online-queries r))
          λ ok t known. elim (Bool-cases ok) [
            | inl up ↦ rw up (
                Post-mono mysql (λ b u. BatchFrom db mns t.queries b u × (b ≡ true)) _
                  (update_loop chain mysql db mns t) (update_loop-Batch db mns t)
                  λ b u more.
                    let ((log, q, batch), yes_ok) = more in
                    inl (
                      (t, subst (λ x. is_db_online chain mysql r ≡ done x t) up known.1),
                      yes_ok,
                      (log, q ∙ ap (λ (l : List Bytes). l ++ log) known.0, batch),
                    ))
            | inr down ↦ rw down (
                inr (
                  (t, subst (λ x. is_db_online chain mysql r ≡ done x t) down known.1),
                  refl,
                  known.0,
                ))
          ])
