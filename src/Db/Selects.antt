-- ===== src/Db/Selects.antt =====
-- Which statements the selections of `CUlordDb` pass to the server.
use uctool.Common.{
  ℕ, ◌≤◌, ◌≡◌, sym, ap, ◌∙◌, inl, inr, List, ◌++◌, Bytes, arith, Bool-cases, append-nil,
}
use uctool.Chain.{ChainApi}
use uctool.Mysql.{MysqlApi, Session, execute, query_rows}
use uctool.Mysql.Post.{Post, Post-bind, Post-mono, SameQueries, replicate}
use uctool.Mysql.Execute.{Executed, execute-Executed}
use uctool.Db.{
  DbConfig, online_loop, is_db_online, run_select, select_sql, select_mnode, select_columns_sql,
  select_mnode_columns,
}
use uctool.Db.Updates.{online_loop-queries, with_connection-Post}

-- At most four copies of one statement have been added to a log.
abbrev pub Asked : Bytes → List Bytes → List Bytes → Type 0
Asked sql before after = (k : ℕ) × (k ≤ 4) × (after ≡ before ++ replicate k sql)

module _ (chain : ChainApi) (mysql : MysqlApi) where
  query_rows-Asked :
      (sql : Bytes) (s : Session mysql)
      → Post mysql (λ _ u. Asked sql s.queries u.queries) (query_rows mysql sql s)
  unfolding query_rows
  query_rows-Asked sql s =
      Post-bind mysql (Executed mysql 4 sql s) (λ _ u. Asked sql s.queries u.queries)
        (execute mysql sql s) _ (execute-Executed mysql sql s)
        λ ok t ran.
          let ((k, lo, hi, q), _) = ran in
          elim (Bool-cases ok) [ inl good ↦ rw good (k, hi, q) | inr bad ↦ rw bad (k, hi, q) ]

  run_select-Asked :
      (sql : Bytes) (s : Session mysql)
      → Post mysql (λ _ u. Asked sql s.queries u.queries) (run_select chain mysql sql s)
  unfolding run_select is_db_online
  run_select-Asked sql s =
      Post-bind mysql (SameQueries mysql s) (λ _ u. Asked sql s.queries u.queries)
        (online_loop chain mysql 3 s) _ (online_loop-queries chain mysql 3 s)
        λ ok t e. elim (Bool-cases ok) [
          | inl up ↦ rw up (
              Post-bind mysql (λ _ u. Asked sql t.queries u.queries)
                (λ _ u. Asked sql s.queries u.queries) (query_rows mysql sql t) _
                (query_rows-Asked sql t)
                λ found u asked.
                  let (k, hi, q) = asked in
                  (k, hi, q ∙ ap (λ (l : List Bytes). l ++ replicate k sql) e))
          | inr down ↦ rw down (0, omega arith, e ∙ sym (append-nil s.queries))
        ]

  pub select_mnode-Asked :
      (db : DbConfig) (filters : List Bytes) (s : Session mysql)
      → Post mysql
          (λ _ u. Asked (select_sql db filters) s.queries u.queries)
          (select_mnode chain mysql db filters s)
  unfolding select_mnode
  select_mnode-Asked db filters s =
      with_connection-Post chain mysql (λ _ log. Asked (select_sql db filters) s.queries log) db _ s
        λ t same.
          Post-mono mysql (λ _ u. Asked (select_sql db filters) t.queries u.queries) _ _
            (run_select-Asked (select_sql db filters) t)
            λ a u asked.
              let (k, hi, q) = asked in
              (k, hi, q ∙ ap (λ (l : List Bytes). l ++ replicate k (select_sql db filters)) same)

  pub select_mnode_columns-Asked :
      (db : DbConfig) (columns : List (Bytes × Bytes)) (s : Session mysql)
      → Post mysql
          (λ _ u. Asked (select_columns_sql db columns) s.queries u.queries)
          (select_mnode_columns chain mysql db columns s)
  unfolding select_mnode_columns
  select_mnode_columns-Asked db columns s =
      with_connection-Post chain mysql
        (λ _ log. Asked (select_columns_sql db columns) s.queries log) db _ s
        λ t same.
          Post-mono mysql (λ _ u. Asked (select_columns_sql db columns) t.queries u.queries) _ _
            (run_select-Asked (select_columns_sql db columns) t)
            λ a u asked.
              let (k, hi, q) = asked in
              (
                k,
                hi,
                q ∙ ap (λ (l : List Bytes). l ++ replicate k (select_columns_sql db columns)) same,
              )
