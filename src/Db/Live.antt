-- ===== src/Db/Live.antt =====
-- What the methods of `CUlordDb` do while the server is up: each carries out its statement once.
use uctool.Common.{◌≡◌, refl, sym, ap, subst, ◌∙◌, true, false, List, map, some, Bytes}
use uctool.Chain.{ChainApi}
use uctool.Node.{MNode}
use uctool.Mysql.{MysqlApi, Session, M, execute, query_rows, close_conn, ping}
use uctool.Mysql.Live.{
  IsLive, Returns, Returns-bind, Returns-mono, ping-live, execute-live, query_rows-live,
  close_conn-live, Carried, Fetched,
}
use uctool.Db.{
  select_columns_sql, select_mnode_columns, column_is, DbConfig, online_loop, is_db_online,
  with_connection, run_statement, run_select, update_sql, select_sql, update_license, select_mnode,
  decode_row,
}

module _ (chain : ChainApi) (mysql : MysqlApi) {Contents : Type 0}
    (contents : mysql.World → Contents) (live : IsLive mysql contents) where
  is_db_online-live :
      (s : Session mysql)
      → Returns mysql
          (λ ok t. (ok ≡ true) × (contents t.world ≡ contents s.world))
          (is_db_online chain mysql s)
  unfolding is_db_online online_loop
  is_db_online-live s =
      Returns-bind mysql (λ ok t. (ok ≡ true) × (contents t.world ≡ contents s.world)) _
        (ping mysql s) _ (ping-live mysql contents live s) λ ok t up. rw (up.0) (refl, up.1)

  with_connection-live :
      {A : Type 0} (P : A → Contents → Type 0) (db : DbConfig) (m : M mysql A) (s : Session mysql)
      → ((t : Session mysql)
          → contents t.world ≡ contents s.world
          → Returns mysql (λ a u. P a (contents u.world)) (m t))
      → Returns mysql (λ a u. P a (contents u.world)) (with_connection chain mysql db m s)
  unfolding with_connection
  with_connection-live P db m s h =
      Returns-bind mysql (λ a u. P a (contents u.world)) (λ a u. P a (contents u.world)) _ _
        (h (record s { info = db.dbinfo; conn = false }) refl)
        λ a t p.
          Returns-bind mysql (λ _ u. contents u.world ≡ contents t.world)
            (λ b u. P b (contents u.world)) (close_conn mysql t) _
            (close_conn-live mysql contents live t) λ _ u e. subst (P a) (sym e) p

  -- The server answers the statement, from a world with these contents, by changing them so.
  abbrev pub Changes : Bytes → Contents → Contents → Type 0
  Changes sql before after =
      (w : mysql.World)
      → contents w ≡ before
      → ((mysql.query sql w).0 ≡ 0) × (contents (mysql.query sql w).1 ≡ after)

  -- The server answers the statement with rows for which this holds.
  abbrev pub Gives : Bytes → Contents → (List MNode → Type 0) → Type 0
  Gives sql before R =
      (w : mysql.World)
      → contents w ≡ before
      → ((mysql.query sql w).0 ≡ 0)
        × (contents (mysql.query sql w).1 ≡ before)
        × R (map (decode_row chain) (mysql.store_result (mysql.query sql w).1).0)

  run_statement-live :
      (sql : Bytes) (after : Contents) (s : Session mysql)
      → Changes sql (contents s.world) after
      → Returns mysql
          (λ ok t. (ok ≡ true) × (contents t.world ≡ after))
          (run_statement chain mysql sql s)
  unfolding run_statement
  run_statement-live sql after s law =
      Returns-bind mysql (λ ok t. (ok ≡ true) × (contents t.world ≡ contents s.world)) _
        (is_db_online chain mysql s) _ (is_db_online-live s)
        λ ok t up. rw (up.0) (
          Returns-mono mysql (Carried mysql contents live sql t) _ (execute mysql sql t)
            (execute-live mysql contents live sql t λ w e. (law w (e ∙ up.1)).0)
            λ b u ran.
              let (good, (w, same, at)) = ran in (good, ap contents at ∙ (law w (same ∙ up.1)).1))

  run_select-live :
      (sql : Bytes) (R : List MNode → Type 0) (s : Session mysql)
      → Gives sql (contents s.world) R
      → Returns mysql
          (λ found t.
            ((mns : List MNode) × (found ≡ some mns) × R mns)
            × (contents t.world ≡ contents s.world))
          (run_select chain mysql sql s)
  unfolding run_select
  run_select-live sql R s law =
      Returns-bind mysql (λ ok t. (ok ≡ true) × (contents t.world ≡ contents s.world)) _
        (is_db_online chain mysql s) _ (is_db_online-live s)
        λ ok t up. rw (up.0) (
          Returns-bind mysql (Fetched mysql contents live sql t) _ (query_rows mysql sql t) _
            (query_rows-live mysql contents live sql t λ w e. (law w (e ∙ up.1)).0)
            λ found u ran.
              let (w, same, rows, after) = ran in
              let (_, kept, r) = law w (same ∙ up.1) in rw (rows) ((_, refl, r), after ∙ kept))

  -- On a server that is up `UpdateLicense` answers true, and its one statement has been carried out.
  pub update_license-live :
      (db : DbConfig) (mn : MNode) (after : Contents) (s : Session mysql)
      → Changes (update_sql db mn) (contents s.world) after
      → Returns mysql
          (λ ok t. (ok ≡ true) × (contents t.world ≡ after))
          (update_license chain mysql db mn s)
  unfolding update_license
  update_license-live db mn after s law =
      with_connection-live (λ ok c. (ok ≡ true) × (c ≡ after)) db _ s
        λ t same. run_statement-live (update_sql db mn) after t λ w e. law w (e ∙ same)

  -- On a server that is up `SelectMNode` gives the nodes of its statement.
  pub select_mnode-live :
      (db : DbConfig) (filters : List Bytes) (R : List MNode → Type 0) (s : Session mysql)
      → Gives (select_sql db filters) (contents s.world) R
      → Returns mysql
          (λ found t.
            ((mns : List MNode) × (found ≡ some mns) × R mns)
            × (contents t.world ≡ contents s.world))
          (select_mnode chain mysql db filters s)
  unfolding select_mnode
  select_mnode-live db filters R s law =
      with_connection-live
        (λ found c. ((mns : List MNode) × (found ≡ some mns) × R mns) × (c ≡ contents s.world)) db _
        s
        λ t same.
          Returns-mono mysql
            (λ found u.
              ((mns : List MNode) × (found ≡ some mns) × R mns)
              × (contents u.world ≡ contents t.world))
            _ _
            (run_select-live (select_sql db filters) R t
              λ w e. let (a, b, c) = law w (e ∙ same) in (a, b ∙ sym same, c))
            λ found u h. (h.0, h.1 ∙ same)

  pub select_mnode_columns-live :
      (db : DbConfig) (columns : List (Bytes × Bytes)) (R : List MNode → Type 0) (s : Session mysql)
      → Gives (select_columns_sql db columns) (contents s.world) R
      → Returns mysql
          (λ found t.
            ((mns : List MNode) × (found ≡ some mns) × R mns)
            × (contents t.world ≡ contents s.world))
          (select_mnode_columns chain mysql db columns s)
  unfolding select_mnode_columns select_mnode select_columns_sql
  select_mnode_columns-live db columns R s law =
      select_mnode-live db (map column_is columns) R s law
