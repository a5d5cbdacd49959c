-- ===== src/DbTool/Selecting.antt =====
-- tools/dbtool.cc: `dbcheck`, `dbselect` and `dbmnhash`, which print what they select. `args` is
-- `argv`; a node's text is not modelled, the node stands for it.
use uctool.Common.{
  ℕ, ◌≡◌, sym, append-nil, Bool, true, false, not, List, [], ◌∷◌, ◌++◌, map, foldl, Option, none,
  some, Bytes, codes, length, drop, get_or, ltb, if◌then◌else◌, ℤ, arith,
}
use uctool.Chain.{ChainApi}
use uctool.Node.{MNode, check}
use uctool.StdMap.{StdMap, find}
use uctool.StdMap.Filling.{look_up, add, add_all-find, InOrder, key, keys-InOrder}
use uctool.Mysql.{MysqlApi, Session, M, ◌>>=◌, pure}
use uctool.Mysql.Post.{Post, Post-bind}
use uctool.Db.{DbConfig, select_columns_sql, select_sql, select_mnode, select_mnode_columns}
use uctool.Db.Selects.{Asked, select_mnode-Asked, select_mnode_columns-Asked}

-- A line: the node, what the check adds to its text, and whether its licence fails; the node; the
-- node and its licence word.
pub data NodeLine : Type 0 where
  checked : (mn : MNode) (text : Bytes) (license_fails : Bool) → NodeLine
  whole : MNode → NodeLine
  hashed : MNode → Bytes → NodeLine

-- `read_entries` has the number that `dbcheck` prints.
pub data Selected : Type 0 where
  usage read_failed : Selected
  read_entries : ℕ → List NodeLine → Selected
  printed : List NodeLine → Selected

-- The pairs that the loop of `DBCheckNode` makes of its arguments; a last one alone is left out.
abbrev pub column_pairs : List Bytes → List (Bytes × Bytes)
column_pairs (column ∷ value ∷ rest) = (column, value) ∷ column_pairs rest
column_pairs _ = []

unfoldable pub map_check : List Bytes → StdMap Bytes
map_check args = foldl add [] (column_pairs (drop 2 args))

unfoldable pub mnhash_filter : List Bytes → Bytes
mnhash_filter args = codes "trade_txid='" ++ get_or args 2 [] ++ codes "'"

abbrev or_failed : (List MNode → Selected) → Option (List MNode) → Selected
or_failed f none = read_failed
or_failed f (some mns) = f mns

module _ (chain : ChainApi) (mysql : MysqlApi) (need : ℤ) (clock : MNode → ℤ) where
  unfoldable pub check_line : MNode → NodeLine
  check_line mn =
      checked mn (check chain mn (clock mn) need).1 (not (chain.verify_license mn.node_data))

  unfoldable pub db_check_node : DbConfig → List Bytes → M mysql Selected
  db_check_node db args =
      if ltb (length args) 4
      then pure mysql usage
      else ◌>>=◌ mysql (select_mnode_columns chain mysql db (map_check args)) λ found.
        pure mysql (or_failed (λ mns. read_entries (length mns) (map check_line mns)) found)

  unfoldable pub db_select : DbConfig → List Bytes → M mysql Selected
  db_select db args =
      if ltb (length args) 3
      then pure mysql usage
      else ◌>>=◌ mysql (select_mnode chain mysql db (drop 2 args))
          λ found. pure mysql (or_failed (λ mns. printed (map whole mns)) found)

  unfoldable pub db_mnhash : DbConfig → List Bytes → M mysql Selected
  db_mnhash db args =
      if ltb (length args) 3
      then pure mysql usage
      else ◌>>=◌ mysql (select_mnode chain mysql db (mnhash_filter args ∷ [])) λ found. pure mysql (
          or_failed
            (λ mns. printed (map (λ mn. hashed mn (chain.get_license_word mn.node_data)) mns))
            found)

  command-Asked :
      (few : Bool) (sql : Bytes) (f : Option (List MNode) → Selected)
      (m : M mysql (Option (List MNode))) (s : Session mysql)
      → Post mysql (λ _ u. Asked sql s.queries u.queries) (m s)
      → Post mysql
          (λ _ u. Asked sql s.queries u.queries)
          ((if few then pure mysql usage else ◌>>=◌ mysql m λ found. pure mysql (f found)) s)
  command-Asked true sql f m s h = (0, omega arith, sym (append-nil s.queries))
  command-Asked false sql f m s h =
      Post-bind mysql (λ _ u. Asked sql s.queries u.queries) _ (m s) _ h λ found u asked. asked

  -- `dbcheck` asks for the nodes by the columns that it is given, in the order of their names, each
  -- once and with the first value given for it; it sends this one statement, at most four times.
  pub db_check_node-Asked :
      (db : DbConfig) (args : List Bytes) (s : Session mysql) (column : Bytes)
      → (find column (map_check args) ≡ look_up column (column_pairs (drop 2 args)))
        × InOrder (map key (map_check args))
        × Post mysql
            (λ _ u. Asked (select_columns_sql db (map_check args)) s.queries u.queries)
            (db_check_node db args s)
  unfolding db_check_node map_check find
  db_check_node-Asked db args s column =
      let (_, found) = add_all-find column (column_pairs (drop 2 args)) [] tt in
      let (sorted, _) = add_all-find column (column_pairs (drop 2 args)) [] tt in
      (
        found,
        keys-InOrder (map_check args) sorted,
        command-Asked _ (select_columns_sql db (map_check args)) _ _ s
            (select_mnode_columns-Asked chain mysql db (map_check args) s),
      )

  -- `dbselect` sends the one statement with its arguments as the conditions, as they are, and
  -- `dbmnhash` the one for the txid that it is given, each at most four times.
  pub db_select-Asked :
      (db : DbConfig) (args : List Bytes) (s : Session mysql)
      → Post mysql
          (λ _ u. Asked (select_sql db (drop 2 args)) s.queries u.queries)
          (db_select db args s)
        × Post mysql
            (λ _ u. Asked (select_sql db (mnhash_filter args ∷ [])) s.queries u.queries)
            (db_mnhash db args s)
  unfolding db_select db_mnhash
  db_select-Asked db args s = (
    command-Asked _ (select_sql db (drop 2 args)) _ _ s
        (select_mnode-Asked chain mysql db (drop 2 args) s),
    command-Asked _ (select_sql db (mnhash_filter args ∷ [])) _ _ s
        (select_mnode-Asked chain mysql db (mnhash_filter args ∷ []) s),
  )
