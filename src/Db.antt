-- ===== src/Db.antt =====
-- common/ulordDB.cc: `CUlordDb`, the table of masternodes behind SQL statements. Each method opens a
-- connection of its own and closes it on its way out. A statement is the text that it is.
pub mod Rows
pub mod Updates
pub mod Selects
pub mod Live
use uctool.Common.{
  ℕ, zero, suc, ◌+◌, ◌-◌, ◌%◌, ◌^◌, Bool, true, false, not, List, [], ◌∷◌, ◌++◌, map, Option, none,
  some, Bytes, codes, get_or, if◌then◌else◌, ℤ, pos, negsuc, signed32,
}
use uctool.Chain.{ChainApi}
use uctool.Node.{MNode, set_node_key}
use uctool.Numbers.{show_int, atoi}
use uctool.Mysql.{
  MysqlApi, ConnectInfo, Row, Session, M, done, ◌>>=◌, ◌>>◌, pure, close_conn, ping, execute,
  query_rows,
}

pub record DbConfig : Type 0 where
  pub tablename : Bytes
  pub dbinfo : ConnectInfo
  pub need_update_period : ℤ

abbrev pub select_columns : Bytes
select_columns =
    codes
      "SELECT trade_txid, trade_vout_no, special_code, major_node_nickname, ip_address, status, validdate, certificate, cert_version, node_period FROM "

-- The conditions in a row, the first behind WHERE and the others behind And.
unfoldable pub conditions : Bool → List Bytes → Bytes
conditions first [] = []
conditions first (f ∷ fs) =
    (if first then codes " WHERE " else codes " And ") ++ f ++ conditions false fs

-- A column and its value, between quotes. The value is put there as it is.
abbrev pub column_is : Bytes × Bytes → Bytes
column_is (column, value) = column ++ codes " = '" ++ value ++ codes "'"

-- The statements of the two forms of `SelectMNode`, by filters and by columns.
unfoldable pub select_sql : DbConfig → List Bytes → Bytes
unfolding conditions
select_sql db filters = select_columns ++ db.tablename ++ conditions true filters

unfoldable pub select_columns_sql : DbConfig → List (Bytes × Bytes) → Bytes
unfolding select_sql
select_columns_sql db columns = select_sql db (map column_is columns)

-- The index is printed by `%d`, as a signed number.
unfoldable pub update_sql : DbConfig → MNode → Bytes
update_sql db mn =
    codes "UPDATE "
    ++ db.tablename
    ++ codes " SET validdate = "
    ++ show_int mn.licperiod
    ++ codes ", certificate = '"
    ++ mn.licence
    ++ codes "', cert_version = "
    ++ show_int mn.licversion
    ++ codes " WHERE trade_txid='"
    ++ mn.txid
    ++ codes "' AND trade_vout_no="
    ++ show_int (signed32 mn.voutid)

unfoldable pub clear_sql : DbConfig → Bytes
clear_sql db =
    codes "UPDATE "
    ++ db.tablename
    ++ codes " SET validdate = 0, certificate = NULL, cert_version = 1"

-- `row[i]`, which is a null pointer where the column is NULL.
abbrev pub column : Row → ℕ → Option Bytes
column row i = get_or row i none

abbrev pub text_or_null : Option Bytes → Bytes
text_or_null none = codes "NULL"
text_or_null (some t) = t

abbrev pub number_or : ℤ → Option Bytes → ℤ
number_or d none = d
number_or d (some t) = atoi t

-- The cast of an `int` to `unsigned int`.
abbrev pub to_unsigned : ℤ → ℕ
to_unsigned (pos n) = n % 2 ^ 32
to_unsigned (negsuc n) = 2 ^ 32 - 1 - n % 2 ^ 32

module _ (chain : ChainApi) where
  -- The fields of a node, from the columns of a row, before and after `SetKey`.
  unfoldable pub decode_row : Row → MNode
  decode_row row =
      let start : MNode = record {
        node_data = record chain.null_node {
          txid = text_or_null (column row 0);
          voutid = to_unsigned (number_or (pos 0) (column row 1));
        };
        name = [];
        ipaddr = [];
      } in
      let keyed = set_node_key chain start (text_or_null (column row 2)) in
      record {
        node_data = record keyed.node_data {
          status = number_or (negsuc 0) (column row 5);
          licperiod = number_or (negsuc 0) (column row 6);
          licence = text_or_null (column row 7);
          licversion = number_or (pos 0) (column row 8);
          nodeperiod = number_or (negsuc 0) (column row 9);
        };
        name = text_or_null (column row 3);
        ipaddr = text_or_null (column row 4);
      }

  module _ (mysql : MysqlApi) where
    infixl 5 ◌>>=ₘ◌
    abbrev ◌>>=ₘ◌ : {A B : Type 0} → M mysql A → (A → M mysql B) → M mysql B
    m >>=ₘ f = ◌>>=◌ mysql m f

    -- `IsDBOnline`: at most `left` pings.
    unfoldable pub online_loop : ℕ → M mysql Bool
    online_loop zero = pure mysql false
    online_loop (suc left) = ping mysql >>=ₘ λ ok. if ok then pure mysql true else online_loop left

    unfoldable pub is_db_online : M mysql Bool
    is_db_online = online_loop 3

    -- `MySQLConnection db(dbinfo_)`, and its destructor at the end.
    unfoldable pub with_connection : {A : Type 0} → DbConfig → M mysql A → M mysql A
    with_connection db body s =
        (body >>=ₘ λ a. close_conn mysql >>=ₘ λ _. pure mysql a)
          (record s { info = db.dbinfo; conn = false })

    -- What both forms of `SelectMNode` do with their statement: none is `false`.
    unfoldable pub run_select : Bytes → M mysql (Option (List MNode))
    run_select sql = is_db_online >>=ₘ λ online.
        if online
        then (query_rows mysql sql >>=ₘ λ found.
            pure mysql (elim found [ none ↦ none | some rows ↦ some (map decode_row rows) ]))
        else pure mysql none

    unfoldable pub select_mnode : DbConfig → List Bytes → M mysql (Option (List MNode))
    select_mnode db filters = with_connection db (run_select (select_sql db filters))

    unfoldable pub select_mnode_columns :
        DbConfig → List (Bytes × Bytes) → M mysql (Option (List MNode))
    select_mnode_columns db columns =
        with_connection db (run_select (select_columns_sql db columns))

    -- A statement on a connection that answers; the methods below are this one.
    unfoldable pub run_statement : Bytes → M mysql Bool
    run_statement sql =
        is_db_online >>=ₘ λ online. if online then execute mysql sql else pure mysql false

    unfoldable pub update_license : DbConfig → MNode → M mysql Bool
    update_license db mn = with_connection db (run_statement (update_sql db mn))

    unfoldable pub clear_licenses : DbConfig → M mysql Bool
    clear_licenses db = with_connection db (run_statement (clear_sql db))

    unfoldable pub update_loop : DbConfig → List MNode → M mysql Bool
    update_loop db [] = pure mysql true
    update_loop db (mn ∷ mns) = execute mysql (update_sql db mn) >>=ₘ λ _. update_loop db mns

    unfoldable pub update_licenses : DbConfig → List MNode → M mysql Bool
    update_licenses db mns =
        with_connection db
          (is_db_online >>=ₘ λ online. if online then update_loop db mns else pure mysql false)
