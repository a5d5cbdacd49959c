-- ===== src/DbTool.antt =====
-- tools/dbtool.cc: what the commands `dbcheckall` and `dbgetall` print of the rows that they select.
-- `clock mn` is the time at which the node `mn` is checked.
pub mod Selecting
use uctool.Common.{
  ℕ, suc, ◌+◌, ◌≡◌, refl, Bool, not, ◌&&◌, List, [], ◌∷◌, Option, none, some, codes, length,
  if◌then◌else◌, ℤ, pos, arith,
}
use uctool.Chain.{ChainApi}
use uctool.Node.{MNode, check}
use uctool.Numbers.{show_int}
use uctool.Mysql.{MysqlApi, M, ◌>>=◌, pure}
use uctool.Db.{DbConfig, select_mnode_columns}

-- A line of the output: the text of a check, a licence that does not verify, or the node itself.
pub data Line : Type 0 where
  failed_check failed_license whole_node : MNode → Line

-- The lines, and `icount`, which is printed as the number of entries that are in order.
pub record Report : Type 0 where
  pub printed : List Line
  pub icount : ℕ

abbrev pub prints : Line → Report → Report
prints line r = record { printed = line ∷ r.printed; icount = r.icount }

abbrev pub counts : Report → Report
counts r = record { printed = r.printed; icount = suc r.icount }

module _ (chain : ChainApi) (need : ℤ) (clock : MNode → ℤ) where
  abbrev pub passes : MNode → Bool
  passes mn = (check chain mn (clock mn) need).0

  unfoldable pub check_all_loop : List MNode → Report
  check_all_loop [] = record { printed = []; icount = 0 }
  check_all_loop (mn ∷ mns) =
      let rest = check_all_loop mns in
      if not (passes mn)
      then prints (failed_check mn) rest
      else (if not (chain.verify_license mn.node_data)
          then prints (failed_license mn) rest
          else counts rest)

  unfoldable pub get_all_loop : List MNode → Report
  get_all_loop [] = record { printed = []; icount = 0 }
  get_all_loop (mn ∷ mns) =
      let rest = get_all_loop mns in if passes mn then prints (whole_node mn) rest else counts rest

  module _ (mysql : MysqlApi) where
    -- `DBCheckAll` and `DBGetAll`: the number of entries and the report, none where the database
    -- could not be read.
    unfoldable pub db_check_all : DbConfig → M mysql (Option (ℕ × Report))
    db_check_all db =
        ◌>>=◌ mysql (select_mnode_columns chain mysql db ((codes "status", show_int (pos 1)) ∷ []))
          λ found.
            pure mysql
              (elim found [ none ↦ none | some mns ↦ some (length mns, check_all_loop mns) ])

    unfoldable pub db_get_all : DbConfig → M mysql (Option (ℕ × Report))
    db_get_all db = ◌>>=◌ mysql (select_mnode_columns chain mysql db []) λ found.
        pure mysql (elim found [ none ↦ none | some mns ↦ some (length mns, get_all_loop mns) ])

  -- The number of nodes that a test accepts.
  abbrev pub count_of : (MNode → Bool) → List MNode → ℕ
  count_of test [] = 0
  count_of test (mn ∷ mns) = (if test mn then 1 else 0) + count_of test mns

  -- `dbcheckall` counts exactly the nodes that pass the check and whose licence verifies, and prints
  -- a line for each other. `dbgetall` prints the nodes that pass and counts those that do not,
  -- though it calls what it has counted the entries that are in order.
  pub check_all_counts :
      (mns : List MNode)
      → ((check_all_loop mns).icount
          ≡ count_of (λ mn. passes mn && chain.verify_license mn.node_data) mns)
        × ((check_all_loop mns).icount + length (check_all_loop mns).printed ≡ length mns)
        × ((get_all_loop mns).icount ≡ count_of (λ mn. not (passes mn)) mns)
        × (length (get_all_loop mns).printed ≡ count_of passes mns)
  unfolding check_all_loop get_all_loop
  check_all_counts [] = (refl, refl, refl, refl)
  check_all_counts (mn ∷ mns) =
      let (a, b, c, d) = check_all_counts mns in
      (ground (arith, a), ground (arith, b), ground (arith, c), ground (arith, d))
