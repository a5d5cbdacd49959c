-- ===== src/Mysql/Variables.antt =====
-- `MySQLConnection::getVariable` of common/MySQLConnection.cc.
use uctool.Common.{
  ℕ, ◌≤◌, ◌≡◌, refl, ◌⊎◌, inl, inr, List, [], ◌∷◌, ◌++◌, Option, none, some, Bytes, codes, get_or,
  Bool-cases,
}
use uctool.Mysql.{MysqlApi, Session, Row, M, ◌>>=◌, pure, query_rows, execute}
use uctool.Mysql.Post.{Post, Post-bind, replicate}
use uctool.Mysql.Execute.{Executed, execute-Executed}

unfoldable pub variable_sql : Bytes → Bytes
variable_sql name = codes "SHOW VARIABLES LIKE " ++ 34 ∷ name ++ 34 ∷ 59 ∷ []

-- The value of the first row, the empty text where there is no row; none is a null pointer.
abbrev pub first_value : Option (List Row) → Option Bytes
first_value none = some []
first_value (some []) = some []
first_value (some (row ∷ rows)) = get_or row 1 none

module _ (mysql : MysqlApi) where
  unfoldable pub get_variable : Bytes → M mysql (Option Bytes)
  get_variable name =
      ◌>>=◌ mysql (query_rows mysql (variable_sql name)) λ found. pure mysql (first_value found)

  -- One to four copies of the statement were passed on.
  abbrev Passed : Bytes → Session mysql → Session mysql → Type 0
  Passed sql s t = (k : ℕ) × (1 ≤ k) × (k ≤ 4) × (t.queries ≡ s.queries ++ replicate k sql)

  -- The rows are those of a result that the library stored, if there are any.
  abbrev Stored : Option (List Row) → Type 0
  Stored found = (found ≡ none) ⊎ ((w : mysql.World) × (found ≡ some (mysql.store_result w).0))

  query_rows-Stored :
      (sql : Bytes) (s : Session mysql)
      → Post mysql (λ found t. Passed sql s t × Stored found) (query_rows mysql sql s)
  unfolding query_rows
  query_rows-Stored sql s =
      Post-bind mysql (Executed mysql 4 sql s) (λ found t. Passed sql s t × Stored found)
        (execute mysql sql s) _ (execute-Executed mysql sql s)
        λ ok t ran. elim (Bool-cases ok) [
          | inl good ↦ rw good (ran.0, inr (t.world, refl))
          | inr bad ↦ rw bad (ran.0, inl refl)
        ]

  -- `getVariable` passes its one statement on, from one to four times, and gives the empty text or
  -- the value in the first row of what the library then stored.
  get_variable-Stored :
      (name : Bytes) (s : Session mysql)
      → Post mysql
          (λ value t.
            Passed (variable_sql name) s t
            × ((found : Option (List Row)) × Stored found × (value ≡ first_value found)))
          (get_variable name s)
  unfolding get_variable
  get_variable-Stored name s =
      Post-bind mysql (λ found t. Passed (variable_sql name) s t × Stored found)
        (λ value t.
          Passed (variable_sql name) s t
          × ((found : Option (List Row)) × Stored found × (value ≡ first_value found)))
        (query_rows mysql (variable_sql name) s) _ (query_rows-Stored (variable_sql name) s)
        λ found t h. (h.0, (found, h.1, refl))
