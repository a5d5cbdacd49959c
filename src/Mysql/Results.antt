-- ===== src/Mysql/Results.antt =====
-- `MySQLResult` of common/MySQLConnection.cc, the owner of a result of the client library. A result
-- is named by a number, a null pointer is none; `freed` is what was given to `mysql_free_result`.
use uctool.Common.{
  ℕ, ◌≡◌, sym, ◌∙◌, List, [], ◌∷◌, ◌++◌, foldl, Option, none, some, append-nil, append_assoc,
}
use uctool.Mysql.{Row}

pub record Result : Type 0 where
  pub result : Option ℕ
  pub freed : List ℕ

-- What the library knows of a result that is not freed. The cursor moves with each row.
pub record ResultApi : Type 0 where
  pub num_rows : ℕ → ℕ
  pub num_fields : ℕ → ℕ
  pub fetch_row : ℕ → Option Row

abbrev pub own : Option ℕ → List ℕ
own none = []
own (some r) = r ∷ []

unfoldable pub make_result : Option ℕ → Result
make_result r = record { result = r; freed = [] }

unfoldable pub reset : Result → Option ℕ → Result
reset self r = record { result = r; freed = self.freed ++ own self.result }

-- The destructor: what has been freed then.
unfoldable pub destroy : Result → List ℕ
destroy self = self.freed ++ own self.result

-- `numRows`, which is 0 without a result.
unfoldable pub num_rows : ResultApi → Result → ℕ
num_rows api self = elim self.result [ none ↦ 0 | some r ↦ api.num_rows r ]

-- `fields` and `nextRow`; none is a null pointer that the library reads through.
unfoldable pub fields : ResultApi → Result → Option ℕ
fields api self = elim self.result [ none ↦ none | some r ↦ some (api.num_fields r) ]

unfoldable pub next_row : ResultApi → Result → Option (Option Row)
next_row api self = elim self.result [ none ↦ none | some r ↦ some (api.fetch_row r) ]

-- The results among these pointers.
unfoldable pub owned : List (Option ℕ) → List ℕ
owned [] = []
owned (r ∷ rs) = own r ++ owned rs

destroy-resets :
    (self : Result) (rs : List (Option ℕ))
    → destroy (foldl reset self rs) ≡ self.freed ++ own self.result ++ owned rs
unfolding destroy reset owned
destroy-resets self [] = sym (append-nil (self.freed ++ own self.result))
destroy-resets self (r ∷ rs) = destroy-resets (reset self r) rs ∙ simp (append_assoc)

-- Whatever results the owner is given, one after the other, null pointers among them: when it is gone
-- each of them has been freed, once, in their order, and nothing else.
pub destroy-owned :
    (first : Option ℕ) (rs : List (Option ℕ))
    → destroy (foldl reset (make_result first) rs) ≡ owned (first ∷ rs)
unfolding make_result owned
destroy-owned first rs = destroy-resets (make_result first) rs
