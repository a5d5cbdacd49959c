-- ===== src/Mysql/Post.antt =====
-- Postconditions of calls that go through `MySQLConnection`, and the log of statements.
use uctool.Common.{ℕ, zero, suc, ◌≡◌, refl, List, [], ◌∷◌, Bytes}
use uctool.Mysql.{MysqlApi, Session, Answer, done, null_handle, out_of_fuel, bind_answer}

abbrev pub replicate : ℕ → Bytes → List Bytes
replicate zero sql = []
replicate (suc n) sql = sql ∷ replicate n sql

module _ (mysql : MysqlApi) where
  -- A postcondition of a call. A null handle in the library ends the run, and says nothing; running
  -- out of fuel meets none.
  abbrev pub Post : {A : Type 0} → (A → Session mysql → Type 0) → Answer mysql A → Type 0
  Post P (done a t) = P a t
  Post P null_handle = Unit
  Post P out_of_fuel = ⊥

  pub Post-bind :
      {A B : Type 0} (P : A → Session mysql → Type 0) (Q : B → Session mysql → Type 0)
      (r : Answer mysql A) (f : A → Session mysql → Answer mysql B)
      → Post P r
      → ((a : A) (t : Session mysql) → P a t → Post Q (f a t))
      → Post Q (bind_answer mysql r f)
  Post-bind P Q (done a t) f h k = k a t h
  Post-bind P Q null_handle f h k = tt
  Post-bind P Q out_of_fuel f h k = absurd h

  pub Post-mono :
      {A : Type 0} (P Q : A → Session mysql → Type 0) (r : Answer mysql A)
      → Post P r
      → ((a : A) (t : Session mysql) → P a t → Q a t)
      → Post Q r
  Post-mono P Q (done a t) h k = k a t h
  Post-mono P Q null_handle h k = tt
  Post-mono P Q out_of_fuel h k = absurd h

  abbrev pub SameQueries : {A : Type 0} → Session mysql → A → Session mysql → Type 0
  SameQueries s a t = t.queries ≡ s.queries

  pub Post-self :
      {A : Type 0} (P : A → Session mysql → Type 0) (r : Answer mysql A)
      → Post P r
      → Post (λ a t. P a t × (r ≡ done a t)) r
  Post-self P (done a t) h = (h, refl)
  Post-self P null_handle h = tt
  Post-self P out_of_fuel h = absurd h
