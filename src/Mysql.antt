-- ===== src/Mysql.antt =====
-- common/MySQLConnection.cc over the MySQL client library, which is a parameter: each of its calls
-- is a function of the state of the world (server and network). `LOG` and `sleep` are left out.
-- A null handle that is passed to the library ends the run, as the library reads through it.
pub mod Post
pub mod Execute
pub mod Variables
pub mod Live
pub mod Insert
pub mod Results
use uctool.Common.{
  ℕ, zero, suc, ◌+◌, Bool, true, false, not, ◌&&◌, ◌||◌, List, [], ◌∷◌, ◌++◌, Option, none, some,
  Bytes, ltb, leb, ◌==◌, if◌then◌else◌, ℤ,
}

pub record ConnectInfo : Type 0 where
  pub host : Bytes
  pub port : ℤ
  pub username : Bytes
  pub password : Bytes
  pub db_name : Bytes

-- A row of a result: a column is none where the library gives NULL.
abbrev pub Row : Type 0
Row = List (Option Bytes)

pub record MysqlApi : Type 1 where
  pub World : Type 0
  -- `mysql_init` gives a handle or none, `mysql_real_connect` whether it connected.
  pub init : World → Bool × World
  pub real_connect : ConnectInfo → World → Bool × World
  -- The character set and the time zone, whose results the program does not read.
  pub configure : World → World
  pub close : World → World
  -- The error number of the call, 0 for success.
  pub ping : World → ℕ × World
  pub query : Bytes → World → ℕ × World
  pub store_result : World → List Row × World
  pub affected_rows : World → ℕ

module _ (mysql : MysqlApi) where
  open mysql use {World}

  -- A `MySQLConnection`, the world that it talks to, and the statements that were passed to
  -- `mysql_query`, which the theorems read. `conn` is whether the handle is not null.
  pub record Session : Type 0 where
    pub info : ConnectInfo
    pub conn : Bool
    pub world : World
    pub queries : List Bytes

  pub data Answer (A : Type 0) : Type 0 where
    done : A → Session → Answer A
    null_handle : Answer A
    out_of_fuel : Answer A

  abbrev pub M : Type 0 → Type 0
  M A = Session → Answer A

  abbrev pub bind_answer : {A B : Type 0} → Answer A → (A → M B) → Answer B
  bind_answer (done a s) f = f a s
  bind_answer null_handle f = null_handle
  bind_answer out_of_fuel f = out_of_fuel

  infixl 5 ◌>>=◌ ◌>>◌
  abbrev pub ◌>>=◌ : {A B : Type 0} → M A → (A → M B) → M B
  ◌>>=◌ m f s = bind_answer (m s) f

  abbrev pub ◌>>◌ : {A B : Type 0} → M A → M B → M B
  m >> n = m >>= λ _. n

  abbrev pub pure : {A : Type 0} → A → M A
  pure a s = done a s

  -- `close`
  unfoldable pub close_conn : M Unit
  close_conn s =
      if s.conn then done tt (record s { conn = false; world = mysql.close s.world }) else done tt s

  init_conn : M Unit
  init_conn s =
      let (handle, w) = mysql.init s.world in done tt (record s { conn = handle; world = w })

  -- A call of the library that needs the handle.
  abbrev with_handle : {A : Type 0} → M A → M A
  with_handle m s = if s.conn then m s else null_handle

  connect : M Bool
  connect s = let (ok, w) = mysql.real_connect s.info s.world in done ok (record s { world = w })

  configure_conn : M Unit
  configure_conn s = done tt (record s { world = mysql.configure s.world })

  -- `open`: a failing `mysql_init` is logged and the null handle is used all the same.
  unfoldable pub open_conn : M Bool
  unfolding close_conn init_conn connect configure_conn
  open_conn = do
    close_conn
    init_conn
    ok ← with_handle connect
    (if ok then (configure_conn >> pure true) else (close_conn >> pure false))

  -- `if (!conn) { open(); }`
  unfoldable pub ensure_open : M Unit
  unfolding open_conn
  ensure_open s = if s.conn then done tt s else (open_conn >> pure tt) s

  unfoldable pub ping_once : M ℕ
  ping_once = with_handle λ s. let (e, w) = mysql.ping s.world in done e (record s { world = w })

  unfoldable pub query_once : Bytes → M ℕ
  query_once sql = with_handle λ s.
      let (e, w) = mysql.query sql s.world in
      done e (record s { world = w; queries = s.queries ++ sql ∷ [] })

  -- The second half of `ping`: reconnect and ask again.
  unfoldable pub ping_again : M Bool
  unfolding close_conn open_conn ping_once
  ping_again = do close_conn; open_conn; e ← ping_once; pure (e == 0)

  -- `ping`
  unfoldable pub ping : M Bool
  ping = do ensure_open; e ← ping_once; (if e == 0 then pure true else ping_again)

  abbrev pub is_network_error : ℕ → Bool
  is_network_error e = e == 2006 || e == 2013

  -- What `execute` does between two attempts.
  unfoldable pub reconnect : M Unit
  unfolding ping_once close_conn
  reconnect = do e ← ping_once; (if e == 0 then pure tt else close_conn)

  unfoldable pub attempt : Bytes → M ℕ
  attempt sql = do ensure_open; query_once sql

  -- `execute` from the label `query` on; `times` is `queryTimes` there.
  unfoldable pub execute_loop : ℕ → ℕ → Bytes → M Bool
  execute_loop zero times sql = λ s. out_of_fuel
  execute_loop (suc fuel) times sql = attempt sql >>= λ e.
      if e == 0
      then pure true
      else (if not (is_network_error e)
          then pure false
          else (if leb (suc times) 3
              then (reconnect >>= λ _. execute_loop fuel (suc times) sql)
              else pure false))

  -- `execute`
  unfoldable pub execute : Bytes → M Bool
  execute = execute_loop 4 0

  -- `query`: the rows of the result, none where the statement failed.
  unfoldable pub query_rows : Bytes → M (Option (List Row))
  query_rows sql = execute sql >>= λ ok.
      if ok
      then (λ s.
          let (rows, w) = mysql.store_result s.world in done (some rows) (record s { world = w }))
      else pure none
