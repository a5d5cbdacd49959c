-- ===== src/Server.antt =====
-- The center as a whole, ulordcenter/ulordcenter.cc on ulordcenter/codec.h: the constructor makes
-- `LengthHeaderCodec::onMessage` the message callback of the TCP server and `onStringMessage` the
-- callback of the codec. The requests of all connections are handled one after the other, at the
-- times that `clock` gives. The two message lengths are those of the configuration.
pub mod Runs
pub mod EndToEnd
pub mod Main
pub mod Starting
use uctool.Common.{
  ℕ, zero, suc, Bool, true, false, List, [], ◌∷◌, ◌++◌, Option, none, some, Bytes, ℤ,
}
use uctool.Net.{BufferApi}
use uctool.Codec.{Outcome, on_message, send}
use uctool.Chain.{ChainApi}
use uctool.KeyRing.{init_keys}
use uctool.Mysql.{MysqlApi, Session, Answer, done, null_handle, out_of_fuel, M, ◌>>=◌, pure}
use uctool.Db.{DbConfig}
use uctool.Center.{Center, init_cache}
use uctool.Center.Requests.{Handled, replied, silent, unreadable, thrown, on_string_message}

module _ (chain : ChainApi) (mysql : MysqlApi) where
  -- `InitUCenterKey`: the keys of the configuration `arg`, then the cache; none is its `false`. A
  -- configuration that never ends is not followed beyond the fuel.
  unfoldable pub init_ucenter_key : (ℕ → Bytes) → ℕ → DbConfig → M mysql (Option Center)
  init_ucenter_key arg fuel db = elim (init_keys chain arg fuel) [
    | none ↦ pure mysql none
    | some keys ↦
        ◌>>=◌ mysql
          (init_cache chain mysql (record { ucenter_keys = keys; db = db; mnode_list = [] }))
          λ c. pure mysql (some c)
  ]

  -- The server: what it has handed to `codec_.send`, with the connection, or that an exception or a
  -- null handle has ended it.
  pub data Server : Type 0 where
    running : (count : ℕ) (out : List (ℕ × Bytes)) (c : Center) (s : Session mysql) → Server
    ended : (out : List (ℕ × Bytes)) → Server

  module _ (expectlen expectlen_noboost : ℕ) (clock : ℕ → ℤ) where
    -- What becomes of the server behind a call of `onStringMessage`.
    unfoldable pub behind : ℕ → ℕ → List (ℕ × Bytes) → Answer mysql (Handled × Center) → Server
    behind k count out (done (replied reply, c) s) =
        running (suc count) (out ++ (k, reply) ∷ []) c s
    behind k count out (done (silent, c) s) = running (suc count) out c s
    behind k count out (done (unreadable, c) s) = running (suc count) out c s
    behind k count out (done (thrown, c) s) = ended out
    behind k count out null_handle = ended out
    behind k count out out_of_fuel = ended out

    -- One message. An ended server handles nothing more; the process is gone, and what a buffer holds
    -- then stands for nothing.
    unfoldable pub serve : Server → ℕ × Bytes → Server
    unfolding behind
    serve (running count out c s) (k, message) =
        behind k count out
          (on_string_message chain mysql expectlen expectlen_noboost c message (clock count) s)
    serve (ended out) message = ended out
