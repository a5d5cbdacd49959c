-- ===== src/LicenseTool.antt =====
-- licensetool/licmain.cc: the licence tool as a whole, `main` on `CLicenseWatcher`. The modes are a
-- single round, the clearing of all licences, and rounds for ever, of which some number is followed.
pub mod Statements
pub mod Settled
use uctool.Common.{
  ℕ, zero, suc, Bool, List, [], ◌∷◌, Option, none, some, Bytes, codes, length, get_or, ltb,
  bytes_eq, if◌then◌else◌, ℤ,
}
use uctool.Chain.{ChainApi}
use uctool.KeyRing.{init_keys}
use uctool.Node.{MNode}
use uctool.Mysql.{MysqlApi, M, done, ◌>>=◌, pure}
use uctool.Db.{DbConfig, clear_licenses}
use uctool.Watcher.{Watcher, run_round}

-- `keyVersion_`: the number of the key that was loaded last.
abbrev pub last_version : List (ℕ × Bytes) → ℕ → ℕ
last_version [] version = version
last_version ((v, key) ∷ rest) version = last_version rest v

-- What `main` does for a command line.
pub data Mode : Type 0 where
  test clear nothing run : Mode

unfoldable pub mode_of : List Bytes → Mode
mode_of args =
    if ltb 1 (length args)
    then (if bytes_eq (codes "test") (get_or args 1 [])
        then test
        else (if bytes_eq (codes "clear") (get_or args 1 []) then clear else nothing))
    else run

-- The times of a round: of its selection, and of the signing of each node.
pub record Times : Type 0 where
  pub now : ℤ
  pub clock : MNode → ℤ

module _ (chain : ChainApi) where
  -- The constructor of `CLicenseWatcher`; none is its `throw -1`.
  unfoldable pub make_watcher :
      (ℕ → Bytes) → ℕ → (licperiod needupdate : ℤ) → DbConfig → Option Watcher
  make_watcher arg fuel licperiod needupdate db = elim (init_keys chain arg fuel) [
    | none ↦ none
    | some keys ↦ some (record {
      lic_period_limit = licperiod;
      need_update_period = needupdate;
      db = db;
      watcher_keys = keys;
      key_version = last_version keys 0;
    })
  ]

  module _ (mysql : MysqlApi) where
    -- `Run`, for `rounds` rounds.
    unfoldable pub run_rounds : Watcher → (ℕ → Times) → ℕ → M mysql Unit
    run_rounds w times zero = pure mysql tt
    run_rounds w times (suc rounds) =
        ◌>>=◌ mysql (run_rounds w times rounds)
          λ _. run_round chain mysql w (times rounds).now (times rounds).clock

    -- `main`, behind the constructor.
    unfoldable pub lic_main : Watcher → (ℕ → Times) → ℕ → Mode → M mysql Unit
    lic_main w times rounds test = run_round chain mysql w (times 0).now (times 0).clock
    lic_main w times rounds clear = ◌>>=◌ mysql (clear_licenses chain mysql w.db) λ _. pure mysql tt
    lic_main w times rounds nothing = pure mysql tt
    lic_main w times rounds run = run_rounds w times rounds
