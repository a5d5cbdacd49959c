-- ===== src/Server/Main.antt =====
-- ulordcenter/ucentermain.cc: the main program of the center, and what the constructor of `CUCenter`
-- reads from the configuration. `GetArg` and `SelectParams` are the chain's: the values are
-- arguments. The event loop is muduo's.
use uctool.Common.{
  ℕ, ◌%◌, ◌^◌, ◌≡◌, refl, sym, ap, ◌⊎◌, inl, inr, Bool, [], none, some, Bytes, if◌then◌else◌, ℤ,
  pos, signed32, ltb_ℤ, ◌<ℤ◌, arith, Bool-cases, Option-cases,
}
use uctool.Chain.{ChainApi}
use uctool.KeyRing.{init_keys}
use uctool.Mysql.{MysqlApi, Session, M, ◌>>=◌, pure}
use uctool.Mysql.Post.{Post, Post-bind}
use uctool.Db.{DbConfig, to_unsigned}
use uctool.Center.{Center}
use uctool.Center.Keyed.{IsKeyed}
use uctool.Server.{init_ucenter_key}
use uctool.Center.Start.{init_cache-IsKeyed}

-- What `InitChain` selects, by `-testnet`.
pub data Network : Type 0 where
  testnet main_net : Network

unfoldable pub init_chain : Bool → Network
init_chain is_test = if is_test then testnet else main_net

-- The cast of `-tcpport` to 16 bits.
unfoldable pub tcp_port : ℤ → ℕ
tcp_port arg = to_unsigned arg % 2 ^ 16

-- How the program goes on behind its set-up: it returns -1, or it serves with this many threads, 0
-- where their number is not set, from this state.
pub data Exit : Type 0 where
  exits : Exit
  serves : (threads : ℤ) (c : Center) → Exit

-- `int nThread = GetArg("-thread", 2)` and its test.
unfoldable pub threads_of : ℤ → ℤ
threads_of arg = let n = signed32 (to_unsigned arg) in if ltb_ℤ (pos 1) n then n else pos 0

threads_of-many : (thread : ℤ) → (threads_of thread ≡ pos 0) ⊎ (pos 1 <ℤ threads_of thread)
unfolding threads_of
threads_of-many thread =
    let n = signed32 (to_unsigned thread) in
    elim (Bool-cases (ltb_ℤ (pos 1) n)) [
      | inl many ↦ rw (many) (inr (ground (arith, many)))
      | inr few ↦ rw (few) (inl refl)
    ]

module _ (chain : ChainApi) (mysql : MysqlApi) where
  -- `main`, up to the loop.
  unfoldable pub center_main : (ℕ → Bytes) → ℕ → DbConfig → ℤ → M mysql Exit
  center_main arg fuel db thread =
      ◌>>=◌ mysql (init_ucenter_key chain mysql arg fuel db)
        λ r. elim r [ none ↦ pure mysql exits | some c ↦ pure mysql (serves (threads_of thread) c) ]

  -- Where the start of the center comes to its end, it serves only with the keys of its
  -- configuration and a cache that is keyed by the coins of its nodes, on more than one thread or
  -- on that of the loop; it returns -1 only where the keys cannot be loaded.
  pub center_main-Serves :
      (arg : ℕ → Bytes) (fuel : ℕ) (db : DbConfig) (thread : ℤ) (s : Session mysql)
      → Post mysql
          (λ r t.
            ((r ≡ exits) × (init_keys chain arg fuel ≡ none))
            ⊎ ((n : ℤ) × (c : Center) × (r ≡ serves n c)
                × (init_keys chain arg fuel ≡ some c.ucenter_keys)
                × IsKeyed c.mnode_list
                × ((n ≡ pos 0) ⊎ (pos 1 <ℤ n))))
          (center_main arg fuel db thread s)
  unfolding center_main init_ucenter_key
  center_main-Serves arg fuel db thread s = elim (Option-cases (init_keys chain arg fuel)) [
    | inl e ↦ rw (e, init_ucenter_key) (inl (refl, refl))
    | inr (keys, e) ↦
        let fresh : Center = record { ucenter_keys = keys; db = db; mnode_list = [] } in
        rw (e, init_ucenter_key)
          (Post-bind mysql
            (λ r t. (c : Center) × (r ≡ some c) × IsKeyed c.mnode_list × (c.ucenter_keys ≡ keys)) _
            _ _
            (Post-bind mysql (λ c t. IsKeyed c.mnode_list × (c.ucenter_keys ≡ keys)) _ _ _
              (init_cache-IsKeyed chain mysql fresh s) λ c t h. (c, refl, h.0, h.1))
            λ r t found.
              let (c, is, keyed, same) = found in
              rw (is) (
                inr
                  (threads_of thread, c, refl, ap some (sym same), keyed, threads_of-many thread)))
  ]
