-- ===== src/KeyRing.antt =====
-- The loop by which both servers load their private keys from the configuration, `-privkey1`,
-- `-privkey2`, …: `CLicenseWatcher::InitWatcherKey` and the first half of
-- `CUCenter::InitUCenterKey`. The configuration is a function of the key's number: what
-- `GetArg("-privkey<n>", "")` gives. The keys are kept by version, from 1 on.
pub mod Loading
use uctool.Common.{
  ℕ, zero, suc, Bool, List, [], ◌∷◌, ◌++◌, Option, none, some, Bytes, if◌then◌else◌, bytes_eq, ◌==◌,
}
use uctool.Chain.{ChainApi}
use uctool.Keys.{from_encoded, get_key, ◌>>=◌}

pub data Loaded : Type 0 where
  loaded : List (ℕ × Bytes) → Loaded
  invalid_key out_of_fuel : Loaded

-- Both constructors refuse a bad key and an empty set of keys.
abbrev pub accept : Loaded → Option (List (ℕ × Bytes))
accept (loaded []) = none
accept (loaded (k ∷ ks)) = some (k ∷ ks)
accept invalid_key = none
accept out_of_fuel = none

-- `map[version]`; a key that is not there is a default one.
unfoldable pub key_at : List (ℕ × Bytes) → ℕ → Option Bytes
key_at [] version = none
key_at ((v, key) ∷ rest) version = if v == version then some key else key_at rest version

module _ (chain : ChainApi) (arg : ℕ → Bytes) where
  -- `CKeyExtension privkey(1, strKey)` and its `GetKey`.
  unfoldable pub read_key : ℕ → Option Bytes
  read_key version = do k ← from_encoded chain 1 (arg version); get_key chain k.vch_data

  unfoldable pub load_keys : ℕ → ℕ → List (ℕ × Bytes) → Loaded
  load_keys zero version keys = out_of_fuel
  load_keys (suc fuel) version keys =
      if bytes_eq (arg version) [] then loaded keys else elim (read_key version) [
        | none ↦ invalid_key
        | some key ↦ load_keys fuel (suc version) (keys ++ (version, key) ∷ [])
      ]

  unfoldable pub init_keys : ℕ → Option (List (ℕ × Bytes))
  unfolding load_keys
  init_keys fuel = accept (load_keys fuel 1 [])
