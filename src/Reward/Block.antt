-- ===== src/Reward/Block.antt =====
-- What a block pays (tools/reward.cc, `GetBlockReward`, `IsSuperBlock`, `ShowAmount`).
use uctool.Common.{ℕ, ◌+◌, ◌*◌, ◌%◌, ◌≤◌, ◌<◌, ◌≡◌, ◌≢◌, ◌↔◌, ◌⊎◌, true, false, arith}
use uctool.Reward.{Consensus, coin, show_amount, is_super_block, get_block_reward}

-- `ShowAmount` shows the amount exactly: the part behind the point is below one coin, and the two
-- parts make up the amount.
pub show_amount_lem :
    (n : ℕ) → ((show_amount n).0 * coin + (show_amount n).1 ≡ n) × ((show_amount n).1 < coin)
unfolding show_amount
show_amount_lem n = omega arith

module _ (cp : Consensus) where
  -- A superblock is one from both start heights on whose height the cycle divides. It pays the
  -- budget and no masternode; any other block from the payments start on pays its masternode and no
  -- budget; before that height a block pays neither.
  pub block_reward-superblock :
      (h : ℕ)
      → ((is_super_block cp h ≡ true) ↔ (
          (cp.masternode_payments_start_block ≤ h)
          × (cp.superblock_start_block ≤ h)
          × (h % cp.superblock_cycle ≡ 0)))
        × (is_super_block cp h ≡ true
            → ((get_block_reward cp h).bud ≡ cp.get_budget h) × ((get_block_reward cp h).mn ≡ 0))
        × (is_super_block cp h ≡ false
            → cp.masternode_payments_start_block ≤ h
            → ((get_block_reward cp h).bud ≡ 0)
              × ((get_block_reward cp h).mn ≡ cp.get_masternode_payment h))
        × (h < cp.masternode_payments_start_block
            → ((get_block_reward cp h).bud ≡ 0) × ((get_block_reward cp h).mn ≡ 0))
  unfolding is_super_block get_block_reward
  block_reward-superblock h = (ground arith, ground arith, ground arith, ground arith)

  -- Block 1 pays the whole subsidy to the founders and nothing to the miner; every other block pays
  -- its subsidy to the miner, and to the founders their schedule up to its end and nothing at height
  -- 0 or from the end on.
  pub block_reward-subsidy :
      (h : ℕ)
      → (h ≡ 1
          → ((get_block_reward cp h).miner ≡ 0)
            × ((get_block_reward cp h).fud ≡ cp.get_miner_subsidy h))
        × (h ≢ 1
            → ((get_block_reward cp h).miner ≡ cp.get_miner_subsidy h)
              × ((1 < h
                    → h < cp.end_of_founders_reward
                    → (get_block_reward cp h).fud ≡ cp.get_founders_reward h)
                  × ((h ≡ 0) ⊎ (cp.end_of_founders_reward ≤ h) → (get_block_reward cp h).fud ≡ 0)))
  unfolding get_block_reward
  block_reward-subsidy h = (ground arith, ground arith)
