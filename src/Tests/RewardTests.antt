-- ===== src/Tests/RewardTests.antt =====
-- The rewards of a chain with round numbers.
use uctool.Common.{
  ℕ, zero, suc, List, some, refl, inl, ◌≤◌, ◌<◌, ◌≡◌, true, false, [], ◌∷◌, ◌++◌, map, arith, pos,
}
use uctool.Reward.Shown.{shown_at, show_reward-shown}
use uctool.Reward.{
  BlockRow, no_reward, show_reward, is_end, budget_of, masternode_of, founders_of, Consensus,
  is_super_block, get_block_reward, show_reward_block, show_block,
}
use uctool.Reward.Tables.{heights, paid, show_reward_block-paid}

abbrev toy_consensus : Consensus
toy_consensus = record {
  masternode_payments_start_block = 10;
  superblock_start_block = 20;
  superblock_cycle = 5;
  end_of_founders_reward = 100;
  get_budget = λ h. 7;
  get_masternode_payment = λ h. 3;
  get_founders_reward = λ h. 2;
  get_miner_subsidy = λ h. 50;
}

show_reward_block-paid_example :
    (show_reward_block toy_consensus 3 false ≡ show_block 3 (paid toy_consensus (heights 0 4)) ∷ [])
    × (show_reward_block toy_consensus 3 true
        ≡ map (λ k. show_block 3 (get_block_reward toy_consensus k)) (heights 0 4)
          ++ show_block 3 (paid toy_consensus (heights 0 4)) ∷ [])
show_reward_block-paid_example = show_reward_block-paid toy_consensus 3

goes_on : (k : ℕ) → 0 ≤ k → k < 3 → is_end toy_consensus k ≡ false
unfolding is_end get_block_reward is_super_block budget_of masternode_of founders_of
goes_on zero low high = refl
goes_on (suc zero) low high = refl
goes_on (suc (suc zero)) low high = refl
goes_on (suc (suc (suc k))) low high = absurd (omega arith)

show_reward-shown_example :
    (rows : List BlockRow) × (show_reward toy_consensus 9 (pos 3) ≡ some (rows ++ []))
    × ((k : ℕ) → k < 3 → shown_at k rows no_reward ≡ get_block_reward toy_consensus k)
show_reward-shown_example =
    show_reward-shown toy_consensus 9 (pos 3) 3 [] goes_on (omega arith)
      (inl (refl, omega arith, refl))
