-- ===== src/Reward.antt =====
-- tools/reward.cc: the reward of a block by height, and the tables `rewardshow`, `rewardstatus` and
-- `rewardblock`. The consensus parameters and the four schedules are the chain's, a parameter.
-- Heights and amounts are natural numbers; `int` and `CAmount` do not wrap in the ranges shown.
pub mod Block
pub mod Tables
pub mod Shown
use uctool.Common.{
  ℕ, zero, suc, ◌+◌, ◌-◌, ◌*◌, ◌/◌, ◌%◌, Bool, true, false, not, ◌&&◌, ◌||◌, List, [], ◌∷◌, ◌++◌,
  Option, none, some, ltb, leb, ◌==◌, if◌then◌else◌, ℤ, pos, eqb_ℤ, leb_ℤ,
}

pub record Consensus : Type 0 where
  pub masternode_payments_start_block : ℕ
  pub superblock_start_block : ℕ
  pub superblock_cycle : ℕ
  pub end_of_founders_reward : ℕ
  pub get_budget : ℕ → ℕ
  pub get_masternode_payment : ℕ → ℕ
  pub get_founders_reward : ℕ → ℕ
  pub get_miner_subsidy : ℕ → ℕ

pub record Reward : Type 0 where
  pub miner : ℕ
  pub bud : ℕ
  pub mn : ℕ
  pub fud : ℕ

abbrev pub no_reward : Reward
no_reward = record { miner = 0; bud = 0; mn = 0; fud = 0 }

abbrev pub add_reward : Reward → Reward → Reward
add_reward a b = record {
  miner = a.miner + b.miner;
  bud = a.bud + b.bud;
  mn = a.mn + b.mn;
  fud = a.fud + b.fud;
}

abbrev pub total : Reward → ℕ
total r = r.bud + r.fud + r.miner + r.mn

abbrev pub same_reward : Reward → Reward → Bool
same_reward a b = a.miner == b.miner && a.bud == b.bud && a.mn == b.mn && a.fud == b.fud

abbrev pub coin : ℕ
coin = 100000000

abbrev pub year_blocks : ℕ
year_blocks = 210240

-- `ShowAmount`: the whole coins, and what `%08ld` prints behind the point.
unfoldable pub show_amount : ℕ → ℕ × ℕ
show_amount n = let whole = n / coin in (whole, n - whole * coin)

-- A row of `showBlock` and of `showYears`.
pub record BlockRow : Type 0 where
  pub height : ℕ
  pub reward : Reward
  pub year : ℕ
  pub block_in_year : ℕ

unfoldable pub show_block : ℕ → Reward → BlockRow
show_block h r = record {
  height = h;
  reward = r;
  year = h / year_blocks + 1;
  block_in_year = h % year_blocks;
}

pub data YearRow : Type 0 where
  period : (number first last : ℕ) → Reward → YearRow
  totals : (years last : ℕ) → Reward → YearRow

-- The sums of `ShowRewardStatus`, over all periods and over this one, and whether the loop goes on.
pub record Tally : Type 0 where
  pub sum : Reward
  pub part : Reward
  pub running : Bool

module _ (cp : Consensus) where
  open cp use {
    masternode_payments_start_block, superblock_start_block, superblock_cycle,
    end_of_founders_reward, get_budget, get_masternode_payment, get_founders_reward,
    get_miner_subsidy,
  }

  unfoldable pub is_super_block : ℕ → Bool
  is_super_block height =
      if leb masternode_payments_start_block height
      then leb superblock_start_block height && height % superblock_cycle == 0
      else false

  unfoldable pub budget_of : ℕ → ℕ
  budget_of height =
      if leb masternode_payments_start_block height
      then (if leb superblock_start_block height && height % superblock_cycle == 0
          then get_budget height
          else 0)
      else 0

  unfoldable pub masternode_of : ℕ → ℕ
  masternode_of height =
      if leb masternode_payments_start_block height
      then (if leb superblock_start_block height && height % superblock_cycle == 0
          then 0
          else get_masternode_payment height)
      else 0

  unfoldable pub founders_of : ℕ → ℕ
  founders_of height =
      if ltb 1 height && ltb height end_of_founders_reward
      then get_founders_reward height
      else (if height == 1 then get_miner_subsidy height else 0)

  unfoldable pub get_block_reward : ℕ → Reward
  unfolding budget_of masternode_of founders_of
  get_block_reward height = record {
    miner = if height == 1 then 0 else get_miner_subsidy height;
    bud = budget_of height;
    mn = masternode_of height;
    fud = founders_of height;
  }

  -- A superblock that pays nothing: the tables end there.
  unfoldable pub is_end : ℕ → Bool
  is_end h = same_reward (get_block_reward h) no_reward && is_super_block h

  -- The loop of `ShowReward` from height `h`; `rounds` is 0 for no limit. `none`: out of fuel.
  unfoldable pub show_reward_loop :
      ℕ → ℤ → ℕ → Reward → Reward → List BlockRow → Option (List BlockRow)
  show_reward_loop zero rounds h last sum out = none
  show_reward_loop (suc fuel) rounds h last sum out =
      let blk = get_block_reward h in
      let out' = if same_reward last blk then out else out ++ show_block h blk ∷ [] in
      let rest = show_reward_loop fuel rounds (suc h) blk (add_reward sum blk) out' in
      if is_end h
      then some (out ++ show_block h sum ∷ [])
      else (if not (eqb_ℤ rounds (pos 0)) && leb_ℤ rounds (pos (suc h)) then some out' else rest)

  unfoldable pub show_reward : ℕ → ℤ → Option (List BlockRow)
  unfolding show_reward_loop
  show_reward fuel rounds = show_reward_loop fuel rounds 0 no_reward no_reward []

  -- The rows of `ShowRewardBlock`: `left` heights from `i`, each labelled with the height `h` that
  -- was asked for, as the code does.
  unfoldable pub reward_block_loop : ℕ → ℕ → ℕ → Bool → Reward → List BlockRow
  reward_block_loop zero i h detail sum = show_block h sum ∷ []
  reward_block_loop (suc left) i h detail sum =
      let blk = get_block_reward i in
      let rest = reward_block_loop left (suc i) h detail (add_reward sum blk) in
      if detail then show_block h blk ∷ rest else rest

  unfoldable pub show_reward_block : ℕ → Bool → List BlockRow
  unfolding reward_block_loop
  show_reward_block h detail = reward_block_loop (suc h) 0 h detail no_reward

  -- The inner loop of `ShowRewardStatus`: `left` heights from `i`.
  unfoldable pub status_inner : ℕ → ℕ → Tally → Tally
  status_inner zero i t = t
  status_inner (suc left) i t =
      let blk = get_block_reward i in
      let rest = status_inner left (suc i) (record {
        sum = add_reward t.sum blk;
        part = add_reward t.part blk;
        running = t.running;
      }) in
      if is_end i then record t { running = false } else rest

  -- The outer loop, at period `h`. `none`: out of fuel.
  unfoldable pub status_loop : ℕ → ℕ → ℕ → ℕ → Reward → List YearRow → Option (List YearRow)
  status_loop zero years rounds h sum out = none
  status_loop (suc fuel) years rounds h sum out =
      let width = years * year_blocks in
      let t =
        status_inner width (h * width) (record { sum = sum; part = no_reward; running = true }) in
      let out' = out ++ period (suc h) (h * width) (suc h * width - 1) t.part ∷ [] in
      let rest = status_loop fuel years rounds (suc h) t.sum out' in
      if not t.running || (ltb 0 rounds && leb rounds (suc h))
      then some (out' ++ totals (suc h * years) (suc h * width - 1) t.sum ∷ [])
      else rest

  unfoldable pub show_reward_status : ℕ → ℕ → ℕ → Option (List YearRow)
  unfolding status_loop
  show_reward_status fuel years rounds = status_loop fuel years rounds 0 no_reward []
