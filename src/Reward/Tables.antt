-- ===== src/Reward/Tables.antt =====
-- What the tables of tools/reward.cc show.
use uctool.Common.{
  ℕ, zero, suc, ◌+◌, ◌*◌, ◌-◌, ◌≤◌, ◌<◌, ◌≡◌, refl, sym, ap, ◌∙◌, inl, inr, true, false, not, ◌&&◌,
  ◌||◌, List, [], ◌∷◌, ◌++◌, map, Option, some, arith, ltb, leb, length, length-append, Bool-cases,
}
use mathlib.Core.Path.{ap₂}
use uctool.Reward.{
  Consensus, Reward, no_reward, add_reward, year_blocks, show_block, YearRow, period, totals,
  get_block_reward, is_end, reward_block_loop, show_reward_block, Tally, status_inner, status_loop,
  show_reward_status,
}

pub add_reward_assoc :
    (a b c : Reward) → add_reward (add_reward a b) c ≡ add_reward a (add_reward b c)
add_reward_assoc a b c = ground arith

pub add_reward-none : (a : Reward) → add_reward a no_reward ≡ a
add_reward-none a = ground arith

pub none-add_reward : (a : Reward) → add_reward no_reward a ≡ a
none-add_reward a = ground arith

-- The heights `i`, `i + 1`, … , `n` of them.
abbrev pub heights : ℕ → ℕ → List ℕ
heights i zero = []
heights i (suc n) = i ∷ heights (suc i) n

-- What a row of periods adds up to.
abbrev pub row_reward : YearRow → Reward
row_reward (period n a b r) = r
row_reward (totals y b r) = no_reward

abbrev pub sum_rows : List YearRow → Reward
sum_rows [] = no_reward
sum_rows (r ∷ rs) = add_reward (row_reward r) (sum_rows rs)

sum_rows-append :
    (rs ss : List YearRow) → sum_rows (rs ++ ss) ≡ add_reward (sum_rows rs) (sum_rows ss)
sum_rows-append [] ss = sym (none-add_reward (sum_rows ss))
sum_rows-append (r ∷ rs) ss =
    ap (add_reward (row_reward r)) (sum_rows-append rs ss)
    ∙ sym (add_reward_assoc (row_reward r) (sum_rows rs) (sum_rows ss))

module _ (cp : Consensus) where
  -- All that the blocks of these heights pay.
  abbrev pub paid : List ℕ → Reward
  paid [] = no_reward
  paid (h ∷ hs) = add_reward (get_block_reward cp h) (paid hs)

  reward_block_loop-paid :
      (left i h : ℕ) (sum : Reward)
      → (reward_block_loop cp left i h false sum
          ≡ show_block h (add_reward sum (paid (heights i left))) ∷ [])
        × (reward_block_loop cp left i h true sum
            ≡ map (λ k. show_block h (get_block_reward cp k)) (heights i left)
              ++ show_block h (add_reward sum (paid (heights i left))) ∷ [])
  unfolding reward_block_loop
  reward_block_loop-paid zero i h sum =
      let e = ap (λ r. show_block h r ∷ []) (sym (add_reward-none sum)) in (e, e)
  reward_block_loop-paid (suc left) i h sum =
      let blk = get_block_reward cp i in
      let (plain, full) = reward_block_loop-paid left (suc i) h (add_reward sum blk) in
      let e = add_reward_assoc sum blk (paid (heights (suc i) left)) in
      (
        plain ∙ ap (λ r. show_block h r ∷ []) e,
        ap (λ rows. show_block h blk ∷ rows)
            (full
              ∙ ap
                  (λ r.
                    map (λ k. show_block h (get_block_reward cp k)) (heights (suc i) left)
                    ++ show_block h r ∷ [])
                  e),
      )

  -- `rewardblock` ends with the sum of what the blocks 0 to `h` pay. With details it shows before it
  -- one row for each of those blocks, with what that block pays; but every row bears the height `h`.
  pub show_reward_block-paid :
      (h : ℕ)
      → (show_reward_block cp h false ≡ show_block h (paid (heights 0 (suc h))) ∷ [])
        × (show_reward_block cp h true
            ≡ map (λ k. show_block h (get_block_reward cp k)) (heights 0 (suc h))
              ++ show_block h (paid (heights 0 (suc h))) ∷ [])
  unfolding show_reward_block
  show_reward_block-paid h =
      let (plain, full) = reward_block_loop-paid (suc h) 0 h no_reward in
      let e = none-add_reward (paid (heights 0 (suc h))) in
      (
        plain ∙ ap (λ r. show_block h r ∷ []) e,
        full
            ∙ ap
                (λ r.
                  map (λ k. show_block h (get_block_reward cp k)) (heights 0 (suc h))
                  ++ show_block h r ∷ [])
                e,
      )

  -- A period adds the same to the grand total as to its own sum.
  status_inner-sum :
      (left i : ℕ) (before : Reward) (t : Tally)
      → t.sum ≡ add_reward before t.part
      → (status_inner cp left i t).sum ≡ add_reward before (status_inner cp left i t).part
  unfolding status_inner
  status_inner-sum zero i before t h = h
  status_inner-sum (suc left) i before t h = elim (Bool-cases (is_end cp i)) [
    | inl e ↦ rw e h
    | inr e ↦ rw e (
        status_inner-sum left (suc i) before _ (
          ap (λ r. add_reward r (get_block_reward cp i)) h
          ∙ add_reward_assoc before t.part (get_block_reward cp i)))
  ]

  -- A finished table: one row for each period, at most `rounds`, and below them the grand total of
  -- just these rows.
  pub record IsTable (years rounds : ℕ) (result : Option (List YearRow)) : Type 0 where
    pub rows : List YearRow
    pub some_rows : 0 < length rows
    pub few_rows : length rows ≤ rounds
    pub returns :
        result
        ≡ some (
            rows
            ++ totals
                (length rows * years)
                (length rows * (years * year_blocks) - 1)
                (sum_rows rows)
              ∷ [])

  sum_rows-period :
      (out : List YearRow) (row : YearRow) (sum part after : Reward)
      → row_reward row ≡ part
      → sum ≡ sum_rows out
      → after ≡ add_reward sum part
      → after ≡ sum_rows (out ++ row ∷ [])
  sum_rows-period out row sum part after r e f =
      f
      ∙ ap₂ add_reward e (sym r ∙ sym (add_reward-none (row_reward row)))
      ∙ sym (sum_rows-append out (row ∷ []))

  status_loop-IsTable :
      (years rounds fuel h : ℕ) (sum : Reward) (out : List YearRow)
      → h < rounds
      → rounds ≤ fuel + h
      → sum ≡ sum_rows out
      → length out ≡ h
      → IsTable years rounds (status_loop cp fuel years rounds h sum out)
  unfolding status_loop
  status_loop-IsTable years rounds zero h sum out lt enough e len = absurd (omega arith)
  status_loop-IsTable years rounds (suc fuel) h sum out lt enough e len =
      let width : ℕ = years * year_blocks in
      let t : Tally =
        status_inner cp width (h * width)
          (record { sum = sum; part = no_reward; running = true }) in
      let row : YearRow = period (suc h) (h * width) (suc h * width - 1) t.part in
      let grown : length (out ++ row ∷ []) ≡ suc h = omega (arith, length-append out (row ∷ [])) in
      let sums : t.sum ≡ sum_rows (out ++ row ∷ []) =
        sum_rows-period out row sum t.part t.sum refl e
          (status_inner-sum width (h * width) sum _ (sym (add_reward-none sum))) in
      elim (Bool-cases (not t.running || (ltb 0 rounds && leb rounds (suc h)))) [
        | inl stops ↦ record {
          rows = out ++ row ∷ [];
          some_rows = omega arith;
          few_rows = omega arith;
          returns = rw stops (rw (grown, ← sums) refl);
        }
        | inr goes ↦ rw goes (
            status_loop-IsTable years rounds fuel (suc h) t.sum (out ++ row ∷ []) (ground arith)
              (omega arith) sums grown)
      ]

  -- `rewardstatus` with a positive number of rounds ends, after that many periods at most, and its
  -- last row is the grand total of exactly the periods that it has shown.
  pub show_reward_status-IsTable :
      (years rounds : ℕ)
      → 0 < rounds
      → IsTable years rounds (show_reward_status cp rounds years rounds)
  unfolding show_reward_status
  show_reward_status-IsTable years rounds h =
      status_loop-IsTable years rounds rounds 0 no_reward [] h (omega arith) refl refl
