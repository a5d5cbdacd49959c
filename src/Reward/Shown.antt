-- ===== src/Reward/Shown.antt =====
-- `rewardshow` of tools/reward.cc: a row only where the reward changes.
use uctool.Common.{
  ℕ, zero, suc, ◌+◌, ◌≤◌, ◌<◌, ◌≡◌, refl, sym, ap, subst, ◌∙◌, ◌⊎◌, inl, inr, true, false, not,
  ◌&&◌, List, [], ◌∷◌, ◌++◌, some, arith, leb, ◌==◌, if◌then◌else◌, Bool-cases, append-nil,
  append_assoc, ℤ, pos, negsuc, eqb_ℤ, leb_ℤ,
}
use uctool.Reward.{
  Consensus, Reward, no_reward, add_reward, same_reward, BlockRow, show_block, get_block_reward,
  is_end, show_reward_loop, show_reward,
}
use mathlib.Core.Path.{ap₂}
use uctool.Reward.Tables.{heights, paid, add_reward_assoc, add_reward-none, none-add_reward}

-- What the table says of height `k`: the last row at or below it, and before any row nothing.
abbrev pub shown_at : ℕ → List BlockRow → Reward → Reward
shown_at k [] r = r
shown_at k (row ∷ rows) r =
    let here = shown_at k rows row.reward in
    let before = shown_at k rows r in if leb row.height k then here else before

same_reward-equal : (a b : Reward) → same_reward a b ≡ true → a ≡ b
same_reward-equal a b h = ground arith

-- The number of heights at which `iRounds` stops the loop, where it is not 0: a negative number, which
-- the first height is already beyond, stops it there.
abbrev pub limit : ℤ → ℕ
limit (pos n) = n
limit (negsuc n) = 1

over-limit :
    (rounds : ℤ) (h : ℕ)
    → (not (eqb_ℤ rounds (pos 0)) && leb_ℤ rounds (pos (suc h)))
      ≡ (not (limit rounds == 0) && leb (limit rounds) (suc h))
over-limit (pos n) h = ground arith
over-limit (negsuc n) h = ground arith

module _ (cp : Consensus) where
  -- The rows of `n` heights from `h`, behind a height that paid `last`.
  abbrev changes : ℕ → Reward → ℕ → List BlockRow
  changes h last zero = []
  changes h last (suc n) =
      let blk = get_block_reward cp h in
      let rest = changes (suc h) blk n in
      if same_reward last blk then rest else show_block h blk ∷ rest

  below_rows :
      (k h : ℕ) (last : Reward) (n : ℕ) (r : Reward) → k < h → shown_at k (changes h last n) r ≡ r
  unfolding show_block
  below_rows k h last zero r small = refl
  below_rows k h last (suc n) r small =
      let blk = get_block_reward cp h in
      let rest = below_rows k (suc h) blk n in
      let above : leb h k ≡ false = ground (arith, small) in
      elim (Bool-cases (same_reward last blk)) [
        | inl e ↦ rw (e) (rest r (omega arith))
        | inr e ↦ rw (e, above) (rest r (omega arith))
      ]

  -- The rows tell the reward of each of the heights.
  changes-shown :
      (h n k : ℕ) (last : Reward)
      → h ≤ k
      → k < h + n
      → shown_at k (changes h last n) last ≡ get_block_reward cp k
  unfolding show_block
  changes-shown h zero k last low high = absurd (omega arith)
  changes-shown h (suc n) k last low high =
      let blk = get_block_reward cp h in
      let at_or_below : leb h k ≡ true = ground (arith, low) in
      let here : h ≡ k → shown_at k (changes (suc h) blk n) blk ≡ get_block_reward cp k =
        λ is. below_rows k (suc h) blk n blk (omega arith) ∙ ap (get_block_reward cp) is in
      let later : shown_at k (changes (suc h) blk n) blk ≡ get_block_reward cp k =
        elim (Bool-cases (h == k)) [
          | inl e ↦ here (ground (arith, e))
          | inr e ↦
              let up : suc h ≤ k = ground (arith, e, low) in
              changes-shown (suc h) n k blk up (omega arith)
        ] in
      elim (Bool-cases (same_reward last blk)) [
        | inl e ↦
            rw (e) (ap (shown_at k (changes (suc h) blk n)) (same_reward-equal last blk e) ∙ later)
        | inr e ↦ rw (e, at_or_below) later
      ]

  -- The rows so far, with this height's.
  abbrev with_row : List BlockRow → ℕ → Reward → List BlockRow
  with_row out h last =
      let blk = get_block_reward cp h in
      if same_reward last blk then out else out ++ show_block h blk ∷ []

  with_row-changes :
      (out : List BlockRow) (h : ℕ) (last : Reward) (n : ℕ)
      → with_row out h last ++ changes (suc h) (get_block_reward cp h) n
        ≡ out ++ changes h last (suc n)
  with_row-changes out h last n =
      let blk = get_block_reward cp h in
      elim (Bool-cases (same_reward last blk)) [
        | inl e ↦ rw (e) refl
        | inr e ↦ rw (e) (append_assoc out (show_block h blk ∷ []) (changes (suc h) blk n))
      ]

  -- No height from `h` on and below `end` ends the table.
  abbrev pub GoesOn : ℕ → ℕ → Type 0
  GoesOn h end = (k : ℕ) → h ≤ k → k < end → is_end cp k ≡ false

  -- A limit of rounds is reached.
  loop-limited :
      (fuel : ℕ) (rounds : ℤ) (h n : ℕ) (last sum : Reward) (out : List BlockRow)
      → limit rounds ≡ h + suc n
      → GoesOn h (limit rounds)
      → n < fuel
      → show_reward_loop cp fuel rounds h last sum out ≡ some (out ++ changes h last (suc n))
  unfolding show_reward_loop
  loop-limited zero rounds h n last sum out e on enough = absurd (omega arith)
  loop-limited (suc fuel) rounds h zero last sum out e on enough =
      let goes = on h (omega arith) (omega arith) in
      let over : (not (eqb_ℤ rounds (pos 0)) && leb_ℤ rounds (pos (suc h))) ≡ true =
        over-limit rounds h ∙ ground (arith, e) in
      rw (goes, over)
        (ap some (sym (append-nil (with_row out h last)) ∙ with_row-changes out h last 0))
  loop-limited (suc fuel) rounds h (suc n) last sum out e on enough =
      let blk = get_block_reward cp h in
      let goes = on h (omega arith) (omega arith) in
      let not_over : (not (eqb_ℤ rounds (pos 0)) && leb_ℤ rounds (pos (suc h))) ≡ false =
        over-limit rounds h ∙ ground (arith, e) in
      rw (goes, not_over)
        (loop-limited fuel rounds (suc h) n blk (add_reward sum blk) (with_row out h last)
            (omega arith) (λ k low high. on k (omega arith) high) (omega arith)
          ∙ ap some (with_row-changes out h last (suc n)))

  -- The row at the end: all that the heights before it pay.
  abbrev end_row : ℕ → ℕ → ℕ → Reward → List BlockRow
  end_row stop h n sum = show_block stop (add_reward sum (paid cp (heights h n))) ∷ []

  -- The end of the rewards is reached, and no limit before it.
  loop-ended :
      (fuel : ℕ) (rounds : ℤ) (stop h n : ℕ) (last sum : Reward) (out : List BlockRow)
      → stop ≡ h + n
      → is_end cp stop ≡ true
      → (limit rounds ≡ 0) ⊎ (stop < limit rounds)
      → GoesOn h stop
      → n < fuel
      → show_reward_loop cp fuel rounds h last sum out
        ≡ some ((out ++ changes h last n) ++ end_row stop h n sum)
  unfolding show_reward_loop
  loop-ended zero rounds stop h n last sum out is e far on enough = absurd (omega arith)
  loop-ended (suc fuel) rounds stop h zero last sum out is e far on enough =
      let here : h ≡ stop = omega arith in
      let ends : is_end cp h ≡ true = subst (λ x. is_end cp x ≡ true) (sym here) e in
      rw (ends, append-nil out, add_reward-none sum)
        (ap (λ x. some (out ++ show_block x sum ∷ [])) here)
  loop-ended (suc fuel) rounds stop h (suc n) last sum out is e far on enough =
      let blk = get_block_reward cp h in
      let goes = on h (omega arith) (omega arith) in
      let not_over : (not (eqb_ℤ rounds (pos 0)) && leb_ℤ rounds (pos (suc h))) ≡ false =
        over-limit rounds h ∙ ground (arith, far, is) in
      rw (goes, not_over)
        (loop-ended fuel rounds stop (suc h) n blk (add_reward sum blk) (with_row out h last)
            (omega arith) e far (λ k low high. on k (omega arith) high) (omega arith)
          ∙ ap₂ (λ rows r. some (rows ++ show_block stop r ∷ [])) (with_row-changes out h last n)
              (add_reward_assoc sum blk (paid cp (heights (suc h) n))))

  -- How `rewardshow` stops at a height, and the row that it puts last: at the limit of rounds, or at
  -- the superblock that pays nothing.
  abbrev pub Stops : ℤ → ℕ → List BlockRow → Type 0
  Stops rounds stop tail =
      ((limit rounds ≡ stop) × (0 < stop) × (tail ≡ []))
      ⊎ ((is_end cp stop ≡ true)
          × ((limit rounds ≡ 0) ⊎ (stop < limit rounds))
          × (tail ≡ show_block stop (paid cp (heights 0 stop)) ∷ []))

  -- `rewardshow` comes to its end, with any fuel beyond the height at which it stops: at the limit of
  -- rounds, which for a negative number is one height, or at the first superblock that pays nothing.
  -- Its rows tell the reward of every height below that one, as the last row at or below the height,
  -- or as nothing where there is none; at the end of the rewards one more row has the sum of all of
  -- them.
  pub show_reward-shown :
      (fuel : ℕ) (rounds : ℤ) (stop : ℕ) (tail : List BlockRow)
      → GoesOn 0 stop
      → stop < fuel
      → Stops rounds stop tail
      → (rows : List BlockRow) × (show_reward cp fuel rounds ≡ some (rows ++ tail))
        × ((k : ℕ) → k < stop → shown_at k rows no_reward ≡ get_block_reward cp k)
  unfolding show_reward
  show_reward-shown fuel rounds zero tail on enough (inl (e, some_rounds, none_after)) =
      absurd (omega arith)
  show_reward-shown fuel rounds (suc n) tail on enough (inl (e, some_rounds, none_after)) = (
    changes 0 no_reward (suc n),
    loop-limited fuel rounds 0 n no_reward no_reward [] (omega arith) (subst (GoesOn 0) (sym e) on)
          (omega arith)
        ∙ ap some (sym (append-nil (changes 0 no_reward (suc n))))
        ∙ ap (λ l. some (changes 0 no_reward (suc n) ++ l)) (sym none_after),
    λ k low. changes-shown 0 (suc n) k no_reward (omega arith) (omega arith),
  )
  show_reward-shown fuel rounds stop tail on enough (inr (ends, far, last_row)) = (
    changes 0 no_reward stop,
    loop-ended fuel rounds stop 0 stop no_reward no_reward [] (omega arith) ends far on enough
        ∙ ap (λ r. some (changes 0 no_reward stop ++ show_block stop r ∷ []))
            (none-add_reward (paid cp (heights 0 stop)))
        ∙ ap (λ l. some (changes 0 no_reward stop ++ l)) (sym last_row),
    λ k low. changes-shown 0 stop k no_reward (omega arith) (omega arith),
  )
