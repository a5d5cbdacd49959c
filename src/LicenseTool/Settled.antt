-- ===== src/LicenseTool/Settled.antt =====
-- Rounds of the licence tool that find nothing left to do: `Run` at one time, on a database that is
-- up, followed on its table.
use mathlib.Core.Path.{fun_ext}
use uctool.Common.{
  ℕ, zero, suc, ◌≡◌, refl, sym, ap, subst, ◌∙◌, ◌⊎◌, inl, inr, true, false, some, ℤ, ◌+ℤ◌, ◌≤ℤ◌,
  ltb_ℤ, arith, Bool-cases, Option-cases,
}
use uctool.Chain.{ChainApi}
use uctool.Node.{MNode}
use uctool.Node.Table.{Table}
use uctool.Mysql.{MysqlApi, Session}
use uctool.Mysql.Live.{IsLive, Returns, Returns-bind, Returns-mono}
use uctool.Watcher.{Watcher, needs_no_license, new_period, sign_mn_license}
use uctool.Watcher.Signing.{sign_mn_license-IsSigned, refused_steps}
use uctool.Watcher.Table.{is_selected, relicensed, relicensed_by, renewed, renewed_table}
use uctool.Watcher.Renewal.{run_round-Renews}
use uctool.LicenseTool.{Times, run_rounds}
use uctool.System.{ServesRound}

too_long :
    (w : Watcher) (now then : ℤ) (period : ℤ)
    → period ≡ then +ℤ w.lic_period_limit
    → now ≤ℤ then
    → w.need_update_period ≤ℤ w.lic_period_limit
    → ltb_ℤ period (now +ℤ w.need_update_period) ≡ false
unfolding ◌+ℤ◌
too_long w now then period is at enough = ground (arith, is, at, enough)

selected-near :
    (w : Watcher) (now : ℤ) (mn : MNode)
    → is_selected w now mn ≡ true
    → ltb_ℤ mn.licperiod (now +ℤ w.need_update_period) ≡ true
selected-near w now mn h = ground (arith, h)

refuses-ended :
    (w : Watcher) (now : ℤ) (mn : MNode)
    → mn.licperiod ≡ mn.nodeperiod
    → needs_no_license w now mn ≡ true
unfolding needs_no_license
refuses-ended w now mn e = ground (arith, e)

-- A node that was just given a licence of the full period is not selected, and one whose licence was
-- cut at its own end is refused.
cut_or_unselected :
    (w : Watcher) (now then later : ℤ) (mn out : MNode)
    → out.licperiod ≡ new_period w then mn
    → now ≤ℤ then
    → w.need_update_period ≤ℤ w.lic_period_limit
    → is_selected w now (relicensed out mn) ≡ true
    → needs_no_license w later (relicensed out mn) ≡ true
unfolding new_period
cut_or_unselected w now then later mn out period at enough again =
    elim (Bool-cases (ltb_ℤ mn.nodeperiod (then +ℤ w.lic_period_limit))) [
      | inl cut ↦ refuses-ended w later (relicensed out mn) (period ∙ rw (cut) refl)
      | inr whole ↦
          let near = selected-near w now (relicensed out mn) again in
          let far = too_long w now then out.licperiod (period ∙ rw (whole) refl) at enough in
          let both : true ≡ false = sym near ∙ far in absurd (cc both)
    ]

module _ (chain : ChainApi) (w : Watcher) (clock : MNode → ℤ) where
  renewed-refused :
      (now : ℤ) (mn : MNode)
      → (is_selected w now mn ≡ true → needs_no_license w (clock mn) mn ≡ true)
      → renewed chain w clock now mn ≡ mn
  unfolding renewed relicensed_by
  renewed-refused now mn h = elim (Bool-cases (is_selected w now mn)) [
    | inl e ↦ rw (e, refused_steps chain w (clock mn) mn (h e)) refl
    | inr e ↦ rw (e) refl
  ]

  renewed-cases :
      (now : ℤ) (mn : MNode)
      → (renewed chain w clock now mn ≡ mn)
        ⊎ ((out : MNode) × (sign_mn_license chain w (clock mn) mn ≡ (true, out))
            × (renewed chain w clock now mn ≡ relicensed out mn))
  unfolding renewed relicensed_by
  renewed-cases now mn =
      let out : MNode = (sign_mn_license chain w (clock mn) mn).1 in
      elim (Bool-cases (is_selected w now mn)) [
        | inr e ↦ inl (rw (e) refl)
        | inl e ↦ elim (Bool-cases (sign_mn_license chain w (clock mn) mn).0) [
          | inl f ↦ inr (out, ap (λ b. (b, out)) f, rw (e, f) refl)
          | inr f ↦ inl (rw (e, f) refl)
        ]
      ]

  -- A node that was renewed is left as it is by a second round at the same time.
  pub renewed-again :
      (now : ℤ) (mn : MNode)
      → now ≤ℤ clock mn
      → w.need_update_period ≤ℤ w.lic_period_limit
      → renewed chain w clock now (renewed chain w clock now mn) ≡ renewed chain w clock now mn
  renewed-again now mn at enough = elim (renewed-cases now mn) [
    | inl same ↦ ap (renewed chain w clock now) same
    | inr (out, signed, is) ↦
        let period = (sign_mn_license-IsSigned chain w (clock mn) mn out signed).1.period in
        ap (renewed chain w clock now) is
        ∙ renewed-refused now (relicensed out mn)
            (cut_or_unselected w now (clock mn) (clock (relicensed out mn)) mn out period at enough)
        ∙ sym is
  ]

  renewed_table-again :
      (now : ℤ) (before : Table)
      → ((mn : MNode) → now ≤ℤ clock mn)
      → w.need_update_period ≤ℤ w.lic_period_limit
      → renewed_table chain w clock now (renewed_table chain w clock now before)
        ≡ renewed_table chain w clock now before
  renewed_table-again now before at enough = fun_ext λ coin. elim (Option-cases (before coin)) [
    | inl e ↦ rw (e) refl
    | inr (mn, e) ↦ rw (e) (ap some (renewed-again now mn (at mn) enough))
  ]

  module _ (mysql : MysqlApi) (table : mysql.World → Table) (live : IsLive mysql table) where
    -- One round does all that there is to do: however many more rounds `Run` makes at that time, they
    -- come to their end and leave the table as the first one has. The server is up and answers the
    -- statements of a round as documented, on the table before and on the table with the renewed
    -- licences; licences are given for at least the update period, and the clock does not run back.
    pub run_rounds-Settles :
        (now : ℤ) (more : ℕ) (s : Session mysql)
        → ServesRound chain w clock mysql table live now (table s.world)
        → ServesRound chain w clock mysql table live now
            (renewed_table chain w clock now (table s.world))
        → ((mn : MNode) → now ≤ℤ clock mn)
        → w.need_update_period ≤ℤ w.lic_period_limit
        → let at_once : ℕ → Times = λ _. record { now = now; clock = clock } in
          Returns mysql
            (λ _ t. table t.world ≡ renewed_table chain w clock now (table s.world))
            (run_rounds chain mysql w at_once (suc more) s)
    unfolding run_rounds
    run_rounds-Settles now zero s first again at enough =
        run_round-Renews chain w clock mysql table live now s first.keyed first.selects first.stores
    run_rounds-Settles now (suc more) s first again at enough =
        Returns-bind mysql (λ _ t. table t.world ≡ renewed_table chain w clock now (table s.world))
          _ _ _ (run_rounds-Settles now more s first again at enough)
          λ _ t same.
            let round : ServesRound chain w clock mysql table live now (table t.world) =
              subst (ServesRound chain w clock mysql table live now) (sym same) again in
            Returns-mono mysql
              (λ _ u. table u.world ≡ renewed_table chain w clock now (table t.world)) _ _
              (run_round-Renews chain w clock mysql table live now t round.keyed round.selects
                round.stores)
              λ _ u is.
                is
                ∙ ap (renewed_table chain w clock now) same
                ∙ renewed_table-again now (table s.world) at enough
