-- ===== src/Watcher/Writing.antt =====
-- What `UpdateDB` over a list makes of the table: each node that was selected is renewed, once.
use uctool.Common.{
  ◌≡◌, ◌≢◌, refl, sym, ap, ◌∙◌, inl, inr, List, [], ◌∷◌, none, some, ℤ, All, Bool-cases,
  Option-cases,
}
use mathlib.Core.List.{Memᴰ}
use mathlib.Core.List.Memᴰ.{head, tail}
use uctool.Chain.{ChainApi}
use uctool.Node.{MNode, MnCoin, coin_of}
use uctool.Node.Order.{coin_cases}
use uctool.Node.Table.{Table, IsOnly, IsSelection, IsTable, selection-IsOnly, selection-others}
use uctool.Watcher.{Watcher}
use uctool.Watcher.Table.{
  is_selected, relicensed_by, renewed, renewed_table, written, all_written, relicensed_by-again,
  written-none, written-other, written-own,
}

module _ (chain : ChainApi) (w : Watcher) (clock : MNode → ℤ) where
  all_written-none :
      (mns : List MNode) (table : Table) (coin : MnCoin)
      → table coin ≡ none
      → all_written chain w clock mns table coin ≡ none
  unfolding all_written
  all_written-none [] table coin h = h
  all_written-none (mn ∷ mns) table coin h =
      all_written-none mns (written chain w clock mn table) coin
        (written-none chain w clock mn table coin h)

  -- What a node with the coin of another, that is no other, makes of it.
  written-only :
      (x mn m : MNode) (table : Table)
      → (coin_of x ≡ coin_of mn → x ≡ mn)
      → coin_of x ≡ coin_of mn
      → table (coin_of mn) ≡ some m
      → written chain w clock x table (coin_of mn) ≡ some (relicensed_by chain w clock mn m)
  written-only x mn m table only own h =
      written-own chain w clock x m table (coin_of mn) own h
      ∙ ap (λ y. some (relicensed_by chain w clock y m)) (only own)

  all_written-done :
      (mns : List MNode) (table : Table) (mn : MNode)
      → IsOnly mn mns
      → table (coin_of mn) ≡ some (relicensed_by chain w clock mn mn)
      → all_written chain w clock mns table (coin_of mn) ≡ some (relicensed_by chain w clock mn mn)
  unfolding all_written
  all_written-done [] table mn only h = h
  all_written-done (x ∷ mns) table mn only h =
      all_written-done mns (written chain w clock x table) mn only.1
        (elim (coin_cases (coin_of x) (coin_of mn)) [
          | inl (own, _) ↦
              written-only x mn (relicensed_by chain w clock mn mn) table only.0 own h
              ∙ ap some (relicensed_by-again chain w clock mn)
          | inr (other, _) ↦ written-other chain w clock x table (coin_of mn) other ∙ h
        ])

  all_written-member :
      (mns : List MNode) (table : Table) (mn : MNode)
      → IsOnly mn mns
      → table (coin_of mn) ≡ some mn
      → Memᴰ mn mns
      → all_written chain w clock mns table (coin_of mn) ≡ some (relicensed_by chain w clock mn mn)
  unfolding all_written
  all_written-member [] table mn only h m = elim m [ ]
  all_written-member (x ∷ mns) table mn only h (head here) =
      all_written-done mns (written chain w clock x table) mn only.1
        (written-only x mn mn table only.0 (ap coin_of (sym here)) h)
  all_written-member (x ∷ mns) table mn only h (tail more) =
      elim (coin_cases (coin_of x) (coin_of mn)) [
        | inl (own, _) ↦
            all_written-done mns (written chain w clock x table) mn only.1
              (written-only x mn mn table only.0 own h)
        | inr (other, _) ↦
            all_written-member mns (written chain w clock x table) mn only.1
              (written-other chain w clock x table (coin_of mn) other ∙ h) more
      ]

  all_written-others :
      (mns : List MNode) (table : Table) (coin : MnCoin)
      → All (λ (x : MNode). coin_of x ≢ coin) mns
      → all_written chain w clock mns table coin ≡ table coin
  unfolding all_written
  all_written-others [] table coin h = refl
  all_written-others (x ∷ mns) table coin h =
      all_written-others mns (written chain w clock x table) coin h.1
      ∙ written-other chain w clock x table coin h.0

  -- `UpdateDB` over what `SelectNeedUpdateMNData` selects renews each node of the table, and
  -- only those.
  pub all_written-renewed :
      (now : ℤ) (table : Table) (mns : List MNode)
      → IsTable table
      → IsSelection (is_selected w now) table mns
      → (coin : MnCoin)
      → all_written chain w clock mns table coin ≡ renewed_table chain w clock now table coin
  unfolding renewed
  all_written-renewed now table mns keyed (sound, complete) coin =
      elim (Option-cases (table coin)) [
        | inl e ↦ all_written-none mns table coin e ∙ sym (rw e refl)
        | inr (mn, e) ↦
            let own = keyed coin mn e in
            let at : table (coin_of mn) ≡ some mn = ap table own ∙ e in
            ap (all_written chain w clock mns table) (sym own)
            ∙ elim (Bool-cases (is_selected w now mn)) [
              | inl yes_selected ↦
                  all_written-member mns table mn
                    (selection-IsOnly (is_selected w now) table mn mns at sound) at
                    (complete mn at yes_selected)
                  ∙ sym (rw (e, yes_selected) refl)
              | inr unselected ↦
                  all_written-others mns table (coin_of mn)
                    (selection-others (is_selected w now) table mn mns at unselected sound)
                  ∙ at
                  ∙ sym (rw (e, unselected) refl)
            ]
      ]
