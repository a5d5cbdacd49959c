-- ===== src/Center/Cache.antt =====
-- The cache of the center and `SelectMNData`.
use uctool.Center.Keyed.{IsKeyed, find_node-IsKeyed, find_node-merged}
use uctool.Common.{
  ℕ, ◌≡◌, ◌≢◌, refl, sym, ap, subst, ◌∙◌, inl, inr, true, false, List, Option, none, some, Bytes, ℤ,
  arith, Bool-cases, Option-cases, codes, ◌++◌, ◌∷◌, [], ◌+ℤ◌, ◌≤ℤ◌, ◌<ℤ◌, c_string,
}
use uctool.Numbers.{show_int}
use uctool.Chain.{ChainApi, MstNodeData}
use uctool.Node.{MNode, MnCoin, coin_of}
use uctool.Mysql.{MysqlApi, Session, done, pure, ◌>>=◌}
use uctool.Mysql.Post.{Post, Post-bind, Post-mono}
use uctool.Db.{select_sql}
use uctool.Db.Selects.{Asked, select_mnode-Asked}
use uctool.Center.{
  Center, find_node, merged, data_of, is_fresh, stale_filters, missing_filters, refresh, look_up,
  select_mn_data,
}

-- What holds of the two caches around a lookup, and of its result.
abbrev pub Found : Center → Bytes → ℕ → Option MstNodeData → Center → Type 0
Found c txid voutid found c' =
    IsKeyed c'.mnode_list
    × (c'.ucenter_keys ≡ c.ucenter_keys)
    × ((d : MstNodeData) → found ≡ some d → (d.txid ≡ txid) × (d.voutid ≡ voutid))
    × (found ≡ none
        → find_node (record { coin_txid = txid; coin_voutid = voutid }) c.mnode_list ≡ none)

look_up-Found :
    (c c' : Center) (txid : Bytes) (voutid : ℕ)
    → IsKeyed c'.mnode_list
    → c'.ucenter_keys ≡ c.ucenter_keys
    → (find_node (record { coin_txid = txid; coin_voutid = voutid }) c.mnode_list ≢ none
        → find_node (record { coin_txid = txid; coin_voutid = voutid }) c'.mnode_list ≢ none)
    → Found c txid voutid
        (data_of (find_node (record { coin_txid = txid; coin_voutid = voutid }) c'.mnode_list))
        c'
look_up-Found c c' txid voutid keyed keys kept =
    let coin : MnCoin = record { coin_txid = txid; coin_voutid = voutid } in
    elim (Option-cases (find_node coin c'.mnode_list)) [
      | inl e ↦
          rw e (keyed, keys, λ d no. absurd (ground (arith, no)), λ _. ground (arith, kept, e))
      | inr (mn, e) ↦
          let own : coin_of mn ≡ coin = find_node-IsKeyed coin c'.mnode_list mn keyed e in
          rw e (
            keyed,
            keys,
            λ d same. (
              ground (arith, ap (λ (x : MnCoin). x.coin_txid) own, same),
              ground (arith, ap (λ (x : MnCoin). x.coin_voutid) own, same),
            ),
            λ no. absurd (ground (arith, no)),
          )
    ]

cached_entry :
    (c : Center) (txid : Bytes) (voutid : ℕ) (mn : MNode)
    → IsKeyed c.mnode_list
    → find_node (record { coin_txid = txid; coin_voutid = voutid }) c.mnode_list ≡ some mn
    → Found c txid voutid (some mn.node_data) c
cached_entry c txid voutid mn keyed e =
    subst (λ o. Found c txid voutid (data_of o) c) e
      (look_up-Found c c txid voutid keyed refl λ h. h)

fresh_entry_lasts :
    (c : Center) (now : ℤ) (mn : MNode)
    → is_fresh c now mn ≡ true
    → mn.licperiod <ℤ now +ℤ c.db.need_update_period
    → ⊥
unfolding is_fresh
fresh_entry_lasts c now mn new less = ground (arith, new, less)

stale_entry_ends :
    (c : Center) (now : ℤ) (mn : MNode)
    → is_fresh c now mn ≡ false
    → now +ℤ c.db.need_update_period ≤ℤ mn.licperiod
    → ⊥
unfolding is_fresh
stale_entry_ends c now mn old lasting = ground (arith, old, lasting)

module _ (chain : ChainApi) (mysql : MysqlApi) where
  -- What a lookup at time `now` may have asked of the server: nothing where a fresh entry is
  -- cached, else one selection, of the licences that last or of the missing node.
  abbrev pub AskedFor : Center → Bytes → ℕ → ℤ → Session mysql → Session mysql → Type 0
  AskedFor c txid voutid now s t =
      ((mn : MNode)
        → find_node (record { coin_txid = txid; coin_voutid = voutid }) c.mnode_list ≡ some mn
        → (now +ℤ c.db.need_update_period ≤ℤ mn.licperiod → t.queries ≡ s.queries)
          × (mn.licperiod <ℤ now +ℤ c.db.need_update_period
              → Asked
                  (select_sql c.db (
                    codes "status=1"
                    ∷ (codes "validdate>" ++ show_int (now +ℤ c.db.need_update_period))
                    ∷ []))
                  s.queries t.queries))
      × (find_node (record { coin_txid = txid; coin_voutid = voutid }) c.mnode_list ≡ none
          → Asked
              (select_sql c.db
                (codes "status=1" ∷ (codes "trade_txid='" ++ c_string txid ++ codes "'") ∷ []))
              s.queries t.queries)

  refresh-Found :
      (c : Center) (txid : Bytes) (voutid : ℕ) (filters : List Bytes) (s : Session mysql)
      → IsKeyed c.mnode_list
      → Post mysql
          (λ (found, c') t.
            Found c txid voutid found c' × Asked (select_sql c.db filters) s.queries t.queries)
          (◌>>=◌ mysql
            (refresh chain mysql c filters)
            (λ c'.
              pure mysql
                (look_up chain mysql (record { coin_txid = txid; coin_voutid = voutid }) c'))
            s)
  unfolding refresh
  refresh-Found c txid voutid filters s keyed =
      Post-bind mysql
        (λ c' t.
          Found c txid voutid
            (data_of (find_node (record { coin_txid = txid; coin_voutid = voutid }) c'.mnode_list))
            c'
          × Asked (select_sql c.db filters) s.queries t.queries)
        _ (refresh chain mysql c filters s) _
        (Post-bind mysql (λ _ t. Asked (select_sql c.db filters) s.queries t.queries) _ _ _
          (select_mnode-Asked chain mysql c.db filters s)
          λ found t asked.
            let (keyed', kept) =
              find_node-merged (record { coin_txid = txid; coin_voutid = voutid }) found
                c.mnode_list keyed in
            (
              look_up-Found c (record c { mnode_list = merged found c.mnode_list }) txid voutid
                  keyed' refl kept,
              asked,
            ))
        λ c' t h. h

  -- The three branches of `SelectMNData`.
  pub select_mn_data-missing :
      (c : Center) (txid : Bytes) (voutid : ℕ) (now : ℤ) (s : Session mysql)
      → find_node (record { coin_txid = txid; coin_voutid = voutid }) c.mnode_list ≡ none
      → select_mn_data chain mysql c txid voutid now s
        ≡ ◌>>=◌ mysql
            (refresh chain mysql c (missing_filters txid))
            (λ c'.
              pure mysql
                (look_up chain mysql (record { coin_txid = txid; coin_voutid = voutid }) c'))
            s
  unfolding select_mn_data
  select_mn_data-missing c txid voutid now s e = rw (e, select_mn_data) refl

  pub select_mn_data-stale :
      (c : Center) (txid : Bytes) (voutid : ℕ) (now : ℤ) (s : Session mysql) (mn : MNode)
      → find_node (record { coin_txid = txid; coin_voutid = voutid }) c.mnode_list ≡ some mn
      → is_fresh c now mn ≡ false
      → select_mn_data chain mysql c txid voutid now s
        ≡ ◌>>=◌ mysql
            (refresh chain mysql c (stale_filters c now))
            (λ c'.
              pure mysql
                (look_up chain mysql (record { coin_txid = txid; coin_voutid = voutid }) c'))
            s
  unfolding select_mn_data
  select_mn_data-stale c txid voutid now s mn e old = rw (e, old, select_mn_data) refl

  pub select_mn_data-fresh :
      (c : Center) (txid : Bytes) (voutid : ℕ) (now : ℤ) (s : Session mysql) (mn : MNode)
      → find_node (record { coin_txid = txid; coin_voutid = voutid }) c.mnode_list ≡ some mn
      → is_fresh c now mn ≡ true
      → select_mn_data chain mysql c txid voutid now s ≡ done (some mn.node_data, c) s
  unfolding select_mn_data
  select_mn_data-fresh c txid voutid now s mn e new = rw (e, new, select_mn_data) refl

  -- Where each entry of the cache stands under the coin of its node, `SelectMNData` keeps it so and
  -- leaves the keys alone. A node that it gives has the txid and the index asked for, and it gives
  -- none only if the cache had none. An entry whose licence lasts at least for the update period
  -- from now is given without a statement to the server; for any other the one statement is the
  -- selection of the bound nodes whose licence lasts for longer than the update period from now, and
  -- for a missing entry that of the bound nodes by the txid up to its first NUL, either at most four
  -- times.
  pub select_mn_data-Found :
      (c : Center) (txid : Bytes) (voutid : ℕ) (now : ℤ) (s : Session mysql)
      → IsKeyed c.mnode_list
      → Post mysql
          (λ (found, c') t. Found c txid voutid found c' × AskedFor c txid voutid now s t)
          (select_mn_data chain mysql c txid voutid now s)
  unfolding stale_filters missing_filters
  select_mn_data-Found c txid voutid now s keyed =
      let coin : MnCoin = record { coin_txid = txid; coin_voutid = voutid } in
      let Goal : Option MstNodeData × Center → Session mysql → Type 0 =
        λ r t. Found c txid voutid r.0 r.1 × AskedFor c txid voutid now s t in
      elim (Option-cases (find_node coin c.mnode_list)) [
        | inl e ↦ subst (Post mysql Goal) (sym (select_mn_data-missing c txid voutid now s e)) (
            Post-mono mysql
              (λ r t.
                Found c txid voutid r.0 r.1
                × Asked (select_sql c.db (missing_filters txid)) s.queries t.queries)
              Goal _ (refresh-Found c txid voutid (missing_filters txid) s keyed)
              λ r t h. (h.0, ((λ mn is. absurd (ground (arith, sym e ∙ is))), λ _. h.1)))
        | inr (mn, e) ↦ elim (Bool-cases (is_fresh c now mn)) [
          | inl new ↦
              subst (Post mysql Goal) (sym (select_mn_data-fresh c txid voutid now s mn e new)) (
                cached_entry c txid voutid mn keyed e,
                (
                  (λ mn' is.
                      let same : mn' ≡ mn = ground (arith, sym e ∙ is) in
                      (
                        λ _. refl,
                        λ old. absurd (
                            fresh_entry_lasts c now mn'
                              (subst (λ x. is_fresh c now x ≡ true) (sym same) new) old),
                      )),
                  λ no. absurd (ground (arith, sym e ∙ no)),
                ),
              )
          | inr old ↦
              subst (Post mysql Goal) (sym (select_mn_data-stale c txid voutid now s mn e old)) (
                Post-mono mysql
                  (λ r t.
                    Found c txid voutid r.0 r.1
                    × Asked (select_sql c.db (stale_filters c now)) s.queries t.queries)
                  Goal _ (refresh-Found c txid voutid (stale_filters c now) s keyed)
                  λ r t h. (
                    h.0,
                    (
                      (λ mn' is.
                          let same : mn' ≡ mn = ground (arith, sym e ∙ is) in
                          (
                            λ new. absurd (
                                stale_entry_ends c now mn'
                                  (subst (λ x. is_fresh c now x ≡ false) (sym same) old) new),
                            λ _. h.1,
                          )),
                      λ no. absurd (ground (arith, sym e ∙ no)),
                    ),
                  ))
        ]
      ]
