-- ===== src/Db/Rows.antt =====
-- What the columns of a row become.
use uctool.Common.{
  ℕ, ◌≡◌, ap, ◌∙◌, ◌⊎◌, inl, inr, false, none, some, [], ◌∷◌, Bytes, pos, negsuc, arith,
  Option-cases, Bool-cases,
}
use uctool.Chain.{ChainApi}
use uctool.Keys.{KeyExtension, from_string}
use uctool.Node.{MNode, set_node_key, is_null}
use uctool.Node.Check.{is_null_iff}
use uctool.Numbers.{atoi}
use uctool.Mysql.{Row}
use uctool.Db.{decode_row, column, text_or_null, number_or, to_unsigned}

module _ (chain : ChainApi) where
  set_node_key-fields :
      (mn : MNode) (key : Bytes)
      → let keyed = set_node_key chain mn key in
        (keyed.txid ≡ mn.txid)
        × (keyed.voutid ≡ mn.voutid)
        × (keyed.privkey ≡ key)
        × ((k : KeyExtension) → from_string chain key ≡ some k → keyed.pubkey ≡ k.pubkey)
  unfolding set_node_key
  set_node_key-fields mn key = elim (Option-cases (from_string chain key)) [
    | inl e ↦ (ground arith, ground arith, ground arith, λ k f. absurd (ground arith))
    | inr (k, e) ↦ (ground arith, ground arith, ground arith, λ k' f. ground arith)
  ]

  -- What `SetKey` is called on: the node with its first two columns.
  abbrev begun : Row → MNode
  begun row = record {
    node_data = record chain.null_node {
      txid = text_or_null (column row 0);
      voutid = to_unsigned (number_or (pos 0) (column row 1));
    };
    name = [];
    ipaddr = [];
  }

  -- A column that is NULL shows: a node from a row without its transaction, key, address, status,
  -- validity, certificate, version or node period does not pass the test of missing fields. (The
  -- output number and the name are not asked for.)
  pub decode_row-missing :
      (row : Row)
      → (column row 0 ≡ none)
        ⊎ ((column row 2 ≡ none)
            ⊎ ((column row 4 ≡ none)
                ⊎ ((column row 5 ≡ none)
                    ⊎ ((column row 6 ≡ none)
                        ⊎ ((column row 7 ≡ none)
                            ⊎ ((column row 8 ≡ none) ⊎ (column row 9 ≡ none)))))))
      → is_null (decode_row chain row) ≡ false
  unfolding decode_row
  decode_row-missing row h = elim (Bool-cases (is_null (decode_row chain row))) [
    | inr e ↦ e
    | inl e ↦
        let (f₁, f₂, f₃, _) = set_node_key-fields (begun row) (text_or_null (column row 2)) in
        let (n₁, n₂, n₃, n₄, n₅, n₆, n₇, n₈) = (is_null_iff (decode_row chain row)).0 e in
        absurd (elim h [
          | inl c ↦ n₁ (f₁ ∙ ap text_or_null c)
          | inr (inl c) ↦ n₂ (f₃ ∙ ap text_or_null c)
          | inr (inr (inl c)) ↦ n₃ (ap text_or_null c)
          | inr (inr (inr (inl c))) ↦ n₅ (ap (number_or (negsuc 0)) c)
          | inr (inr (inr (inr (inl c)))) ↦ n₆ (ap (number_or (negsuc 0)) c)
          | inr (inr (inr (inr (inr (inl c))))) ↦ n₄ (ap text_or_null c)
          | inr (inr (inr (inr (inr (inr (inl c)))))) ↦ n₈ (ap (number_or (pos 0)) c)
          | inr (inr (inr (inr (inr (inr (inr c)))))) ↦ n₇ (ap (number_or (negsuc 0)) c)
        ])
  ]

  -- A row with all its columns becomes a node with just these fields; the numbers are what `atoi`
  -- makes of the columns, and the public key is that of the key column where that can be read.
  pub decode_row-fields :
      (row : Row) (txid voutid key name ip status period licence version node_period : Bytes)
      → row
        ≡ some txid
          ∷ some voutid
          ∷ some key
          ∷ some name
          ∷ some ip
          ∷ some status
          ∷ some period
          ∷ some licence
          ∷ some version
          ∷ some node_period
          ∷ []
      → let mn = decode_row chain row in
        (mn.txid ≡ txid)
        × (mn.voutid ≡ to_unsigned (atoi voutid))
        × (mn.privkey ≡ key)
        × (mn.name ≡ name)
        × (mn.ipaddr ≡ ip)
        × (mn.status ≡ atoi status)
        × (mn.licperiod ≡ atoi period)
        × (mn.licence ≡ licence)
        × (mn.licversion ≡ atoi version)
        × (mn.nodeperiod ≡ atoi node_period)
        × ((k : KeyExtension) → from_string chain key ≡ some k → mn.pubkey ≡ k.pubkey)
  unfolding decode_row
  decode_row-fields row txid voutid key name ip status period licence version node_period e =
      let (f₁, f₂, f₃, f₄) = set_node_key-fields (begun row) (text_or_null (column row 2)) in
      let full : Row =
        some txid
        ∷ some voutid
        ∷ some key
        ∷ some name
        ∷ some ip
        ∷ some status
        ∷ some period
        ∷ some licence
        ∷ some version
        ∷ some node_period
        ∷ [] in
      let at_col : (i : ℕ) → column row i ≡ column full i = λ i. ap (λ r. column r i) e in
      (
        f₁ ∙ ap text_or_null (at_col 0),
        f₂ ∙ ap (λ c. to_unsigned (number_or (pos 0) c)) (at_col 1),
        f₃ ∙ ap text_or_null (at_col 2),
        ap text_or_null (at_col 3),
        ap text_or_null (at_col 4),
        ap (number_or (negsuc 0)) (at_col 5),
        ap (number_or (negsuc 0)) (at_col 6),
        ap text_or_null (at_col 7),
        ap (number_or (pos 0)) (at_col 8),
        ap (number_or (negsuc 0)) (at_col 9),
        λ k h. f₄ k (ap (λ c. from_string chain (text_or_null c)) (at_col 2) ∙ h),
      )
