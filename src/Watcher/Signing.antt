-- ===== src/Watcher/Signing.antt =====
-- `CLicenseWatcher::SignMNLicense`.
use uctool.Common.{
  ◌≡◌, refl, sym, ap, subst, ◌∙◌, inl, inr, Bool, true, false, none, some, Bytes, ℤ, pos, ◌+ℤ◌,
  ◌≤ℤ◌, ◌<ℤ◌, eqb_ℤ_iff, arith, Bool-cases, Option-cases, ◌↔◌,
}
use uctool.Chain.{ChainApi, MstNodeData}
use uctool.Keys.{from_string}
use uctool.Node.{MNode}
use uctool.KeyRing.{key_at}
use uctool.Watcher.{
  Watcher, needs_no_license, new_period, with_pubkey, dated, with_license, sign_word,
  sign_mn_license,
}

-- The node is one whose licence is to be renewed.
pub record IsDue (w : Watcher) (now : ℤ) (mn : MNode) : Type 0 where
  pub bound : mn.status ≡ pos 1
  pub shorter : mn.licperiod <ℤ mn.nodeperiod
  pub near : mn.licperiod ≤ℤ now +ℤ w.need_update_period

-- The test at the head of `SignMNLicense` lets exactly the due nodes pass.
pub needs_no_license_iff :
    (w : Watcher) (now : ℤ) (mn : MNode) → (needs_no_license w now mn ≡ false) ↔ IsDue w now mn
unfolding needs_no_license
needs_no_license_iff w now mn = ground (arith, eqb_ℤ_iff mn.status (pos 1))

-- A node whose licence was just given its new period needs none at `later`.
covered :
    (w : Watcher) (now later : ℤ) (mn out : MNode)
    → out.licperiod ≡ new_period w now mn
    → out.nodeperiod ≡ mn.nodeperiod
    → later +ℤ w.need_update_period <ℤ now +ℤ w.lic_period_limit
    → needs_no_license w later out ≡ true
unfolding needs_no_license new_period
covered w now later mn out p q h = ground arith

module _ (chain : ChainApi) where
  -- How a signed node `out` comes from `mn`: it keeps its identity, its licence ends at the new
  -- period and no later than the node, it bears the version of the newest key, and the licence is
  -- the signature by that key of the licence word of the node with the new dates.
  pub record IsSigned (w : Watcher) (now : ℤ) (mn out : MNode) : Type 0 where
    pub same_txid : out.txid ≡ mn.txid
    pub same_voutid : out.voutid ≡ mn.voutid
    pub same_end : out.nodeperiod ≡ mn.nodeperiod
    pub same_status : out.status ≡ mn.status
    pub period : out.licperiod ≡ new_period w now mn
    pub within : out.licperiod ≤ℤ out.nodeperiod
    pub version : out.licversion ≡ pos w.key_version
    pub unsigned : MstNodeData
    pub key : Bytes
    pub sig : Bytes
    pub newest : key_at w.watcher_keys w.key_version ≡ some key
    pub signature : chain.sign_compact key (chain.get_license_word unsigned) ≡ some sig
    pub signed_node : out.node_data ≡ record unsigned { licence = chain.encode_base64 sig }
    pub verified : chain.verify_license out.node_data ≡ true

  with_pubkey-same :
      (mn keyed : MNode)
      → with_pubkey chain mn ≡ some keyed
      → (keyed.txid ≡ mn.txid)
        × (keyed.voutid ≡ mn.voutid)
        × (keyed.nodeperiod ≡ mn.nodeperiod)
        × (keyed.status ≡ mn.status)
  unfolding with_pubkey
  with_pubkey-same mn keyed e = elim (Option-cases (from_string chain mn.privkey)) [
    | inl f ↦ ground arith
    | inr (key, f) ↦ ground arith
  ]

  sign_word-key :
      (w : Watcher) (mn : MNode) (sig : Bytes)
      → sign_word chain w mn ≡ some sig
      → (key : Bytes) × (key_at w.watcher_keys w.key_version ≡ some key)
        × (chain.sign_compact key (chain.get_license_word mn.node_data) ≡ some sig)
  unfolding sign_word
  sign_word-key w mn sig e = elim (Option-cases (key_at w.watcher_keys w.key_version)) [
    | inl f ↦ absurd (ground arith)
    | inr (key, f) ↦ (key, f, ground arith)
  ]

  new_period-le : (w : Watcher) (now : ℤ) (mn : MNode) → new_period w now mn ≤ℤ mn.nodeperiod
  unfolding new_period
  new_period-le w now mn = ground arith

  new_period-same :
      (w : Watcher) (now : ℤ) (a b : MNode)
      → a.nodeperiod ≡ b.nodeperiod
      → new_period w now a ≡ new_period w now b
  unfolding new_period
  new_period-same w now a b e = rw e

  sign_steps :
      (w : Watcher) (now : ℤ) (mn keyed : MNode) (sig : Bytes)
      → needs_no_license w now mn ≡ false
      → with_pubkey chain mn ≡ some keyed
      → sign_word chain w (dated chain w now keyed) ≡ some sig
      → let signed = with_license chain (dated chain w now keyed) sig in
        sign_mn_license chain w now mn ≡ (chain.verify_license signed.node_data, signed)
  unfolding sign_mn_license
  sign_steps w now mn keyed sig d k s = rw (d, k, s)

  with_license-IsSigned :
      (w : Watcher) (now : ℤ) (mn keyed : MNode) (sig : Bytes)
      → with_pubkey chain mn ≡ some keyed
      → sign_word chain w (dated chain w now keyed) ≡ some sig
      → chain.verify_license (with_license chain (dated chain w now keyed) sig).node_data ≡ true
      → IsSigned w now mn (with_license chain (dated chain w now keyed) sig)
  unfolding with_license dated
  with_license-IsSigned w now mn keyed sig k s v =
      let (e₁, e₂, e₃, e₄) = with_pubkey-same mn keyed k in
      let (key, n, call) = sign_word-key w (dated chain w now keyed) sig s in
      record {
        same_txid = e₁;
        same_voutid = e₂;
        same_end = e₃;
        same_status = e₄;
        period = new_period-same w now keyed mn e₃;
        within = new_period-le w now keyed;
        version = refl;
        unsigned = (dated chain w now keyed).node_data;
        key = key;
        sig = sig;
        newest = n;
        signature = call;
        signed_node = refl;
        verified = v;
      }

  pub refused_steps :
      (w : Watcher) (now : ℤ) (mn : MNode)
      → needs_no_license w now mn ≡ true
      → sign_mn_license chain w now mn ≡ (false, mn)
  unfolding sign_mn_license
  refused_steps w now mn d = rw d

  unkeyed_steps :
      (w : Watcher) (now : ℤ) (mn : MNode)
      → needs_no_license w now mn ≡ false
      → with_pubkey chain mn ≡ none
      → sign_mn_license chain w now mn ≡ (false, mn)
  unfolding sign_mn_license
  unkeyed_steps w now mn d k = rw (d, k)

  unsigned_steps :
      (w : Watcher) (now : ℤ) (mn keyed : MNode)
      → needs_no_license w now mn ≡ false
      → with_pubkey chain mn ≡ some keyed
      → sign_word chain w (dated chain w now keyed) ≡ none
      → sign_mn_license chain w now mn ≡ (false, dated chain w now keyed)
  unfolding sign_mn_license
  unsigned_steps w now mn keyed d k s = rw (d, k, s)

  -- Where `SignMNLicense` answers true, the node was bound (status 1), its licence ended before the
  -- node does and within the update period; and it comes back with the licence, which passes the
  -- program's own verification, ends at the new period, never after the node itself, and is the
  -- newest key's signature of the licence word with the new dates.
  pub sign_mn_license-IsSigned :
      (w : Watcher) (now : ℤ) (mn out : MNode)
      → sign_mn_license chain w now mn ≡ (true, out)
      → IsDue w now mn × IsSigned w now mn out
  sign_mn_license-IsSigned w now mn out e = elim (Bool-cases (needs_no_license w now mn)) [
    | inl stop ↦ absurd (impossible mn (sym (refused_steps w now mn stop) ∙ e))
    | inr due ↦ elim (Option-cases (with_pubkey chain mn)) [
      | inl k ↦ absurd (impossible mn (sym (unkeyed_steps w now mn due k) ∙ e))
      | inr (keyed, k) ↦ elim (Option-cases (sign_word chain w (dated chain w now keyed))) [
        | inl s ↦
            absurd (
              impossible (dated chain w now keyed)
                (sym (unsigned_steps w now mn keyed due k s) ∙ e))
        | inr (sig, s) ↦
            let both = sym (sign_steps w now mn keyed sig due k s) ∙ e in
            (
              (needs_no_license_iff w now mn).0 due,
              subst (IsSigned w now mn) (ap (λ p. p.1) both)
                  (with_license-IsSigned w now mn keyed sig k s (ap (λ p. p.0) both)),
            )
      ]
    ]
  ]
    where
      impossible : (a : MNode) → ◌≡◌ {A = Bool × MNode} (false, a) (true, out) → ⊥
      impossible a h = cc (ap (λ p. p.0) h)

  -- A node is not signed over and over: as long as the update period counted from `later` falls short
  -- of the period that was given at `now`, a node that was signed at `now` is refused unchanged.
  pub sign_mn_license_twice :
      (w : Watcher) (now later : ℤ) (mn out : MNode)
      → sign_mn_license chain w now mn ≡ (true, out)
      → later +ℤ w.need_update_period <ℤ now +ℤ w.lic_period_limit
      → sign_mn_license chain w later out ≡ (false, out)
  sign_mn_license_twice w now later mn out e h =
      let signed = (sign_mn_license-IsSigned w now mn out e).1 in
      refused_steps w later out (covered w now later mn out signed.period signed.same_end h)
