-- ===== src/Client/Asking.antt =====
-- What the client accepts.
use uctool.Common.{
  ℕ, zero, suc, ◌+◌, ◌≤◌, ◌<◌, ◌^◌, ◌≡◌, ◌≢◌, refl, sym, ap, ◌∙◌, inl, inr, Bool, true, false, ◌&&◌,
  List, [], ◌∷◌, ◌++◌, Option, none, some, Bytes, bytes_eq, bytes_eq_iff, length, take, ℤ, pos,
  ◌+ℤ◌, eqb_ℤ, eqb_ℤ_iff, arith, Bool-cases, Option-cases, length-append, append-nil,
  take-length_append,
}
use uctool.Net.{BufferApi, be32, be_bytes}
use uctool.Codec.Wire.{frame}
use uctool.Codec.Delivery.{sent, sent-frame}
use uctool.Chain.{MstNodeData, Quest}
use uctool.Client.{
  ClientApi, Exchange, license, parse_reply, receive_reply, mst_request, license_quest, show_node,
  show_license, ask_license,
}

module _ (api : ClientApi) where
  show_node-own :
      (txid : Bytes) (voutid : ℕ) (found : Option (MstNodeData × Bytes)) (d : MstNodeData)
      → show_node api txid voutid found ≡ license d
      → (d.txid ≡ txid) × (d.voutid ≡ voutid)
  unfolding show_node
  show_node-own txid voutid none d h = absurd (ground (arith, h))
  show_node-own txid voutid (some (e, rest)) d h = ground (arith, h, bytes_eq_iff e.txid txid)

  show_license-own :
      (is_new : Bool) (txid : Bytes) (voutid : ℕ) (h : Option ((ℤ × ℤ) × Bytes)) (d : MstNodeData)
      → show_license api is_new txid voutid h ≡ license d
      → (d.txid ≡ txid) × (d.voutid ≡ voutid)
  unfolding show_license
  show_license-own is_new txid voutid none d e = absurd (ground (arith, e))
  show_license-own is_new txid voutid (some ((num, nodetype), rest)) d e =
      elim (Bool-cases (eqb_ℤ num (pos 1) && eqb_ℤ nodetype api.asks_one)) [
        | inl good ↦ show_node-own txid voutid (api.read_node is_new rest) d (sym (rw good) ∙ e)
        | inr bad ↦ absurd (ground (arith, e, bad))
      ]

  -- The client never shows the licence of another node: what `AskLicense` prints as a licence is of
  -- the txid and the index that it asked for, whatever the server sends.
  pub ask_license-own :
      (is_new : Bool) (txid : Bytes) (voutid : ℕ) (now : ℤ) (net : Exchange) (d : MstNodeData)
      → ask_license api is_new txid voutid now net ≡ license d
      → (d.txid ≡ txid) × (d.voutid ≡ voutid)
  unfolding ask_license
  ask_license-own is_new txid voutid now net d e =
      elim (Option-cases (mst_request api is_new (license_quest api txid voutid now) net)) [
        | inl none_got ↦ absurd (ground (arith, e, none_got))
        | inr (reply, got) ↦
            show_license-own is_new txid voutid (api.read_head is_new reply) d
              (sym (rw (got, ask_license)) ∙ e)
      ]

  -- `HNSwapl` on four bytes of memory reads them in network order.
  abbrev pub SwapsBytes : Type 0
  SwapsBytes = (bs : Bytes) → length bs ≡ 4 → api.hn_swapl bs ≡ be32 bs

  take-length : (m : Bytes) → take (length m) m ≡ m
  take-length m = ap (take (length m)) (sym (append-nil m)) ∙ take-length_append m []

  take-all : (n : ℕ) (m : Bytes) → length m ≤ n → take n m ≡ m
  take-all zero [] h = refl
  take-all zero (x ∷ m) h = absurd (omega arith)
  take-all (suc n) [] h = refl
  take-all (suc n) (x ∷ m) h = ap (λ (l : Bytes). x ∷ l) (take-all n m (omega arith))

  parse_reply-frame : SwapsBytes → (m : Bytes) → length m ≤ 596 → parse_reply api (frame m) ≡ some m
  unfolding parse_reply ◌+ℤ◌
  parse_reply-frame swaps m h = ground (arith, swaps (be_bytes (length m)) refl, take-length m)

  parse_reply-cut :
      SwapsBytes
      → (m piece rest : Bytes) → length m < 2 ^ 31
      → piece ++ rest ≡ frame m
      → rest ≢ []
      → parse_reply api piece ≡ none
  unfolding parse_reply ◌+ℤ◌
  parse_reply-cut swaps m [] rest h e r = ground (arith, swaps (0 ∷ 0 ∷ 0 ∷ 0 ∷ []) refl)
  parse_reply-cut swaps m (a ∷ []) rest h e r = ground (arith, swaps (a ∷ 0 ∷ 0 ∷ 0 ∷ []) refl, e)
  parse_reply-cut swaps m (a ∷ b ∷ []) rest h e r =
      ground (arith, swaps (a ∷ b ∷ 0 ∷ 0 ∷ []) refl, e)
  parse_reply-cut swaps m (a ∷ b ∷ c ∷ []) rest h e r =
      ground (arith, swaps (a ∷ b ∷ c ∷ 0 ∷ []) refl, e)
  parse_reply-cut swaps m (a ∷ b ∷ c ∷ d ∷ p) [] h e r = absurd (r refl)
  parse_reply-cut swaps m (a ∷ b ∷ c ∷ d ∷ p) (x ∷ xs) h e r =
      let tails : p ++ x ∷ xs ≡ m = ground (arith, e) in
      let lengths : length p < length m =
        omega (arith, ap length tails, length-append p (x ∷ xs)) in
      let value : be32 (a ∷ b ∷ c ∷ d ∷ []) ≡ length m = ground (arith, e) in
      ground (arith, swaps (a ∷ b ∷ c ∷ d ∷ []) refl, value, lengths)

  -- The exchange gets through to the receiving of the reply.
  pub record IsConnected (is_new : Bool) (ask : Quest) (net : Exchange) : Type 0 where
    pub configured : bytes_eq net.ucenterserver [] ≡ false
    pub is_up : net.connects ≡ true
    pub is_selectable : net.selectable ≡ true
    pub is_sent : net.sent_bytes (api.get_msg_buf is_new ask) ≡ length (api.get_msg_buf is_new ask)

  mst_request-receive :
      (is_new : Bool) (ask : Quest) (net : Exchange) (piece : Bytes) (t : ℕ)
      (later : List (Bytes × ℕ))
      → IsConnected is_new ask net
      → net.receipts ≡ (piece, t) ∷ later
      → t < 10
      → 0 < length piece
      → length piece ≤ 600
      → mst_request api is_new ask net ≡ parse_reply api piece
  unfolding mst_request receive_reply
  mst_request-receive is_new ask net piece t later c e soon more fits =
      let whole : take 600 piece ≡ piece = take-all 600 piece fits in
      rw (c.configured, c.is_up, c.is_selectable, c.is_sent, e) (ground (arith, soon, more, whole))

  -- The client reads what the center's codec sends: a reply of at most 596 bytes that comes in one
  -- piece within ten seconds is accepted unchanged. One that comes in pieces is refused, whatever
  -- its first piece, of at most 600 bytes, is. It is assumed that `HNSwapl` reads in network order.
  pub mst_request-sent :
      (net_api : BufferApi)
      → SwapsBytes
      → (is_new : Bool) (ask : Quest) (net : Exchange) (m piece rest : Bytes) (t : ℕ)
        (later : List (Bytes × ℕ))
      → IsConnected is_new ask net
      → net.receipts ≡ (piece, t) ∷ later
      → t < 10
      → 0 < length piece
      → length piece ≤ 600
      → length m < 2 ^ 31
      → piece ++ rest ≡ sent net_api m
      → (rest ≡ [] → mst_request api is_new ask net ≡ some m)
        × (rest ≢ [] → mst_request api is_new ask net ≡ none)
  mst_request-sent net_api swaps is_new ask net m piece rest t later c e soon more fits small
        whole =
      let framed : piece ++ rest ≡ frame m = whole ∙ sent-frame net_api m (omega arith) in
      let step = mst_request-receive is_new ask net piece t later c e soon more fits in
      (
        λ last.
            let all_of : piece ≡ frame m =
              sym (append-nil piece) ∙ ap (λ (r : Bytes). piece ++ r) (sym last) ∙ framed in
            let short : length m ≤ 596 =
              omega (arith, ap length all_of, length-append (be_bytes (length m)) m) in
            step ∙ ap (parse_reply api) all_of ∙ parse_reply-frame swaps m short,
        λ cut. step ∙ parse_reply-cut swaps m piece rest small framed cut,
      )

  ask_license_received :
      (is_new : Bool) (txid : Bytes) (voutid : ℕ) (now : ℤ) (net : Exchange) (reply : Bytes)
      → mst_request api is_new (license_quest api txid voutid now) net ≡ some reply
      → ask_license api is_new txid voutid now net
        ≡ show_license api is_new txid voutid (api.read_head is_new reply)
  unfolding ask_license
  ask_license_received is_new txid voutid now net reply e = rw (e, ask_license) refl

  show_license_served :
      (is_new : Bool) (txid : Bytes) (voutid : ℕ) (d : MstNodeData) (rest left : Bytes)
      → api.read_node is_new rest ≡ some (d, left)
      → d.txid ≡ txid
      → d.voutid ≡ voutid
      → show_license api is_new txid voutid (some ((pos 1, api.asks_one), rest)) ≡ license d
  unfolding show_license show_node
  show_license_served is_new txid voutid d rest left e same_tx same_out =
      let one : eqb_ℤ api.asks_one api.asks_one ≡ true =
        (eqb_ℤ_iff api.asks_one api.asks_one).1 refl in
      let tx : bytes_eq d.txid txid ≡ true = (bytes_eq_iff d.txid txid).1 same_tx in
      rw (one, e, tx) (ground (arith, same_out))

  -- A client that asks for a node gets to see the licence that the center sends: where the center's
  -- reply, of at most 596 bytes, comes in one piece in time, and the chain's readers read from it a
  -- head for one node and the node asked for, `AskLicense` prints that node's licence.
  pub ask_license-sent :
      (net_api : BufferApi)
      → SwapsBytes
      → (is_new : Bool) (txid : Bytes) (voutid : ℕ) (now : ℤ) (net : Exchange) (d : MstNodeData)
        (reply rest left : Bytes) (t : ℕ) (later : List (Bytes × ℕ))
      → IsConnected is_new (license_quest api txid voutid now) net
      → net.receipts ≡ (sent net_api reply, t) ∷ later
      → t < 10
      → length reply ≤ 596
      → api.read_head is_new reply ≡ some ((pos 1, api.asks_one), rest)
      → api.read_node is_new rest ≡ some (d, left)
      → d.txid ≡ txid
      → d.voutid ≡ voutid
      → ask_license api is_new txid voutid now net ≡ license d
  ask_license-sent net_api swaps is_new txid voutid now net d reply rest left t later c e soon small
        got_head got_node same_tx same_out =
      let framed : sent net_api reply ≡ frame reply = sent-frame net_api reply (omega arith) in
      let size : length (sent net_api reply) ≡ 4 + length reply =
        ap length framed ∙ length-append (be_bytes (length reply)) reply in
      let got =
        (mst_request-sent net_api swaps is_new (license_quest api txid voutid now) net reply
            (sent net_api reply) [] t later c e soon (omega (arith, size)) (omega (arith, size))
            (omega arith) (append-nil (sent net_api reply))).0
          refl in
      ask_license_received is_new txid voutid now net reply got
      ∙ ap (show_license api is_new txid voutid) got_head
      ∙ show_license_served is_new txid voutid d rest left got_node same_tx same_out
