-- ===== src/Client.antt =====
-- tools/msgtool.cc: the client that asks the center, `MSTRequest` and the `ask` commands. What the
-- socket does is an argument: whether it connects, what `send` returns, and what each `recv` gives,
-- with the seconds that have passed behind it. Printing is left out but for its outcome.
pub mod Asking
pub mod Archives
use uctool.Common.{
  ℕ, zero, suc, ◌-◌, Bool, true, false, not, ◌&&◌, ◌||◌, List, [], ◌∷◌, ◌++◌, Option, none, some,
  Bytes, ltb, leb, ◌==◌, if◌then◌else◌, bytes_eq, length, take, drop, ℤ, pos, negsuc, pos_part,
  ◌+ℤ◌, eqb_ℤ, signed32,
}
use uctool.Chain.{MstNodeData, Quest}

-- The functions of the UlordChain sources that the client calls: the request with its header, the
-- length from four bytes of memory by `HNSwapl`, and the readers of a reply, which throw on a text
-- that is too short. The flag is whether the newer serialisation is asked for.
pub record ClientApi : Type 0 where
  pub get_msg_buf : Bool → Quest → Bytes
  pub hn_swapl : Bytes → ℕ
  pub read_head : Bool → Bytes → Option ((ℤ × ℤ) × Bytes)
  pub read_node : Bool → Bytes → Option (MstNodeData × Bytes)
  pub read_key : Bool → Bytes → Option ((ℤ × Bytes) × Bytes)
  pub asks_one : ℤ
  pub asks_key : ℤ
  pub null_txid : Bytes

pub record Exchange : Type 0 where
  pub ucenterserver : Bytes
  pub connects : Bool
  pub selectable : Bool
  pub sent_bytes : Bytes → ℕ
  -- Each `recv`: its bytes, none where it gives 0 or -1, and the time since the request.
  pub receipts : List (Bytes × ℕ)

abbrev pub req_buf_len : ℕ
req_buf_len = 600

abbrev pub req_msg_timeout : ℕ
req_msg_timeout = 10

module _ (api : ClientApi) where
  -- The tests on what was received; the buffer was zero before.
  unfoldable pub parse_reply : Bytes → Option Bytes
  parse_reply bytes =
      let msglen = signed32 (api.hn_swapl (take 4 (bytes ++ 0 ∷ 0 ∷ 0 ∷ 0 ∷ []))) in
      if ltb req_buf_len (length bytes)
      then none
      else (if eqb_ℤ msglen (pos (length bytes) +ℤ negsuc 3)
          then some (take (pos_part msglen) (drop 4 bytes))
          else none)

  -- The loop over `recv`. The list of receipts goes on until the time is over.
  unfoldable pub receive_reply : List (Bytes × ℕ) → Option Bytes
  unfolding parse_reply
  receive_reply [] = none
  receive_reply ((bytes, elapsed) ∷ rest) =
      let later = receive_reply rest in
      if leb req_msg_timeout elapsed
      then none
      else (if length bytes == 0 then later else parse_reply (take req_buf_len bytes))

  -- `MSTRequest`; none is its `false`.
  unfoldable pub mst_request : Bool → Quest → Exchange → Option Bytes
  unfolding receive_reply
  mst_request is_new ask net =
      let buf = api.get_msg_buf is_new ask in
      if bytes_eq net.ucenterserver [] || not net.connects || not net.selectable
      then none
      else (if net.sent_bytes buf == length buf then receive_reply net.receipts else none)

  -- What a command prints at the end; `thrown` is an exception of a reader, which is not caught.
  pub data Shown : Type 0 where
    license : MstNodeData → Shown
    wrong_node : MstNodeData → Shown
    keys : List (ℤ × Bytes) → Shown
    invalid_msg : (num nodetype : ℤ) → Shown
    no_reply thrown : Shown

  unfoldable pub license_quest : Bytes → ℕ → ℤ → Quest
  license_quest txid voutid now = record {
    msgversion = pos 111;
    questtype = api.asks_one;
    time_stamps = now;
    txid = txid;
    voutid = voutid;
  }

  unfoldable pub key_quest : ℤ → Quest
  key_quest now = record {
    msgversion = pos 111;
    questtype = api.asks_key;
    time_stamps = now;
    txid = api.null_txid;
    voutid = 0;
  }

  -- The test on the node that came back.
  unfoldable pub show_node : Bytes → ℕ → Option (MstNodeData × Bytes) → Shown
  show_node txid voutid none = thrown
  show_node txid voutid (some (d, rest)) =
      if not (bytes_eq d.txid txid) || not (d.voutid == voutid) then wrong_node d else license d

  unfoldable pub show_license : Bool → Bytes → ℕ → Option ((ℤ × ℤ) × Bytes) → Shown
  unfolding show_node
  show_license is_new txid voutid none = thrown
  show_license is_new txid voutid (some ((num, nodetype), rest)) =
      if eqb_ℤ num (pos 1) && eqb_ℤ nodetype api.asks_one
      then show_node txid voutid (api.read_node is_new rest)
      else invalid_msg num nodetype

  -- `AskLicense` and `AskLicenseNew`, behind the reading of the arguments.
  unfoldable pub ask_license : Bool → Bytes → ℕ → ℤ → Exchange → Shown
  unfolding mst_request show_license
  ask_license is_new txid voutid now net =
      elim (mst_request is_new (license_quest txid voutid now) net) [
        | none ↦ no_reply
        | some reply ↦ show_license is_new txid voutid (api.read_head is_new reply)
      ]

  -- The loop over the keys of a reply, `num` of them.
  unfoldable pub read_keys : Bool → ℕ → Bytes → Option (List (ℤ × Bytes))
  read_keys is_new zero bytes = some []
  read_keys is_new (suc num) bytes = elim (api.read_key is_new bytes) [
    | none ↦ none
    | some (key, rest) ↦ elim (read_keys is_new num rest) [
      | none ↦ none
      | some more ↦ some (key ∷ more)
    ]
  ]

  unfoldable pub show_keys : Bool → Option ((ℤ × ℤ) × Bytes) → Shown
  unfolding read_keys
  show_keys is_new none = thrown
  show_keys is_new (some ((num, nodetype), rest)) =
      if eqb_ℤ nodetype api.asks_key
      then elim (read_keys is_new (pos_part num) rest) [ none ↦ thrown | some found ↦ keys found ]
      else invalid_msg num nodetype

  -- `AskKeyVersion` and `AskKeyVersionNew`.
  unfoldable pub ask_key_version : Bool → ℤ → Exchange → Shown
  unfolding mst_request show_keys
  ask_key_version is_new now net = elim (mst_request is_new (key_quest now) net) [
    | none ↦ no_reply
    | some reply ↦ show_keys is_new (api.read_head is_new reply)
  ]
