-- ===== src/Center/Requests.antt =====
-- The requests of ulordcenter.cc: `onStringMessage`, `HandlerMsg` and `UnSerializeBoost`. What a call
-- does for the client is the message that it sends, if it sends one.
use uctool.Common.{
  ℕ, Bool, true, false, not, ◌&&◌, ◌||◌, List, [], ◌∷◌, Option, none, some, Bytes, codes, length,
  take, drop, ltb, ◌==◌, if◌then◌else◌, ℤ, pos, eqb_ℤ,
}
use uctool.Chain.{ChainApi, MstNodeData, Quest, Item, head, node, center_key}
use uctool.Hex.{hex2_int, hex2_int64}
use uctool.Db.{to_unsigned}
use uctool.Mysql.{MysqlApi, M, ◌>>=◌, pure}
use uctool.Center.{Center, select_mn_data}

-- `std::string::substr`, which throws where the position lies behind the end.
unfoldable pub substr : Bytes → ℕ → ℕ → Option Bytes
substr s at count = if ltb (length s) at then none else some (take count (drop at s))

unfoldable pub starts_with : Bytes → Bytes → Bool
starts_with [] s = true
starts_with (x ∷ xs) [] = false
starts_with (x ∷ xs) (y ∷ ys) = x == y && starts_with xs ys

-- `find(needle) != npos`
unfoldable pub contains : Bytes → Bytes → Bool
unfolding starts_with
contains needle [] = starts_with needle []
contains needle (c ∷ s) = starts_with needle (c ∷ s) || contains needle s

-- The results of `UnSerializeBoost`; `out_of_range` is the exception of `substr`.
pub data Unserialized : Type 0 where
  accepted : Quest → Unserialized
  rejected out_of_range : Unserialized

infixr 5 ◌>>=ᵤ◌
abbrev pub ◌>>=ᵤ◌ : Option Bytes → (Bytes → Unserialized) → Unserialized
none >>=ᵤ f = out_of_range
some b >>=ᵤ f = f b

-- What becomes of a message: a reply, silence, a stream that cannot be read (the -1 of
-- `HandlerMsg`), or an exception that leaves the callback.
pub data Handled : Type 0 where
  replied : Bytes → Handled
  silent unreadable thrown : Handled

module _ (chain : ChainApi) where
  open chain use {quest_one, quest_key}

  -- The checks of `UnSerializeBoost` on its parts.
  unfoldable pub check_parts : Bytes → ℤ → ℤ → ℤ → ℤ → Bytes → ℤ → Unserialized
  check_parts head_part version timestamp type txidlen txid voutid =
      if contains (codes "serialization::archive") (chain.parse_hex head_part)
        || not (eqb_ℤ version (pos 111))
        || not (eqb_ℤ type (pos 1))
        || not (eqb_ℤ txidlen (pos 64))
      then rejected
      else accepted (record {
        msgversion = version;
        questtype = type;
        time_stamps = timestamp;
        txid = chain.parse_hex txid;
        voutid = to_unsigned voutid;
      })

  unfoldable pub un_serialize_boost : Bytes → Unserialized
  unfolding substr
  un_serialize_boost msg = substr msg 0 90 >>=ᵤ λ head_part. substr msg 90 8 >>=ᵤ λ version.
      substr msg 98 16 >>=ᵤ λ timestamp. substr msg 114 8 >>=ᵤ λ type.
      substr msg 122 16 >>=ᵤ λ txidlen. substr msg 138 128 >>=ᵤ λ txid.
      substr msg 266 8 >>=ᵤ λ voutid.
      check_parts head_part (hex2_int version) (hex2_int64 timestamp) (hex2_int type)
        (hex2_int64 txidlen) txid (hex2_int voutid)

  -- The node of a reply: the one found, or one of status 0; the private key is covered up.
  unfoldable pub reply_node : Quest → Option MstNodeData → MstNodeData
  reply_node q none = record (chain.make_node (pos 0) q.txid q.voutid) {
    status = pos 0;
    privkey = codes "secret";
  }
  reply_node q (some d) = record d { privkey = codes "secret" }

  unfoldable pub key_items : List (ℕ × Bytes) → List Item
  key_items [] = []
  key_items ((version, key) ∷ rest) =
      center_key version (chain.hex_str (chain.get_pub_key key)) ∷ key_items rest

  module _ (mysql : MysqlApi) where
    -- The part that both handlers share: the objects of the reply, none for an unknown request.
    unfoldable pub answer : Center → Quest → ℤ → M mysql (Option (List Item) × Center)
    unfolding reply_node key_items
    answer c q now =
        if eqb_ℤ q.questtype quest_one
        then ◌>>=◌ mysql (select_mn_data chain mysql c q.txid q.voutid now) (λ (found, c').
          pure mysql (some (head q.msgversion 1 quest_one ∷ node (reply_node q found) ∷ []), c'))
        else (if eqb_ℤ q.questtype quest_key
            then pure mysql (
              some (head q.msgversion (length c.ucenter_keys) quest_key ∷ key_items c.ucenter_keys),
              c,
            )
            else pure mysql (none, c))

    abbrev pub send_items : (List Item → Bytes) → Option (List Item) → Handled
    send_items encode none = silent
    send_items encode (some items) = replied (encode items)

    abbrev pub handle_quest : (List Item → Bytes) → Center → Quest → ℤ → M mysql (Handled × Center)
    handle_quest encode c q now =
        ◌>>=◌ mysql (answer c q now) λ (items, c'). pure mysql (send_items encode items, c')

    -- `HandlerMsg`
    unfoldable pub handler_msg : Center → Bytes → ℤ → M mysql (Handled × Center)
    handler_msg c message now = elim (chain.decode_stream message) [
      | none ↦ pure mysql (unreadable, c)
      | some q ↦ handle_quest chain.encode_stream c q now
    ]

    -- What is done with the result of `UnSerializeBoost`; its exception is not caught.
    unfoldable pub handle_raw : Center → Unserialized → ℤ → M mysql (Handled × Center)
    handle_raw c (accepted q) now = handle_quest chain.encode_boost c q now
    handle_raw c rejected now = pure mysql (silent, c)
    handle_raw c out_of_range now = pure mysql (thrown, c)

    -- A message of the old length.
    unfoldable pub boost_msg : Center → Bytes → ℤ → M mysql (Handled × Center)
    boost_msg c message now = elim (chain.decode_boost message) [
      | some q ↦ handle_quest chain.encode_boost c q now
      | none ↦ handle_raw c (un_serialize_boost message) now
    ]

    -- `onStringMessage`; the two lengths are configured, 137 and 85 by default.
    unfoldable pub on_string_message : ℕ → ℕ → Center → Bytes → ℤ → M mysql (Handled × Center)
    on_string_message expectlen expectlen_noboost c message now =
        if length message == expectlen
        then boost_msg c message now
        else (if length message == expectlen_noboost
            then handler_msg c message now
            else pure mysql (silent, c))
