-- ===== src/Center/Covered.antt =====
-- No reply of the center gives a private key away.
use uctool.Common.{
  ℕ, ◌≡◌, refl, ◌⊎◌, inl, inr, List, [], ◌∷◌, Option, none, some, Bytes, codes, All, ℤ, eqb_ℤ,
  Bool-cases, Option-cases,
}
use mathlib.Core.List.{Memᴰ}
use mathlib.Core.List.Memᴰ.{head, tail}
use uctool.Chain.{ChainApi, MstNodeData, Quest, Item, head, node, center_key}
use uctool.Mysql.{MysqlApi, Session}
use uctool.Mysql.Post.{Post, Post-bind}
use uctool.Center.{Center}
use uctool.Center.Keyed.{IsKeyed}
use uctool.Center.Cache.{Found, AskedFor, select_mn_data-Found}
use uctool.Center.Requests.{
  Unserialized, accepted, rejected, out_of_range, un_serialize_boost, reply_node, key_items, answer,
  send_items, handle_quest, handle_raw, handler_msg, boost_msg, Handled, replied, silent,
  unreadable, thrown,
}

module _ (chain : ChainApi) where
  open chain use {quest_one, quest_key}

  -- The item gives no private key away: in a node the field holds the word "secret", and a key of the
  -- center is the public key, in hexadecimal, of one of these keys, under its version.
  abbrev pub IsCovered : List (ℕ × Bytes) → Item → Type 0
  IsCovered keys (head msgversion num nodetype) = Unit
  IsCovered keys (node d) = d.privkey ≡ codes "secret"
  IsCovered keys (center_key keyversion key) =
      (own : Bytes) × Memᴰ (keyversion, own) keys × (key ≡ chain.hex_str (chain.get_pub_key own))

  key_items-IsCovered :
      (keys some_keys : List (ℕ × Bytes))
      → ((k : ℕ × Bytes) → Memᴰ k some_keys → Memᴰ k keys)
      → All (IsCovered keys) (key_items chain some_keys)
  unfolding key_items
  key_items-IsCovered keys [] among = tt
  key_items-IsCovered keys ((version, key) ∷ rest) among = (
    (key, among (version, key) (head refl), refl),
    key_items-IsCovered keys rest (λ k m. among k (tail m)),
  )

  abbrev pub AllCovered : List (ℕ × Bytes) → Option (List Item) → Type 0
  AllCovered keys none = Unit
  AllCovered keys (some items) = All (IsCovered keys) items

  pub reply_node-covered :
      (q : Quest) (found : Option MstNodeData) → (reply_node chain q found).privkey ≡ codes "secret"
  unfolding reply_node
  reply_node-covered q none = refl
  reply_node-covered q (some d) = refl

  module _ (mysql : MysqlApi) where
    answer-AllCovered :
        (c : Center) (q : Quest) (now : ℤ) (s : Session mysql)
        → IsKeyed c.mnode_list
        → Post mysql
            (λ r t.
              IsKeyed r.1.mnode_list
              × (r.1.ucenter_keys ≡ c.ucenter_keys)
              × AllCovered c.ucenter_keys r.0)
            (answer chain mysql c q now s)
    unfolding answer
    answer-AllCovered c q now s keyed = elim (Bool-cases (eqb_ℤ q.questtype quest_one)) [
      | inl one ↦ rw one (
          Post-bind mysql
            (λ (r : Option MstNodeData × Center) t.
              Found c q.txid q.voutid r.0 r.1 × AskedFor chain mysql c q.txid q.voutid now s t)
            (λ (r : Option (List Item) × Center) t.
              IsKeyed r.1.mnode_list
              × (r.1.ucenter_keys ≡ c.ucenter_keys)
              × AllCovered c.ucenter_keys r.0)
            _ _ (select_mn_data-Found chain mysql c q.txid q.voutid now s keyed)
            λ r t h. (h.0.0, h.0.1, (tt, (reply_node-covered q r.0, tt))))
      | inr other ↦ elim (Bool-cases (eqb_ℤ q.questtype quest_key)) [
        | inl keys ↦
            rw (other, keys)
              (keyed, refl, (tt, key_items-IsCovered c.ucenter_keys c.ucenter_keys (λ k m. m)))
        | inr unknown ↦ rw (other, unknown) (keyed, refl, tt)
      ]
    ]

    -- The bytes of a reply are one of the two serialisations of covered objects.
    abbrev pub IsCoveredReply : List (ℕ × Bytes) → Handled → Type 0
    IsCoveredReply keys (replied bytes) =
        (items : List Item) × All (IsCovered keys) items
        × ((bytes ≡ chain.encode_boost items) ⊎ (bytes ≡ chain.encode_stream items))
    IsCoveredReply keys silent = Unit
    IsCoveredReply keys unreadable = Unit
    IsCoveredReply keys thrown = Unit

    -- What a call leaves: a keyed cache, the same keys, and a covered reply.
    abbrev pub Safe : Center → Handled × Center → Session mysql → Type 0
    Safe c r t =
        IsKeyed r.1.mnode_list
        × (r.1.ucenter_keys ≡ c.ucenter_keys)
        × IsCoveredReply c.ucenter_keys r.0

    handle_quest-Safe :
        (encode : List Item → Bytes) (c : Center) (q : Quest) (now : ℤ) (s : Session mysql)
        → ((items : List Item)
            → (encode items ≡ chain.encode_boost items)
              ⊎ (encode items ≡ chain.encode_stream items))
        → IsKeyed c.mnode_list
        → Post mysql (Safe c) (handle_quest chain mysql encode c q now s)
    handle_quest-Safe encode c q now s which keyed =
        Post-bind mysql
          (λ (r : Option (List Item) × Center) t.
            IsKeyed r.1.mnode_list
            × (r.1.ucenter_keys ≡ c.ucenter_keys)
            × AllCovered c.ucenter_keys r.0)
          (Safe c) _ _ (answer-AllCovered c q now s keyed) λ r t h. (h.0, h.1, sent r.0 h.2)
      where
        sent :
            (items : Option (List Item))
            → AllCovered c.ucenter_keys items
            → IsCoveredReply c.ucenter_keys (send_items chain mysql encode items)
        sent none h = tt
        sent (some items) h = (items, h, which items)

    handle_raw-Safe :
        (c : Center) (u : Unserialized) (now : ℤ) (s : Session mysql)
        → IsKeyed c.mnode_list
        → Post mysql (Safe c) (handle_raw chain mysql c u now s)
    unfolding handle_raw
    handle_raw-Safe c (accepted q) now s keyed =
        handle_quest-Safe chain.encode_boost c q now s (λ items. inl refl) keyed
    handle_raw-Safe c rejected now s keyed = (keyed, refl, tt)
    handle_raw-Safe c out_of_range now s keyed = (keyed, refl, tt)

    pub boost_msg-Safe :
        (c : Center) (message : Bytes) (now : ℤ) (s : Session mysql)
        → IsKeyed c.mnode_list
        → Post mysql (Safe c) (boost_msg chain mysql c message now s)
    unfolding boost_msg
    boost_msg-Safe c message now s keyed = elim (Option-cases (chain.decode_boost message)) [
      | inr (q, e) ↦
          rw (e, boost_msg)
            (handle_quest-Safe chain.encode_boost c q now s (λ items. inl refl) keyed)
      | inl e ↦ rw (e, boost_msg) (handle_raw-Safe c (un_serialize_boost chain message) now s keyed)
    ]

    pub handler_msg-Safe :
        (c : Center) (message : Bytes) (now : ℤ) (s : Session mysql)
        → IsKeyed c.mnode_list
        → Post mysql (Safe c) (handler_msg chain mysql c message now s)
    unfolding handler_msg
    handler_msg-Safe c message now s keyed = elim (Option-cases (chain.decode_stream message)) [
      | inr (q, e) ↦
          rw (e, handler_msg)
            (handle_quest-Safe chain.encode_stream c q now s (λ items. inr refl) keyed)
      | inl e ↦ rw (e, handler_msg) (keyed, refl, tt)
    ]
