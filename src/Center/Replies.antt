-- ===== src/Center/Replies.antt =====
-- What the center answers.
use uctool.Common.{
  ℕ, ◌<◌, ◌≡◌, ◌≢◌, refl, ap, inl, inr, true, List, [], ◌∷◌, map, Option, none, some, Bytes, codes,
  length, ℤ, pos, eqb_ℤ, eqb_ℤ_iff, arith, Bool-cases, ◌==◌,
}
use uctool.Chain.{ChainApi, MstNodeData, Quest, Item, head, node, center_key}
use uctool.Mysql.{MysqlApi, Session, done}
use uctool.Mysql.Post.{Post, Post-bind}
use uctool.Center.{Center}
use uctool.Center.Keyed.{IsKeyed}
use uctool.Center.Cache.{Found, AskedFor, select_mn_data-Found}
use uctool.Center.Covered.{reply_node-covered, IsCoveredReply, boost_msg-Safe, handler_msg-Safe}
use uctool.Center.Requests.{
  substr, Unserialized, ◌>>=ᵤ◌, out_of_range, un_serialize_boost, reply_node, key_items, answer,
  handle_raw, boost_msg, on_string_message, thrown,
}

throws_later :
    (o : Option Bytes) (f : Bytes → Unserialized)
    → ((b : Bytes) → f b ≡ out_of_range)
    → (o >>=ᵤ f) ≡ out_of_range
throws_later none f h = refl
throws_later (some b) f h = h b

substr_short : (s : Bytes) (at count : ℕ) → length s < at → substr s at count ≡ none
unfolding substr
substr_short s at count h = ground arith

module _ (chain : ChainApi) where
  open chain use {quest_one, quest_key}

  key_items-map :
      (keys : List (ℕ × Bytes))
      → key_items chain keys
        ≡ map (λ (e : ℕ × Bytes). center_key e.0 (chain.hex_str (chain.get_pub_key e.1))) keys
  unfolding key_items
  key_items-map [] = refl
  key_items-map ((version, key) ∷ rest) =
      ap (λ (l : List Item). center_key version (chain.hex_str (chain.get_pub_key key)) ∷ l)
        (key_items-map rest)

  -- What a reply to a request holds.
  abbrev pub IsReply : Center → Quest → Option (List Item) → Type 0
  IsReply c q items =
      (q.questtype ≡ quest_one
        → (d : MstNodeData) × (items ≡ some (head q.msgversion 1 quest_one ∷ node d ∷ []))
          × (d.privkey ≡ codes "secret")
          × (d.txid ≡ q.txid)
          × (d.voutid ≡ q.voutid))
      × (q.questtype ≢ quest_one
          → q.questtype ≡ quest_key
          → items
            ≡ some (
                head q.msgversion (length c.ucenter_keys) quest_key
                ∷ map (λ (e : ℕ × Bytes). center_key e.0 (chain.hex_str (chain.get_pub_key e.1)))
                    c.ucenter_keys))
      × (q.questtype ≢ quest_one → q.questtype ≢ quest_key → items ≡ none)

  reply_node-data :
      ((t : Bytes) (n : ℕ)
        → ((chain.make_node (pos 0) t n).txid ≡ t) × ((chain.make_node (pos 0) t n).voutid ≡ n))
      → (q : Quest) (found : Option MstNodeData)
      → ((d : MstNodeData) → found ≡ some d → (d.txid ≡ q.txid) × (d.voutid ≡ q.voutid))
      → ((reply_node chain q found).txid ≡ q.txid) × ((reply_node chain q found).voutid ≡ q.voutid)
  unfolding reply_node
  reply_node-data made q none h = made q.txid q.voutid
  reply_node-data made q (some d) h = h d refl

  one-IsReply :
      ((t : Bytes) (n : ℕ)
        → ((chain.make_node (pos 0) t n).txid ≡ t) × ((chain.make_node (pos 0) t n).voutid ≡ n))
      → (c : Center) (q : Quest) (found : Option MstNodeData) → q.questtype ≡ quest_one
      → ((d : MstNodeData) → found ≡ some d → (d.txid ≡ q.txid) × (d.voutid ≡ q.voutid))
      → IsReply c q (some (head q.msgversion 1 quest_one ∷ node (reply_node chain q found) ∷ []))
  one-IsReply made c q found one own =
      let (tx, vout) = reply_node-data made q found own in
      (
        (λ _. (reply_node chain q found, refl, reply_node-covered chain q found, tx, vout)),
        (λ no. absurd (no one)),
        λ no. absurd (no one),
      )

  -- `substr(138, ...)` throws on a message that is no longer than that, whatever it holds.
  un_serialize_boost_short :
      (msg : Bytes) → length msg < 138 → un_serialize_boost chain msg ≡ out_of_range
  unfolding un_serialize_boost
  un_serialize_boost_short msg h =
      let late : substr msg 138 128 ≡ none = substr_short msg 138 128 h in
      throws_later (substr msg 0 90) _ λ head_part. throws_later (substr msg 90 8) _ λ version.
        throws_later (substr msg 98 16) _ λ timestamp.
          throws_later (substr msg 114 8) _
            λ type. throws_later (substr msg 122 16) _ λ txidlen. rw late refl

  module _ (mysql : MysqlApi) where
    -- A request for one node is answered by a head for one object and a node that has the txid and
    -- the index asked for, with its private key covered up; a request for the keys by a head with
    -- their number and all public keys in order, in hexadecimal; any other request by nothing. The
    -- cache stays keyed by the nodes' coins. It is assumed of `CMstNodeData`'s constructor that it
    -- stores the txid and the index.
    pub answer-IsReply :
        ((t : Bytes) (n : ℕ)
          → ((chain.make_node (pos 0) t n).txid ≡ t) × ((chain.make_node (pos 0) t n).voutid ≡ n))
        → (c : Center) (q : Quest) (now : ℤ) (s : Session mysql) → IsKeyed c.mnode_list
        → Post mysql
            (λ r t. IsKeyed r.1.mnode_list × IsReply c q r.0)
            (answer chain mysql c q now s)
    unfolding answer
    answer-IsReply made c q now s keyed = elim (Bool-cases (eqb_ℤ q.questtype quest_one)) [
      | inl one ↦ rw one (
          Post-bind mysql
            (λ (r : Option MstNodeData × Center) t.
              Found c q.txid q.voutid r.0 r.1 × AskedFor chain mysql c q.txid q.voutid now s t)
            (λ (r : Option (List Item) × Center) t. IsKeyed r.1.mnode_list × IsReply c q r.0) _ _
            (select_mn_data-Found chain mysql c q.txid q.voutid now s keyed)
            λ r t h.
              (h.0.0, one-IsReply made c q r.0 ((eqb_ℤ_iff q.questtype quest_one).0 one) h.0.2))
      | inr other ↦
          let not_one : q.questtype ≢ quest_one =
            λ e. ground (arith, (eqb_ℤ_iff q.questtype quest_one).1 e, other) in
          elim (Bool-cases (eqb_ℤ q.questtype quest_key)) [
            | inl keys ↦
                rw (other, keys)
                  (
                    keyed,
                    (
                      (λ e. absurd (not_one e)),
                      (λ _ _.
                          ap
                            (λ (l : List Item).
                              some (head q.msgversion (length c.ucenter_keys) quest_key ∷ l))
                            (key_items-map c.ucenter_keys)),
                      λ _ no. absurd (no ((eqb_ℤ_iff q.questtype quest_key).0 keys)),
                    ),
                  )
            | inr unknown ↦
                rw (other, unknown)
                  (
                    keyed,
                    (
                      (λ e. absurd (not_one e)),
                      (λ _ e.
                          absurd (ground (arith, (eqb_ℤ_iff q.questtype quest_key).1 e, unknown))),
                      λ _ _. refl,
                    ),
                  )
          ]
    ]

    -- Whatever message comes in, the center keeps its cache keyed by the nodes' coins and its keys as
    -- they are, and what it sends, if anything, is one of the two serialisations of objects none of
    -- which has a private key: in each node the field holds the word "secret", and each key is the
    -- public key of one of the center's keys under its version, in hexadecimal.
    pub on_string_message-IsCoveredReply :
        (expectlen expectlen_noboost : ℕ) (c : Center) (message : Bytes) (now : ℤ)
        (s : Session mysql)
        → IsKeyed c.mnode_list
        → Post mysql
            (λ r t.
              IsKeyed r.1.mnode_list
              × (r.1.ucenter_keys ≡ c.ucenter_keys)
              × IsCoveredReply chain mysql c.ucenter_keys r.0)
            (on_string_message chain mysql expectlen expectlen_noboost c message now s)
    unfolding on_string_message
    on_string_message-IsCoveredReply expectlen expectlen_noboost c message now s keyed =
        elim (Bool-cases (length message == expectlen)) [
          | inl old ↦ rw old (boost_msg-Safe chain mysql c message now s keyed)
          | inr other ↦ elim (Bool-cases (length message == expectlen_noboost)) [
            | inl new ↦ rw (other, new) (handler_msg-Safe chain mysql c message now s keyed)
            | inr neither ↦ rw (other, neither) (keyed, refl, tt)
          ]
        ]

    -- A message that has the expected length, of less than 138 bytes, and that is no boost archive
    -- makes the center throw; the exception leaves the callback, and nothing is sent.
    pub on_string_message_raw :
        (expectlen expectlen_noboost : ℕ) (c : Center) (message : Bytes) (now : ℤ)
        (s : Session mysql)
        → length message ≡ expectlen
        → expectlen < 138
        → chain.decode_boost message ≡ none
        → on_string_message chain mysql expectlen expectlen_noboost c message now s
          ≡ done (thrown, c) s
    unfolding on_string_message boost_msg handle_raw
    on_string_message_raw expectlen expectlen_noboost c message now s len short raw =
        let old : (length message == expectlen) ≡ true = ground (arith, len) in
        rw (old, raw, un_serialize_boost_short message (ground (arith, len, short)), boost_msg) refl
