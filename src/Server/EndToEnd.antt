-- ===== src/Server/EndToEnd.antt =====
-- From the client's request to the licence that it prints: tools/msgtool.cc against the center.
use uctool.Common.{
  ℕ, suc, ◌≤◌, ◌<◌, ◌≡◌, ◌≢◌, refl, sym, ap, ◌∙◌, true, false, List, [], ◌∷◌, ◌++◌, some, Bytes,
  codes, length, ◌==◌, append-nil, ℤ, pos, eqb_ℤ, eqb_ℤ_iff, arith,
}
use uctool.Net.{BufferApi}
use uctool.Codec.Wire.{IsSendable, concat}
use uctool.Codec.Delivery.{sent, start, receive_all, receive_all-sent}
use uctool.Chain.{ChainApi, MstNodeData, Quest, Item, head, node}
use uctool.Node.{MNode, MnCoin, coin_of}
use uctool.Mysql.{MysqlApi, Session, done}
use uctool.Center.{Center, find_node, is_fresh, select_mn_data}
use uctool.Center.Keyed.{IsKeyed, find_node-IsKeyed}
use uctool.Center.Cache.{select_mn_data-fresh}
use uctool.Center.Requests.{replied, answer, reply_node, handler_msg, on_string_message}
use uctool.Client.{ClientApi, Exchange, license, license_quest, ask_license}
use uctool.Client.Asking.{SwapsBytes, IsConnected, ask_license-sent}
use uctool.Server.{Server, running, behind, serve}

-- The node as it goes over the wire.
abbrev pub covered_data : MstNodeData → MstNodeData
covered_data d = record d { privkey = codes "secret" }

abbrev pub covered_up : MNode → MstNodeData
covered_up mn = covered_data mn.node_data

module _ (chain : ChainApi) (mysql : MysqlApi) where
  -- The items of the reply for a node.
  abbrev pub license_items : ℤ → MstNodeData → List Item
  license_items msgversion d = head msgversion 1 chain.quest_one ∷ node d ∷ []

  answer-found :
      (c c' : Center) (q : Quest) (now : ℤ) (s t : Session mysql) (d : MstNodeData)
      → q.questtype ≡ chain.quest_one
      → select_mn_data chain mysql c q.txid q.voutid now s ≡ done (some d, c') t
      → answer chain mysql c q now s
        ≡ done (some (license_items q.msgversion (covered_data d)), c') t
  unfolding answer reply_node
  answer-found c c' q now s t d one e =
      let is_one : eqb_ℤ q.questtype chain.quest_one ≡ true =
        (eqb_ℤ_iff q.questtype chain.quest_one).1 one in
      rw (is_one, e) refl

  on_string_message-found :
      (expectlen expectlen_noboost : ℕ) (c c' : Center) (message : Bytes) (now : ℤ)
      (s t : Session mysql) (q : Quest) (d : MstNodeData)
      → length message ≡ expectlen_noboost
      → expectlen_noboost ≢ expectlen
      → chain.decode_stream message ≡ some q
      → q.questtype ≡ chain.quest_one
      → select_mn_data chain mysql c q.txid q.voutid now s ≡ done (some d, c') t
      → on_string_message chain mysql expectlen expectlen_noboost c message now s
        ≡ done (replied (chain.encode_stream (license_items q.msgversion (covered_data d))), c') t
  unfolding on_string_message handler_msg
  on_string_message-found expectlen expectlen_noboost c c' message now s t q d len other read one
        e =
      let is_new : (length message == expectlen_noboost) ≡ true = ground (arith, len) in
      let not_old : (length message == expectlen) ≡ false = ground (arith, len, other) in
      rw (not_old, is_new, read, handler_msg, answer-found c c' q now s t d one e) refl

  module _ (client : ClientApi) (net : BufferApi) where
    -- Client and center together, where the lookup of the center gives this node.
    pub ask_license-answered :
        SwapsBytes client
        → client.asks_one ≡ chain.quest_one
        → (expectlen expectlen_noboost k count : ℕ) (clock : ℕ → ℤ) (out : List (ℕ × Bytes))
          (c c' : Center) (s u : Session mysql) (txid : Bytes) (voutid : ℕ) (now : ℤ)
          (d : MstNodeData) (request rest left : Bytes) (pieces : List Bytes) (exchange : Exchange)
          (t : ℕ) (later : List (Bytes × ℕ))
        → select_mn_data chain mysql c txid voutid (clock count) s ≡ done (some d, c') u
        → d.txid ≡ txid
        → d.voutid ≡ voutid
        → expectlen_noboost ≢ expectlen
        → length request ≡ expectlen_noboost
        → IsSendable request
        → chain.decode_stream request ≡ some (license_quest client txid voutid now)
        → client.get_msg_buf true (license_quest client txid voutid now) ≡ sent net request
        → concat pieces ≡ client.get_msg_buf true (license_quest client txid voutid now)
        → let reply = chain.encode_stream (license_items (pos 111) (covered_data d)) in
          length reply ≤ 596
          → client.read_head true reply ≡ some ((pos 1, client.asks_one), rest)
          → client.read_node true rest ≡ some (covered_data d, left)
          → IsConnected client true (license_quest client txid voutid now) exchange
          → exchange.receipts ≡ (sent net reply, t) ∷ later
          → t < 10
          → let callback : Server chain mysql → Bytes → Server chain mysql =
              λ u m. serve chain mysql expectlen expectlen_noboost clock u (k, m) in
            let o = receive_all net callback (start net callback (running count out c s)) pieces in
            (o.state ≡ running (suc count) (out ++ (k, reply) ∷ []) c' u)
            × (net.contents o.buffer ≡ [])
            × (ask_license client true txid voutid now exchange ≡ license (covered_data d))
    unfolding serve behind license_quest
    ask_license-answered swaps same_one expectlen expectlen_noboost k count clock out c c' s u txid
          voutid now d request rest left pieces exchange t later looked own_txid own_voutid differ
          len sendable read framed arrives small got_head got_node connected receipts soon =
        let callback : Server chain mysql → Bytes → Server chain mysql =
          λ u m. serve chain mysql expectlen expectlen_noboost clock u (k, m) in
        let first : Server chain mysql = running count out c s in
        let reply : Bytes = chain.encode_stream (license_items (pos 111) (covered_data d)) in
        let answered =
          on_string_message-found expectlen expectlen_noboost c c' request (clock count) s u
            (license_quest client txid voutid now) d len differ read same_one looked in
        let step : callback first request ≡ running (suc count) (out ++ (k, reply) ∷ []) c' u =
          ap (behind chain mysql expectlen expectlen_noboost clock k count out) answered in
        let (same, empty, open_still) =
          receive_all-sent net callback (request ∷ []) pieces first (sendable, tt)
            (arrives ∙ framed ∙ sym (append-nil (sent net request))) in
        (
          same ∙ step,
          empty,
          ask_license-sent client net swaps true txid voutid now exchange (covered_data d) reply
              rest left t later connected receipts soon small got_head got_node own_txid own_voutid,
        )

    -- Client and center together, on one connection. A client asks for a node that the center has
    -- in its cache with a fresh licence. Its request, in any pieces, leaves the center running with
    -- one reply more and with the same cache, and without a statement to the database; and where
    -- that reply, of at most 596 bytes, comes back in one piece within ten seconds, the client
    -- prints the licence that the center has, with the private key covered up. It is assumed of the
    -- chain that the server's stream reader reads the client's request, and the client's readers
    -- the server's reply, that both call the request for one node by the same number, and that
    -- `HNSwapl` reads in network order; the request has the length that the center is configured
    -- for, and is framed.
    pub ask_license-served :
        SwapsBytes client
        → client.asks_one ≡ chain.quest_one
        → (expectlen expectlen_noboost k count : ℕ) (clock : ℕ → ℤ) (out : List (ℕ × Bytes))
          (c : Center) (s : Session mysql) (txid : Bytes) (voutid : ℕ) (now : ℤ) (mn : MNode)
          (request rest left : Bytes) (pieces : List Bytes) (exchange : Exchange) (t : ℕ)
          (later : List (Bytes × ℕ))
        → IsKeyed c.mnode_list
        → find_node (record { coin_txid = txid; coin_voutid = voutid }) c.mnode_list ≡ some mn
        → is_fresh c (clock count) mn ≡ true
        → expectlen_noboost ≢ expectlen
        → length request ≡ expectlen_noboost
        → IsSendable request
        → chain.decode_stream request ≡ some (license_quest client txid voutid now)
        → client.get_msg_buf true (license_quest client txid voutid now) ≡ sent net request
        → concat pieces ≡ client.get_msg_buf true (license_quest client txid voutid now)
        → let reply = chain.encode_stream (license_items (pos 111) (covered_up mn)) in
          length reply ≤ 596
          → client.read_head true reply ≡ some ((pos 1, client.asks_one), rest)
          → client.read_node true rest ≡ some (covered_up mn, left)
          → IsConnected client true (license_quest client txid voutid now) exchange
          → exchange.receipts ≡ (sent net reply, t) ∷ later
          → t < 10
          → let callback : Server chain mysql → Bytes → Server chain mysql =
              λ u m. serve chain mysql expectlen expectlen_noboost clock u (k, m) in
            let o = receive_all net callback (start net callback (running count out c s)) pieces in
            (o.state ≡ running (suc count) (out ++ (k, reply) ∷ []) c s)
            × (net.contents o.buffer ≡ [])
            × (ask_license client true txid voutid now exchange ≡ license (covered_up mn))
    ask_license-served swaps same_one expectlen expectlen_noboost k count clock out c s txid voutid
          now mn request rest left pieces exchange t later keyed found fresh differ len sendable
          read framed arrives small got_head got_node connected receipts soon =
        let own : coin_of mn ≡ record { coin_txid = txid; coin_voutid = voutid } =
          find_node-IsKeyed _ c.mnode_list mn keyed found in
        ask_license-answered swaps same_one expectlen expectlen_noboost k count clock out c c s s
          txid voutid now mn.node_data request rest left pieces exchange t later
          (select_mn_data-fresh chain mysql c txid voutid (clock count) s mn found fresh)
          (ap (λ (x : MnCoin). x.coin_txid) own) (ap (λ (x : MnCoin). x.coin_voutid) own) differ len
          sendable read framed arrives small got_head got_node connected receipts soon
