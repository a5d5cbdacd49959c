-- ===== src/System/Delivered.antt =====
-- The three programs together: licensetool/licensewatcher.cc renews a licence in the database,
-- ulordcenter/ulordcenter.cc reads it there for a request that ulordcenter/codec.h has framed, and
-- tools/msgtool.cc prints it.
use uctool.Common.{
  ℕ, suc, ◌≤◌, ◌<◌, ◌≡◌, ◌≢◌, refl, ap, ◌∙◌, true, false, List, [], ◌∷◌, ◌++◌, some, Bytes, length,
  ℤ, pos, ◌+ℤ◌, ◌<ℤ◌,
}
use uctool.Net.{BufferApi}
use uctool.Codec.Wire.{IsSendable, concat}
use uctool.Codec.Delivery.{sent, start, receive_all}
use uctool.Chain.{ChainApi}
use uctool.Node.{MNode, coin_of}
use uctool.Node.Table.{Table}
use uctool.Mysql.{MysqlApi, Session, done}
use uctool.Mysql.Live.{IsLive, Returns-done}
use uctool.Watcher.{Watcher, sign_mn_license, run_round}
use uctool.Watcher.Table.{is_selected, relicensed, renewed_table}
use uctool.Watcher.Renewal.{run_round-Renews}
use uctool.Center.{Center, find_node, is_fresh, select_mn_data}
use uctool.Client.{ClientApi, Exchange, license, license_quest, ask_license}
use uctool.Client.Asking.{SwapsBytes, IsConnected}
use uctool.Server.{Server, running, serve}
use uctool.Server.EndToEnd.{covered_data, license_items, ask_license-answered}
use uctool.System.{ServesRound, ServesLookup, renewed-looked_up}

module _ (chain : ChainApi) (w : Watcher) (clock : MNode → ℤ) (mysql : MysqlApi)
    (table : mysql.World → Table) (live : IsLive mysql table) (client : ClientApi) (net : BufferApi)
    (expectlen expectlen_noboost k count : ℕ) (server_clock : ℕ → ℤ) (mn out : MNode) (time : ℤ)
    (exchange : Exchange) where
  -- The request of a client for the node, as it reaches the center.
  pub record IsRequest (request : Bytes) (pieces : List Bytes) : Type 0 where
    pub has_length : length request ≡ expectlen_noboost
    pub sendable : IsSendable request
    pub reads : chain.decode_stream request ≡ some (license_quest client mn.txid mn.voutid time)
    pub framed :
        client.get_msg_buf true (license_quest client mn.txid mn.voutid time) ≡ sent net request
    pub arrives :
        concat pieces ≡ client.get_msg_buf true (license_quest client mn.txid mn.voutid time)

  -- The reply, as it reaches the client.
  pub record IsDelivered (reply : Bytes) : Type 0 where
    pub small : length reply ≤ 596
    pub rest : Bytes
    pub left : Bytes
    pub reads_head : client.read_head true reply ≡ some ((pos 1, client.asks_one), rest)
    pub reads_node :
        client.read_node true rest ≡ some (covered_data (relicensed out mn).node_data, left)
    pub connected : IsConnected client true (license_quest client mn.txid mn.voutid time) exchange
    pub seconds : ℕ
    pub later_receipts : List (Bytes × ℕ)
    pub receives : exchange.receipts ≡ (sent net reply, seconds) ∷ later_receipts
    pub soon : seconds < 10

  -- From the signing of a licence to the client that prints it. A round of the licence tool comes
  -- to its end, on a server that is up; then a client asks the center, on the database as the
  -- round has left it, for a node that the round has selected and could sign. The center handles
  -- the request, in whatever pieces it arrives, keeps running with one reply more, and the client
  -- prints the node with the new licence and the private key covered up. The conditions are those
  -- of the lookup and of the exchange: the new licence lasts beyond the center's update period,
  -- the center has no entry for the node that is still fresh, its statements and those of the
  -- round are answered as documented, the request has the newer of the two lengths that the center
  -- is configured for, which differ, request and reply are read by the other side as they were
  -- written, both call the request for one node by the same number, `HNSwapl` reads in network
  -- order, and the reply, of at most 596 bytes, comes back in one piece within ten seconds.
  pub renewed-delivered :
      (c : Center) (now : ℤ) (s : Session mysql) (out_before : List (ℕ × Bytes)) (request : Bytes)
      (pieces : List Bytes)
      → let reply : Bytes =
          chain.encode_stream
            (license_items chain mysql (pos 111) (covered_data (relicensed out mn).node_data)) in
        ServesRound chain w clock mysql table live now (table s.world)
        → table s.world (coin_of mn) ≡ some mn
        → is_selected w now mn ≡ true
        → sign_mn_license chain w (clock mn) mn ≡ (true, out)
        → ServesLookup chain w clock mysql table live c mn
            (server_clock count)
            (renewed_table chain w clock now (table s.world))
        → server_clock count +ℤ c.db.need_update_period <ℤ out.licperiod
        → ((old : MNode)
            → find_node (coin_of mn) c.mnode_list ≡ some old
            → is_fresh c (server_clock count) old ≡ false)
        → SwapsBytes client
        → client.asks_one ≡ chain.quest_one
        → expectlen_noboost ≢ expectlen
        → IsRequest request pieces
        → IsDelivered reply
        → let callback : Server chain mysql → Bytes → Server chain mysql =
            λ u m. serve chain mysql expectlen expectlen_noboost server_clock u (k, m) in
          (t : Session mysql) × (run_round chain mysql w now clock s ≡ done tt t)
          × ((c' : Center) × (u : Session mysql) × ((receive_all net callback
                  (start net callback (running count out_before c t))
                  pieces).state
                ≡ running (suc count) (out_before ++ (k, reply) ∷ []) c' u)
              × (ask_license client true mn.txid mn.voutid time exchange
                  ≡ license (covered_data (relicensed out mn).node_data)))
  renewed-delivered c now s out_before request pieces round at due signed lookup lasts old swaps
        same_one differ asked delivered =
      let (_, t, ran, renewed_at) = Returns-done mysql _ (run_round chain mysql w now clock s) (
        run_round-Renews chain w clock mysql table live now s round.keyed round.selects
          round.stores) in
      let ((found, c'), u, looked, is) =
        Returns-done mysql _ (select_mn_data chain mysql c mn.txid mn.voutid (server_clock count) t)
          (renewed-looked_up chain w clock mysql table live c mn out now (server_clock count)
            (table s.world) t at due signed lookup lasts old renewed_at) in
      let (state, _, printed) =
        ask_license-answered chain mysql client net swaps same_one expectlen expectlen_noboost k
          count server_clock out_before c c' t u mn.txid mn.voutid time
          (relicensed out mn).node_data request delivered.rest delivered.left pieces exchange
          delivered.seconds delivered.later_receipts (looked ∙ ap (λ o. done (o, c') u) is) refl
          refl differ asked.has_length asked.sendable asked.reads asked.framed asked.arrives
          delivered.small delivered.reads_head delivered.reads_node delivered.connected
          delivered.receives delivered.soon in
      (t, ran, (c', u, state, printed))
