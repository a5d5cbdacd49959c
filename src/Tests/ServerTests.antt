-- ===== src/Tests/ServerTests.antt =====
-- The center as a whole, on the chain and the database of the tests, and a client that asks it.
use uctool.Common.{
  All, ℕ, ℤ, ◌⊎◌, ◌<ℤ◌, List, ◌≡◌, ◌≢◌, refl, true, false, [], ◌∷◌, ◌++◌, map, foldl, none, some,
  Bytes, codes, length, pos, arith, bytes_eq, append-nil, ◌+ℤ◌,
}
use uctool.Net.{be32}
use uctool.Codec.Wire.{concat}
use uctool.Codec.{send}
use uctool.Codec.Wire.{IsSendable}
use uctool.Codec.Connections.{fresh, arrive}
use uctool.Codec.Connections.Tagged.{from}
use uctool.Codec.Delivery.{sent, start, receive_all}
use uctool.Keys.{encode, unmask, mask, from_encoded, finish, get_key, set_key, is_valid}
use uctool.KeyRing.{init_keys, load_keys, read_key}
use uctool.KeyRing.Loading.{Chained}
use uctool.Mysql.{
  Session, done, execute, execute_loop, ping, query_rows, close_conn, open_conn, ensure_open,
  ping_once, query_once, attempt,
}
use uctool.Numbers.{show_int}
use uctool.Node.{coin_eq}
use uctool.Db.{
  DbConfig, select_columns_sql, select_mnode_columns, run_select, with_connection, is_db_online,
  online_loop,
}
use uctool.Center.{Center, is_fresh, find_node, init_cache, insert_nodes}
use uctool.Client.{ClientApi, Exchange, license, license_quest, ask_license}
use uctool.Client.Asking.{IsConnected}
use uctool.Server.{Server, running, serve, init_ucenter_key}
use uctool.Mysql.Post.{Post}
use uctool.Center.Keyed.{IsKeyed}
use uctool.Server.Main.{exits, serves, center_main, center_main-Serves}
use uctool.Server.Runs.{Consumed, IsSafe, serve-sent}
use uctool.Server.EndToEnd.{covered_up, license_items, ask_license-served}
use uctool.Tests.ListBuffer.{list_buffer}
use uctool.Tests.Toys.{toy_chain, toy_mysql, toy_info, toy_session, key_bytes, bound_node}
use uctool.Tests.KeysTests.{keys_in_file}
use uctool.Tests.CenterTests.{toy_center, toy_center-IsKeyed}

abbrev toy_db : DbConfig
toy_db = record { tablename = codes "t"; dbinfo = toy_info; need_update_period = pos 50 }

abbrev started_center : Center
started_center = record { ucenter_keys = (1, key_bytes) ∷ []; db = toy_db; mnode_list = [] }

abbrev started_session : Session (toy_mysql 0 true)
started_session = record {
  info = toy_info;
  conn = false;
  world = 1;
  queries = select_columns_sql toy_db ((codes "status", show_int (pos 1)) ∷ []) ∷ [];
}

toy_keys_load : init_keys toy_chain keys_in_file 3 ≡ some ((1, key_bytes) ∷ [])
unfolding init_keys load_keys read_key from_encoded unmask mask finish get_key set_key is_valid
    encode bytes_eq
toy_keys_load = refl

toy_center_starts :
    init_ucenter_key toy_chain (toy_mysql 0 true) keys_in_file 3 toy_db (toy_session 0 true false)
    ≡ done (some started_center) started_session
unfolding init_ucenter_key select_columns_sql init_cache select_mnode_columns run_select
    with_connection is_db_online online_loop execute query_rows ping close_conn open_conn
    ensure_open ping_once query_once attempt execute_loop insert_nodes
toy_center_starts = rw (toy_keys_load, init_ucenter_key) refl

-- Two connections; the request of the first arrives in two pieces, around the second's.
abbrev pieces : List (ℕ × Bytes)
pieces = (1, 0 ∷ 0 ∷ 0 ∷ []) ∷ (2, 0 ∷ 0 ∷ 0 ∷ 2 ∷ codes "ty") ∷ (1, 2 ∷ codes "tx") ∷ []

abbrev requests : ℕ → List Bytes
requests k = from k ((2, codes "ty") ∷ (1, codes "tx") ∷ [])

requests-IsSendable : (k : ℕ) → All IsSendable (requests k)
unfolding from
requests-IsSendable k = ground arith

requests_arrive : (k : ℕ) → concat (from k pieces) ≡ concat (map (sent list_buffer) (requests k))
unfolding from send
requests_arrive k = ground arith

serve-sent_example :
    let handle = serve toy_chain (toy_mysql 0 true) 3 2 (λ n. pos 100) in
    let first = running 0 [] started_center started_session in
    let w = foldl (arrive list_buffer handle) (fresh list_buffer first) pieces in
    (log : List (ℕ × Bytes)) × (w.shared ≡ foldl handle first log)
    × Consumed toy_chain
        (toy_mysql 0 true)
        3
        2
        (λ n. pos 100)
        list_buffer
        requests
        w.buffers
        log
        w.shared
    × IsSafe toy_chain (toy_mysql 0 true) started_center.ucenter_keys w.shared
    × (started_center.ucenter_keys ≢ [])
    × Chained toy_chain keys_in_file 1 started_center.ucenter_keys
serve-sent_example =
    serve-sent toy_chain (toy_mysql 0 true) 3 2 (λ n. pos 100) list_buffer keys_in_file 1 3 toy_db
      (toy_session 0 true false) started_session started_center requests pieces (omega arith) refl
      toy_center_starts requests-IsSendable requests_arrive

-- A client that frames its requests, and reads the one node that the center has.
abbrev pub asking_client : ClientApi
asking_client = record {
  get_msg_buf = λ is_new q. sent list_buffer q.txid;
  hn_swapl = λ bs. be32 bs;
  read_head = λ is_new bs. some ((pos 1, pos 1), bs);
  read_node = λ is_new bs. some (covered_up (bound_node (pos 400)), []);
  read_key = λ is_new bs. none;
  asks_one = pos 1;
  asks_key = pos 2;
  null_txid = [];
}

abbrev pub toy_reply : Bytes
toy_reply =
    toy_chain.encode_stream
      (license_items toy_chain (toy_mysql 0 true) (pos 111) (covered_up (bound_node (pos 400))))

abbrev pub one_reply : Exchange
one_reply = record {
  ucenterserver = codes "h";
  connects = true;
  selectable = true;
  sent_bytes = λ bs. length bs;
  receipts = (sent list_buffer toy_reply, 2) ∷ [];
}

abbrev request_connected :
    IsConnected asking_client true (license_quest asking_client (codes "tx") 1 (pos 5)) one_reply
request_connected = record {
  configured = unfold bytes_eq in refl;
  is_up = refl;
  is_selectable = refl;
  is_sent = refl;
}

ask_license-served_example :
    let callback : Server toy_chain (toy_mysql 0 true)
        → Bytes
        → Server toy_chain (toy_mysql 0 true) =
      λ u m. serve toy_chain (toy_mysql 0 true) 3 2 (λ n. pos 100) u (1, m) in
    let o =
      receive_all list_buffer callback
        (start list_buffer callback (running 0 [] toy_center (toy_session 0 true false)))
        (sent list_buffer (codes "tx") ∷ []) in
    (o.state ≡ running 1 ([] ++ (1, toy_reply) ∷ []) toy_center (toy_session 0 true false))
    × (list_buffer.contents o.buffer ≡ [])
    × (ask_license asking_client true (codes "tx") 1 (pos 5) one_reply
        ≡ license (covered_up (bound_node (pos 400))))
ask_license-served_example =
    ask_license-served toy_chain (toy_mysql 0 true) asking_client list_buffer (λ bs h. refl) refl 3
      2 1 0 (λ n. pos 100) [] toy_center (toy_session 0 true false) (codes "tx") 1 (pos 5)
      (bound_node (pos 400)) (codes "tx") toy_reply [] (sent list_buffer (codes "tx") ∷ [])
      one_reply 2 [] toy_center-IsKeyed (unfold find_node coin_eq bytes_eq in refl)
      (unfold is_fresh ◌+ℤ◌ in refl) (ground arith) refl (omega arith)
      (unfold license_quest in refl) (unfold license_quest in refl)
      (unfold license_quest in append-nil _) (omega arith) refl refl request_connected refl
      (omega arith)

center_main-Serves_example :
    Post
      (toy_mysql 0 true)
      (λ r t.
        ((r ≡ exits) × (init_keys toy_chain keys_in_file 3 ≡ none))
        ⊎ ((n : ℤ) × (c : Center) × (r ≡ serves n c)
            × (init_keys toy_chain keys_in_file 3 ≡ some c.ucenter_keys)
            × IsKeyed c.mnode_list
            × ((n ≡ pos 0) ⊎ (pos 1 <ℤ n))))
      (center_main toy_chain
        (toy_mysql 0 true)
        keys_in_file
        3
        toy_db
        (pos 2)
        (toy_session 0 true false))
center_main-Serves_example =
    center_main-Serves toy_chain (toy_mysql 0 true) keys_in_file 3 toy_db (pos 2)
      (toy_session 0 true false)
