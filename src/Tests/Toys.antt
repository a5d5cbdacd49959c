-- ===== src/Tests/Toys.antt =====
-- A chain and a database that are simple functions, on which the theorems are run.
use uctool.Common.{
  ℕ, zero, suc, ◌≡◌, refl, ap, Bool, true, [], ◌∷◌, ◌++◌, none, some, Bytes, codes, length, take,
  drop, ltb, leb, ◌==◌, if◌then◌else◌, ℤ, pos, negsuc,
}
use uctool.Chain.{ChainApi, MstNodeData, Quest}
use uctool.Mysql.{MysqlApi, ConnectInfo, Session}
use uctool.Node.{MNode}

abbrev pub toy_node : ℤ → Bytes → ℕ → MstNodeData
toy_node version txid voutid = record {
  version = version;
  txid = txid;
  voutid = voutid;
  privkey = [];
  pubkey = [];
  status = negsuc 0;
  licversion = pos 0;
  licperiod = negsuc 0;
  licence = [];
  nodeperiod = negsuc 0;
}

abbrev pub toy_quest : Bytes → Quest
toy_quest txid = record {
  msgversion = pos 111;
  questtype = pos 1;
  time_stamps = pos 5;
  txid = txid;
  voutid = 1;
}

-- Texts are their own encodings, a public key is the key behind a byte, a signature the key before
-- the word.
abbrev pub toy_chain : ChainApi
toy_chain = record {
  encode_base58_check = λ bs. bs;
  decode_base58_check = λ bs. some bs;
  set_string = λ bs. some (take 1 bs, drop 1 bs);
  secret_key_prefix = 128 ∷ [];
  address_of = λ bs. bs;
  make_new_key = λ c. [];
  key_set = λ bs c. bs ++ (if c then 1 ∷ [] else []);
  key_is_valid = λ bs. leb 32 (length bs);
  key_data = λ bs. take 32 bs;
  key_is_compressed = λ bs. ltb 32 (length bs);
  get_pub_key = λ bs. 2 ∷ bs;
  verify_pub_key = λ a b. true;
  pubkey_is_valid = λ bs. ltb 0 (length bs);
  sign_compact = λ key word. some (key ++ word);
  sign_message = λ text key. some (key ++ text);
  verify_message = λ pubkey sig text. true;
  hex_str = λ bs. bs;
  parse_hex = λ bs. bs;
  encode_base64 = λ bs. bs;
  null_node = toy_node (pos 0) [] 0;
  make_node = toy_node;
  get_license_word = λ d. d.txid;
  verify_license = λ d. true;
  quest_one = pos 1;
  quest_key = pos 2;
  null_quest = toy_quest [];
  decode_boost = λ bs. if length bs == 3 then some (toy_quest bs) else none;
  decode_stream = λ bs. some (toy_quest bs);
  encode_boost = λ items. 1 ∷ length items ∷ [];
  encode_stream = λ items. 2 ∷ length items ∷ [];
}

-- A server that counts the statements and answers each the same.
abbrev pub toy_mysql : ℕ → Bool → MysqlApi
toy_mysql answer reachable = record {
  World = ℕ;
  init = λ w. (true, w);
  real_connect = λ i w. (reachable, w);
  configure = λ w. w;
  close = λ w. w;
  ping = λ w. (0, w);
  query = λ sql w. (answer, suc w);
  store_result = λ w. ([], w);
  affected_rows = λ w. w;
}

abbrev pub toy_info : ConnectInfo
toy_info = record {
  host = codes "localhost";
  port = pos 3306;
  username = codes "u";
  password = codes "p";
  db_name = codes "d";
}

abbrev pub toy_session : (answer : ℕ) (reachable conn : Bool) → Session (toy_mysql answer reachable)
toy_session answer reachable conn = record { info = toy_info; conn = conn; world = 0; queries = [] }

abbrev pub key_bytes : Bytes
key_bytes =
    0 ∷ 1 ∷ 2 ∷ 3 ∷ 4 ∷ 5 ∷ 6 ∷ 7 ∷ 8 ∷ 9 ∷ 10 ∷ 11 ∷ 12 ∷ 13 ∷ 14 ∷ 15 ∷ 16 ∷ 17 ∷ 18 ∷ 19 ∷ 20
    ∷ 21 ∷ 22 ∷ 23 ∷ 24 ∷ 25 ∷ 26 ∷ 27 ∷ 28 ∷ 29 ∷ 30 ∷ 31 ∷ []

-- A bound node whose licence ends at `period` and which itself ends at 1000.
abbrev pub bound_node : ℤ → MNode
bound_node period = record {
  node_data = record {
    version = pos 1;
    txid = codes "tx";
    voutid = 1;
    privkey = codes "key";
    pubkey = 2 ∷ [];
    status = pos 1;
    licversion = pos 1;
    licperiod = period;
    licence = codes "old";
    nodeperiod = pos 1000;
  };
  name = codes "n";
  ipaddr = codes "ip";
}

unfoldable pub zeros : ℕ → Bytes
zeros zero = []
zeros (suc n) = 0 ∷ zeros n

pub length-zeros : (n : ℕ) → length (zeros n) ≡ n
unfolding zeros
length-zeros zero = refl
length-zeros (suc n) = ap suc (length-zeros n)
