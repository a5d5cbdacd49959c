-- ===== src/Tests/ClientTests.antt =====
-- A client that asks the center for a node.
use uctool.Common.{◌≡◌, refl, true, [], ◌∷◌, none, some, codes, length, pos, arith, bytes_eq}
use uctool.Net.{be32}
use uctool.Client.{ClientApi, Exchange, license, license_quest, ask_license}
use uctool.Client.Asking.{IsConnected, ask_license-sent}
use uctool.Codec.Delivery.{sent}
use uctool.Tests.ListBuffer.{list_buffer}
use uctool.Tests.Toys.{toy_node}

abbrev toy_client : ClientApi
toy_client = record {
  get_msg_buf = λ is_new q. q.txid;
  hn_swapl = λ bs. be32 bs;
  read_head = λ is_new bs. some ((pos 1, pos 1), bs);
  read_node = λ is_new bs. some (toy_node (pos 1) bs 7, []);
  read_key = λ is_new bs. none;
  asks_one = pos 1;
  asks_key = pos 2;
  null_txid = [];
}

abbrev one_piece : Exchange
one_piece = record {
  ucenterserver = codes "h";
  connects = true;
  selectable = true;
  sent_bytes = λ bs. length bs;
  receipts = ([], 1) ∷ (0 ∷ 0 ∷ 0 ∷ 2 ∷ codes "tx", 2) ∷ [];
}

abbrev first_piece : Exchange
first_piece = record one_piece { receipts = (sent list_buffer (codes "tx"), 2) ∷ [] }

abbrev toy_connected :
    IsConnected toy_client true (license_quest toy_client (codes "tx") 7 (pos 5)) first_piece
toy_connected = record {
  configured = unfold bytes_eq in refl;
  is_up = refl;
  is_selectable = refl;
  is_sent = refl;
}

ask_license-sent_example :
    ask_license toy_client true (codes "tx") 7 (pos 5) first_piece
    ≡ license (toy_node (pos 1) (codes "tx") 7)
ask_license-sent_example =
    ask_license-sent toy_client list_buffer (λ bs h. refl) true (codes "tx") 7 (pos 5) first_piece
      (toy_node (pos 1) (codes "tx") 7) (codes "tx") (codes "tx") [] 2 [] toy_connected refl
      (omega arith) (ground arith) refl refl refl refl
