-- ===== src/Chain.antt =====
-- What the program calls of the UlordChain sources, which are not part of the repository. Keys,
-- hashes and decoded data are held as their byte strings. The functions are a parameter of the
-- model; a theorem that relies on one of the laws names it as a hypothesis.
use uctool.Common.{ℕ, ℤ, Bool, List, Option, Bytes}

-- `CMstNodeData`, the data of a masternode that goes over the wire.
pub record MstNodeData : Type 0 where
  pub version : ℤ
  pub txid : Bytes
  pub voutid : ℕ
  pub privkey : Bytes
  pub pubkey : Bytes
  pub status : ℤ
  pub licversion : ℤ
  pub licperiod : ℤ
  pub licence : Bytes
  pub nodeperiod : ℤ

-- `mstnodequest`, a request.
pub record Quest : Type 0 where
  pub msgversion : ℤ
  pub questtype : ℤ
  pub time_stamps : ℤ
  pub txid : Bytes
  pub voutid : ℕ

-- One object of a reply: the head (`mstnoderes`), a masternode, or a center key (`CcenterKeyData`).
pub data Item : Type 0 where
  head : (msgversion : ℤ) (num : ℕ) (nodetype : ℤ) → Item
  node : MstNodeData → Item
  center_key : (keyversion : ℕ) (key : Bytes) → Item

pub record ChainApi : Type 0 where
  -- base58.h
  pub encode_base58_check : Bytes → Bytes
  pub decode_base58_check : Bytes → Option Bytes
  -- `CBase58Data::SetString`: the version bytes and the data.
  pub set_string : Bytes → Option (Bytes × Bytes)
  pub secret_key_prefix : Bytes
  pub address_of : Bytes → Bytes
  -- `CKey` and `CPubKey`
  pub make_new_key : Bool → Bytes
  pub key_set : Bytes → Bool → Bytes
  pub key_is_valid : Bytes → Bool
  pub key_data : Bytes → Bytes
  pub key_is_compressed : Bytes → Bool
  pub get_pub_key : Bytes → Bytes
  pub verify_pub_key : Bytes → Bytes → Bool
  pub pubkey_is_valid : Bytes → Bool
  pub sign_compact : Bytes → Bytes → Option Bytes
  -- privsend.h: `SignMessage` of a text with a key, `VerifyMessage` of a public key, signature, text
  pub sign_message : Bytes → Bytes → Option Bytes
  pub verify_message : Bytes → Bytes → Bytes → Bool
  -- utilstrencodings.h
  pub hex_str : Bytes → Bytes
  pub parse_hex : Bytes → Bytes
  pub encode_base64 : Bytes → Bytes
  -- masternodeman.h
  pub null_node : MstNodeData
  pub make_node : ℤ → Bytes → ℕ → MstNodeData
  pub get_license_word : MstNodeData → Bytes
  pub verify_license : MstNodeData → Bool
  pub quest_one : ℤ
  pub quest_key : ℤ
  pub null_quest : Quest
  -- The two serialisations: boost archives and `CDataStream`.
  pub decode_boost : Bytes → Option Quest
  pub decode_stream : Bytes → Option Quest
  pub encode_boost : List Item → Bytes
  pub encode_stream : List Item → Bytes
