-- ===== src/KeyTool.antt =====
-- tools/keytool.cc: the commands on keys. Each prints lines and returns; an `int` that a key throws is
-- caught. `args` is `argv`, the program and the command included.
pub mod RoundTrip
use uctool.Common.{
  ℕ, Bool, true, false, not, [], ◌∷◌, List, Option, none, some, Bytes, codes, length, get_or, ltb,
  if◌then◌else◌,
}
use uctool.Chain.{ChainApi}
use uctool.Keys.{KeyExtension, from_new_key, from_string, from_encoded, encode, match_pub}

-- What the commands need of the chain beyond the keys.
pub record KeyToolApi : Type 0 where
  -- `CBase58Data::ToString` of the version and the data
  pub to_string : Bytes → Bytes → Bytes
  -- `CPubKey::GetID().ToString()`
  pub pub_id : Bytes → Bytes
  -- `uint256::SetHex`, `DecodeBase64`, `CPubKey::RecoverCompact`
  pub set_hex : Bytes → Bytes
  pub decode_base64 : Bytes → Option Bytes
  pub recover_compact : Bytes → Bytes → Option Bytes
  -- `CBitcoinAddress`: `IsValid`, and the hash that `GetIndexKey` gives as text
  pub address_is_valid : Bytes → Bool
  pub get_index_key : Bytes → Option Bytes

-- What a command prints.
pub data Printed : Type 0 where
  usage create_failed matched not_matched invalid_address : Printed
  key_lines : (private public address : Bytes) → Printed
  key_lines_id : (private public address id : Bytes) → Printed
  masternode_key : (private public : Bytes) → Printed
  not_a_key decode_failed recover_failed : Bytes → Printed
  encoded recovered address_hex : Bytes → Printed

abbrev pub argument : List Bytes → ℕ → Bytes
argument args n = get_or args n []

module _ (chain : ChainApi) (api : KeyToolApi) where
  -- `ToString` and `GetPubKeyString` of a key.
  abbrev pub key_text : KeyExtension → Bytes
  key_text k = api.to_string k.vch_version k.vch_data

  abbrev pub pub_key_text : KeyExtension → Bytes
  pub_key_text k = chain.hex_str k.pubkey

  abbrev pub show_key : KeyExtension → Printed
  show_key k = key_lines (key_text k) (pub_key_text k) k.address

  unfoldable pub new_key : Printed
  new_key = elim (from_new_key chain true) [ none ↦ create_failed | some k ↦ show_key k ]

  unfoldable pub gen_key : Printed
  gen_key = elim (from_new_key chain false) [
    | none ↦ create_failed
    | some k ↦ masternode_key (key_text k) (pub_key_text k)
  ]

  -- A command that needs `needed` arguments in `argv`.
  abbrev with_args : ℕ → List Bytes → Printed → Printed
  with_args needed args p = if ltb (length args) needed then usage else p

  unfoldable pub showkey : List Bytes → Printed
  showkey args = with_args 3 args (elim (from_string chain (argument args 2)) [
    | none ↦ not_a_key (argument args 2)
    | some k ↦ key_lines_id (key_text k) (pub_key_text k) k.address (api.pub_id k.pubkey)
  ])

  unfoldable pub matchkey : List Bytes → Printed
  matchkey args = with_args 4 args (elim (from_string chain (argument args 2)) [
    | none ↦ not_a_key (argument args 2)
    | some k ↦ elim (match_pub chain k (argument args 3)) [
      | none ↦ not_a_key (argument args 2)
      | some ok ↦ if ok then matched else not_matched
    ]
  ])

  unfoldable pub encodekey : List Bytes → Printed
  encodekey args = with_args 3 args (elim (from_string chain (argument args 2)) [
    | none ↦ not_a_key (argument args 2)
    | some k ↦ encoded (encode chain k)
  ])

  unfoldable pub decodekey : List Bytes → Printed
  decodekey args = with_args 3 args (elim (from_encoded chain 1 (argument args 2)) [
    | none ↦ not_a_key (argument args 2)
    | some k ↦ show_key k
  ])

  unfoldable pub recover_key : List Bytes → Printed
  recover_key args = with_args 4 args (elim (api.decode_base64 (argument args 3)) [
    | none ↦ decode_failed (argument args 3)
    | some sig ↦ elim (api.recover_compact (api.set_hex (argument args 2)) sig) [
      | none ↦ recover_failed (argument args 3)
      | some pubkey ↦ recovered (chain.hex_str pubkey)
    ]
  ])

  unfoldable pub show_addr : List Bytes → Printed
  show_addr args = with_args 3 args (
      if api.address_is_valid (argument args 2)
      then (elim (api.get_index_key (argument args 2)) [
        | none ↦ invalid_address
        | some hex ↦ address_hex hex
      ])
      else invalid_address)
