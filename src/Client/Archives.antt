-- ===== src/Client/Archives.antt =====
-- tools/msgtool.cc: `MsgSerialize` and `MsgDeserialize`, which write a request as a boost archive and
-- read one back. The archive is boost's and `HexStr` the chain's. `args` is `argv`.
use uctool.Common.{
  Bool, not, List, [], Option, none, some, Bytes, codes, length, get_or, ltb, ◌==◌, bytes_eq,
  if◌then◌else◌, ℤ, pos,
}
use uctool.Chain.{Quest}
use uctool.Numbers.{atoi}
use uctool.Db.{to_unsigned}

pub record ArchiveApi : Type 0 where
  -- `binary_oarchive` and `binary_iarchive` of a request; none is an exception.
  pub write : Quest → Bytes
  pub read : Bytes → Option Quest
  -- `HexStr` of a text; the flag asks for spaces.
  pub hex_str : Bytes → Bool → Bytes
  pub asks_one : ℤ

pub data Printed : Type 0 where
  serialize_help deserialize_help exception nothing : Printed
  serialized : (result hex : Bytes) → Printed
  deserialized : Quest → Printed

module _ (api : ArchiveApi) where
  -- The request that the arguments describe; without a time it is 0.
  unfoldable pub quest_of : List Bytes → Quest
  quest_of args = record {
    msgversion = pos 111;
    questtype = api.asks_one;
    time_stamps = if ltb (length args) 6 then pos 0 else atoi (get_or args 5 []);
    txid = get_or args 3 [];
    voutid = to_unsigned (atoi (get_or args 4 []));
  }

  -- `MsgSerialize`: the size of the text is passed to `HexStr` as its flag.
  unfoldable pub msg_serialize : List Bytes → Printed
  msg_serialize args =
      if ltb (length args) 4
      then serialize_help
      else (if bytes_eq (get_or args 2 []) (codes "questone")
          then (if ltb (length args) 5
              then serialize_help
              else (let archive = api.write (quest_of args) in
                  serialized archive (api.hex_str archive (not (length archive == 0)))))
          else nothing)

  -- `MsgDeserialize`
  unfoldable pub msg_deserialize : List Bytes → Printed
  msg_deserialize args =
      if not (length args == 4)
      then deserialize_help
      else (if bytes_eq (get_or args 2 []) (codes "questone")
          then elim (api.read (get_or args 3 [])) [
            | none ↦ exception
            | some quest ↦ deserialized quest
          ]
          else nothing)
