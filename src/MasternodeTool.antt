-- ===== src/MasternodeTool.antt =====
-- tools/masternodetool.cc: `mnhash` and `mnbstunseri`, which takes a request of the old serialisation
-- apart as the center does. `args` is `argv`.
pub mod Agreement
use uctool.Common.{ℕ, List, [], Option, none, some, Bytes, length, get_or, ltb, if◌then◌else◌, ℤ}
use uctool.Chain.{ChainApi, MstNodeData}
use uctool.Numbers.{atoi}
use uctool.Db.{to_unsigned}
use uctool.Hex.{hex2_int, hex2_int64}
use uctool.Center.Requests.{substr}

-- What `mnbstunseri` prints.
pub record Fields : Type 0 where
  pub head_part : Bytes
  pub version : ℤ
  pub timestamp : ℤ
  pub type : ℤ
  pub txidlen : ℤ
  pub txid : Bytes
  pub voutid : ℤ

-- `thrown` is the exception of `substr`, which ends the program.
pub data Printed : Type 0 where
  usage thrown : Printed
  shown : Fields → Printed
  license_word : Bytes → Printed

infixr 5 ◌>>=ₚ◌
abbrev pub ◌>>=ₚ◌ : Option Bytes → (Bytes → Printed) → Printed
none >>=ₚ f = thrown
some b >>=ₚ f = f b

module _ (chain : ChainApi) where
  -- `MNBoostUnSerialize`
  unfoldable pub mn_boost_un_serialize : List Bytes → Printed
  mn_boost_un_serialize args =
      let hex = get_or args 2 [] in
      if ltb (length args) 3
      then usage
      else substr hex 0 90 >>=ₚ λ head_part. substr hex 90 8 >>=ₚ λ version.
          substr hex 98 16 >>=ₚ λ timestamp. substr hex 114 8 >>=ₚ λ type.
          substr hex 122 16 >>=ₚ λ txidlen. substr hex 138 128 >>=ₚ λ txid.
          substr hex 266 8 >>=ₚ λ voutid. shown (record {
            head_part = chain.parse_hex head_part;
            version = hex2_int version;
            timestamp = hex2_int64 timestamp;
            type = hex2_int type;
            txidlen = hex2_int64 txidlen;
            txid = chain.parse_hex txid;
            voutid = hex2_int voutid;
          })

  -- `MNHash`; `atoi64` is the chain's. The word is printed twice, in two ways that are the chain's.
  unfoldable pub mn_hash : (Bytes → ℤ) → List Bytes → Printed
  mn_hash atoi64 args =
      if ltb (length args) 7
      then usage
      else license_word (
          chain.get_license_word (record chain.null_node {
            txid = get_or args 2 [];
            voutid = to_unsigned (atoi (get_or args 3 []));
            pubkey = chain.parse_hex (get_or args 4 []);
            licperiod = atoi64 (get_or args 5 []);
            licversion = atoi (get_or args 6 []);
          }))
