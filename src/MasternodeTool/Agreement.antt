-- ===== src/MasternodeTool/Agreement.antt =====
-- `mnbstunseri` of tools/masternodetool.cc against `CUCenter::UnSerializeBoost`.
use uctool.Common.{
  ◌≡◌, refl, inl, inr, not, ◌||◌, [], ◌∷◌, Option, none, some, Bytes, codes, ℤ, pos, eqb_ℤ,
  eqb_ℤ_iff, arith, Bool-cases,
}
use uctool.Chain.{ChainApi}
use uctool.Hex.{hex2_int, hex2_int64}
use uctool.Db.{to_unsigned}
use uctool.Center.Requests.{
  Unserialized, accepted, rejected, out_of_range, ◌>>=ᵤ◌, substr, contains, check_parts,
  un_serialize_boost,
}
use uctool.MasternodeTool.{Fields, Printed, thrown, shown, ◌>>=ₚ◌, mn_boost_un_serialize}

-- What the tool prints of a message that the center treats so.
abbrev pub Agrees : Unserialized → Printed → Type 0
Agrees out_of_range p = p ≡ thrown
Agrees rejected p = (f : Fields) × (p ≡ shown f)
Agrees (accepted q) p =
    (f : Fields) × (p ≡ shown f)
    × (f.version ≡ q.msgversion)
    × (f.timestamp ≡ q.time_stamps)
    × (f.type ≡ q.questtype)
    × (f.txidlen ≡ pos 64)
    × (f.txid ≡ q.txid)
    × (to_unsigned f.voutid ≡ q.voutid)

part-Agrees :
    (o : Option Bytes) (f : Bytes → Unserialized) (g : Bytes → Printed)
    → ((b : Bytes) → Agrees (f b) (g b))
    → Agrees (o >>=ᵤ f) (o >>=ₚ g)
part-Agrees none f g h = refl
part-Agrees (some b) f g h = h b

module _ (chain : ChainApi) where
  check_parts-Agrees :
      (head_part : Bytes) (version timestamp type txidlen : ℤ) (txid : Bytes) (voutid : ℤ)
      → let f : Fields = record {
        head_part = chain.parse_hex head_part;
        version = version;
        timestamp = timestamp;
        type = type;
        txidlen = txidlen;
        txid = chain.parse_hex txid;
        voutid = voutid;
      } in
        Agrees (check_parts chain head_part version timestamp type txidlen txid voutid) (shown f)
  unfolding check_parts
  check_parts-Agrees head_part version timestamp type txidlen txid voutid =
      let bad =
        contains (codes "serialization::archive") (chain.parse_hex head_part)
        || not (eqb_ℤ version (pos 111))
        || not (eqb_ℤ type (pos 1))
        || not (eqb_ℤ txidlen (pos 64)) in
      elim (Bool-cases bad) [
        | inl e ↦ rw (e) (_, refl)
        | inr e ↦
            let len : txidlen ≡ pos 64 = ground (arith, e, eqb_ℤ_iff txidlen (pos 64)) in
            rw (e) (_, refl, refl, refl, refl, len, refl, refl)
      ]

  -- The tool and the center take a request apart in the same way: what the center accepts, the tool
  -- shows with the same fields; what the center rejects is shown too; and the tool ends by an
  -- exception just where the center's handler does.
  pub mn_boost_un_serialize-Agrees :
      (prog cmd msg : Bytes)
      → Agrees (un_serialize_boost chain msg) (mn_boost_un_serialize chain (prog ∷ cmd ∷ msg ∷ []))
  unfolding un_serialize_boost mn_boost_un_serialize
  mn_boost_un_serialize-Agrees prog cmd msg = part-Agrees (substr msg 0 90) _ _ λ a.
      part-Agrees (substr msg 90 8) _ _ λ b. part-Agrees (substr msg 98 16) _ _ λ c.
        part-Agrees (substr msg 114 8) _ _ λ d. part-Agrees (substr msg 122 16) _ _ λ e.
          part-Agrees (substr msg 138 128) _ _ λ f. part-Agrees (substr msg 266 8) _ _ λ g.
            check_parts-Agrees a (hex2_int b) (hex2_int64 c) (hex2_int d) (hex2_int64 e) f
              (hex2_int g)
