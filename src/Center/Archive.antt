-- ===== src/Center/Archive.antt =====
-- `UnSerializeBoost` on the text that it is made for.
use uctool.Common.{
  ℕ, suc, ◌+◌, ◌%◌, ◌^◌, ◌<◌, ◌≡◌, refl, sym, ap, ◌∙◌, false, [], ◌∷◌, ◌++◌, some, Bytes, codes,
  length, length-append, take, drop, take-length_append, append-nil, pos, signed32, arith,
}
use uctool.Chain.{ChainApi}
use uctool.Db.{to_unsigned}
use uctool.Hex.Reading.{hex_dump, length-hex_dump, hex2_int-dump}
use uctool.Center.Requests.{substr, contains, accepted, check_parts, un_serialize_boost}

substr_front : (s t : Bytes) (count : ℕ) → length s ≡ count → substr (s ++ t) 0 count ≡ some s
unfolding substr
substr_front s t count h =
    let e : take count (s ++ t) ≡ s = ap (λ n. take n (s ++ t)) (sym h) ∙ take-length_append s t in
    ground (arith, e)

drop-skip : (s t : Bytes) (n : ℕ) → drop (length s + n) (s ++ t) ≡ drop n t
drop-skip [] t n = ap (λ k. drop k t) (omega arith)
drop-skip (c ∷ s) t n =
    ap (λ k. drop k (c ∷ s ++ t))
      (let e : suc (length s) + n ≡ suc (length s + n) = omega arith in e)
    ∙ drop-skip s t n

substr_skip :
    (s t : Bytes) (k at count : ℕ)
    → length s ≡ k
    → substr (s ++ t) (k + at) count ≡ substr t at count
unfolding substr
substr_skip s t k at count h =
    let e : drop (k + at) (s ++ t) ≡ drop at t =
      ap (λ n. drop (n + at) (s ++ t)) (sym h) ∙ drop-skip s t at in
    ground (arith, e, length-append s t)

substr_last : (s : Bytes) (count : ℕ) → length s ≡ count → substr s 0 count ≡ some s
substr_last s count h = ap (λ t. substr t 0 count) (sym (append-nil s)) ∙ substr_front s [] count h

to_unsigned-signed32 : (w : ℕ) → w < 2 ^ 32 → to_unsigned (signed32 w) ≡ w
to_unsigned-signed32 w h = ground arith

-- The text: a head, the numbers as dumps of their bytes, and the txid.
abbrev pub archive : Bytes → ℕ → ℕ → ℕ → ℕ → Bytes → ℕ → Bytes
archive head_part version timestamp type txidlen txid voutid =
    head_part
    ++ (hex_dump 4 version
        ++ (hex_dump 8 timestamp
            ++ (hex_dump 4 type ++ (hex_dump 8 txidlen ++ (txid ++ hex_dump 4 voutid)))))

module _ (chain : ChainApi) where
  -- A request that was dumped as an archive of version 111 for one masternode is read back: the
  -- txid as it was, the output number as 32 bits, but of the time stamp the lower 32 bits only, as
  -- a signed number. The head is 90 digits and does not decode to the words of an archive.
  pub un_serialize_boost-archive :
      (head_part txid : Bytes) (timestamp voutid : ℕ)
      → length head_part ≡ 90
      → length txid ≡ 128
      → contains (codes "serialization::archive") (chain.parse_hex head_part) ≡ false
      → un_serialize_boost chain (archive head_part 111 timestamp 1 64 txid voutid)
        ≡ accepted (record {
          msgversion = pos 111;
          questtype = pos 1;
          time_stamps = signed32 (timestamp % 2 ^ 32);
          txid = chain.parse_hex txid;
          voutid = voutid % 2 ^ 32;
        })
  unfolding un_serialize_boost check_parts
  un_serialize_boost-archive head_part txid timestamp voutid h₁ h₂ h₃ =
      let v : Bytes = hex_dump 4 111 in
      let ts : Bytes = hex_dump 8 timestamp in
      let ty : Bytes = hex_dump 4 1 in
      let len : Bytes = hex_dump 8 64 in
      let vo : Bytes = hex_dump 4 voutid in
      let t₅ : Bytes = txid ++ vo in
      let t₄ : Bytes = len ++ t₅ in
      let t₃ : Bytes = ty ++ t₄ in
      let t₂ : Bytes = ts ++ t₃ in
      let t₁ : Bytes = v ++ t₂ in
      let skip₁ = λ (at count : ℕ). substr_skip head_part t₁ 90 at count h₁ in
      let skip₂ = λ (at count : ℕ).
        skip₁ (8 + at) count ∙ substr_skip v t₂ 8 at count (length-hex_dump 4 111) in
      let skip₃ = λ (at count : ℕ).
        skip₂ (16 + at) count ∙ substr_skip ts t₃ 16 at count (length-hex_dump 8 timestamp) in
      let skip₄ = λ (at count : ℕ).
        skip₃ (8 + at) count ∙ substr_skip ty t₄ 8 at count (length-hex_dump 4 1) in
      let skip₅ = λ (at count : ℕ).
        skip₄ (16 + at) count ∙ substr_skip len t₅ 16 at count (length-hex_dump 8 64) in
      let skip₆ = λ (at count : ℕ). skip₅ (128 + at) count ∙ substr_skip txid vo 128 at count h₂ in
      let p₀ = substr_front head_part t₁ 90 h₁ in
      let p₁ = skip₁ 0 8 ∙ substr_front v t₂ 8 (length-hex_dump 4 111) in
      let p₂ = skip₂ 0 16 ∙ substr_front ts t₃ 16 (length-hex_dump 8 timestamp) in
      let p₃ = skip₃ 0 8 ∙ substr_front ty t₄ 8 (length-hex_dump 4 1) in
      let p₄ = skip₄ 0 16 ∙ substr_front len t₅ 16 (length-hex_dump 8 64) in
      let p₅ = skip₅ 0 128 ∙ substr_front txid vo 128 h₂ in
      let p₆ = skip₆ 0 8 ∙ substr_last vo 8 (length-hex_dump 4 voutid) in
      let out = to_unsigned-signed32 (voutid % 2 ^ 32) (omega arith) in
      rw
        (
          p₀,
          p₁,
          p₂,
          p₃,
          p₄,
          p₅,
          p₆,
          (hex2_int-dump 111).0,
          (hex2_int-dump timestamp).1,
          (hex2_int-dump 1).0,
          (hex2_int-dump 64).1,
          (hex2_int-dump voutid).0,
          h₃,
          out,
        )
        refl
