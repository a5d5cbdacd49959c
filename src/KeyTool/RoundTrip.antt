-- ===== src/KeyTool/RoundTrip.antt =====
-- The commands together: what `keyencode` prints, `keydecode` reads, and the public key that
-- `keyshow` prints is matched by `keymatch`.
use uctool.Common.{◌≡◌, refl, ap, subst, ◌∙◌, inr, true, [], ◌∷◌, Bytes, some, length}
use uctool.Chain.{ChainApi}
use uctool.Keys.{KeyExtension, from_string, from_encoded, encode, match_pub}
use uctool.Keys.Encoding.{IsBytes, from_encoded-get_key}
use uctool.Keys.Texts.{from_string-encode}
use uctool.KeyTool.{
  KeyToolApi, key_lines, key_lines_id, encoded, matched, key_text, pub_key_text, showkey, matchkey,
  encodekey, decodekey,
}

module _ (chain : ChainApi) (api : KeyToolApi) where
  open chain use {
    encode_base58_check, decode_base58_check, set_string, secret_key_prefix, hex_str, parse_hex,
    get_pub_key, verify_pub_key,
  }

  -- A wallet's private key, given to the four commands: `keyencode` prints a text from which
  -- `keydecode` prints just the private key, the public key and the address that `keyshow` prints for
  -- the key itself, and `keymatch` accepts the public key that both print. The key's version is one
  -- byte; base58 decoding undoes encoding and gives bytes, hex decoding undoes hex encoding, and a
  -- private key verifies its own public key.
  pub encodekey-decodekey :
      (prog cmd str : Bytes) (k : KeyExtension)
      → from_string chain str ≡ some k
      → length secret_key_prefix ≡ 1
      → IsBytes secret_key_prefix
      → ((bs : Bytes) → decode_base58_check (encode_base58_check bs) ≡ some bs)
      → ((s version rest : Bytes) → set_string s ≡ some (version, rest) → IsBytes rest)
      → ((bs : Bytes) → parse_hex (hex_str bs) ≡ bs)
      → ((key : Bytes) → verify_pub_key key (get_pub_key key) ≡ true)
      → (encodekey chain api (prog ∷ cmd ∷ str ∷ []) ≡ encoded (encode chain k))
        × (decodekey chain api (prog ∷ cmd ∷ encode chain k ∷ [])
            ≡ key_lines (key_text chain api k) (pub_key_text chain api k) k.address)
        × (showkey chain api (prog ∷ cmd ∷ str ∷ [])
            ≡ key_lines_id
                (key_text chain api k)
                (pub_key_text chain api k)
                k.address
                (api.pub_id k.pubkey))
        × (matchkey chain api (prog ∷ cmd ∷ str ∷ pub_key_text chain api k ∷ []) ≡ matched)
  unfolding encodekey decodekey showkey matchkey match_pub
  encodekey-decodekey prog cmd str k valid one prefix_bytes inverse bytes hex own =
      let again : from_encoded chain 1 (encode chain k) ≡ some k =
        subst (λ n. from_encoded chain n (encode chain k) ≡ some k) one
          (from_string-encode chain str k valid inverse prefix_bytes bytes) in
      let (_, (key, got, public)) = from_encoded-get_key chain 1 str k (inr valid) in
      let verified : verify_pub_key key (parse_hex (hex_str k.pubkey)) ≡ true =
        ap (verify_pub_key key) (hex k.pubkey ∙ public) ∙ own key in
      (
        rw (valid, encodekey) refl,
        rw (again, decodekey) refl,
        rw (valid, showkey) refl,
        rw (valid, matchkey, match_pub, got, verified) refl,
      )
