-- ===== src/Keys/Texts.antt =====
-- A key that was read from a wallet's text, encoded and read again.
use uctool.Common.{
  ℕ, ◌≡◌, sym, ap, subst, ◌∙◌, inl, inr, ◌⊎◌, true, ◌++◌, Bytes, Option, some, length, bytes_eq_iff,
  Option-cases, arith,
}
use mathlib.Core.Path.{ap₂}
use uctool.Chain.{ChainApi}
use uctool.Keys.{
  ◌>>=◌, KeyExtension, mask, encode, get_key, is_valid, finish, unmask, from_string, from_encoded,
  sign_text, verify_text,
}
use uctool.Keys.Encoding.{IsBytes, unmask-mask, from_encoded-get_key}

module _ (chain : ChainApi) where
  open chain use {encode_base58_check, decode_base58_check, set_string, secret_key_prefix}

  -- A key that `finish` makes keeps what it was made of, and has the version of private keys.
  finish-fields :
      (version rest : Bytes) (k : KeyExtension)
      → finish chain version rest ≡ some k
      → (k.vch_version ≡ version) × (k.vch_data ≡ rest) × (version ≡ secret_key_prefix)
  unfolding finish is_valid
  finish-fields version rest k h = elim (Option-cases (get_key chain rest)) [
    | inl e ↦ absurd (ground arith)
    | inr (key, e) ↦ ground (arith, bytes_eq_iff version secret_key_prefix)
  ]

  -- Any key that was read from a wallet's text is read back from its encoding, where base58 decoding
  -- undoes encoding and gives bytes.
  pub from_string-encode :
      (str : Bytes) (k : KeyExtension)
      → from_string chain str ≡ some k
      → ((bs : Bytes) → decode_base58_check (encode_base58_check bs) ≡ some bs)
      → IsBytes secret_key_prefix
      → ((s version rest : Bytes) → set_string s ≡ some (version, rest) → IsBytes rest)
      → from_encoded chain (length secret_key_prefix) (encode chain k) ≡ some k
  unfolding from_string from_encoded encode
  from_string-encode str k h inverse prefix_bytes bytes = elim (Option-cases (set_string str)) [
    | inl e ↦ absurd (ground arith)
    | inr ((version, rest), e) ↦
        let made : finish chain version rest ≡ some k = ground (arith, h, e) in
        let (v, d, p) = finish-fields version rest k made in
        let bytes_version : IsBytes version = subst IsBytes (sym p) prefix_bytes in
        let again = unmask-mask chain version rest bytes_version (bytes str version rest e) in
        let read : ℕ → Option Bytes → Option KeyExtension = λ n o. o >>= unmask chain n in
        let size = length secret_key_prefix in
        ap₂ (λ a b. read size (decode_base58_check (encode_base58_check (mask (a ++ b))))) v d
        ∙ ap (read size) (inverse (mask (version ++ rest)))
        ∙ ap (λ x. unmask chain (length x) (mask (version ++ rest))) (sym p)
        ∙ again
        ∙ made
  ]

  -- A key that was read from a text verifies each text that it has signed, where the chain's
  -- signatures verify under the public key of the signing key.
  pub sign_text-verifies :
      (n : ℕ) (str text sig : Bytes) (k : KeyExtension)
      → (from_encoded chain n str ≡ some k) ⊎ (from_string chain str ≡ some k)
      → sign_text chain k text ≡ some sig
      → ((key sig' : Bytes)
          → chain.sign_message text key ≡ some sig'
          → chain.verify_message (chain.get_pub_key key) sig' text ≡ true)
      → verify_text chain k sig text ≡ true
  unfolding sign_text verify_text
  sign_text-verifies n str text sig k made signs verifies =
      let (_, (key, got, public)) = from_encoded-get_key chain n str k made in
      let call : chain.sign_message text key ≡ some sig =
        ap (λ (o : Option Bytes). o >>= (λ key'. chain.sign_message text key')) (sym got) ∙ signs in
      ap (λ p. chain.verify_message p sig text) public ∙ verifies key sig call
