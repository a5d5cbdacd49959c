-- ===== src/Keys/Encoding.antt =====
-- The masked form of a private key that `keyencode` prints and the configuration holds.
use Prim.Native.Nat.{bit_xor}
use mathlib.Core.Path.{ap₂}
use uctool.Common.{
  ℕ, zero, suc, ◌<◌, ◌≡◌, refl, sym, ap, ◌∙◌, ◌⊎◌, inl, inr, Bool, true, false, not, ◌&&◌, [], ◌∷◌,
  ◌++◌, none, some, Bytes, All, All-append, length, take, drop, get_or, ◌==◌, if◌then◌else◌,
  bytes_eq, bytes_eq_refl, Option-cases, arith, length-append, length-map, take-length_append,
  drop-length_append,
}
use uctool.Chain.{ChainApi}
use uctool.Keys.{
  KeyExtension, code_word, mask, set_key, encode, get_key, is_valid, unmask, finish, from_encoded,
  from_string,
}

-- A byte masked twice is the byte again: all 256 of them, by evaluation.
unmasks_below : ℕ → Bool
unmasks_below zero = true
unmasks_below (suc n) = bit_xor (bit_xor n code_word) code_word == n && unmasks_below n

unmasks_below_sound :
    (n x : ℕ) → unmasks_below n ≡ true → x < n → bit_xor (bit_xor x code_word) code_word ≡ x
unfolding unmasks_below
unmasks_below_sound zero x h lt = absurd (omega arith)
unmasks_below_sound (suc n) x h lt = ground (arith, unmasks_below_sound n x)

all_unmask : unmasks_below 256 ≡ true
unfolding unmasks_below
all_unmask = refl

abbrev pub IsBytes : Bytes → Type 0
IsBytes bs = All (λ x. x < 256) bs

-- Masking a byte string twice gives it back.
pub mask_twice : (bs : Bytes) → IsBytes bs → mask (mask bs) ≡ bs
unfolding mask
mask_twice [] h = refl
mask_twice (b ∷ bs) h = ap₂ ◌∷◌ (unmasks_below_sound 256 b all_unmask h.0) (mask_twice bs h.1)

length-mask : (bs : Bytes) → length (mask bs) ≡ length bs
unfolding mask
length-mask bs = length-map bs (λ v. bit_xor v code_word)

differs_below : ℕ → Bool
differs_below zero = true
differs_below (suc n) = not (bit_xor n code_word == n) && differs_below n

differs_below_sound :
    (n x : ℕ) → differs_below n ≡ true → x < n → (bit_xor x code_word == x) ≡ false
unfolding differs_below
differs_below_sound zero x h lt = absurd (omega arith)
differs_below_sound (suc n) x h lt = ground (arith, differs_below_sound n x)

all_differ : differs_below 256 ≡ true
unfolding differs_below
all_differ = refl

-- No byte is its own mask.
masked_differs : (x : ℕ) → x < 256 → (bit_xor x code_word == x) ≡ false
masked_differs x h = differs_below_sound 256 x all_differ h

&&-false : (b : Bool) → (b && false) ≡ false
&&-false true = refl
&&-false false = refl

get_or-append : (xs : Bytes) (y d : ℕ) (n : ℕ) → length xs ≡ n → get_or (xs ++ y ∷ []) n d ≡ y
get_or-append [] y d zero h = refl
get_or-append [] y d (suc n) h = absurd (omega arith)
get_or-append (x ∷ xs) y d zero h = absurd (omega arith)
get_or-append (x ∷ xs) y d (suc n) h = get_or-append xs y d n (omega arith)

take-append_at : (n : ℕ) (xs ys : Bytes) → length xs ≡ n → take n (xs ++ ys) ≡ xs
take-append_at n xs ys h = ap (λ m. take m (xs ++ ys)) (sym h) ∙ take-length_append xs ys

-- The data of a key of 32 bytes: a byte 1 behind it marks a compressed public key.
abbrev pub flagged : Bytes → Bool → Bytes
flagged data_bytes compressed = data_bytes ++ (if compressed then 1 ∷ [] else [])

flagged-IsBytes : (bs : Bytes) (c : Bool) → IsBytes bs → IsBytes (flagged bs c)
flagged-IsBytes bs true h = All-append (λ x. x < 256) bs (1 ∷ []) h (omega arith, tt)
flagged-IsBytes bs false h = All-append (λ x. x < 256) bs [] h tt

module _ (chain : ChainApi) where
  open chain use {
    encode_base58_check, decode_base58_check, secret_key_prefix, key_data, get_pub_key,
  }
  open chain use {key_set, key_is_compressed, address_of}

  get_key-flagged :
      (bs : Bytes) (c : Bool) → length bs ≡ 32 → get_key chain (flagged bs c) ≡ some (key_set bs c)
  unfolding get_key
  get_key-flagged bs true h =
      let len : length (bs ++ 1 ∷ []) ≡ 33 = omega (arith, length-append bs (1 ∷ [])) in
      rw (len, take-append_at 32 bs (1 ∷ []) h, get_or-append bs 1 0 32 h)
  get_key-flagged bs false h =
      let len : length (bs ++ []) ≡ 32 = omega (arith, length-append bs []) in
      rw (len, take-append_at 32 bs [] h)

  is_valid-flagged :
      (bs : Bytes) (c : Bool)
      → length bs ≡ 32
      → is_valid chain secret_key_prefix (flagged bs c) ≡ true
  unfolding is_valid
  is_valid-flagged bs true h =
      let len : length (bs ++ 1 ∷ []) ≡ 33 = omega (arith, length-append bs (1 ∷ [])) in
      rw (len, get_or-append bs 1 0 32 h, bytes_eq_refl secret_key_prefix)
  is_valid-flagged bs false h =
      let len : length (bs ++ []) ≡ 32 = omega (arith, length-append bs []) in
      rw (len, bytes_eq_refl secret_key_prefix)

  finish-flagged :
      (bs : Bytes) (c : Bool)
      → length bs ≡ 32
      → finish chain secret_key_prefix (flagged bs c)
        ≡ some (record {
          vch_version = secret_key_prefix;
          vch_data = flagged bs c;
          pubkey = get_pub_key (key_set bs c);
          address = address_of (get_pub_key (key_set bs c));
        })
  unfolding finish
  finish-flagged bs c h = rw (is_valid-flagged bs c h, get_key-flagged bs c h)

  pub unmask-mask :
      (version rest : Bytes)
      → IsBytes version
      → IsBytes rest
      → unmask chain (length version) (mask (version ++ rest)) ≡ finish chain version rest
  unfolding unmask
  unmask-mask version rest hv hr = ground (
    arith,
    length-mask (version ++ rest),
    length-append version rest,
    mask_twice (version ++ rest) (All-append (λ x. x < 256) version rest hv hr),
    take-length_append version rest,
    drop-length_append version rest,
  )

  -- Reading an encoded key gives back exactly the key that was written, with its public key and its
  -- address. The key is one that `SetKey` accepted, with 32 bytes of data; base58 decoding undoes
  -- encoding, and `CKey::Set` on the data and the flag of a key gives the key.
  pub from_encoded-encode :
      (key : Bytes) (k : KeyExtension)
      → set_key chain key ≡ some k
      → length (key_data key) ≡ 32
      → IsBytes (key_data key)
      → IsBytes secret_key_prefix
      → ((bs : Bytes) → decode_base58_check (encode_base58_check bs) ≡ some bs)
      → key_set (key_data key) (key_is_compressed key) ≡ key
      → from_encoded chain (length secret_key_prefix) (encode chain k) ≡ some k
  unfolding set_key from_encoded encode
  from_encoded-encode key k e len bytes prefix_bytes inverse again = ground (
    arith,
    inverse (mask (secret_key_prefix ++ flagged (key_data key) (key_is_compressed key))),
    unmask-mask secret_key_prefix (flagged (key_data key) (key_is_compressed key)) prefix_bytes
        (flagged-IsBytes (key_data key) (key_is_compressed key) bytes),
    finish-flagged (key_data key) (key_is_compressed key) len,
  )

  -- A key that `keyencode` did not mask is refused: the base58 text of a private key as wallets
  -- write it, one version byte and the data, is not read as an encoded key.
  pub from_encoded_unmasked :
      (prefix : ℕ) (rest : Bytes)
      → secret_key_prefix ≡ prefix ∷ []
      → prefix < 256
      → ((bs : Bytes) → decode_base58_check (encode_base58_check bs) ≡ some bs)
      → from_encoded chain 1 (encode_base58_check (prefix ∷ rest)) ≡ none
  unfolding from_encoded unmask finish is_valid mask bytes_eq
  from_encoded_unmasked prefix rest e small inverse =
      rw (inverse (prefix ∷ rest), e, masked_differs prefix small, &&-false) (ground arith)

  pub finish-get_key :
      (version rest : Bytes) (k : KeyExtension)
      → finish chain version rest ≡ some k
      → (is_valid chain k.vch_version k.vch_data ≡ true)
        × ((key : Bytes) × (get_key chain k.vch_data ≡ some key) × (k.pubkey ≡ get_pub_key key))
  unfolding finish
  finish-get_key version rest k h = elim (Option-cases (get_key chain rest)) [
    | inl e ↦ absurd (ground arith)
    | inr (key, e) ↦ (ground arith, (key, ground arith, ground arith))
  ]

  -- Whatever constructor made a key from a text, `GetKey` does not throw on it, and its public key
  -- is that of its private key.
  pub from_encoded-get_key :
      (n : ℕ) (str : Bytes) (k : KeyExtension)
      → (from_encoded chain n str ≡ some k) ⊎ (from_string chain str ≡ some k)
      → (is_valid chain k.vch_version k.vch_data ≡ true)
        × ((key : Bytes) × (get_key chain k.vch_data ≡ some key) × (k.pubkey ≡ get_pub_key key))
  unfolding from_encoded from_string unmask
  from_encoded-get_key n str k (inl h) = elim (Option-cases (decode_base58_check str)) [
    | inl e ↦ absurd (ground arith)
    | inr (vch, e) ↦ finish-get_key (take n (mask vch)) (drop n (mask vch)) k (ground arith)
  ]
  from_encoded-get_key n str k (inr h) = elim (Option-cases (chain.set_string str)) [
    | inl e ↦ absurd (ground arith)
    | inr ((version, rest), e) ↦ finish-get_key version rest k (ground arith)
  ]
