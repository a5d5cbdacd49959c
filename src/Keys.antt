-- ===== src/Keys.antt =====
-- common/ulord.cc: `CKeyExtension`, a private key as base58 data with its public key and address.
-- `none` is the `throw -1` of the constructors and of `GetKey`.
pub mod Encoding
pub mod Texts
use Prim.Native.Nat.{bit_xor}
use uctool.Common.{
  ℕ, ◌-◌, Bool, true, false, not, ◌&&◌, ◌||◌, List, [], ◌∷◌, ◌++◌, map, Option, none, some, Bytes,
  length, take, drop, get_or, ltb, ◌==◌, if◌then◌else◌, bytes_eq,
}
use uctool.Chain.{ChainApi}

pub record KeyExtension : Type 0 where
  pub vch_version : Bytes
  pub vch_data : Bytes
  pub pubkey : Bytes
  pub address : Bytes

abbrev pub code_word : ℕ
code_word = 170

-- `for (auto & v : vch) v = v ^ CODE_WORD`
unfoldable pub mask : Bytes → Bytes
mask = map λ v. bit_xor v code_word

infixl 5 ◌>>=◌
abbrev pub ◌>>=◌ {ℓ κ} : {A : Type ℓ} {B : Type κ} → Option A → (A → Option B) → Option B
none >>= f = none
some a >>= f = f a

module _ (chain : ChainApi) where
  open chain use {
    encode_base58_check, decode_base58_check, set_string, secret_key_prefix, address_of,
    make_new_key, key_set, key_is_valid, key_data, key_is_compressed, get_pub_key, verify_pub_key,
    parse_hex, sign_compact,
  }

  -- `SetKey`; `none` is its `false`.
  unfoldable pub set_key : Bytes → Option KeyExtension
  set_key key =
      if key_is_valid key
      then some (record {
        vch_version = secret_key_prefix;
        vch_data = key_data key ++ (if key_is_compressed key then 1 ∷ [] else []);
        pubkey = get_pub_key key;
        address = address_of (get_pub_key key);
      })
      else none

  unfoldable pub encode : KeyExtension → Bytes
  encode k = encode_base58_check (mask (k.vch_version ++ k.vch_data))

  unfoldable pub get_key : Bytes → Option Bytes
  get_key data_bytes =
      if ltb (length data_bytes) 32
      then none
      else some
          (key_set (take 32 data_bytes) (ltb 32 (length data_bytes) && get_or data_bytes 32 0 == 1))

  unfoldable pub is_valid : Bytes → Bytes → Bool
  is_valid version data_bytes =
      (length data_bytes == 32 || (length data_bytes == 33 && get_or data_bytes 32 0 == 1))
      && bytes_eq version secret_key_prefix

  -- What the two constructors from a text do once they have the version and the data.
  unfoldable pub finish : Bytes → Bytes → Option KeyExtension
  finish version data_bytes = if not (is_valid version data_bytes) then none else do
    key ← get_key data_bytes
    some (record {
      vch_version = version;
      vch_data = data_bytes;
      pubkey = get_pub_key key;
      address = address_of (get_pub_key key);
    })

  -- `CKeyExtension(bool)`
  unfoldable pub from_new_key : Bool → Option KeyExtension
  unfolding set_key
  from_new_key compress = do
    k ← set_key (make_new_key compress)
    (if verify_pub_key (make_new_key compress) k.pubkey then some k else none)

  -- `CKeyExtension(std::string)`
  unfoldable pub from_string : Bytes → Option KeyExtension
  from_string str_privkey = do
    (version, data_bytes) ← set_string str_privkey
    finish version data_bytes

  unfoldable pub unmask : ℕ → Bytes → Option KeyExtension
  unmask version_bytes vch =
      if ltb (length vch) version_bytes
      then none
      else finish (take version_bytes (mask vch)) (drop version_bytes (mask vch))

  -- `CKeyExtension(unsigned, std::string)`, the reader of what `Encode` writes.
  unfoldable pub from_encoded : ℕ → Bytes → Option KeyExtension
  unfolding unmask
  from_encoded version_bytes str_privkey = do
    vch ← decode_base58_check str_privkey
    unmask version_bytes vch

  -- `SignCompact` over a hash.
  unfoldable pub sign_hash : KeyExtension → Bytes → Option Bytes
  unfolding get_key
  sign_hash k hash = do key ← get_key k.vch_data; sign_compact key hash

  -- `SignCompact` over a text, and `VerifyCompact`.
  unfoldable pub sign_text : KeyExtension → Bytes → Option Bytes
  unfolding get_key
  sign_text k text = do key ← get_key k.vch_data; chain.sign_message text key

  unfoldable pub verify_text : KeyExtension → Bytes → Bytes → Bool
  verify_text k sig text = chain.verify_message k.pubkey sig text

  -- `Match`
  unfoldable pub match_pub : KeyExtension → Bytes → Option Bool
  unfolding get_key
  match_pub k str_pub = do key ← get_key k.vch_data; some (verify_pub_key key (parse_hex str_pub))
