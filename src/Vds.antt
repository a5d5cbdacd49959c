-- ===== src/Vds.antt =====
-- vdstool/vdsblock.h, vdstool/vdsblock.cc and vdstool/vdsmain.cc: the header of a block and its hash;
-- tools/blockhash.cc: the same header in the tool. Streams, hashes and 256-bit numbers are the
-- chain's.
use uctool.Common.{
  ℕ, ◌≡◌, refl, Bool, ◌++◌, Option, none, some, Bytes, codes, ◌==◌, ℤ, pos, append_assoc,
}

pub record Header : Type 0 where
  pub version : ℤ
  pub hash_prev_block : Bytes
  pub hash_merkle_root : Bytes
  pub time : ℕ
  pub bits : ℕ
  pub nonce : Bytes

-- `READWRITE` of a field on a stream: what is written, and what is read with what is left.
pub record Field (A : Type 0) : Type 0 where
  pub write : A → Bytes
  pub read : Bytes → Option (A × Bytes)

pub record StreamApi : Type 0 where
  pub int32 : Field ℤ
  pub uint32 : Field ℕ
  pub uint256 : Field Bytes
  pub null_uint256 : Bytes
  -- `uint256S` of a text and `GetHex`
  pub uint256_of : Bytes → Bytes
  pub get_hex : Bytes → Bytes
  -- The hash of what `SerializeHash` has written.
  pub hash : Bytes → Bytes
  -- `CBlockHeader::ToString`
  pub block_text : Header → Bytes

infixl 5 ◌>>=◌
abbrev ◌>>=◌ : {A B : Type 0} → Option A → (A → Option B) → Option B
none >>= f = none
some a >>= f = f a

module _ (api : StreamApi) where
  -- `SetNull`, which the constructor calls.
  unfoldable pub null_header : Header
  null_header = record {
    version = pos 0;
    hash_prev_block = api.null_uint256;
    hash_merkle_root = api.null_uint256;
    time = 0;
    bits = 0;
    nonce = api.null_uint256;
  }

  -- `SerializationOp`, writing and reading.
  unfoldable pub serialize : Header → Bytes
  serialize h =
      api.int32.write h.version
      ++ api.uint256.write h.hash_prev_block
      ++ api.uint256.write h.hash_merkle_root
      ++ api.uint32.write h.time
      ++ api.uint32.write h.bits
      ++ api.uint256.write h.nonce

  unfoldable pub unserialize : Bytes → Option (Header × Bytes)
  unserialize s₀ = do
    (version, s₁) ← api.int32.read s₀
    (prev, s₂) ← api.uint256.read s₁
    (root, s₃) ← api.uint256.read s₂
    (time, s₄) ← api.uint32.read s₃
    (bits, s₅) ← api.uint32.read s₄
    (nonce, s₆) ← api.uint256.read s₅
    some (
      record {
        version = version;
        hash_prev_block = prev;
        hash_merkle_root = root;
        time = time;
        bits = bits;
        nonce = nonce;
      },
      s₆,
    )

  unfoldable pub is_null_header : Header → Bool
  is_null_header h = h.bits == 0

  unfoldable pub get_hash : Header → Bytes
  get_hash h = api.hash (serialize h)

  -- The header that both programs fill in; `std::stoi` of its bits is the number itself.
  unfoldable pub sample : Header
  sample = record null_header {
    version = pos 536870912;
    hash_prev_block =
        api.uint256_of (codes "431679762bf2e0a39c394d3a87f3aa1a91ee68e0e02eff7467199f168d1630fd");
    hash_merkle_root =
        api.uint256_of (codes "e7c7ff5c98240449fd776a89cc0060e8737bdb200870201f478f6e261741e6ee");
    time = 1558408176;
    bits = 471429665;
    nonce =
        api.uint256_of (codes "012f7b3d000000000000000000000000000000000000000000000000d6ed0060");
  }

  -- What `vdstool` and the command `blockhash` print.
  unfoldable pub vds_main : Bytes
  vds_main = codes "Hash: " ++ api.get_hex (get_hash sample) ++ codes "\n"

  unfoldable pub show_block_hash : Bytes
  show_block_hash = api.block_text sample ++ codes "\n"

  -- A field reads back what it has written, whatever stands behind it.
  abbrev pub ReadsBack : {A : Type 0} → Field A → A → Type 0
  ReadsBack field a = (rest : Bytes) → field.read (field.write a ++ rest) ≡ some (a, rest)

  -- A header reads back from a stream as it was written, and leaves what stands
  -- behind it, where each of its fields does.
  pub unserialize-serialize :
      (h : Header) (rest : Bytes)
      → ReadsBack api.int32 h.version
      → ReadsBack api.uint256 h.hash_prev_block
      → ReadsBack api.uint256 h.hash_merkle_root
      → ReadsBack api.uint32 h.time
      → ReadsBack api.uint32 h.bits
      → ReadsBack api.uint256 h.nonce
      → unserialize (serialize h ++ rest) ≡ some (h, rest)
  unfolding unserialize serialize
  unserialize-serialize h rest v p r t b n =
      let nested : serialize h ++ rest
          ≡ api.int32.write h.version
            ++ (api.uint256.write h.hash_prev_block
                ++ (api.uint256.write h.hash_merkle_root
                    ++ (api.uint32.write h.time
                        ++ (api.uint32.write h.bits ++ (api.uint256.write h.nonce ++ rest))))) =
        simp (append_assoc) in
      rw (nested, v _, p _, r _, t _, b _, n _) refl
