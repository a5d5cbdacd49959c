-- ===== src/Net.antt =====
-- What the program calls of the vendored muduo library: its byte buffer and its byte-order
-- functions. They are a parameter of the model, with what their documentation promises as laws.
use uctool.Common.{ℕ, ◌+◌, ◌*◌, ◌/◌, ◌%◌, ◌≤◌, ◌<◌, ◌^◌, ◌≡◌, [], ◌∷◌, ◌++◌, Bytes, length}
use uctool.Common.{take, drop}

-- The value of four bytes in network order, and the four bytes of a 32-bit pattern.
abbrev pub be32 : Bytes → ℕ
be32 (a ∷ b ∷ c ∷ d ∷ rest) = a % 256 * 16777216 + b % 256 * 65536 + c % 256 * 256 + d % 256
be32 bs = 0

abbrev pub be_bytes : ℕ → Bytes
be_bytes w = (w / 16777216) ∷ (w / 65536 % 256) ∷ (w / 256 % 256) ∷ (w % 256) ∷ []

pub record BufferApi : Type 1 where
  pub Buffer : Type 0
  -- The readable bytes of a buffer, by which the laws are stated.
  pub contents : Buffer → Bytes
  pub empty : Buffer
  pub readable_bytes : Buffer → ℕ
  -- The first `n` bytes behind `peek()`.
  pub peek : Buffer → ℕ → Bytes
  pub peek_int32 : Buffer → ℕ
  pub retrieve : Buffer → ℕ → Buffer
  pub append : Buffer → Bytes → Buffer
  pub prepend : Buffer → Bytes → Buffer
  -- Four bytes of memory read and written as an `int32_t` of the host.
  pub load32 : Bytes → ℕ
  pub store32 : ℕ → Bytes
  pub network_to_host32 : ℕ → ℕ
  pub host_to_network32 : ℕ → ℕ
  pub contents-empty : contents empty ≡ []
  pub readable_bytes_lem : (b : Buffer) → readable_bytes b ≡ length (contents b)
  pub peek_lem : (b : Buffer) (n : ℕ) → n ≤ length (contents b) → peek b n ≡ take n (contents b)
  pub peek_int32_lem :
      (b : Buffer) → 4 ≤ length (contents b) → peek_int32 b ≡ be32 (take 4 (contents b))
  pub contents-retrieve :
      (b : Buffer) (n : ℕ) → n ≤ length (contents b) → contents (retrieve b n) ≡ drop n (contents b)
  pub contents-append : (b : Buffer) (bs : Bytes) → contents (append b bs) ≡ contents b ++ bs
  -- Eight bytes are kept free in front of what is written to a new buffer.
  pub contents-prepend :
      (bs cs : Bytes) → length bs ≤ 8 → contents (prepend (append empty cs) bs) ≡ bs ++ cs
  pub load32_lem : (bs : Bytes) → length bs ≡ 4 → network_to_host32 (load32 bs) ≡ be32 bs
  pub store32_lem : (w : ℕ) → w < 2 ^ 32 → store32 (host_to_network32 w) ≡ be_bytes w
