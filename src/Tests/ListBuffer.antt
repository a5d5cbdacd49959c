-- ===== src/Tests/ListBuffer.antt =====
-- A buffer that is a plain list of bytes, on a little-endian host.
use uctool.Common.{
  ℕ, ◌+◌, ◌*◌, ◌/◌, ◌%◌, ◌^◌, ◌<◌, ◌≡◌, refl, Bytes, [], ◌∷◌, ◌++◌, length, take, drop, arith,
}
use uctool.Net.{BufferApi, be32, be_bytes}

abbrev pub load_little : Bytes → ℕ
load_little (a ∷ b ∷ c ∷ d ∷ rest) = a % 256 + b % 256 * 256 + c % 256 * 65536 + d % 256 * 16777216
load_little bs = 0

abbrev pub store_little : ℕ → Bytes
store_little w = (w % 256) ∷ (w / 256 % 256) ∷ (w / 65536 % 256) ∷ (w / 16777216) ∷ []

abbrev pub swap32 : ℕ → ℕ
swap32 w = w % 256 * 16777216 + w / 256 % 256 * 65536 + w / 65536 % 256 * 256 + w / 16777216 % 256

pub load_little_lem : (bs : Bytes) → length bs ≡ 4 → swap32 (load_little bs) ≡ be32 bs
load_little_lem (a ∷ b ∷ c ∷ d ∷ rest) h = omega arith
load_little_lem _ h = absurd (omega arith)

pub store_little_lem : (w : ℕ) → w < 2 ^ 32 → store_little (swap32 w) ≡ be_bytes w
store_little_lem w h = ground arith

abbrev pub list_buffer : BufferApi
list_buffer = record {
  Buffer = Bytes;
  contents = λ b. b;
  empty = [];
  readable_bytes = λ b. length b;
  peek = λ b n. take n b;
  peek_int32 = λ b. be32 (take 4 b);
  retrieve = λ b n. drop n b;
  append = λ b bs. b ++ bs;
  prepend = λ b bs. bs ++ b;
  load32 = load_little;
  store32 = store_little;
  network_to_host32 = swap32;
  host_to_network32 = swap32;
  contents-empty = refl;
  readable_bytes_lem = λ b. refl;
  peek_lem = λ b n h. refl;
  peek_int32_lem = λ b h. refl;
  contents-retrieve = λ b n h. refl;
  contents-append = λ b bs. refl;
  contents-prepend = λ bs cs h. refl;
  load32_lem = load_little_lem;
  store32_lem = store_little_lem;
}
