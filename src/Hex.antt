-- ===== src/Hex.antt =====
-- The hexadecimal readers of common/utils.cc. An `int` is its 32-bit pattern; shifts and `|=` work on
-- the patterns, as two's complement hardware does.
pub mod BitOr
pub mod Reading
use Prim.Native.Nat.{bit_or}
use uctool.Common.{
  ℕ, suc, ◌+◌, ◌-◌, ◌*◌, ◌/◌, ◌%◌, ◌^◌, ◌&&◌, [], ◌∷◌, Bytes, Option, none, some, length, ltb, leb,
  ◌==◌, if◌then◌else◌, ℤ, signed32,
}

-- `GetHexDigit`: the table; none stands for its -1.
unfoldable pub get_hex_digit : ℕ → Option ℕ
get_hex_digit c =
    if leb 48 c && leb c 57
    then some (c - 48)
    else (if leb 65 c && leb c 70
        then some (c - 55)
        else (if leb 97 c && leb c 102 then some (c - 87) else none))

-- The pattern of a digit of `bits` bits: -1 is all ones.
abbrev pub digit_pattern : ℕ → Option ℕ → ℕ
digit_pattern bits none = 2 ^ bits - 1
digit_pattern bits (some d) = d

-- Where the `i`-th digit goes: bytes from the lowest, the high half of a byte first.
unfoldable pub hex_shift : ℕ → ℕ
hex_shift i = i / 2 * 8 + (if i % 2 == 0 then 4 else 0)

unfoldable pub hex_loop : ℕ → Bytes → ℕ → ℕ
unfolding get_hex_digit hex_shift
hex_loop i [] r = r
hex_loop i (c ∷ cs) r =
    hex_loop (suc i) cs (bit_or r (digit_pattern 32 (get_hex_digit c) * 2 ^ hex_shift i % 2 ^ 32))

unfoldable pub hex2_int : Bytes → ℤ
unfolding hex_loop
hex2_int str = if length str == 8 then signed32 (hex_loop 0 str 0) else signed32 0

-- An `int` that is widened to 64 bits.
abbrev pub widen : ℕ → ℕ
widen r = if ltb r (2 ^ 31) then r else r + (2 ^ 64 - 2 ^ 32)

-- In `Hex2Int64` the result is declared `int`, so that each round cuts it to 32 bits.
unfoldable pub hex64_loop : ℕ → Bytes → ℕ → ℕ
unfolding get_hex_digit hex_shift
hex64_loop i [] r = r
hex64_loop i (c ∷ cs) r =
    hex64_loop (suc i) cs
      (bit_or (widen r) (digit_pattern 64 (get_hex_digit c) * 2 ^ hex_shift i % 2 ^ 64) % 2 ^ 32)

unfoldable pub hex2_int64 : Bytes → ℤ
unfolding hex64_loop
hex2_int64 str = if length str == 16 then signed32 (hex64_loop 0 str 0) else signed32 0
