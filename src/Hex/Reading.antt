-- ===== src/Hex/Reading.antt =====
-- What `Hex2Int` and `Hex2Int64` read.
use Prim.Native.Nat.{bit_or}
use native.Mathlib.Nat.{pow-suc, mod-lt, mod-eq_of_lt, mul_assoc, mul_comm}
use uctool.Common.{
  ℕ, zero, suc, ◌+◌, ◌-◌, ◌*◌, ◌/◌, ◌%◌, ◌^◌, ◌≤◌, ◌<◌, ◌≡◌, refl, sym, ap, ◌∙◌, [], ◌∷◌, ◌++◌,
  Bytes, Option, none, some, length, length-append, ltb, if◌then◌else◌, signed32, arith,
}
use mathlib.Core.Path.{ap₂}
use uctool.Hex.{
  get_hex_digit, digit_pattern, hex_shift, hex_loop, hex2_int, widen, hex64_loop, hex2_int64,
}
use uctool.Hex.BitOr.{bit_or-mod, bit_or-zero, bit_or_pair}

hex_loop-append :
    (i : ℕ) (s t : Bytes) (r : ℕ)
    → hex_loop i (s ++ t) r ≡ hex_loop (i + length s) t (hex_loop i s r)
unfolding hex_loop
hex_loop-append i [] t r = ap (λ n. hex_loop n t r) (omega arith)
hex_loop-append i (c ∷ s) t r =
    hex_loop-append (suc i) s t _ ∙ ap (λ n. hex_loop n t (hex_loop i (c ∷ s) r)) (omega arith)

pow-shift : (m : ℕ) → 2 ^ (m + 32) ≡ 2 ^ 32 * 2 ^ m
pow-shift zero = omega arith
pow-shift (suc m) =
    let e : 2 ^ (suc m + 32) ≡ 2 ^ suc (m + 32) =
      ap (λ (n : ℕ). 2 ^ n) (let e : suc m + 32 ≡ suc (m + 32) = omega arith in e) in
    omega (arith, e, pow-suc 2 (m + 32), pow-suc 2 m, pow-shift m)

-- What is shifted out of 32 bits.
digit_out : (i d : ℕ) → 8 ≤ i → d * 2 ^ hex_shift i % 2 ^ 32 ≡ 0
unfolding hex_shift
digit_out i d h =
    let m : ℕ = hex_shift i - 32 in
    let e : hex_shift i ≡ m + 32 = ground arith in
    let shifted : d * 2 ^ hex_shift i ≡ 4294967296 * (d * 2 ^ m) =
      ap (λ (n : ℕ). d * 2 ^ n) e
      ∙ ap (λ (t : ℕ). d * t) (pow-shift m)
      ∙ sym (mul_assoc d (2 ^ 32) (2 ^ m))
      ∙ ap (λ (t : ℕ). t * 2 ^ m) (mul_comm d (2 ^ 32))
      ∙ mul_assoc (2 ^ 32) d (2 ^ m) in
    omega (arith, shifted)

hex_loop_high : (i : ℕ) (t : Bytes) (r : ℕ) → 8 ≤ i → hex_loop i t r ≡ r
unfolding hex_loop
hex_loop_high i [] r h = refl
hex_loop_high i (c ∷ t) r h =
    ap (λ x. hex_loop (suc i) t (bit_or r x)) (digit_out i (digit_pattern 32 (get_hex_digit c)) h)
    ∙ ap (hex_loop (suc i) t) (bit_or-zero r)
    ∙ hex_loop_high (suc i) t r (omega arith)

-- A digit of 64 bits, cut to 32 bits.
digit_cut :
    (d : Option ℕ) (p : ℕ)
    → digit_pattern 64 d * p % 2 ^ 64 % 2 ^ 32 ≡ digit_pattern 32 d * p % 2 ^ 32
digit_cut none p = omega arith
digit_cut (some d) p = omega arith

widen-mod : (r : ℕ) → r < 2 ^ 32 → widen r % 2 ^ 32 ≡ r
widen-mod r h = ground arith

step_cut :
    (d : Option ℕ) (p r : ℕ)
    → r < 2 ^ 32
    → bit_or (widen r) (digit_pattern 64 d * p % 2 ^ 64) % 2 ^ 32
      ≡ bit_or r (digit_pattern 32 d * p % 2 ^ 32)
step_cut d p r h =
    bit_or-mod 32 (widen r) (digit_pattern 64 d * p % 2 ^ 64)
    ∙ ap (λ x. bit_or x (digit_pattern 64 d * p % 2 ^ 64 % 2 ^ 32)) (widen-mod r h)
    ∙ ap (bit_or r) (digit_cut d p)

-- The 64-bit loop in its 32-bit result does what the other loop does.
hex64_loop_low : (i : ℕ) (s : Bytes) (r : ℕ) → r < 2 ^ 32 → hex64_loop i s r ≡ hex_loop i s r
unfolding hex64_loop hex_loop
hex64_loop_low i [] r h = refl
hex64_loop_low i (c ∷ s) r h =
    let e = step_cut (get_hex_digit c) (2 ^ hex_shift i) r h in
    hex64_loop_low (suc i) s _ (mod-lt _ (omega arith)) ∙ ap (hex_loop (suc i) s) e

-- `Hex2Int64` reads the first eight of its sixteen digits only, as `Hex2Int` does, whatever they
-- are: its result is declared `int`, and the digits of the upper half are shifted out of it.
pub hex2_int64-append :
    (s t : Bytes) → length s ≡ 8 → length t ≡ 8 → hex2_int64 (s ++ t) ≡ hex2_int s
unfolding hex2_int64 hex2_int
hex2_int64-append s t hs ht =
    let len : length (s ++ t) ≡ 16 = omega (arith, length-append s t) in
    let value : hex64_loop 0 (s ++ t) 0 ≡ hex_loop 0 s 0 =
      hex64_loop_low 0 (s ++ t) 0 (omega arith)
      ∙ hex_loop-append 0 s t 0
      ∙ hex_loop_high (0 + length s) t (hex_loop 0 s 0) (omega arith) in
    rw (len, hs) (ap signed32 value)

-- The digits that `HexStr` writes: each byte of a number, from the lowest, the high half first.
abbrev pub hex_digit : ℕ → ℕ
hex_digit d = if ltb d 10 then d + 48 else d + 87

pub hex_dump : ℕ → ℕ → Bytes
hex_dump zero w = []
hex_dump (suc n) w = hex_digit (w / 16 % 16) ∷ hex_digit (w % 16) ∷ hex_dump n (w / 256)

pub length-hex_dump : (n w : ℕ) → length (hex_dump n w) ≡ 2 * n
unfolding hex_dump
length-hex_dump zero w = refl
length-hex_dump (suc n) w = omega (arith, length-hex_dump n (w / 256))

get_hex_digit-hex_digit : (d : ℕ) → d < 16 → get_hex_digit (hex_digit d) ≡ some d
unfolding get_hex_digit
get_hex_digit-hex_digit d h = ground arith

abbrev read_digit : ℕ → ℕ
read_digit d = digit_pattern 32 (get_hex_digit (hex_digit d))

read_digit_lem : (d p : ℕ) → d < 16 → d * p < 2 ^ 32 → read_digit d * p % 2 ^ 32 ≡ d * p
read_digit_lem d p h fits =
    ap (λ o. digit_pattern 32 o * p % 2 ^ 32) (get_hex_digit-hex_digit d h) ∙ mod-eq_of_lt fits

-- The two digits of a byte are read into the bits above those of `r`.
read_byte :
    (k q r hi lo : ℕ)
    → r < 2 ^ k
    → q ≡ 16 * 2 ^ k
    → hi < 16
    → lo < 16
    → hi * q < 2 ^ 32
    → lo * 2 ^ k < 2 ^ 32
    → bit_or (bit_or r (read_digit hi * q % 2 ^ 32)) (read_digit lo * 2 ^ k % 2 ^ 32)
      ≡ (hi * 16 + lo) * 2 ^ k + r
read_byte k q r hi lo h e hhi hlo fits fits' =
    ap₂ (λ x y. bit_or (bit_or r x) y) (read_digit_lem hi q hhi fits)
      (read_digit_lem lo (2 ^ k) hlo fits')
    ∙ bit_or_pair k r hi lo q h hlo e

hex2_int-hex_dump : (w : ℕ) → hex2_int (hex_dump 4 w) ≡ signed32 (w % 2 ^ 32)
unfolding hex2_int hex_dump hex_loop
hex2_int-hex_dump w =
    let w₁ : ℕ = w / 256 in
    let w₂ : ℕ = w₁ / 256 in
    let w₃ : ℕ = w₂ / 256 in
    let e₀ =
      read_byte 0 16 0 (w / 16 % 16) (w % 16) (omega arith) refl (omega arith) (omega arith)
        (omega arith) (omega arith) in
    let e₁ =
      read_byte 8 4096 (w % 256) (w₁ / 16 % 16) (w₁ % 16) (omega arith) refl (omega arith)
        (omega arith) (omega arith) (omega arith) in
    let e₂ =
      read_byte 16 1048576 (w % 65536) (w₂ / 16 % 16) (w₂ % 16) (omega arith) refl (omega arith)
        (omega arith) (omega arith) (omega arith) in
    let e₃ =
      read_byte 24 268435456 (w % 16777216) (w₃ / 16 % 16) (w₃ % 16) (omega arith) refl
        (omega arith) (omega arith) (omega arith) (omega arith) in
    let or_in : ℕ → ℕ → ℕ → ℕ → ℕ → ℕ =
      λ p q hi lo r. bit_or (bit_or r (read_digit hi * q % 2 ^ 32)) (read_digit lo * p % 2 ^ 32) in
    let v₀ : or_in 1 16 (w / 16 % 16) (w % 16) 0 ≡ w % 256 = e₀ ∙ omega arith in
    let v₁ : or_in 256 4096 (w₁ / 16 % 16) (w₁ % 16) (w % 256) ≡ w % 65536 = e₁ ∙ omega arith in
    let v₂ : or_in 65536 1048576 (w₂ / 16 % 16) (w₂ % 16) (w % 65536) ≡ w % 16777216 =
      e₂ ∙ omega arith in
    let v₃ : or_in 16777216 268435456 (w₃ / 16 % 16) (w₃ % 16) (w % 16777216) ≡ w % 2 ^ 32 =
      e₃ ∙ omega arith in
    ap
      (λ r. signed32 (
        or_in 16777216 268435456 (w₃ / 16 % 16) (w₃ % 16) (
          or_in 65536 1048576 (w₂ / 16 % 16) (w₂ % 16)
            (or_in 256 4096 (w₁ / 16 % 16) (w₁ % 16) r))))
      v₀
    ∙ ap
        (λ r. signed32 (
          or_in 16777216 268435456 (w₃ / 16 % 16) (w₃ % 16)
            (or_in 65536 1048576 (w₂ / 16 % 16) (w₂ % 16) r)))
        v₁
    ∙ ap (λ r. signed32 (or_in 16777216 268435456 (w₃ / 16 % 16) (w₃ % 16) r)) v₂
    ∙ ap signed32 v₃

hex_dump_halves : (w : ℕ) → hex_dump 8 w ≡ hex_dump 4 w ++ hex_dump 4 (w / 256 / 256 / 256 / 256)
unfolding hex_dump
hex_dump_halves w = refl

-- `Hex2Int` reads the dump of the four bytes of a number as that number, as an `int32_t`; but
-- `Hex2Int64` reads the dump of eight bytes as the lower four of them, so that a number from 2^31 on
-- comes back as another.
pub hex2_int-dump :
    (w : ℕ)
    → (hex2_int (hex_dump 4 w) ≡ signed32 (w % 2 ^ 32))
      × (hex2_int64 (hex_dump 8 w) ≡ signed32 (w % 2 ^ 32))
hex2_int-dump w = (
  hex2_int-hex_dump w,
  ap hex2_int64 (hex_dump_halves w)
      ∙ hex2_int64-append (hex_dump 4 w) (hex_dump 4 (w / 256 / 256 / 256 / 256))
          (length-hex_dump 4 w) (length-hex_dump 4 (w / 256 / 256 / 256 / 256))
      ∙ hex2_int-hex_dump w,
)
