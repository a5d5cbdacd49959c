-- ===== src/Numbers.antt =====
-- The C library's conversions that the program uses on its texts: `%ld` and `%d` of the formats, and
-- `atoi`, which goes through `strtol` and cuts the result to 32 bits, as the GNU library does.
pub mod RoundTrip
use uctool.Common.{
  ℕ, zero, suc, ◌+◌, ◌-◌, ◌*◌, ◌/◌, ◌%◌, ◌^◌, Bool, ◌&&◌, ◌||◌, [], ◌∷◌, ◌++◌, Bytes, ltb, leb,
  ◌==◌, if◌then◌else◌, ℤ, pos, negsuc, signed32,
}

-- The digits of `n`, which is below the fuel.
unfoldable pub digits : ℕ → ℕ → Bytes
digits zero n = []
digits (suc fuel) n =
    let rest = digits fuel (n / 10) in
    if ltb n 10 then (n + 48) ∷ [] else rest ++ (n % 10 + 48) ∷ []

unfoldable pub show_nat : ℕ → Bytes
unfolding digits
show_nat n = digits (suc n) n

unfoldable pub show_int : ℤ → Bytes
unfolding show_nat
show_int (pos n) = show_nat n
show_int (negsuc n) = 45 ∷ show_nat (suc n)

unfoldable pub is_digit : ℕ → Bool
is_digit c = leb 48 c && leb c 57

unfoldable pub is_space : ℕ → Bool
is_space c = c == 32 || (leb 9 c && leb c 13)

-- The value of the digits at the front, behind those that make up `acc`.
unfoldable pub leading : ℕ → Bytes → ℕ
leading acc [] = acc
leading acc (c ∷ cs) =
    let rest = leading (acc * 10 + (c - 48)) cs in if is_digit c then rest else acc

-- `(int)` of a `long`, as a 32-bit pattern.
abbrev pub cut32 : ℤ → ℤ
cut32 (pos n) = signed32 (n % 2 ^ 32)
cut32 (negsuc n) = signed32 (2 ^ 32 - 1 - n % 2 ^ 32)

-- `strtol` stops at the ends of its range.
abbrev pub long_pos : ℕ → ℤ
long_pos n = if ltb n (2 ^ 63) then pos n else pos (2 ^ 63 - 1)

abbrev pub long_neg : ℕ → ℤ
long_neg zero = pos 0
long_neg (suc n) = if ltb n (2 ^ 63) then negsuc n else negsuc (2 ^ 63 - 1)

unfoldable pub after_sign : Bytes → ℤ
unfolding leading is_digit
after_sign [] = pos 0
after_sign (c ∷ cs) =
    if c == 45
    then long_neg (leading 0 cs)
    else (if c == 43 then long_pos (leading 0 cs) else long_pos (leading 0 (c ∷ cs)))

unfoldable pub skip_space : Bytes → Bytes
unfolding is_space
skip_space [] = []
skip_space (c ∷ cs) = let rest = skip_space cs in if is_space c then rest else c ∷ cs

unfoldable pub atoi : Bytes → ℤ
unfolding skip_space after_sign
atoi s = cut32 (after_sign (skip_space s))
