-- ===== src/Hex/BitOr.antt =====
-- `bit_or` as arithmetic: by halves, on the low bits, and on a number that is shifted.
use Prim.Native.Nat.{bit_or, max, digits, bit_or-bitwise}
use native.Mathlib.Nat.{
  mod-one, pow-succ', one-le-pow, mod-eq_of_lt, mod-lt, div-add-mod, add-mul-mod_self_left,
  mul_assoc,
}
use uctool.Common.{ℕ, zero, suc, ◌+◌, ◌*◌, ◌/◌, ◌%◌, ◌^◌, ◌≤◌, ◌<◌, ◌≡◌, refl, sym, ap, ◌∙◌, arith}
use mathlib.Core.Path.{ap₂}

abbrev or_digits : ℕ → ℕ → ℕ → ℕ
or_digits n a b = digits (λ c. c) max n a b

-- More fuel than digits changes nothing.
or_digits_fuel : (n m a b : ℕ) → a ≤ n → a ≤ m → or_digits n a b ≡ or_digits m a b
or_digits_fuel zero zero a b p q = refl
or_digits_fuel zero (suc m) zero b p q = refl
or_digits_fuel zero (suc m) (suc a) b p q = absurd (omega arith)
or_digits_fuel (suc n) zero zero b p q = refl
or_digits_fuel (suc n) zero (suc a) b p q = absurd (omega arith)
or_digits_fuel (suc n) (suc m) zero b p q = refl
or_digits_fuel (suc n) (suc m) (suc a) b p q =
    omega (arith, or_digits_fuel n m (suc a / 2) (b / 2) (omega arith) (omega arith))

zero-bit_or : (b : ℕ) → bit_or 0 b ≡ b
zero-bit_or b = bit_or-bitwise 0 b

pub bit_or_halves : (a b : ℕ) → bit_or a b ≡ bit_or (a / 2) (b / 2) * 2 + max (a % 2) (b % 2)
bit_or_halves zero b = omega (arith, zero-bit_or b, zero-bit_or (b / 2))
bit_or_halves (suc a) b = omega (
  arith,
  bit_or-bitwise (suc a) b,
  bit_or-bitwise (suc a / 2) (b / 2),
  or_digits_fuel a (suc a / 2) (suc a / 2) (b / 2) (omega arith) (omega arith),
)

bit_or-zero_fuel : (n a : ℕ) → a ≤ n → bit_or a 0 ≡ a
bit_or-zero_fuel n zero h = refl
bit_or-zero_fuel zero (suc a) h = absurd (omega arith)
bit_or-zero_fuel (suc n) (suc a) h =
    omega (arith, bit_or_halves (suc a) 0, bit_or-zero_fuel n (suc a / 2) (omega arith))

pub bit_or-zero : (a : ℕ) → bit_or a 0 ≡ a
bit_or-zero a = bit_or-zero_fuel a a (omega arith)

mod_halves : (k x : ℕ) → x % 2 ^ suc k ≡ x / 2 % 2 ^ k * 2 + x % 2
mod_halves k x =
    let p : ℕ = 2 ^ k in
    let y : ℕ = x / 2 in
    let low : ℕ = y % p * 2 + x % 2 in
    let pos_p = one-le-pow k 2 in
    let split : x ≡ low + (2 * p) * (y / p) =
      omega (arith, div-add-mod y p, mul_assoc 2 p (y / p)) in
    let small : low < 2 * p = omega (arith, mod-lt y {m = p} (omega (arith, pos_p))) in
    ap (λ q. x % q) (pow-succ' 2 k)
    ∙ ap (λ z. z % (2 * p)) split
    ∙ add-mul-mod_self_left low (2 * p) (y / p)
    ∙ mod-eq_of_lt small

twice : (a k : ℕ) → a * 2 ^ suc k ≡ 2 * (a * 2 ^ k)
twice a k = omega (arith, ap (λ (t : ℕ). a * t) (pow-succ' 2 k))

-- The low bits of the result depend on the low bits only.
pub bit_or-mod : (k a b : ℕ) → bit_or a b % 2 ^ k ≡ bit_or (a % 2 ^ k) (b % 2 ^ k)
bit_or-mod zero a b =
    let at_one : (x : ℕ) → x % 2 ^ 0 ≡ 0 = λ x. mod-one x in
    at_one (bit_or a b) ∙ sym (ap₂ bit_or (at_one a) (at_one b) ∙ bit_or-zero 0)
bit_or-mod (suc k) a b =
    let a' : ℕ = a % 2 ^ suc k in
    let b' : ℕ = b % 2 ^ suc k in
    let ea = mod_halves k a in
    let eb = mod_halves k b in
    let ha : a' / 2 ≡ a / 2 % 2 ^ k = omega (arith, ea) in
    let hb : b' / 2 ≡ b / 2 % 2 ^ k = omega (arith, eb) in
    let pa : a' % 2 ≡ a % 2 = omega (arith, ea) in
    let pb : b' % 2 ≡ b % 2 = omega (arith, eb) in
    let whole = bit_or_halves a b in
    let upper : bit_or a b / 2 ≡ bit_or (a / 2) (b / 2) = omega (arith, whole) in
    let lower : bit_or a b % 2 ≡ max (a % 2) (b % 2) = omega (arith, whole) in
    mod_halves k (bit_or a b)
    ∙ ap₂ (λ x y. x % 2 ^ k * 2 + y) upper lower
    ∙ ap (λ x. x * 2 + max (a % 2) (b % 2)) (bit_or-mod k (a / 2) (b / 2))
    ∙ ap₂ (λ x y. x * 2 + y) (ap₂ bit_or (sym ha) (sym hb)) (ap₂ max (sym pa) (sym pb))
    ∙ sym (bit_or_halves a' b')

-- Two shifted numbers, over bits that the shift left free.
pub bit_or_shifted :
    (k a b r : ℕ) → r < 2 ^ k → bit_or (a * 2 ^ k + r) (b * 2 ^ k) ≡ bit_or a b * 2 ^ k + r
bit_or_shifted zero a b r h =
    let e : r ≡ 0 = omega arith in
    let ea : a * 2 ^ 0 + r ≡ a = omega arith in
    let eb : b * 2 ^ 0 ≡ b = omega arith in ap₂ bit_or ea eb ∙ omega arith
bit_or_shifted (suc k) a b r h =
    let x : ℕ = a * 2 ^ suc k + r in
    let y : ℕ = b * 2 ^ suc k in
    let twice_a : a * 2 ^ suc k ≡ 2 * (a * 2 ^ k) = twice a k in
    let twice_b : b * 2 ^ suc k ≡ 2 * (b * 2 ^ k) = twice b k in
    let twice_or : bit_or a b * 2 ^ suc k ≡ 2 * (bit_or a b * 2 ^ k) = twice (bit_or a b) k in
    let hx : x / 2 ≡ a * 2 ^ k + r / 2 = omega (arith, twice_a) in
    let hy : y / 2 ≡ b * 2 ^ k = omega (arith, twice_b) in
    let px : x % 2 ≡ r % 2 = omega (arith, twice_a) in
    let py : y % 2 ≡ 0 = omega (arith, twice_b) in
    let small : r / 2 < 2 ^ k = omega (arith, pow-succ' 2 k) in
    let upper : bit_or (x / 2) (y / 2) ≡ bit_or a b * 2 ^ k + r / 2 =
      ap₂ bit_or hx hy ∙ bit_or_shifted k a b (r / 2) small in
    omega (arith, bit_or_halves x y, upper, twice_or, px, py)

bit_or_comm_fuel : (n a b : ℕ) → a ≤ n → bit_or a b ≡ bit_or b a
bit_or_comm_fuel n zero b h = omega (arith, bit_or-zero b, zero-bit_or b)
bit_or_comm_fuel zero (suc a) b h = absurd (omega arith)
bit_or_comm_fuel (suc n) (suc a) b h = omega (
  arith,
  bit_or_halves (suc a) b,
  bit_or_halves b (suc a),
  bit_or_comm_fuel n (suc a / 2) (b / 2) (omega arith),
)

-- A number above `k` bits over one of `k` bits is their sum.
pub bit_or-sum : (k a r : ℕ) → r < 2 ^ k → bit_or r (a * 2 ^ k) ≡ a * 2 ^ k + r
bit_or-sum k a r h =
    let e : 0 * 2 ^ k + r ≡ r = omega arith in
    ap (λ x. bit_or x (a * 2 ^ k)) (sym e)
    ∙ bit_or_shifted k 0 a r h
    ∙ ap (λ x. x * 2 ^ k + r) (zero-bit_or a)

-- The two digits of a byte, the high one first, above the bits of `r`.
pub bit_or_pair :
    (k r hi lo q : ℕ)
    → r < 2 ^ k
    → lo < 16
    → q ≡ 16 * 2 ^ k
    → bit_or (bit_or r (hi * q)) (lo * 2 ^ k) ≡ (hi * 16 + lo) * 2 ^ k + r
bit_or_pair k r hi lo q h small e =
    let e₁ : hi * q ≡ hi * 16 * 2 ^ k = ap (λ (t : ℕ). hi * t) e ∙ sym (mul_assoc hi 16 (2 ^ k)) in
    let nibbles : bit_or (hi * 16) lo ≡ hi * 16 + lo =
      bit_or_comm_fuel (hi * 16) (hi * 16) lo (omega arith) ∙ bit_or-sum 4 hi lo small in
    ap (λ x. bit_or (bit_or r x) (lo * 2 ^ k)) e₁
    ∙ ap (λ x. bit_or x (lo * 2 ^ k)) (bit_or-sum k (hi * 16) r h)
    ∙ bit_or_shifted k (hi * 16) lo r h
    ∙ ap (λ x. x * 2 ^ k + r) nibbles
