-- ===== src/Base/Bits.antt =====
-- The native bit operations at variables, from their digit recursion: masks are remainders,
-- an `|` of disjoint fields is a sum, and `^` with a fixed value is its own inverse.
use Prim.Native.Nat.{
  ℕ, zero, suc, ◌+◌, ◌-◌, ◌*◌, ◌/◌, ◌%◌, ◌^◌, ◌≤◌, ◌<◌, min, max, bit_and, bit_or, bit_xor, digits,
  differ, bit_and-bitwise, bit_or-bitwise, bit_xor-bitwise,
}
use mathlib.Core.Path.{◌≡◌, refl, ap}
use native.Mathlib.Nat.{pow-suc, div-add-mod}
use native.Mathlib.Omega.{arith}
use mathlib.Core.Bool.{Bool, true, ◌&&◌}
use gosh.Base.Tests.{◌==◌}

-- Enough rounds of the digit recursion give one result, for every digit operation.
module _ (z : ℕ → ℕ) (op : ℕ → ℕ → ℕ) where
  digits_enough : (r s x y : ℕ) → x ≤ r → x ≤ s → digits z op r x y ≡ digits z op s x y
  digits_enough zero zero x y hr hs = refl
  digits_enough zero (suc s) zero y hr hs = refl
  digits_enough zero (suc s) (suc x) y hr hs = absurd (omega arith)
  digits_enough (suc r) zero zero y hr hs = refl
  digits_enough (suc r) zero (suc x) y hr hs = absurd (omega arith)
  digits_enough (suc r) (suc s) zero y hr hs = refl
  digits_enough (suc r) (suc s) (suc x) y hr hs =
      omega (arith, digits_enough r s (suc x / 2) (y / 2) (omega arith) (omega arith))

zero-bit_and : (b : ℕ) → bit_and 0 b ≡ 0
zero-bit_and b = bit_and-bitwise 0 b

pub zero-bit_or : (b : ℕ) → bit_or 0 b ≡ b
zero-bit_or b = bit_or-bitwise 0 b

pub zero-bit_xor : (b : ℕ) → bit_xor 0 b ≡ b
zero-bit_xor b = bit_xor-bitwise 0 b

bit_and_halves : (a b : ℕ) → bit_and a b ≡ bit_and (a / 2) (b / 2) * 2 + min (a % 2) (b % 2)
bit_and_halves zero b = omega (arith, zero-bit_and b, zero-bit_and (b / 2))
bit_and_halves (suc x) y = omega (
  arith,
  bit_and-bitwise (suc x) y,
  digits_enough (λ b. zero) min x (suc x / 2) (suc x / 2) (y / 2) (omega arith) (omega arith),
  bit_and-bitwise (suc x / 2) (y / 2),
)

bit_or_halves : (a b : ℕ) → bit_or a b ≡ bit_or (a / 2) (b / 2) * 2 + max (a % 2) (b % 2)
bit_or_halves zero b = omega (arith, zero-bit_or b, zero-bit_or (b / 2))
bit_or_halves (suc a) b = omega (
  arith,
  bit_or-bitwise (suc a) b,
  bit_or-bitwise (suc a / 2) (b / 2),
  digits_enough (λ b. b) max a (suc a / 2) (suc a / 2) (b / 2) (omega arith) (omega arith),
)

bit_xor_halves : (a b : ℕ) → bit_xor a b ≡ bit_xor (a / 2) (b / 2) * 2 + differ (a % 2) (b % 2)
bit_xor_halves zero b = omega (arith, zero-bit_xor b, zero-bit_xor (b / 2))
bit_xor_halves (suc a) b = omega (
  arith,
  bit_xor-bitwise (suc a) b,
  bit_xor-bitwise (suc a / 2) (b / 2),
  digits_enough (λ b. b) differ a (suc a / 2) (suc a / 2) (b / 2) (omega arith) (omega arith),
)

bit_and-zero_below : (bound x : ℕ) → x ≤ bound → bit_and x 0 ≡ 0
bit_and-zero_below bound zero small = refl
bit_and-zero_below zero (suc x) small = absurd (omega arith)
bit_and-zero_below (suc bound) (suc x) small =
    let half : bit_and (suc x / 2) 0 ≡ 0 = bit_and-zero_below bound (suc x / 2) (omega arith) in
    omega (arith, bit_and_halves (suc x) 0, half)

pub bit_and-zero : (a : ℕ) → bit_and a 0 ≡ 0
bit_and-zero a = bit_and-zero_below a a (omega arith)

double_pow : (x k : ℕ) → x * 2 ^ suc k ≡ 2 * (x * 2 ^ k)
double_pow x k = omega (arith, ap (λ (t : ℕ). x * t) (pow-suc 2 k))

pow_pos : (k : ℕ) → 1 ≤ 2 ^ k
pow_pos zero = omega arith
pow_pos (suc k) = omega (arith, pow-suc 2 k, pow_pos k)

-- `a | x << k` is a sum where `a` has no more than `k` bits.
pub bit_or_shifted : (k a x : ℕ) → a < 2 ^ k → bit_or a (x * 2 ^ k) ≡ a + x * 2 ^ k
bit_or_shifted zero zero x h = omega (arith, zero-bit_or (x * 2 ^ 0))
bit_or_shifted zero (suc a) x h = absurd (omega arith)
bit_or_shifted (suc k) a x h = ground (
  arith,
  bit_or_halves a (x * 2 ^ suc k),
  double_pow x k,
  pow-suc 2 k,
  bit_or_shifted k (a / 2) x (omega (arith, pow-suc 2 k)),
)

bit_and_ones : (k q r : ℕ) → r < 2 ^ k → bit_and (q * 2 ^ k + r) (2 ^ k - 1) ≡ r
bit_and_ones zero q r h = omega (arith, bit_and-zero (q * 2 ^ 0 + r))
bit_and_ones (suc k) q r h = ground (
  arith,
  bit_and_halves (q * 2 ^ suc k + r) (2 ^ suc k - 1),
  double_pow q k,
  pow-suc 2 k,
  pow_pos k,
  bit_and_ones k q (r / 2) (omega (arith, pow-suc 2 k)),
)

-- A mask of `k` ones is the remainder by `2 ^ k`.
pub bit_and_mask : (k a : ℕ) → bit_and a (2 ^ k - 1) ≡ a % 2 ^ k
bit_and_mask k a =
    ground (arith, pow_pos k, div-add-mod a (2 ^ k), bit_and_ones k (a / 2 ^ k) (a % 2 ^ k))

bit_and-one : (a : ℕ) → bit_and a 1 ≡ a % 2
bit_and-one a = omega (arith, bit_and_halves a 1, bit_and-zero (a / 2))

-- A mask of the one bit `k` keeps that bit.
pub bit_and_bit :
    (k q b r : ℕ) → r < 2 ^ k → b < 2 → bit_and (q * 2 ^ suc k + b * 2 ^ k + r) (2 ^ k) ≡ b * 2 ^ k
bit_and_bit zero q b r h hb = omega (arith, bit_and-one (q * 2 ^ 1 + b * 2 ^ 0 + r))
bit_and_bit (suc k) q b r h hb = ground (
  arith,
  bit_and_halves (q * 2 ^ suc (suc k) + b * 2 ^ suc k + r) (2 ^ suc k),
  double_pow q (suc k),
  double_pow b k,
  pow-suc 2 k,
  bit_and_bit k q b (r / 2) (omega (arith, pow-suc 2 k)) hb,
)

differ_twice : (x y : ℕ) → x < 2 → y < 2 → differ (differ x y) y ≡ x
differ_twice zero zero p q = refl
differ_twice zero (suc zero) p q = refl
differ_twice (suc zero) zero p q = refl
differ_twice (suc zero) (suc zero) p q = refl
differ_twice _ _ p q = absurd (omega arith)

differ_bit : (x y : ℕ) → x < 2 → y < 2 → differ x y < 2
differ_bit zero y p q = q
differ_bit (suc zero) zero p q = p
differ_bit (suc zero) (suc zero) p q = omega arith
differ_bit _ _ p q = absurd (omega arith)

bit_xor_twice_fuel : (n a b : ℕ) → a ≤ n → b ≤ n → bit_xor (bit_xor a b) b ≡ a
bit_xor_twice_fuel zero zero zero p q = refl
bit_xor_twice_fuel zero _ _ p q = absurd (omega arith)
bit_xor_twice_fuel (suc n) a b p q = ground (
  arith,
  bit_xor_halves a b,
  bit_xor_halves (bit_xor a b) b,
  differ_twice (a % 2) (b % 2),
  differ_bit (a % 2) (b % 2),
  bit_xor_twice_fuel n (a / 2) (b / 2) (omega arith) (omega arith),
)

pub bit_xor_twice : (a b : ℕ) → bit_xor (bit_xor a b) b ≡ a
bit_xor_twice a b = bit_xor_twice_fuel (a + b) a b (omega arith) (omega arith)

bit_or_comm_fuel : (n a b : ℕ) → a ≤ n → b ≤ n → bit_or a b ≡ bit_or b a
bit_or_comm_fuel zero zero zero p q = refl
bit_or_comm_fuel zero _ _ p q = absurd (omega arith)
bit_or_comm_fuel (suc n) a b p q = omega (
  arith,
  bit_or_halves a b,
  bit_or_halves b a,
  bit_or_comm_fuel n (a / 2) (b / 2) (omega arith) (omega arith),
)

-- `x << k | a`, with the shifted field first.
pub shifted_bit_or : (k a x : ℕ) → a < 2 ^ k → bit_or (x * 2 ^ k) a ≡ x * 2 ^ k + a
shifted_bit_or k a x h = omega (
  arith,
  bit_or_shifted k a x h,
  bit_or_comm_fuel (x * 2 ^ k + a) (x * 2 ^ k) a (omega arith) (omega arith),
)

-- `|` needs no more bits than its operands.
pub bit_or-lt : (k a b : ℕ) → a < 2 ^ k → b < 2 ^ k → bit_or a b < 2 ^ k
bit_or-lt zero zero zero p q = omega arith
bit_or-lt zero zero (suc b) p q = absurd (omega arith)
bit_or-lt zero (suc a) b p q = absurd (omega arith)
bit_or-lt (suc k) a b p q = omega (
  arith,
  pow-suc 2 k,
  bit_or_halves a b,
  bit_or-lt k (a / 2) (b / 2) (omega (arith, pow-suc 2 k)) (omega (arith, pow-suc 2 k)),
)

agree_below : ℕ → (ℕ → ℕ) → (ℕ → ℕ) → Bool
agree_below zero f g = true
agree_below (suc n) f g = f n == g n && agree_below n f g

-- Two functions that a run finds equal at every value below `n`.
agree_below-eq : (n : ℕ) (f g : ℕ → ℕ) → agree_below n f g ≡ true → (x : ℕ) → x < n → f x ≡ g x
unfolding agree_below
agree_below-eq zero f g e x h = absurd (omega arith)
agree_below-eq (suc n) f g e x h = ground (arith, agree_below-eq n f g (ground arith) x)

-- `b | 0x80` on a byte sets the top bit.
pub bit_or_top : (b : ℕ) → b < 256 → bit_or b 0x80 ≡ b % 128 + 128
unfolding agree_below
bit_or_top = agree_below-eq 256 (λ b. bit_or b 0x80) (λ b. b % 128 + 128) refl
