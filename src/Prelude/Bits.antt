-- ===== src/Prelude/Bits.antt =====
-- Single bits of numbers, and what the bit operations do to them.
use Prim.Native.Nat.{
  ℕ, zero, suc, ◌+◌, ◌-◌, ◌*◌, ◌/◌, ◌%◌, ◌^◌, ◌≤◌, ◌<◌, min, max, bit_and, bit_or, bit_xor, digits,
  bit_and-bitwise, bit_or-bitwise, bit_xor-bitwise, differ,
}
use mathlib.Core.Path.{◌≡◌, refl, ap, ◌∙◌}
use native.Mathlib.Omega.{arith}
use native.Mathlib.Nat.{pow-suc, one-le-pow}
use cs162proj.Prelude.Tests.{◌==◌, if◌then◌else◌}

-- Bit `k` of a number.
abbrev pub bit : ℕ → ℕ → ℕ
bit a zero = a % 2
bit a (suc k) = bit (a / 2) k

-- The native operations stand for one recursion on the binary digits of the first number, which is
-- also its fuel. More fuel changes nothing.
module _ (rest : ℕ → ℕ) (join : ℕ → ℕ → ℕ) where
  one_more : (n b x : ℕ) → x ≤ n → digits rest join (suc n) x b ≡ digits rest join n x b
  one_more n b zero h = at_zero n
    where
      at_zero : (k : ℕ) → digits rest join (suc k) zero b ≡ digits rest join k zero b
      at_zero zero = refl
      at_zero (suc k) = refl
  one_more zero b (suc x) h = absurd (omega arith)
  one_more (suc n) b (suc x) h =
      ap (λ t. t * 2 + join (suc x % 2) (b % 2)) (one_more n (b / 2) (suc x / 2) (omega arith))

  any_more : (k n b x : ℕ) → x ≤ n → digits rest join (k + n) x b ≡ digits rest join n x b
  any_more zero n b x h = ap (λ m. digits rest join m x b) (omega arith)
  any_more (suc k) n b x h =
      let shift : suc k + n ≡ suc (k + n) = omega arith in
      rw shift (one_more (k + n) b x (omega arith) ∙ any_more k n b x h)

  exact_fuel : (n b x : ℕ) → x ≤ n → digits rest join n x b ≡ digits rest join x x b
  exact_fuel n b x h =
      let split : n ≡ n - x + x = omega arith in
      ap (λ m. digits rest join m x b) split ∙ any_more (n - x) x b x (omega arith)

  -- The lowest digit of the result is joined from the lowest digits.
  lowest_digit :
      (a b : ℕ)
      → rest b ≡ rest (b / 2) * 2 + join 0 (b % 2)
      → digits rest join a a b ≡ digits rest join (a / 2) (a / 2) (b / 2) * 2 + join (a % 2) (b % 2)
  lowest_digit zero b ends = ends
  lowest_digit (suc n) b ends =
      ap (λ t. t * 2 + join (suc n % 2) (b % 2)) (exact_fuel n (b / 2) (suc n / 2) (omega arith))

pub bit_and_step : (a b : ℕ) → bit_and a b ≡ bit_and (a / 2) (b / 2) * 2 + min (a % 2) (b % 2)
bit_and_step a b =
    let law = lowest_digit (λ c. zero) min a b (omega arith) in
    cc (law, bit_and-bitwise a b, bit_and-bitwise (a / 2) (b / 2))

bit_or_step : (a b : ℕ) → bit_or a b ≡ bit_or (a / 2) (b / 2) * 2 + max (a % 2) (b % 2)
bit_or_step a b =
    let law = lowest_digit (λ c. c) max a b (omega arith) in
    cc (law, bit_or-bitwise a b, bit_or-bitwise (a / 2) (b / 2))

bit_xor_step : (a b : ℕ) → bit_xor a b ≡ bit_xor (a / 2) (b / 2) * 2 + differ (a % 2) (b % 2)
bit_xor_step a b =
    let law = lowest_digit (λ c. c) differ a b (omega arith) in
    cc (law, bit_xor-bitwise a b, bit_xor-bitwise (a / 2) (b / 2))

pub bit_lt : (a k : ℕ) → bit a k < 2
bit_lt a zero = omega arith
bit_lt a (suc k) = bit_lt (a / 2) k

bit-zero : (k : ℕ) → bit 0 k ≡ 0
bit-zero zero = refl
bit-zero (suc k) = bit-zero k

pub bit-or : (a b k : ℕ) → bit (bit_or a b) k ≡ max (bit a k) (bit b k)
bit-or a b zero = omega (arith, bit_or_step a b)
bit-or a b (suc k) =
    let half : bit_or a b / 2 ≡ bit_or (a / 2) (b / 2) = omega (arith, bit_or_step a b) in
    rw half (bit-or (a / 2) (b / 2) k)

pub bit-and : (a b k : ℕ) → bit (bit_and a b) k ≡ min (bit a k) (bit b k)
bit-and a b zero = omega (arith, bit_and_step a b)
bit-and a b (suc k) =
    let half : bit_and a b / 2 ≡ bit_and (a / 2) (b / 2) = omega (arith, bit_and_step a b) in
    rw half (bit-and (a / 2) (b / 2) k)

pub bit-pow : (i k : ℕ) → bit (2 ^ i) k ≡ (if i == k then 1 else 0)
bit-pow zero zero = refl
bit-pow zero (suc k) = ground (arith, bit-zero k)
bit-pow (suc i) zero = ground (arith, pow-suc 2 i)
bit-pow (suc i) (suc k) =
    let half : 2 ^ suc i / 2 ≡ 2 ^ i = omega (arith, pow-suc 2 i) in
    rw half (ground (arith, bit-pow i k))

-- The complement in `n` bits.
pub bit-complement : (n x k : ℕ) → x < 2 ^ n → k < n → bit (2 ^ n - 1 - x) k ≡ 1 - bit x k
bit-complement zero x k h l = absurd (omega arith)
bit-complement (suc n) x zero h l = omega (arith, pow-suc 2 n)
bit-complement (suc n) x (suc k) h l =
    let half : (2 ^ suc n - 1 - x) / 2 ≡ 2 ^ n - 1 - x / 2 = omega (arith, pow-suc 2 n) in
    rw half (bit-complement n (x / 2) k (omega (arith, pow-suc 2 n)) (omega arith))

-- The number with the `n` lowest bits set.
pub bit-ones : (n k : ℕ) → k < n → bit (2 ^ n - 1) k ≡ 1
bit-ones zero k h = absurd (omega arith)
bit-ones (suc n) zero h = omega (arith, pow-suc 2 n, one-le-pow n 2 (omega arith))
bit-ones (suc n) (suc k) h =
    let half : (2 ^ suc n - 1) / 2 ≡ 2 ^ n - 1 = omega (arith, pow-suc 2 n) in
    rw half (bit-ones n k (omega arith))

no_bits : (b a : ℕ) → a ≤ b → bit_and a 0 ≡ 0
no_bits b zero h = refl
no_bits zero (suc x) h = absurd (omega arith)
no_bits (suc b) (suc x) h =
    bit_and_step (suc x) 0 ∙ rw (no_bits b (suc x / 2) (omega arith)) (omega arith)

-- A mask of one bit picks that bit.
pub bit_and-pow : (a k : ℕ) → bit_and a (2 ^ k) ≡ bit a k * 2 ^ k
bit_and-pow a zero = omega (arith, bit_and_step a 1, no_bits a (a / 2) (omega arith))
bit_and-pow a (suc k) =
    let half : 2 ^ suc k / 2 ≡ 2 ^ k = omega (arith, pow-suc 2 k) in
    let low : 2 ^ suc k % 2 ≡ 0 = omega (arith, pow-suc 2 k) in
    bit_and_step a (2 ^ suc k)
    ∙ rw (half, low, bit_and-pow (a / 2) k)
        (omega (arith, ap (λ (t : ℕ). bit (a / 2) k * t) (pow-suc 2 k)))

differ_lem : (x y : ℕ) → x < 2 → y < 2 → differ x y ≡ (if x == y then 0 else 1)
differ_lem zero zero h k = refl
differ_lem zero (suc zero) h k = refl
differ_lem zero (suc (suc y)) h k = absurd (omega arith)
differ_lem (suc zero) zero h k = refl
differ_lem (suc zero) (suc zero) h k = refl
differ_lem (suc zero) (suc (suc y)) h k = absurd (omega arith)
differ_lem (suc (suc x)) y h k = absurd (omega arith)

pub bit-xor : (a b k : ℕ) → bit (bit_xor a b) k ≡ (if bit a k == bit b k then 0 else 1)
bit-xor a b zero =
    ground (arith, bit_xor_step a b, differ_lem (a % 2) (b % 2) (omega arith) (omega arith))
bit-xor a b (suc k) =
    let half : bit_xor a b / 2 ≡ bit_xor (a / 2) (b / 2) =
      ground (arith, bit_xor_step a b, differ_lem (a % 2) (b % 2) (omega arith) (omega arith)) in
    rw half (bit-xor (a / 2) (b / 2) k)

-- The operations stay within a width.
pub bit_or-lt : (n a b : ℕ) → a < 2 ^ n → b < 2 ^ n → bit_or a b < 2 ^ n
bit_or-lt zero a b h l =
    let za : a ≡ 0 = omega arith in let zb : b ≡ 0 = omega arith in rw (za, zb) (omega arith)
bit_or-lt (suc n) a b h l = omega (
  arith,
  bit_or_step a b,
  pow-suc 2 n,
  bit_or-lt n (a / 2) (b / 2) (omega (arith, pow-suc 2 n)) (omega (arith, pow-suc 2 n)),
)

pub bit_and-le : (n a b : ℕ) → a ≤ n → bit_and a b ≤ a
bit_and-le n zero b h = omega (arith, bit_and-bitwise 0 b)
bit_and-le zero (suc a) b h = absurd (omega arith)
bit_and-le (suc n) (suc a) b h =
    omega (arith, bit_and_step (suc a) b, bit_and-le n (suc a / 2) (b / 2) (omega arith))

pub bit_and-le_mask : (n a b : ℕ) → a ≤ n → bit_and a b ≤ b
bit_and-le_mask n zero b h = omega (arith, bit_and-bitwise 0 b)
bit_and-le_mask zero (suc a) b h = absurd (omega arith)
bit_and-le_mask (suc n) (suc a) b h =
    omega (arith, bit_and_step (suc a) b, bit_and-le_mask n (suc a / 2) (b / 2) (omega arith))

pub bit_and_same : (n a : ℕ) → a ≤ n → bit_and a a ≡ a
bit_and_same n zero h = bit_and-bitwise 0 0
bit_and_same zero (suc a) h = absurd (omega arith)
bit_and_same (suc n) (suc a) h =
    omega (arith, bit_and_step (suc a) (suc a), bit_and_same n (suc a / 2) (omega arith))

pub bit_xor-lt : (n a b : ℕ) → a < 2 ^ n → b < 2 ^ n → bit_xor a b < 2 ^ n
bit_xor-lt zero a b h l =
    let za : a ≡ 0 = omega arith in let zb : b ≡ 0 = omega arith in rw (za, zb) (omega arith)
bit_xor-lt (suc n) a b h l = ground (
  arith,
  bit_xor_step a b,
  differ_lem (a % 2) (b % 2) (omega arith) (omega arith),
  pow-suc 2 n,
  bit_xor-lt n (a / 2) (b / 2) (omega (arith, pow-suc 2 n)) (omega (arith, pow-suc 2 n)),
)
