-- ===== src/Hash/Rounding.antt =====
-- lib/kernel/hash.c: the number of buckets that `rehash` chooses, from `turn_off_least_1bit` and
-- `is_power_of_2`.
use native.Mathlib.Nat.{pow-suc, one-le-pow}
use cs162proj.Prelude.{
  ℕ, zero, suc, ◌-◌, ◌*◌, ◌/◌, ◌^◌, ◌≤◌, ◌<◌, ◌≡◌, ◌∙◌, ap, refl, ◌⊎◌, inl, inr, some, true, false,
  arith, ==_ne,
}
use cs162proj.Prelude.Bits.{bit_and_step, bit_and-le_mask, bit_and_same}
use cs162proj.Hash.{turn_off_least_1bit, is_power_of_2, round_loop}

-- What turning off the lowest bit does to an even and to an odd number.
turn_off-even : (y : ℕ) → 0 < y → turn_off_least_1bit (y * 2) ≡ turn_off_least_1bit y * 2
unfolding turn_off_least_1bit
turn_off-even y h =
    let half : y * 2 / 2 ≡ y = omega arith in
    let below : (y * 2 - 1) / 2 ≡ y - 1 = omega arith in
    bit_and_step (y * 2) (y * 2 - 1) ∙ rw (half, below) (omega arith)

turn_off-odd : (y : ℕ) → turn_off_least_1bit (suc (y * 2)) ≡ y * 2
unfolding turn_off_least_1bit
turn_off-odd y =
    let half : suc (y * 2) / 2 ≡ y = omega arith in
    let below : y * 2 / 2 ≡ y = omega arith in
    let minus_one : suc (y * 2) - 1 ≡ y * 2 = omega arith in
    let step = bit_and_step (suc (y * 2)) (y * 2) in
    rw minus_one (step ∙ rw (half, below) (omega (arith, bit_and_same y y (omega arith))))

turn_off-lt : (x : ℕ) → 0 < x → turn_off_least_1bit x < x
unfolding turn_off_least_1bit
turn_off-lt x h = omega (arith, bit_and-le_mask x x (x - 1) (omega arith))

turn_off-pow : (k : ℕ) → turn_off_least_1bit (2 ^ k) ≡ 0
turn_off-pow zero = turn_off-odd 0
turn_off-pow (suc k) =
    let double : 2 ^ suc k ≡ 2 ^ k * 2 = omega (arith, pow-suc 2 k) in
    rw double (omega (arith, turn_off-even (2 ^ k) (one-le-pow k 2 (omega arith)), turn_off-pow k))

parity : (x : ℕ) → (x ≡ x / 2 * 2) ⊎ (x ≡ suc (x / 2 * 2))
parity x = omega arith

-- Between two powers of 2 the highest bit stays.
turn_off-high : (k x : ℕ) → 2 ^ k < x → x < 2 ^ suc k → 2 ^ k ≤ turn_off_least_1bit x
turn_off-high zero x low high = absurd (omega arith)
turn_off-high (suc k) x low high = elim (parity x) [
  | inl e ↦
      let above : 2 ^ k < x / 2 = omega (arith, pow-suc 2 k) in
      let below : x / 2 < 2 ^ suc k = omega (arith, pow-suc 2 (suc k)) in
      omega (
        arith,
        pow-suc 2 k,
        turn_off-high k (x / 2) above below,
        ap turn_off_least_1bit e,
        turn_off-even (x / 2) (omega arith),
      )
  | inr e ↦ omega (arith, pow-suc 2 k, ap turn_off_least_1bit e, turn_off-odd (x / 2))
]

log : (n x : ℕ) → x ≤ n → 0 < x → (k : ℕ) × (2 ^ k ≤ x) × (x < 2 ^ suc k)
log zero x h p = absurd (omega arith)
log (suc n) zero h p = absurd (omega arith)
log (suc n) (suc zero) h p = (0, omega arith, omega arith)
log (suc n) (suc (suc x)) h p =
    let (k, low, high) = log n (suc (suc x) / 2) (omega arith) (omega arith) in
    (suc k, omega (arith, pow-suc 2 k), omega (arith, pow-suc 2 (suc k)))

power_test : (k : ℕ) → is_power_of_2 (2 ^ k) ≡ true
unfolding is_power_of_2
power_test k =
    rw (turn_off-pow k, ==_ne (2 ^ k) 0 (λ e. omega (arith, one-le-pow k 2 (omega arith)))) refl

other_test : (x : ℕ) → 0 < x → 0 < turn_off_least_1bit x → is_power_of_2 x ≡ false
unfolding is_power_of_2
other_test x h l =
    rw (==_ne x 0 (λ e. omega arith), ==_ne (turn_off_least_1bit x) 0 (λ e. omega arith)) refl

at_end : (fuel n : ℕ) → is_power_of_2 n ≡ true → round_loop (suc fuel) n ≡ some n
unfolding round_loop
at_end fuel n h = rw (h, round_loop) refl

one_round :
    (fuel n : ℕ)
    → is_power_of_2 n ≡ false
    → round_loop (suc fuel) n ≡ round_loop fuel (turn_off_least_1bit n)
unfolding round_loop
one_round fuel n h = rw (h, round_loop) refl

rounds : (fuel k n : ℕ) → n ≤ fuel → 2 ^ k ≤ n → n < 2 ^ suc k → round_loop fuel n ≡ some (2 ^ k)
rounds zero k n h low high = absurd (omega (arith, one-le-pow k 2 (omega arith)))
rounds (suc fuel) k n h low high =
    let split : (n ≡ 2 ^ k) ⊎ (2 ^ k < n) = omega arith in
    elim split [
      | inl e ↦ rw e (at_end fuel (2 ^ k) (power_test k))
      | inr l ↦
          let positive : 0 < 2 ^ k = one-le-pow k 2 (omega arith) in
          let kept = turn_off-high k n l high in
          let less = turn_off-lt n (omega arith) in
          one_round fuel n (other_test n (omega arith) (omega arith))
          ∙ rounds fuel k (turn_off_least_1bit n) (omega arith) kept (omega arith)
    ]

-- From a number `n` of buckets that is not 0 the loop of rehash ends within `n` rounds, at the
-- greatest power of 2 that is not above `n`.
pub round_loop_lem :
    (n : ℕ) → 0 < n → (k : ℕ) × (round_loop n n ≡ some (2 ^ k)) × (2 ^ k ≤ n) × (n < 2 ^ suc k)
round_loop_lem n h =
    let (k, low, high) = log n n (omega arith) h in
    (k, rounds n k n (omega arith) low high, low, high)
