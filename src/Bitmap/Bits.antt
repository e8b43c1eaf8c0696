-- ===== src/Bitmap/Bits.antt =====
-- lib/kernel/bitmap.c seen bit by bit: what the instructions on words do to each bit.
use Prim.Native.Nat.{bit_and, bit_or, bit_xor}
use native.Mathlib.Nat.{one-le-pow, pow-le-pow_right}
use cs162proj.Prelude.{
  ℕ, zero, suc, ◌-◌, ◌*◌, ◌%◌, ◌^◌, ◌≤◌, ◌<◌, ◌≡◌, ap, List, [], ◌∷◌, true, false, not, ◌==◌,
  if◌then◌else◌, arith, get_or, set, length, length-set, get_or-set_self, get_or-set_ne, All,
  Bool-cases, inl, inr, ==_iff,
}
use cs162proj.Prelude.Bits.{
  bit, bit_lt, bit-or, bit-and, bit-xor, bit-pow, bit-complement, bit_and-pow, bit_or-lt,
  bit_and-le, bit_xor-lt,
}
use cs162proj.Bitmap.{
  Bitmap, elem_bits, elem_idx, bit_mask, complement, update_word, bitmap_mark, bitmap_reset,
  bitmap_flip, test_bit,
}

-- A bitmap with room for its bits in words of 32 bits.
pub record IsBitmap (b : Bitmap) : Type 0 where
  pub small : b.bit_cnt < 2 ^ 31
  pub room : b.bit_cnt ≤ elem_bits * length b.bits
  pub words : All (λ w. w < 2 ^ 32) b.bits

-- The value of bit `i` as a number.
abbrev pub bit_at : Bitmap → ℕ → ℕ
bit_at b i = bit (get_or b.bits (elem_idx i) 0) (i % elem_bits)

one_of_two : (x p : ℕ) → x < 2 → 1 ≤ p → not (x * p == 0) ≡ (x == 1)
one_of_two zero p h k = ground arith
one_of_two (suc zero) p h k = ground arith
one_of_two (suc (suc x)) p h k = absurd (omega arith)

-- `bitmap_test` reads the bit.
pub test_bit-bit_at : (b : Bitmap) (i : ℕ) → test_bit b i ≡ (bit_at b i == 1)
unfolding test_bit
test_bit-bit_at b i = rw (bit_and-pow (get_or b.bits (elem_idx i) 0) (i % elem_bits)) (
    one_of_two (bit_at b i) (2 ^ (i % elem_bits))
      (bit_lt (get_or b.bits (elem_idx i) 0) (i % elem_bits))
      (one-le-pow (i % elem_bits) 2 (omega arith)))

-- Two bits of one word are one bit or differ in their place.
word_or_place : (i j : ℕ) → elem_idx i ≡ elem_idx j → i % elem_bits ≡ j % elem_bits → i ≡ j
word_or_place i j e f = omega arith

update_bit :
    (f : ℕ → ℕ) (b : Bitmap) (i j : ℕ)
    → i < elem_bits * length b.bits
    → bit_at (update_word f b i) j ≡ (
        if elem_idx i == elem_idx j
        then bit (f (get_or b.bits (elem_idx i) 0)) (j % elem_bits)
        else bit_at b j)
update_bit f b i j h = elim (Bool-cases (elem_idx i == elem_idx j)) [
  | inl eq ↦
      let e : elem_idx i ≡ elem_idx j = (==_iff _ _).0 eq in
      rw (eq, ← e)
        (ap (λ w. bit w (j % elem_bits))
          (get_or-set_self b.bits (elem_idx i) (f (get_or b.bits (elem_idx i) 0)) 0 (omega arith)))
  | inr ne ↦ rw ne (
      ap (λ w. bit w (j % elem_bits))
        (get_or-set_ne b.bits (elem_idx i) (elem_idx j) (f (get_or b.bits (elem_idx i) 0)) 0
          (ground (arith, ne))))
]

mask_lt : (i : ℕ) → bit_mask i < 2 ^ 32
mask_lt i = below (i % elem_bits) (omega arith)
  where
    below : (k : ℕ) → k < 32 → 2 ^ k < 2 ^ 32
    below k h = omega (arith, pow-le-pow_right {n = 2} (omega arith) {i = k} {j = 31} (omega arith))

module _ (b : Bitmap) (i j : ℕ) (h : i < elem_bits * length b.bits) where
  mark_bit : bit_at (bitmap_mark b i) j ≡ (if i == j then 1 else bit_at b j)
  unfolding bitmap_mark
  mark_bit = ground (
    arith,
    update_bit (λ w. bit_or w (bit_mask i)) b i j h,
    bit-or (get_or b.bits (elem_idx i) 0) (bit_mask i) (j % elem_bits),
    bit-pow (i % elem_bits) (j % elem_bits),
    word_or_place i j,
    bit_lt (get_or b.bits (elem_idx i) 0) (j % elem_bits),
  )

  reset_bit : bit_at (bitmap_reset b i) j ≡ (if i == j then 0 else bit_at b j)
  unfolding bitmap_reset
  reset_bit = ground (
    arith,
    update_bit (λ w. bit_and w (complement (bit_mask i))) b i j h,
    bit-and (get_or b.bits (elem_idx i) 0) (complement (bit_mask i)) (j % elem_bits),
    bit-complement elem_bits (bit_mask i) (j % elem_bits) (mask_lt i) (omega arith),
    bit-pow (i % elem_bits) (j % elem_bits),
    word_or_place i j,
    bit_lt (get_or b.bits (elem_idx i) 0) (j % elem_bits),
  )

  flip_bit : bit_at (bitmap_flip b i) j ≡ (if i == j then 1 - bit_at b j else bit_at b j)
  unfolding bitmap_flip
  flip_bit = ground (
    arith,
    update_bit (λ w. bit_xor w (bit_mask i)) b i j h,
    bit-xor (get_or b.bits (elem_idx i) 0) (bit_mask i) (j % elem_bits),
    bit-pow (i % elem_bits) (j % elem_bits),
    word_or_place i j,
    bit_lt (get_or b.bits (elem_idx i) 0) (j % elem_bits),
  )

pub All-set :
    (ws : List ℕ) (i v : ℕ)
    → v < 2 ^ 32
    → All (λ w. w < 2 ^ 32) ws
    → All (λ w. w < 2 ^ 32) (set ws i v)
All-set [] i v h a = a
All-set (w ∷ ws) zero v h a = (h, a.1)
All-set (w ∷ ws) (suc i) v h a = (a.0, All-set ws i v h a.1)

pub All-get_or : (ws : List ℕ) (i : ℕ) → All (λ w. w < 2 ^ 32) ws → get_or ws i 0 < 2 ^ 32
All-get_or [] i a = omega arith
All-get_or (w ∷ ws) zero a = a.0
All-get_or (w ∷ ws) (suc i) a = All-get_or ws i a.1

update-IsBitmap :
    (f : ℕ → ℕ) (b : Bitmap) (i : ℕ)
    → f (get_or b.bits (elem_idx i) 0) < 2 ^ 32
    → IsBitmap b
    → IsBitmap (update_word f b i)
update-IsBitmap f b i fits v = record {
  small = v.small;
  room = omega (arith, v.room, length-set b.bits (elem_idx i) (f (get_or b.bits (elem_idx i) 0)));
  words = All-set b.bits (elem_idx i) (f (get_or b.bits (elem_idx i) 0)) fits v.words;
}

module _ (b : Bitmap) (i j : ℕ) (v : IsBitmap b) (h : i < b.bit_cnt) where
  inside : i < elem_bits * length b.bits
  inside = omega (arith, v.room)

  pub test_bit-mark : test_bit (bitmap_mark b i) j ≡ (if i == j then true else test_bit b j)
  test_bit-mark =
      ground
        (arith, test_bit-bit_at (bitmap_mark b i) j, test_bit-bit_at b j, mark_bit b i j inside)

  pub test_bit-reset : test_bit (bitmap_reset b i) j ≡ (if i == j then false else test_bit b j)
  test_bit-reset =
      ground
        (arith, test_bit-bit_at (bitmap_reset b i) j, test_bit-bit_at b j, reset_bit b i j inside)

  pub test_bit-flip :
      test_bit (bitmap_flip b i) j ≡ (if i == j then not (test_bit b j) else test_bit b j)
  test_bit-flip = ground (
    arith,
    test_bit-bit_at (bitmap_flip b i) j,
    test_bit-bit_at b j,
    flip_bit b i j inside,
    bit_lt (get_or b.bits (elem_idx j) 0) (j % elem_bits),
  )

  pub mark-IsBitmap : IsBitmap (bitmap_mark b i)
  unfolding bitmap_mark
  mark-IsBitmap =
      update-IsBitmap (λ w. bit_or w (bit_mask i)) b i
        (bit_or-lt 32 (get_or b.bits (elem_idx i) 0) (bit_mask i)
          (All-get_or b.bits (elem_idx i) v.words) (mask_lt i))
        v

  pub reset-IsBitmap : IsBitmap (bitmap_reset b i)
  unfolding bitmap_reset
  reset-IsBitmap =
      let w = get_or b.bits (elem_idx i) 0 in
      update-IsBitmap (λ w. bit_and w (complement (bit_mask i))) b i
        (omega (
          arith,
          bit_and-le w w (complement (bit_mask i)) (omega arith),
          All-get_or b.bits (elem_idx i) v.words,
        ))
        v

  pub flip-IsBitmap : IsBitmap (bitmap_flip b i)
  unfolding bitmap_flip
  flip-IsBitmap =
      update-IsBitmap (λ w. bit_xor w (bit_mask i)) b i
        (bit_xor-lt 32 (get_or b.bits (elem_idx i) 0) (bit_mask i)
          (All-get_or b.bits (elem_idx i) v.words) (mask_lt i))
        v

-- `bitmap_mark`, `bitmap_reset` and `bitmap_flip` change the bit that they name as they say, and no
-- other, and keep the words 32 bits wide.
pub word_ops_lem :
    (b : Bitmap) (i j : ℕ)
    → IsBitmap b
    → i < b.bit_cnt
    → (test_bit (bitmap_mark b i) j ≡ (if i == j then true else test_bit b j))
      × (test_bit (bitmap_reset b i) j ≡ (if i == j then false else test_bit b j))
      × (test_bit (bitmap_flip b i) j ≡ (if i == j then not (test_bit b j) else test_bit b j))
      × IsBitmap (bitmap_mark b i)
      × IsBitmap (bitmap_reset b i)
      × IsBitmap (bitmap_flip b i)
word_ops_lem b i j v h = (
  test_bit-mark b i j v h,
  test_bit-reset b i j v h,
  test_bit-flip b i j v h,
  mark-IsBitmap b i j v h,
  reset-IsBitmap b i j v h,
  flip-IsBitmap b i j v h,
)
