-- ===== src/BitmapFile/Reload.antt =====
-- lib/kernel/bitmap.c: a bitmap that is read from a file has the bits that the file gave.
use Prim.Native.Nat.{bit_and}
use native.Mathlib.Nat.{pow-suc, one-le-pow, pow-le-pow_right}
use cs162proj.Prelude.{
  zero, suc, ◌/◌, ◌≤◌, ◌≢◌, List, ==_ne, ℕ, ◌-◌, ◌%◌, ◌^◌, ◌<◌, ◌≡◌, refl, ap, sym, ◌∙◌, ◌==◌,
  arith, Bool-cases, inl, inr, get_or, set, length, get_or-set_self, get_or-set_ne, ==_iff, lt→ltb,
}
use cs162proj.Prelude.Bits.{bit, bit_lt, bit-and, bit-ones}
use cs162proj.Bitmap.{Bitmap, byte_cnt, elem_cnt, elem_idx, elem_bits, last_mask, test_bit}
use cs162proj.Bitmap.Bits.{IsBitmap, bit_at, test_bit-bit_at}
use cs162proj.BitmapFile.{WordFile, bitmap_read}

-- Clearing the bits behind the last one.
abbrev pub trim : Bitmap → Bitmap
trim b =
    let last = elem_cnt b.bit_cnt - 1 in
    record b { bits = set b.bits last (bit_and (get_or b.bits last 0) (last_mask b)) }

-- The mask keeps the bits that the bitmap has.
mask_keeps :
    (b : Bitmap) (j : ℕ)
    → j < b.bit_cnt
    → b.bit_cnt < 2 ^ 31
    → elem_idx j ≡ elem_cnt b.bit_cnt - 1
    → bit (last_mask b) (j % elem_bits) ≡ 1
mask_keeps b j h small e = elim (Bool-cases (b.bit_cnt % elem_bits == 0)) [
  | inl whole ↦ rw whole (bit-ones 32 (j % elem_bits) (omega arith))
  | inr part ↦ rw part (bit-ones (b.bit_cnt % elem_bits) (j % elem_bits) (ground (arith, part)))
]

pub trim_bit :
    (b : Bitmap) (j : ℕ) → IsBitmap b → j < b.bit_cnt → test_bit (trim b) j ≡ test_bit b j
trim_bit b j v h = rw (test_bit-bit_at (trim b) j, test_bit-bit_at b j) (ap (λ n. n == 1) same_bit)
  where
    last : ℕ
    last = elem_cnt b.bit_cnt - 1

    word : ℕ
    word = get_or b.bits last 0

    in_room : last < length b.bits
    in_room = omega (arith, v.room, v.small)

    same_bit : bit_at (trim b) j ≡ bit_at b j
    same_bit = elim (Bool-cases (last == elem_idx j)) [
      | inl eq ↦
          let e : elem_idx j ≡ last = sym ((==_iff last (elem_idx j)).0 eq) in
          rw (e, get_or-set_self b.bits last (bit_and word (last_mask b)) 0 in_room)
            (bit-and word (last_mask b) (j % elem_bits)
              ∙ omega (arith, mask_keeps b j h v.small e, bit_lt word (j % elem_bits)))
      | inr ne ↦
          ap (λ w. bit w (j % elem_bits))
            (get_or-set_ne b.bits last (elem_idx j) (bit_and word (last_mask b)) 0
              (ground (arith, ne)))
    ]

bit_small : (k x : ℕ) → x < 2 ^ k → bit x k ≡ 0
bit_small zero x h = omega arith
bit_small (suc k) x h = bit_small k (x / 2) (omega (arith, pow-suc 2 k))

-- No bit stands behind the last one in the last word.
trim_behind :
    (b : Bitmap) (k : ℕ)
    → IsBitmap b
    → 0 < b.bit_cnt
    → b.bit_cnt % elem_bits ≢ 0
    → b.bit_cnt % elem_bits ≤ k
    → bit (get_or (trim b).bits (elem_cnt b.bit_cnt - 1) 0) k ≡ 0
trim_behind b k v pos part h =
    let last = elem_cnt b.bit_cnt - 1 in
    let word = get_or b.bits last 0 in
    let r = b.bit_cnt % elem_bits in
    let below : 2 ^ r ≤ 2 ^ k = pow-le-pow_right (omega arith) h in
    let clear = bit_small k (2 ^ r - 1) (omega (arith, below, one-le-pow r 2 (omega arith))) in
    rw
      (
        get_or-set_self b.bits last (bit_and word (last_mask b)) 0 (omega (arith, v.room, v.small)),
        ==_ne r 0 part,
      )
      (bit-and word (2 ^ r - 1) k ∙ omega (arith, clear))

module _ (f : WordFile) where
  open f use {World, read_at}

  -- For a bitmap with bits, and a file that gives the words `words`, enough for them, and `n` as the
  -- number of bytes: bitmap_read tells whether all bytes came, keeps the number of bits, and every bit
  -- below it is the one in the words, and where the last word has bits behind the last one these are 0.
  pub bitmap_read_lem :
      (old : Bitmap) (w : World) (words : List ℕ) (n : ℕ)
      → 0 < old.bit_cnt
      → read_at old.bits (byte_cnt old.bit_cnt) w ≡ (words, n)
      → IsBitmap (record old { bits = words })
      → (b : Bitmap) × (bitmap_read f old w ≡ (b, n == byte_cnt old.bit_cnt))
        × (b.bit_cnt ≡ old.bit_cnt)
        × ((j : ℕ) → j < old.bit_cnt → test_bit b j ≡ test_bit (record old { bits = words }) j)
        × ((k : ℕ)
            → old.bit_cnt % elem_bits ≢ 0
            → old.bit_cnt % elem_bits ≤ k
            → bit (get_or b.bits (elem_cnt old.bit_cnt - 1) 0) k ≡ 0)
  unfolding bitmap_read
  bitmap_read_lem old w words n pos reads v =
      let whole : Bitmap = record old { bits = words } in
      (
        trim whole,
        rw (reads, lt→ltb 0 old.bit_cnt pos) refl,
        refl,
        (λ j h. trim_bit whole j v h),
        λ k part h. trim_behind whole k v pos part h,
      )
