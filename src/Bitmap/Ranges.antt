-- ===== src/Bitmap/Ranges.antt =====
-- The loops of lib/kernel/bitmap.c over a range of bits: setting, counting and looking for a value.
use cs162proj.Prelude.{
  le→leb, ℕ, zero, suc, ◌+◌, ◌-◌, ◌^◌, ◌≤◌, ◌<◌, ◌≡◌, refl, ap, ◌∙◌, some, Bool, true, false, not,
  ◌&&◌, ◌||◌, ◌==◌, ltb, leb, if◌then◌else◌, arith, lt→ltb,
}
use cs162proj.Bitmap.{
  Bitmap, add_size, bitmap_set, bitmap_mark, bitmap_reset, test_bit, bitmap_test, bool_eq, set_loop,
  bitmap_set_multiple, count_loop, bitmap_count, contains_loop, bitmap_contains, bitmap_any,
  bitmap_none, bitmap_all, check_range,
}
use cs162proj.Bitmap.Bits.{IsBitmap, test_bit-mark, test_bit-reset, mark-IsBitmap, reset-IsBitmap}

-- Is `j` one of the `n` bits from `at` on?
abbrev pub in_range : ℕ → ℕ → ℕ → Bool
in_range at n j = leb at j && ltb j (at + n)

-- How setting a bit shows.
pub record IsFilled (b b' : Bitmap) (at n : ℕ) (value : Bool) : Type 0 where
  pub size : b'.bit_cnt ≡ b.bit_cnt
  pub tests : (j : ℕ) → test_bit b' j ≡ (if in_range at n j then value else test_bit b j)
  pub valid : IsBitmap b'

set_one :
    (b : Bitmap) (i : ℕ) (value : Bool)
    → IsBitmap b
    → i < b.bit_cnt
    → (b' : Bitmap) × (bitmap_set b i value ≡ some b') × IsFilled b b' i 1 value
unfolding bitmap_set
set_one b i true v h = (
  bitmap_mark b i,
  rw (lt→ltb i b.bit_cnt h),
  record {
    size = size_mark;
    tests = λ j. ground (arith, test_bit-mark b i j v h);
    valid = mark-IsBitmap b i i v h;
  },
)
  where
    size_mark : (bitmap_mark b i).bit_cnt ≡ b.bit_cnt
    size_mark = unfold bitmap_mark in refl
set_one b i false v h = (
  bitmap_reset b i,
  rw (lt→ltb i b.bit_cnt h),
  record {
    size = size_reset;
    tests = λ j. ground (arith, test_bit-reset b i j v h);
    valid = reset-IsBitmap b i i v h;
  },
)
  where
    size_reset : (bitmap_reset b i).bit_cnt ≡ b.bit_cnt
    size_reset = unfold bitmap_reset in refl

set_loop_step :
    (n at at' : ℕ) (b c b' : Bitmap) (value : Bool)
    → bitmap_set b at value ≡ some c
    → add_size at 1 ≡ at'
    → set_loop c at' n value ≡ some b'
    → set_loop b at (suc n) value ≡ some b'
unfolding set_loop
set_loop_step n at at' b c b' value one next rest = rw (one, next) rest

set_loop-IsFilled :
    (n : ℕ) (b : Bitmap) (at : ℕ) (value : Bool)
    → IsBitmap b
    → at + n ≤ b.bit_cnt
    → (b' : Bitmap) × (set_loop b at n value ≡ some b') × IsFilled b b' at n value
unfolding set_loop
set_loop-IsFilled zero b at value v h =
    (b, refl, record { size = refl; tests = λ j. ground arith; valid = v })
set_loop-IsFilled (suc n) b at value v h =
    let (c, one, s) = set_one b at value v (omega arith) in
    let next : add_size at 1 ≡ at + 1 = omega (arith, v.small) in
    let (b', done, r) = set_loop-IsFilled n c (at + 1) value s.valid (omega (arith, s.size)) in
    (
      b',
      set_loop_step n at (at + 1) b c b' value one next done,
      record {
        size = r.size ∙ s.size;
        tests = λ j. ground (arith, r.tests j, s.tests j);
        valid = r.valid;
      },
    )

range_ok :
    (b : Bitmap) (start cnt : ℕ)
    → IsBitmap b
    → start + cnt ≤ b.bit_cnt
    → check_range b start cnt ≡ some tt
range_ok b start cnt v h = rw (
  le→leb start b.bit_cnt (omega arith),
  le→leb (add_size start cnt) b.bit_cnt (omega (arith, v.small)),
)

-- On a range inside the bitmap `bitmap_set_multiple` fails no assertion, gives every bit of the range
-- the value, keeps every other bit, the size and the invariant.
pub bitmap_set_multiple_lem :
    (b : Bitmap) (start cnt : ℕ) (value : Bool)
    → IsBitmap b
    → start + cnt ≤ b.bit_cnt
    → (b' : Bitmap) × (bitmap_set_multiple b start cnt value ≡ some b')
      × IsFilled b b' start cnt value
unfolding bitmap_set_multiple
bitmap_set_multiple_lem b start cnt value v h =
    let (b', done, r) = set_loop-IsFilled cnt b start value v h in
    (b', rw (range_ok b start cnt v h) done, r)

-- The specification: how many of the `n` bits from `at` on have the value.
abbrev pub count : (ℕ → Bool) → ℕ → ℕ → Bool → ℕ
count f at zero value = 0
count f at (suc n) value = (if bool_eq (f at) value then 1 else 0) + count f (at + 1) n value

-- Has one of them the value?
abbrev pub exists : (ℕ → Bool) → ℕ → ℕ → Bool → Bool
exists f at zero value = false
exists f at (suc n) value = bool_eq (f at) value || exists f (at + 1) n value

test-some : (b : Bitmap) (i : ℕ) → i < b.bit_cnt → bitmap_test b i ≡ some (test_bit b i)
unfolding bitmap_test
test-some b i h = rw (lt→ltb i b.bit_cnt h)

count_loop-count :
    (n : ℕ) (b : Bitmap) (at : ℕ) (value : Bool) (k : ℕ)
    → b.bit_cnt < 2 ^ 31
    → at + n ≤ b.bit_cnt
    → count_loop b at n value k ≡ some (k + count (test_bit b) at n value)
unfolding count_loop
count_loop-count zero b at value k s h = ap some (omega arith)
count_loop-count (suc n) b at value k s h =
    let next : add_size at 1 ≡ at + 1 = omega arith in
    rw (test-some b at (omega arith), next)
      (count_loop-count n b (at + 1) value (if bool_eq (test_bit b at) value then k + 1 else k) s
          (omega arith)
        ∙ ground arith)

contains_loop-exists :
    (n : ℕ) (b : Bitmap) (at : ℕ) (value : Bool)
    → b.bit_cnt < 2 ^ 31
    → at + n ≤ b.bit_cnt
    → contains_loop b at n value ≡ some (exists (test_bit b) at n value)
unfolding contains_loop
contains_loop-exists zero b at value s h = refl
contains_loop-exists (suc n) b at value s h =
    let next : add_size at 1 ≡ at + 1 = omega arith in
    rw (test-some b at (omega arith), next, contains_loop-exists n b (at + 1) value s (omega arith))
      (ground arith)

-- On a range inside the bitmap `bitmap_contains` fails no assertion and tells whether a bit of the
-- range has the value; `bitmap_count` tells how many have it.
pub bitmap_contains_lem :
    (b : Bitmap) (start cnt : ℕ) (value : Bool)
    → IsBitmap b
    → start + cnt ≤ b.bit_cnt
    → bitmap_contains b start cnt value ≡ some (exists (test_bit b) start cnt value)
unfolding bitmap_contains
bitmap_contains_lem b start cnt value v h =
    rw (range_ok b start cnt v h) (contains_loop-exists cnt b start value v.small h)

bitmap_count_lem :
    (b : Bitmap) (start cnt : ℕ) (value : Bool)
    → IsBitmap b
    → start + cnt ≤ b.bit_cnt
    → bitmap_count b start cnt value ≡ some (count (test_bit b) start cnt value)
unfolding bitmap_count
bitmap_count_lem b start cnt value v h =
    rw (range_ok b start cnt v h)
      (count_loop-count cnt b start value 0 v.small h ∙ ap some (omega arith))

exists-count :
    (f : ℕ → Bool) (at n : ℕ) (value : Bool) → exists f at n value ≡ not (count f at n value == 0)
exists-count f at zero value = refl
exists-count f at (suc n) value = ground (arith, exists-count f (at + 1) n value)

count-le : (f : ℕ → Bool) (at n : ℕ) (value : Bool) → count f at n value ≤ n
count-le f at zero value = omega arith
count-le f at (suc n) value = ground (arith, count-le f (at + 1) n value)

count_complement : (f : ℕ → Bool) (at n : ℕ) → count f at n true + count f at n false ≡ n
count_complement f at zero = refl
count_complement f at (suc n) = ground (arith, count_complement f (at + 1) n)

-- On a range inside the bitmap the five queries agree with the number of set bits in it: none fails
-- an assertion, `bitmap_count` gives that number, `bitmap_any`, `bitmap_none` and `bitmap_all` tell
-- whether it is positive, zero, the size of the range.
pub queries_lem :
    (b : Bitmap) (start cnt : ℕ)
    → IsBitmap b
    → start + cnt ≤ b.bit_cnt
    → let set_bits = count (test_bit b) start cnt true in
      (bitmap_count b start cnt true ≡ some set_bits)
      × (bitmap_count b start cnt false ≡ some (cnt - set_bits))
      × (bitmap_any b start cnt ≡ some (not (set_bits == 0)))
      × (bitmap_none b start cnt ≡ some (set_bits == 0))
      × (bitmap_all b start cnt ≡ some (set_bits == cnt))
unfolding bitmap_any bitmap_none bitmap_all
queries_lem b start cnt v h =
    let some_set = exists-count (test_bit b) start cnt true in
    let some_unset = exists-count (test_bit b) start cnt false in
    let total = count_complement (test_bit b) start cnt in
    (
      bitmap_count_lem b start cnt true v h,
      bitmap_count_lem b start cnt false v h ∙ ap some (omega arith),
      bitmap_contains_lem b start cnt true v h ∙ ap some some_set,
      rw (bitmap_contains_lem b start cnt true v h) (ground arith),
      rw (bitmap_contains_lem b start cnt false v h) (ground arith),
    )
