-- ===== src/Bitmap/Create.antt =====
-- lib/kernel/bitmap.c: a new bitmap has no bit set.
use cs162proj.Prelude.{
  le→leb, ℕ, ◌*◌, ◌^◌, ◌≤◌, ◌<◌, ◌≡◌, refl, List, none, some, Bool, true, false, ◌&&◌, arith,
  length, All, ltb, ◌==◌,
}
use cs162proj.Bitmap.{
  Bitmap, elem_bits, test_bit, bitmap_set_all, bitmap_create, create_bits, bitmap_create_in_buf,
  bitmap_buf_size,
}
use cs162proj.Bitmap.Bits.{IsBitmap}
use cs162proj.Bitmap.Ranges.{IsFilled, bitmap_set_multiple_lem}

-- A bitmap of the size with no bit set.
pub record IsEmpty (bit_cnt : ℕ) (b : Bitmap) : Type 0 where
  pub size : b.bit_cnt ≡ bit_cnt
  pub tests : (j : ℕ) → (ltb j bit_cnt && test_bit b j) ≡ false
  pub valid : IsBitmap b

-- Memory for the words of a bitmap.
pub record IsRoom (bit_cnt : ℕ) (words : List ℕ) : Type 0 where
  pub small : bit_cnt < 2 ^ 31
  pub room : bit_cnt ≤ elem_bits * length words
  pub fit : All (λ w. w < 2 ^ 32) words

-- `bitmap_set_all` fails no assertion and gives every bit of the bitmap the value.
pub bitmap_set_all_lem :
    (b : Bitmap) (value : Bool)
    → IsBitmap b
    → (b' : Bitmap) × (bitmap_set_all b value ≡ some b') × IsFilled b b' 0 b.bit_cnt value
unfolding bitmap_set_all
bitmap_set_all_lem b value v = bitmap_set_multiple_lem b 0 b.bit_cnt value v (omega arith)

cleared :
    (bit_cnt : ℕ) (words : List ℕ)
    → IsRoom bit_cnt words
    → (b : Bitmap) × (bitmap_set_all (record { bit_cnt = bit_cnt; bits = words }) false ≡ some b)
      × IsEmpty bit_cnt b
cleared bit_cnt words h =
    let v : IsBitmap (record { bit_cnt = bit_cnt; bits = words }) = record {
      small = h.small;
      room = h.room;
      words = h.fit;
    } in
    let (b, done, s) = bitmap_set_all_lem (record { bit_cnt = bit_cnt; bits = words }) false v in
    (b, done, record { size = s.size; tests = λ j. ground (arith, s.tests j); valid = s.valid })

-- In storage that is large enough `bitmap_create` and `bitmap_create_in_buf` fail no assertion and
-- make a bitmap with no bit set; where `malloc` finds no memory for the structure, or none for
-- the words of a bitmap that needs some, `bitmap_create` returns a null pointer.
pub create_lem :
    (bit_cnt : ℕ) (words : List ℕ) (block_size : ℕ)
    → IsRoom bit_cnt words
    → bitmap_buf_size bit_cnt ≤ block_size
    → 0 < bit_cnt
    → (b : Bitmap) × (bitmap_create bit_cnt true (some words) ≡ some (some b))
      × (bitmap_create_in_buf bit_cnt words block_size ≡ some b)
      × IsEmpty bit_cnt b
      × (bitmap_create bit_cnt false (some words) ≡ some none)
      × (bitmap_create bit_cnt true none ≡ some none)
unfolding bitmap_create create_bits bitmap_create_in_buf
create_lem bit_cnt words block_size h k pos =
    let (b, done, e) = cleared bit_cnt words h in
    let needs : (bit_cnt == 0) ≡ false = ground arith in
    (b, rw done, rw (le→leb _ _ k) done, e, refl, rw needs)

pub create_in_buf_lem :
    (bit_cnt : ℕ) (words : List ℕ) (block_size : ℕ)
    → IsRoom bit_cnt words
    → bitmap_buf_size bit_cnt ≤ block_size
    → (b : Bitmap) × (bitmap_create_in_buf bit_cnt words block_size ≡ some b) × IsEmpty bit_cnt b
unfolding bitmap_create_in_buf
create_in_buf_lem bit_cnt words block_size h k =
    let (b, done, e) = cleared bit_cnt words h in (b, rw (le→leb _ _ k) done, e)
