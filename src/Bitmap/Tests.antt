-- ===== src/Bitmap/Tests.antt =====
-- Runs of lib/kernel/bitmap.c and its theorems at a concrete bitmap.
use cs162proj.Prelude.{◌≡◌, refl, [], ◌∷◌, some, none, true, false, arith}
use cs162proj.Bitmap.{
  Bitmap, test_bit, bitmap_mark, bitmap_reset, bitmap_flip, bitmap_set_multiple, bitmap_count,
  bitmap_any, bitmap_none, bitmap_all, bitmap_scan, scan_loop, bitmap_contains, contains_loop,
  bitmap_test, bitmap_create, bitmap_create_in_buf,
}
use cs162proj.Bitmap.Bits.{IsBitmap, word_ops_lem}
use cs162proj.Bitmap.Ranges.{IsFilled, bitmap_set_multiple_lem, queries_lem}
use cs162proj.Bitmap.Scan.{Flipped, first_group, places, bitmap_scan_and_flip_lem}
use cs162proj.Bitmap.Create.{IsEmpty, IsRoom, create_lem}

-- Bits 0, 1, 2, 4 and 33 of 40.
abbrev sample : Bitmap
sample = record { bit_cnt = 40; bits = 0x17 ∷ 0x2 ∷ [] }

sample-IsBitmap : IsBitmap sample
sample-IsBitmap = omega arith

scan_run : bitmap_scan sample 0 3 false ≡ some 5
unfolding bitmap_scan scan_loop bitmap_contains contains_loop bitmap_test test_bit
scan_run = refl

word_ops_example :
    (test_bit (bitmap_mark sample 33) 1 ≡ true)
    × (test_bit (bitmap_reset sample 33) 1 ≡ true)
    × (test_bit (bitmap_flip sample 33) 1 ≡ true)
    × IsBitmap (bitmap_mark sample 33)
    × IsBitmap (bitmap_reset sample 33)
    × IsBitmap (bitmap_flip sample 33)
unfolding test_bit
word_ops_example = word_ops_lem sample 33 1 sample-IsBitmap (omega arith)

bitmap_set_multiple_example :
    (b' : Bitmap) × (bitmap_set_multiple sample 30 5 true ≡ some b') × IsFilled sample b' 30 5 true
bitmap_set_multiple_example = bitmap_set_multiple_lem sample 30 5 true sample-IsBitmap (omega arith)

queries_example :
    (bitmap_count sample 0 6 true ≡ some 4)
    × (bitmap_count sample 0 6 false ≡ some 2)
    × (bitmap_any sample 0 6 ≡ some true)
    × (bitmap_none sample 0 6 ≡ some false)
    × (bitmap_all sample 0 6 ≡ some false)
unfolding test_bit
queries_example = queries_lem sample 0 6 sample-IsBitmap (omega arith)

bitmap_scan_and_flip_example :
    Flipped sample 0 3 false (first_group (test_bit sample) 0 (places sample 0 3) 3 false)
bitmap_scan_and_flip_example =
    bitmap_scan_and_flip_lem sample 0 3 false sample-IsBitmap (omega arith)

forty_bits-IsRoom : IsRoom 40 (7 ∷ 9 ∷ [])
forty_bits-IsRoom = omega arith

create_example :
    (b : Bitmap) × (bitmap_create 40 true (some (7 ∷ 9 ∷ [])) ≡ some (some b))
    × (bitmap_create_in_buf 40 (7 ∷ 9 ∷ []) 4096 ≡ some b)
    × IsEmpty 40 b
    × (bitmap_create 40 false (some (7 ∷ 9 ∷ [])) ≡ some none)
    × (bitmap_create 40 true none ≡ some none)
create_example = create_lem 40 (7 ∷ 9 ∷ []) 4096 forty_bits-IsRoom (omega arith) (omega arith)
