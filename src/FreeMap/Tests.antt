-- ===== src/FreeMap/Tests.antt =====
-- The theorems on filesys/free-map.c at a concrete map.
use cs162proj.Prelude.{
  get_or, ◌%◌, ◌-◌, ◌<◌, ◌≤◌, ℕ, ◌≡◌, ◌≢◌, refl, List, [], ◌∷◌, Option, some, true, false, arith,
}
use cs162proj.Bitmap.{
  Bitmap, elem_bits, elem_cnt, test_bit, bitmap_scan_and_flip, bitmap_scan, scan_loop,
  bitmap_contains, contains_loop, bitmap_test, bitmap_set_multiple, set_loop, bitmap_set,
  bitmap_mark,
}
use cs162proj.Bitmap.Bits.{IsBitmap}
use cs162proj.Bitmap.Ranges.{IsFilled}
use cs162proj.BitmapFile.{WordFile, bitmap_read, bitmap_write}
use cs162proj.BitmapFile.Reload.{bitmap_read_lem}
use cs162proj.Prelude.Bits.{bit}
use cs162proj.FreeMap.{FreeMap, free_map_allocate, free_map_release}
use cs162proj.FreeMap.Allocate.{
  Allocated, free_map_allocate_lem, allocate_twice, free_map_release_lem,
}

-- Bits 0, 1, 2, 4 and 33 of 40.
abbrev sample : Bitmap
sample = record { bit_cnt = 40; bits = 0x17 ∷ 0x2 ∷ [] }

sample-IsBitmap : IsBitmap sample
sample-IsBitmap = omega arith

-- A file that keeps the words that were written last.
abbrev memory_file : WordFile
memory_file = record {
  World = List ℕ;
  write_at = λ words size w. (words, size);
  read_at = λ old size w. (w, size);
}

abbrev mounted : FreeMap memory_file
mounted = record { map = sample; file = true; world = [] }

free_map_allocate_example :
    (st' : FreeMap memory_file) × (r : Option ℕ) × (free_map_allocate memory_file mounted 3
      ≡ some (st', r))
    × Allocated memory_file mounted 3 st' r
free_map_allocate_example = free_map_allocate_lem memory_file mounted 3 sample-IsBitmap

free_map_release_example :
    (st' : FreeMap memory_file) × (free_map_release memory_file mounted 1 2 ≡ some st')
    × IsFilled sample st'.map 1 2 false
unfolding test_bit
free_map_release_example =
    free_map_release_lem memory_file mounted 1 2 sample-IsBitmap (omega arith) refl refl

-- The sectors 3 and 5 are the first free ones.
abbrev after_one : FreeMap memory_file
after_one = record {
  map = record { bit_cnt = 40; bits = 0x1f ∷ 0x2 ∷ [] };
  file = true;
  world = 0x1f ∷ 0x2 ∷ [];
}

abbrev after_two : FreeMap memory_file
after_two = record {
  map = record { bit_cnt = 40; bits = 0x3f ∷ 0x2 ∷ [] };
  file = true;
  world = 0x3f ∷ 0x2 ∷ [];
}

allocate_twice_example :
    (◌≢◌ {A = ℕ} 3 5) × (test_bit sample 3 ≡ false) × (test_bit sample 5 ≡ false)
unfolding free_map_allocate bitmap_scan_and_flip bitmap_scan scan_loop bitmap_contains contains_loop
    bitmap_test test_bit bitmap_set_multiple set_loop bitmap_set bitmap_mark bitmap_write
allocate_twice_example =
    allocate_twice memory_file mounted after_one after_two 3 5 sample-IsBitmap refl refl

-- The file gives ones behind the 40 bits.
bitmap_read_example :
    (b : Bitmap) × (bitmap_read memory_file sample (0x17 ∷ 0xff02 ∷ []) ≡ (b, true))
    × (b.bit_cnt ≡ 40)
    × ((j : ℕ)
        → j < 40
        → test_bit b j ≡ test_bit (record { bit_cnt = 40; bits = 0x17 ∷ 0xff02 ∷ [] }) j)
    × ((k : ℕ)
        → (40 % elem_bits) ≢ 0
        → 40 % elem_bits ≤ k
        → bit (get_or b.bits (elem_cnt 40 - 1) 0) k ≡ 0)
bitmap_read_example =
    bitmap_read_lem memory_file sample (0x17 ∷ 0xff02 ∷ []) (0x17 ∷ 0xff02 ∷ []) 8 (omega arith)
      refl (omega arith)
