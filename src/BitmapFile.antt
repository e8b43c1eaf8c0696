-- ===== src/BitmapFile.antt =====
-- `bitmap_read` and `bitmap_write` of lib/kernel/bitmap.c: a bitmap in a file. The file is reached
-- through filesys/file.c, which is taken by its interface here.
pub mod Reload
use Prim.Native.Nat.{bit_and}
use cs162proj.Prelude.{
  ℕ, ◌+◌, ◌-◌, ◌/◌, ◌≡◌, List, Bool, true, ◌&&◌, ◌==◌, ltb, if◌then◌else◌, get_or, set, arith,
  length,
}
use cs162proj.Bitmap.{Bitmap, byte_cnt, elem_cnt, last_mask, bitmap_size}

-- The calls of file.c on a file that holds words: `file_write_at` and `file_read_at` at offset 0, with
-- the size in bytes. A read is given the buffer, and returns it as it is afterwards. Nothing is taken
-- for granted of what they do.
pub record WordFile : Type 1 where
  pub World : Type 0
  pub write_at : List ℕ → ℕ → World → World × ℕ
  pub read_at : List ℕ → ℕ → World → List ℕ × ℕ

module _ (f : WordFile) where
  open f use {World, write_at, read_at}

  -- Whether all bytes were written.
  unfoldable pub bitmap_write : Bitmap → World → World × Bool
  bitmap_write b w =
      let size = byte_cnt b.bit_cnt in let (w', n) = write_at b.bits size w in (w', n == size)

  -- The bits behind the last one are cleared, also after a short read.
  unfoldable pub bitmap_read : Bitmap → World → Bitmap × Bool
  bitmap_read b w =
      let size = byte_cnt b.bit_cnt in
      let (words, n) = read_at b.bits size w in
      let last = elem_cnt b.bit_cnt - 1 in
      if ltb 0 b.bit_cnt
      then (
        record b { bits = set words last (bit_and (get_or words last 0) (last_mask b)) },
        n == size,
      )
      else (b, true)
