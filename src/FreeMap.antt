-- ===== src/FreeMap.antt =====
-- filesys/free-map.c: which sectors of the file system device are in use. The file that keeps the
-- map is reached through `BitmapFile`. A `none` is a PANIC, a failed ASSERT or a null pointer that
-- is followed. `free_map_close` hands the file back and leaves the map and the pointer as they are.
pub mod Allocate
mod Tests
use cs162proj.Prelude.{
  ℕ, List, Option, none, some, Bool, true, false, not, ◌==◌, ◌&&◌, if◌then◌else◌, ◌>>=◌, ◌>>◌,
  assert,
}
use cs162proj.Bitmap.{
  Bitmap, bitmap_error, byte_cnt, bitmap_create, bitmap_mark, bitmap_all, bitmap_set_multiple,
  bitmap_scan_and_flip,
}
use cs162proj.BitmapFile.{WordFile, bitmap_read, bitmap_write}

abbrev pub free_map_sector : ℕ
free_map_sector = 0

abbrev pub root_dir_sector : ℕ
root_dir_sector = 1

module _ (f : WordFile) where
  open f use {World}

  -- The two variables of the module, and the storage behind the file. `file` is false for NULL.
  pub record FreeMap : Type 0 where
    pub map : Bitmap
    pub file : Bool
    pub world : World

  -- `block_size` is the device's; the other arguments are what the two `malloc`s give.
  pub free_map_init : ℕ → Bool → Option (List ℕ) → World → Option FreeMap
  free_map_init block_size got words w = do
    created ← bitmap_create block_size got words
    m ← created
    some (record {
      map = bitmap_mark (bitmap_mark m free_map_sector) root_dir_sector;
      file = false;
      world = w;
    })

  -- The file could not be written: the bits are given back.
  pub roll_back : FreeMap → ℕ → ℕ → Option (FreeMap × Option ℕ)
  roll_back st sector cnt = do
    m ← bitmap_set_multiple st.map sector cnt false
    some (record st { map = m }, none)

  -- The result is the first sector, or `none` for `false`.
  pub free_map_allocate : FreeMap → ℕ → Option (FreeMap × Option ℕ)
  free_map_allocate st cnt = do
    (m, sector) ← bitmap_scan_and_flip st.map 0 cnt false
    let kept : FreeMap = record st { map = m }
    let (w, written) = bitmap_write f m st.world
    let saved : FreeMap = record st { map = m; world = w }
    if sector == bitmap_error
        then some (kept, none)
        else if not st.file
        then some (kept, some sector)
        else if written
        then some (saved, some sector)
        else roll_back saved sector cnt

  pub free_map_release : FreeMap → ℕ → ℕ → Option FreeMap
  free_map_release st sector cnt = do
    used ← bitmap_all st.map sector cnt
    assert used
    m ← bitmap_set_multiple st.map sector cnt false
    assert st.file
    some (record st { map = m; world = (bitmap_write f m st.world).0 })

  -- `opened` tells whether `file_open (inode_open (FREE_MAP_SECTOR))` succeeds.
  pub free_map_open : Bool → FreeMap → Option FreeMap
  free_map_open opened st = do
    assert opened
    let (m, success) = bitmap_read f st.map st.world
    assert success
    some (record st { map = m; file = true })

  -- `inode_create` stands for the call for the sector of the map, which allocates the sectors of the
  -- file in the map; its Boolean is the result.
  pub free_map_create : (FreeMap → FreeMap × Bool) → Bool → FreeMap → Option FreeMap
  free_map_create inode_create opened st = do
    let (st', created) = inode_create st
    assert created
    assert opened
    let (w, success) = bitmap_write f st'.map st'.world
    assert success
    some (record st' { file = true; world = w })
