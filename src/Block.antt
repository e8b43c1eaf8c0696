-- ===== src/Block.antt =====
-- devices/block.c: the sector interface of the block devices. A device is named by a number, which
-- stands for its `struct block *`. The drivers behind `ops` and the hardware are the parameter
-- `Driver`; a `none` is the kernel's PANIC or a failed ASSERT.
pub mod RamDisk
use cs162proj.Prelude.{
  ℕ, ◌+◌, ◌%◌, ◌^◌, ◌≡◌, List, Option, some, Bool, ◌&&◌, not, ltb, ◌==◌, if◌then◌else◌, ◌>>◌,
  assert, length, arith,
}

-- BLOCK_SECTOR_SIZE
abbrev pub sector_size : ℕ
sector_size = 512

-- Do the two pairs of a device and a sector number name one sector?
abbrev pub same : ℕ → ℕ → ℕ → ℕ → Bool
same b s b' s' = (s == s') && (b == b')

-- What a driver promises: sectors of 512 bytes, and a read gives what was written last.
pub record Driver : Type 1 where
  pub Dev : Type 0
  pub size : ℕ → ℕ
  pub is_foreign : ℕ → Bool
  pub read : Dev → ℕ → ℕ → List ℕ
  pub write : Dev → ℕ → ℕ → List ℕ → Dev
  pub length-read : (v : Dev) (b s : ℕ) → length (read v b s) ≡ sector_size
  pub read-write :
      (v : Dev) (b s : ℕ) (c : List ℕ) (b' s' : ℕ)
      → length c ≡ sector_size
      → read (write v b s c) b' s' ≡ (if same b s b' s' then c else read v b' s')

module _ (d : Driver) where
  open d use {Dev, size, is_foreign, read, write}

  -- What the `struct block`s and the storage behind them hold: the sectors and the two counters of
  -- each device. Its size and type are set once, by `block_register`.
  pub record Disks : Type 0 where
    pub dev : Dev
    pub read_cnt : ℕ → ℕ
    pub write_cnt : ℕ → ℕ

  -- `check_sector`: may the sector be accessed?
  abbrev pub check_sector : ℕ → ℕ → Bool
  check_sector b s = ltb s (size b)

  bump : (ℕ → ℕ) → ℕ → ℕ → ℕ
  bump cnt b b' = if b == b' then (cnt b' + 1) % 2 ^ 64 else cnt b'

  pub block_read : ℕ → ℕ → Disks → Option (Disks × List ℕ)
  block_read b s v = do
    assert (check_sector b s)
    some (record v { read_cnt = bump v.read_cnt b }, read v.dev b s)

  pub block_write : ℕ → ℕ → List ℕ → Disks → Option Disks
  block_write b s c v = do
    assert (check_sector b s)
    assert (not (is_foreign b))
    some (record v { dev = write v.dev b s c; write_cnt = bump v.write_cnt b })

  -- A sector that may be read and written.
  abbrev pub IsUsable : ℕ → ℕ → Type 0
  IsUsable b s = (check_sector b s ≡ Bool.true) × (is_foreign b ≡ Bool.false)

  pub block_read-some :
      (b s : ℕ) (v : Disks)
      → check_sector b s ≡ Bool.true
      → (w : Disks) × (block_read b s v ≡ some (w, read v.dev b s)) × (w.dev ≡ v.dev)
  unfolding block_read
  block_read-some b s v u = (record v { read_cnt = bump v.read_cnt b }, rw u, ground arith)

  pub block_write-some :
      (b s : ℕ) (c : List ℕ) (v : Disks)
      → IsUsable b s
      → (w : Disks) × (block_write b s c v ≡ some w) × (w.dev ≡ write v.dev b s c)
  unfolding block_write
  block_write-some b s c v u = (
    record v { dev = write v.dev b s c; write_cnt = bump v.write_cnt b },
    rw (u.0, u.1),
    ground arith,
  )
