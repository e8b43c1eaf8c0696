-- ===== src/Inode.antt =====
-- filesys/inode.c: the index of a file, from a byte's position to the sector that holds it. A
-- `none` is a PANIC, a failed ASSERT, or an access behind the end of an array. The memory that
-- `calloc` gives is taken to be there.
pub mod Blocks
pub mod Index
pub mod Reading
pub mod Sample
mod Tests
use cs162proj.Prelude.{
  ℕ, zero, suc, ◌+◌, ◌-◌, ◌*◌, ◌/◌, ◌%◌, ◌^◌, List, [], ◌∷◌, Option, none, some, Bool, true, false,
  ltb, leb, min, ◌++◌, if◌then◌else◌, ◌>>=◌, ◌>>◌, assert,
}
use cs162proj.Block.{Driver, sector_size}
use cs162proj.Buffer.{Buffer, buffer_read}

-- DIR_LEN, and BLOCK_SECTOR_SIZE / 4.
abbrev pub dir_len : ℕ
dir_len = 123

abbrev pub per_sector : ℕ
per_sector = 128

-- The result -1 as a `block_sector_t`.
abbrev pub no_sector : ℕ
no_sector = 2 ^ 32 - 1

-- The list element and the locks are left out of `Inode`. `single_0` and `single_1` are `single_indir[0]` and `single_indir[1]`.
pub record InodeDisk : Type 0 where
  pub file_size : ℕ
  pub magic : ℕ
  pub dir : List ℕ
  pub single_0 : ℕ
  pub single_1 : ℕ
  pub double_indir : ℕ

pub record Inode : Type 0 where
  pub sector : ℕ
  pub open_cnt : ℕ
  pub removed : Bool
  pub deny_write_cnt : ℕ
  pub disk_inode : InodeDisk

-- A sector's bytes as an array of `block_sector_t`.
abbrev pub words : List ℕ → List ℕ
words [] = []
words (a ∷ []) = []
words (a ∷ b ∷ []) = []
words (a ∷ b ∷ c ∷ []) = []
words (a ∷ b ∷ c ∷ e ∷ bytes) = (a + 256 * (b + 256 * (c + 256 * e))) ∷ words bytes

abbrev pub nth {ℓ} : {A : Type ℓ} → List A → ℕ → Option A
nth [] i = none
nth (x ∷ xs) zero = some x
nth (x ∷ xs) (suc i) = nth xs i

-- `inode_reopen` of an inode that is not NULL, and `inode_get_inumber`.
pub inode_reopen : Inode → Inode
inode_reopen inode = record inode { open_cnt = inode.open_cnt + 1 }

pub inode_get_inumber : Inode → ℕ
inode_get_inumber inode = inode.sector

pub inode_remove : Inode → Inode
inode_remove inode = record inode { removed = true }

unfoldable pub inode_length : Inode → ℕ
inode_length inode = inode.disk_inode.file_size

unfoldable pub inode_deny_write : Inode → Option Inode
inode_deny_write inode = do
  assert (leb (inode.deny_write_cnt + 1) inode.open_cnt)
  some (record inode { deny_write_cnt = inode.deny_write_cnt + 1 })

unfoldable pub inode_allow_write : Inode → Option Inode
inode_allow_write inode = do
  assert (ltb 0 inode.deny_write_cnt)
  assert (leb inode.deny_write_cnt inode.open_cnt)
  some (record inode { deny_write_cnt = inode.deny_write_cnt - 1 })

-- `fs` is the device of the file system.
module _ (d : Driver) (fs : ℕ) where
  -- One entry of a sector that holds sector numbers.
  pub read_entry : ℕ → ℕ → Buffer d → Option (Buffer d × ℕ)
  read_entry sector i st = do
    (st', bytes) ← buffer_read d fs sector 0 sector_size st
    res ← nth (words bytes) i
    some (st', res)

  -- The two levels behind `double_indir`; the index counts from their start.
  pub double_entry : InodeDisk → ℕ → Buffer d → Option (Buffer d × ℕ)
  double_entry disk_inode index st = do
    (st', id_2level) ← read_entry disk_inode.double_indir (index / per_sector) st
    read_entry id_2level (index % per_sector) st'

  -- The four cases of the index.
  pub sector_at : InodeDisk → ℕ → Buffer d → Option (Buffer d × ℕ)
  sector_at disk_inode index st =
      if ltb index dir_len
      then (nth disk_inode.dir index >>= λ res. some (st, res))
      else if ltb index (dir_len + per_sector)
      then read_entry disk_inode.single_0 (index - dir_len) st
      else if ltb index (dir_len + 2 * per_sector)
      then read_entry disk_inode.single_1 (index - dir_len - per_sector) st
      else double_entry disk_inode (index - (dir_len + 2 * per_sector)) st

  pub byte_to_sector_helper : Inode → ℕ → ℕ → Buffer d → Option (Buffer d × ℕ)
  byte_to_sector_helper inode pos len st =
      if ltb pos len
      then sector_at inode.disk_inode (pos / sector_size) st
      else some (st, no_sector)

  pub byte_to_sector : Inode → ℕ → Buffer d → Option (Buffer d × ℕ)
  byte_to_sector inode pos st = byte_to_sector_helper inode pos (inode_length inode) st

  -- The loop of `inode_read_at`; the bytes that it copies are the result.
  unfoldable pub read_loop : ℕ → Inode → ℕ → ℕ → ℕ → Buffer d → Option (Buffer d × List ℕ)
  read_loop zero inode inode_len size offset st = none
  read_loop (suc fuel) inode inode_len size offset st = elim (ltb 0 size) [
    | false ↦ some (st, [])
    | true ↦ do
      (st1, sector_idx) ← byte_to_sector inode offset st
      let sector_ofs = offset % sector_size
      let min_left = min (inode_len - offset) (sector_size - sector_ofs)
      let chunk_size = min size min_left
      elim (ltb 0 chunk_size) [
        | false ↦ some (st1, [])
        | true ↦ do
          (st2, bytes) ← buffer_read d fs sector_idx sector_ofs chunk_size st1
          (st3, rest) ← read_loop fuel inode inode_len (size - chunk_size) (offset + chunk_size) st2
          some (st3, bytes ++ rest)
      ]
  ]

  -- `size` and `offset` are not negative. Each round but the last copies a byte at least.
  pub inode_read_at : Inode → ℕ → ℕ → Buffer d → Option (Buffer d × List ℕ)
  inode_read_at inode size offset st =
      read_loop (suc size) inode (inode_length inode) size offset st
