-- ===== src/File.antt =====
-- filesys/file.c: an open file. The inode that the file points to stands beside it, since other
-- files can share it. A `none` is a failed ASSERT. Writes, opening and closing are not modelled.
pub mod Position
mod Tests
use cs162proj.Prelude.{ℕ, ◌+◌, List, Option, some, Bool, true, false, ◌>>=◌, length}
use cs162proj.Block.{Driver}
use cs162proj.Buffer.{Buffer}
use cs162proj.Inode.{Inode, inode_read_at, inode_length, inode_deny_write, inode_allow_write}

pub record File : Type 0 where
  pub pos : ℕ
  pub deny_write : Bool

-- Nothing happens if the file denies writes already.
pub file_deny_write : File → Inode → Option (File × Inode)
file_deny_write file inode = elim file.deny_write [
  | true ↦ some (file, inode)
  | false ↦ do inode' ← inode_deny_write inode; some (record file { deny_write = true }, inode')
]

pub file_allow_write : File → Inode → Option (File × Inode)
file_allow_write file inode = elim file.deny_write [
  | false ↦ some (file, inode)
  | true ↦ do inode' ← inode_allow_write inode; some (record file { deny_write = false }, inode')
]

pub file_length : Inode → ℕ
file_length inode = inode_length inode

-- The new position is not negative.
pub file_seek : File → ℕ → File
file_seek file new_pos = record file { pos = new_pos }

pub file_tell : File → ℕ
file_tell file = file.pos

module _ (d : Driver) (fs : ℕ) where
  -- The result is the number of bytes, which is the length of what is read.
  pub file_read : File → Inode → ℕ → Buffer d → Option (Buffer d × File × List ℕ)
  file_read file inode size st = do
    (st', bytes) ← inode_read_at d fs inode size file.pos st
    some (st', record file { pos = file.pos + length bytes }, bytes)

  pub file_read_at : Inode → ℕ → ℕ → Buffer d → Option (Buffer d × List ℕ)
  file_read_at inode size file_ofs st = inode_read_at d fs inode size file_ofs st
