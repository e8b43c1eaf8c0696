-- ===== src/Inode/Tests.antt =====
-- The theorems on filesys/inode.c at a file on memory.
use cs162proj.Prelude.{◌-◌, ◌/◌, arith, bytes_at, min}
use cs162proj.Block.{sector_size}
use cs162proj.Block.RamDisk.{ram}
use cs162proj.Inode.{byte_to_sector, inode_length, inode_read_at}
use cs162proj.Inode.Index.{flat, Finds, byte_to_sector_lem}
use cs162proj.Inode.Reading.{content, Gives, inode_read_at_lem}
use cs162proj.Inode.Sample.{start, notes, start-IsValid, notes-IsFile}

-- Byte 63000 is behind the direct sectors.
byte_to_sector_example :
    Finds ram 0 start
      (flat ram 0 start notes.disk_inode)
      (63000 / sector_size)
      (byte_to_sector ram 0 notes 63000 start)
unfolding inode_length
byte_to_sector_example =
    byte_to_sector_lem ram 0 start notes 63000 start-IsValid notes-IsFile.sound (omega arith)
      (omega arith)

-- A read from the last direct sector into the first of the table.
inode_read_at_example :
    Gives ram 0 start
      (bytes_at (content ram 0 start notes.disk_inode) 62900 (min 600 (inode_length notes - 62900)))
      (inode_read_at ram 0 notes 600 62900 start)
inode_read_at_example = inode_read_at_lem ram 0 start notes 600 62900 start-IsValid notes-IsFile
