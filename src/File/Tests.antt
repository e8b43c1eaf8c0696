-- ===== src/File/Tests.antt =====
-- The theorems on filesys/file.c at a file on memory.
use cs162proj.Prelude.{ℕ, ◌≡◌, refl, List, ◌++◌, some, false, arith}
use cs162proj.Block.RamDisk.{ram}
use cs162proj.Buffer.{Buffer}
use cs162proj.Inode.{Inode}
use cs162proj.Inode.Sample.{start, notes, start-IsValid, notes-IsFile}
use cs162proj.File.{File, file_deny_write, file_allow_write, file_read}
use cs162proj.File.Position.{deny_allow_lem, file_read_twice}

abbrev opened : File
opened = record { pos = 62900; deny_write = false }

deny_allow_example :
    (file' : File) × (inode' : Inode) × (file_deny_write opened notes ≡ some (file', inode'))
    × (inode'.deny_write_cnt ≡ 1)
    × (file_deny_write file' inode' ≡ some (file', inode'))
    × (file_allow_write file' inode' ≡ some (opened, notes))
deny_allow_example = deny_allow_lem opened notes refl (omega arith)

file_read_twice_example :
    (st1 : Buffer ram) × (st2 : Buffer ram) × (st3 : Buffer ram) × (file1 : File) × (file2 : File)
    × (x : List ℕ) × (y : List ℕ) × (file_read ram 0 opened notes 100 start ≡ some (st1, file1, x))
    × (file_read ram 0 file1 notes 1000 st1 ≡ some (st2, file2, y))
    × (file_read ram 0 opened notes 1100 start ≡ some (st3, file2, x ++ y))
file_read_twice_example =
    file_read_twice ram 0 start opened notes 100 1000 start-IsValid notes-IsFile
