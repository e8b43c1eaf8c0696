-- ===== src/File/Position.antt =====
-- The position of a file and the writes that it denies, in filesys/file.c.
use cs162proj.Prelude.{
  ℕ, ◌+◌, ◌-◌, ◌<◌, ◌≡◌, refl, sym, ap, ap₂, ◌∙◌, List, ◌++◌, some, true, false, arith, length,
  length-take, length-drop, drop, bytes_at, min, lt→ltb, le→leb,
}
use cs162proj.Block.{Driver}
use cs162proj.Buffer.{Buffer}
use cs162proj.Buffer.Invariant.{IsValid}
use cs162proj.Inode.{Inode, inode_length, inode_deny_write, inode_allow_write}
use cs162proj.Inode.Index.{Keeps}
use cs162proj.Inode.Reading.{
  IsFile, content, IsFile-Keeps, content-Keeps, inode_read_at_lem, length-content,
}
use cs162proj.Inode.Blocks.{bytes_at-append}
use cs162proj.File.{File, file_deny_write, file_allow_write, file_read}

-- A file that does not deny writes yet, on an inode denied by fewer files than have it open, can do
-- so once for itself: a second call changes nothing, and
-- `file_allow_write` gives the file and the inode back as they were.
pub deny_allow_lem :
    (file : File) (inode : Inode)
    → file.deny_write ≡ false
    → inode.deny_write_cnt < inode.open_cnt
    → (file' : File) × (inode' : Inode) × (file_deny_write file inode ≡ some (file', inode'))
      × (inode'.deny_write_cnt ≡ inode.deny_write_cnt + 1)
      × (file_deny_write file' inode' ≡ some (file', inode'))
      × (file_allow_write file' inode' ≡ some (file, inode))
unfolding file_deny_write file_allow_write inode_deny_write inode_allow_write
deny_allow_lem file inode e h =
    let n = inode.deny_write_cnt in
    let may = le→leb (n + 1) inode.open_cnt (omega arith) in
    let back : n + 1 - 1 ≡ n = omega arith in
    (
      record file { deny_write = true },
      record inode { deny_write_cnt = n + 1 },
      rw (e, file_deny_write, may) refl,
      refl,
      refl,
      rw (lt→ltb 0 (n + 1) (omega arith), file_allow_write, may)
          (ap₂ (λ b k. some (record file { deny_write = b }, record inode { deny_write_cnt = k }))
            (sym e) back),
    )

module _ (d : Driver) (fs : ℕ) where
  -- A read from the position gives the next bytes and moves the position behind them.
  file_read_lem :
      (st : Buffer d) (file : File) (inode : Inode) (size : ℕ)
      → IsValid d st
      → IsFile d fs st inode.disk_inode
      → let n = min size (inode.disk_inode.file_size - file.pos) in
        (st' : Buffer d) × (file_read d fs file inode size st
          ≡ some (
            st',
            record file { pos = file.pos + n },
            bytes_at (content d fs st inode.disk_inode) file.pos n,
          ))
        × Keeps d fs st st'
  unfolding file_read inode_length
  file_read_lem st file inode size v f =
      let n = min size (inode.disk_inode.file_size - file.pos) in
      let (st', done, k) = inode_read_at_lem d fs st inode size file.pos v f in
      let bytes = bytes_at (content d fs st inode.disk_inode) file.pos n in
      let count : length bytes ≡ n =
        let whole = length-content d fs st inode.disk_inode v f in
        omega (
          arith,
          length-take n (drop file.pos (content d fs st inode.disk_inode)),
          length-drop file.pos (content d fs st inode.disk_inode),
          whole,
          f.fits,
        ) in
      (
        st',
        rw (done, file_read)
            (ap (λ m. some (st', record file { pos = file.pos + m }, bytes)) count),
        k,
      )

  -- With a valid cache and a file as `inode_read_at` needs it, two reads one after the other end, give
  -- what one read of both sizes gives, and leave the file at the
  -- same position.
  pub file_read_twice :
      (st : Buffer d) (file : File) (inode : Inode) (a b : ℕ)
      → IsValid d st
      → IsFile d fs st inode.disk_inode
      → (st1 : Buffer d) × (st2 : Buffer d) × (st3 : Buffer d) × (file1 : File) × (file2 : File)
        × (x : List ℕ) × (y : List ℕ) × (file_read d fs file inode a st ≡ some (st1, file1, x))
        × (file_read d fs file1 inode b st1 ≡ some (st2, file2, y))
        × (file_read d fs file inode (a + b) st ≡ some (st3, file2, x ++ y))
  file_read_twice st file inode a b v f =
      let node = inode.disk_inode in
      let m = min a (node.file_size - file.pos) in
      let file1 : File = record file { pos = file.pos + m } in
      let n = min b (node.file_size - file1.pos) in
      let (st1, done1, k1) = file_read_lem st file inode a v f in
      let (st2, done2, k2) =
        file_read_lem st1 file1 inode b k1.valid (IsFile-Keeps d fs st st1 node k1 f) in
      let (st3, done3, k3) = file_read_lem st file inode (a + b) v f in
      let total : min (a + b) (node.file_size - file.pos) ≡ m + n = omega arith in
      let place : file.pos + (m + n) ≡ file.pos + m + n = omega arith in
      (
        st1,
        st2,
        st3,
        file1,
        record file { pos = file.pos + m + n },
        bytes_at (content d fs st node) file.pos m,
        bytes_at (content d fs st node) (file.pos + m) n,
        done1,
        done2
            ∙ ap
                (λ c.
                  some (st2, record file { pos = file.pos + m + n }, bytes_at c (file.pos + m) n))
                (content-Keeps d fs st st1 node k1),
        done3
            ∙ ap
                (λ t. some (
                  st3,
                  record file { pos = file.pos + t },
                  bytes_at (content d fs st node) file.pos t,
                ))
                total
            ∙ ap₂ (λ p l. some (st3, record file { pos = p }, l)) place
                (sym (bytes_at-append (content d fs st node) file.pos m n (m + n) refl)),
      )
