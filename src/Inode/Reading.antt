-- ===== src/Inode/Reading.antt =====
-- `inode_read_at` of filesys/inode.c against the bytes of the file.
use cs162proj.Prelude.{
  ℕ, zero, suc, ◌+◌, ◌-◌, ◌*◌, ◌/◌, ◌%◌, ◌≤◌, ◌<◌, ◌≡◌, refl, sym, ap, subst, fun_ext, ◌∙◌, List,
  [], ◌++◌, Option, some, true, false, arith, length, length-append, bytes_at, min, ltb, lt→ltb,
  ltb→lt, ltb→le, le→ltb, Bool-cases, inl, inr,
}
use cs162proj.Block.{Driver, sector_size, IsUsable}
use cs162proj.Buffer.{Buffer, buffer_read}
use cs162proj.Buffer.Invariant.{IsValid, view, length-view}
use cs162proj.Buffer.Read.{buffer_read_lem}
use cs162proj.Inode.{
  dir_len, nth, InodeDisk, Inode, words, per_sector, inode_length, byte_to_sector,
  byte_to_sector_helper, read_loop, inode_read_at, no_sector,
}
use cs162proj.Inode.Index.{
  Keeps, flat, table, length-table, IsSound, used, max_sectors, byte_to_sector_lem,
}
use cs162proj.Inode.Blocks.{concat_map, length-concat_map, bytes_at-concat_map, bytes_at-append}

module _ (d : Driver) (fs : ℕ) where
  -- The specification: the bytes of all sectors of the file.
  abbrev pub content : Buffer d → InodeDisk → List ℕ
  content st n = concat_map (view d st fs) (flat d fs st n)

  -- A file whose tables and sectors, as far as its size goes, lie in the device, and whose size the
  -- index can express.
  pub record IsFile (st : Buffer d) (n : InodeDisk) : Type 0 where
    pub sound : IsSound d fs st n
    pub sectors : (i s : ℕ) → i < used d fs n → nth (flat d fs st n) i ≡ some s → IsUsable d fs s
    pub fits : n.file_size ≤ max_sectors d fs * sector_size

  view-Keeps : (st st' : Buffer d) → Keeps d fs st st' → view d st' fs ≡ view d st fs
  view-Keeps st st' k = fun_ext (λ s. k.kept fs s)

  -- What a file is does not change with the state of the cache.
  pub IsFile-Keeps :
      (st st' : Buffer d) (n : InodeDisk) → Keeps d fs st st' → IsFile st n → IsFile st' n
  IsFile-Keeps st st' n k f =
      let same = ap (λ (g : ℕ → List ℕ). λ (s : ℕ). words (g s)) (view-Keeps st st' k) in
      record {
        sound = record {
          full = f.sound.full;
          first = f.sound.first;
          second = f.sound.second;
          double = f.sound.double;
          inner =
              subst
                (λ (t : ℕ → List ℕ).
                  (q id : ℕ)
                  → dir_len + 2 * per_sector + q * per_sector < used d fs n
                  → nth (t n.double_indir) q ≡ some id
                  → IsUsable d fs id)
                (sym same) f.sound.inner;
        };
        sectors =
            subst
              (λ (t : ℕ → List ℕ).
                (i s : ℕ)
                → i < used d fs n
                → nth (n.dir ++ (t n.single_0 ++ (t n.single_1 ++ concat_map t (t n.double_indir))))
                    i
                  ≡ some s
                → IsUsable d fs s)
              (sym same) f.sectors;
        fits = f.fits;
      }

  pub content-Keeps :
      (st st' : Buffer d) (n : InodeDisk) → Keeps d fs st st' → content st' n ≡ content st n
  content-Keeps st st' n k =
      ap
        (λ (g : ℕ → List ℕ).
          let t = λ (s : ℕ). words (g s) in
          concat_map g
            (n.dir ++ (t n.single_0 ++ (t n.single_1 ++ concat_map t (t n.double_indir)))))
        (view-Keeps st st' k)

  -- The sectors of a file hold all bytes of its size.
  pub length-content :
      (st : Buffer d) (n : InodeDisk)
      → IsValid d st
      → IsFile st n
      → length (content st n) ≡ max_sectors d fs * sector_size
  length-content st n v f =
      let table = table d fs st in
      let w = λ (x : ℕ). length-table d fs st x v in
      let t2 = concat_map table (table n.double_indir) in
      let inner = length-concat_map table per_sector (table n.double_indir) w in
      let l1 = length-append (table n.single_1) t2 in
      let l0 = length-append (table n.single_0) (table n.single_1 ++ t2) in
      let all = length-append n.dir (table n.single_0 ++ (table n.single_1 ++ t2)) in
      length-concat_map (view d st fs) sector_size (flat d fs st n) (λ x. length-view d st fs x v)
      ∙ omega
          (arith, inner, l1, l0, all, w n.single_0, w n.single_1, w n.double_indir, f.sound.full)

  -- The outcome of a read: the bytes, and a state in which no sector has changed.
  abbrev pub Gives : Buffer d → List ℕ → Option (Buffer d × List ℕ) → Type 0
  Gives st bytes r = (st' : Buffer d) × (r ≡ some (st', bytes)) × Keeps d fs st st'

  -- The number of bytes that a round copies.
  abbrev chunk : ℕ → ℕ → ℕ → ℕ
  chunk len size offset = min size (min (len - offset) (sector_size - offset % sector_size))

  loop_done :
      (fuel len offset : ℕ) (inode : Inode) (st : Buffer d)
      → read_loop d fs (suc fuel) inode len 0 offset st ≡ some (st, [])
  unfolding read_loop
  loop_done fuel len offset inode st = refl

  loop_stop :
      (fuel len size offset s : ℕ) (inode : Inode) (st st1 : Buffer d)
      → ltb 0 size ≡ true
      → byte_to_sector d fs inode offset st ≡ some (st1, s)
      → ltb 0 (chunk len size offset) ≡ false
      → read_loop d fs (suc fuel) inode len size offset st ≡ some (st1, [])
  unfolding read_loop
  loop_stop fuel len size offset s inode st st1 a b c = rw (a, read_loop, b, c) refl

  loop_step :
      (fuel len size offset s : ℕ) (inode : Inode) (st st1 st2 st3 : Buffer d) (bytes rest : List ℕ)
      → ltb 0 size ≡ true
      → byte_to_sector d fs inode offset st ≡ some (st1, s)
      → ltb 0 (chunk len size offset) ≡ true
      → buffer_read d fs s (offset % sector_size) (chunk len size offset) st1 ≡ some (st2, bytes)
      → read_loop d fs fuel inode len
          (size - chunk len size offset)
          (offset + chunk len size offset)
          st2
        ≡ some (st3, rest)
      → read_loop d fs (suc fuel) inode len size offset st ≡ some (st3, bytes ++ rest)
  unfolding read_loop
  loop_step fuel len size offset s inode st st1 st2 st3 bytes rest a b c e f =
      rw (a, read_loop, b, c, e, f) refl

  byte_to_sector-beyond :
      (inode : Inode) (pos : ℕ) (st : Buffer d)
      → inode.disk_inode.file_size ≤ pos
      → byte_to_sector d fs inode pos st ≡ some (st, no_sector)
  unfolding byte_to_sector byte_to_sector_helper inode_length
  byte_to_sector-beyond inode pos st h = rw (le→ltb pos inode.disk_inode.file_size h) refl

  -- A round inside the file copies its chunk of the content.
  read_round :
      (st : Buffer d) (inode : Inode) (k offset : ℕ)
      → IsValid d st
      → IsFile st inode.disk_inode
      → offset < inode.disk_inode.file_size
      → k ≤ sector_size - offset % sector_size
      → (s : ℕ) × (st1 : Buffer d) × (st2 : Buffer d) × (byte_to_sector d fs inode offset st
          ≡ some (st1, s))
        × (buffer_read d fs s (offset % sector_size) k st1
            ≡ some (st2, bytes_at (content st inode.disk_inode) offset k))
        × Keeps d fs st st2
  unfolding inode_length
  read_round st inode k offset v f h small =
      let n = inode.disk_inode in
      let (s, st1, found, done, k1) =
        byte_to_sector_lem d fs st inode offset v f.sound h (omega (arith, f.fits)) in
      let u = f.sectors (offset / sector_size) s (omega arith) found in
      let (st2, bytes, done', r) =
        buffer_read_lem d fs s (offset % sector_size) k st1 k1.valid u (omega arith) in
      let same : bytes ≡ bytes_at (content st n) offset k =
        r.result
        ∙ ap (λ l. bytes_at l (offset % sector_size) k) (k1.kept fs s)
        ∙ sym (
            bytes_at-concat_map (view d st fs) (flat d fs st n) (offset / sector_size)
              (offset % sector_size) k offset s (λ x. length-view d st fs x v) (omega arith)
              (omega arith) found) in
      (
        s,
        st1,
        st2,
        done,
        done' ∙ ap (λ l. some (st2, l)) same,
        record { kept = λ b x. r.kept b x ∙ k1.kept b x; valid = r.valid },
      )

  read_loop_lem :
      (fuel : ℕ) (st : Buffer d) (inode : Inode) (size offset : ℕ)
      → IsValid d st
      → IsFile st inode.disk_inode
      → size < fuel
      → Gives st
          (bytes_at
            (content st inode.disk_inode)
            offset
            (min size (inode.disk_inode.file_size - offset)))
          (read_loop d fs fuel inode inode.disk_inode.file_size size offset st)
  read_loop_lem zero st inode size offset v f h = absurd (omega arith)
  read_loop_lem (suc fuel) st inode zero offset v f h =
      let none_left : min 0 (inode.disk_inode.file_size - offset) ≡ 0 = omega arith in
      (
        st,
        loop_done fuel inode.disk_inode.file_size offset inode st ∙ rw none_left refl,
        record { kept = λ b x. refl; valid = v },
      )
  read_loop_lem (suc fuel) st inode (suc size) offset v f h =
      let n = inode.disk_inode in
      let len = n.file_size in
      let c = chunk len (suc size) offset in
      let some_left = lt→ltb 0 (suc size) (omega arith) in
      elim (Bool-cases (ltb offset len)) [
        | inr past ↦
            let far = ltb→le offset len past in
            let none_left : min (suc size) (len - offset) ≡ 0 = omega arith in
            (
              st,
              loop_stop fuel len (suc size) offset no_sector inode st st some_left
                    (byte_to_sector-beyond inode offset st far) (le→ltb 0 c (omega arith))
                  ∙ rw none_left refl,
              record { kept = λ b x. refl; valid = v },
            )
        | inl near ↦
            let inside = ltb→lt offset len near in
            let (s, st1, st2, found, done, k) =
              read_round st inode c offset v f inside (omega arith) in
            let (st3, rest, k') =
              read_loop_lem fuel st2 inode (suc size - c) (offset + c) k.valid
                (IsFile-Keeps st st2 n k f) (omega arith) in
            (
              st3,
              loop_step fuel len (suc size) offset s inode st st1 st2 st3
                    (bytes_at (content st n) offset c)
                    (bytes_at (content st2 n) (offset + c)
                      (min (suc size - c) (len - (offset + c))))
                    some_left found (lt→ltb 0 c (omega arith)) done rest
                  ∙ ap
                      (λ l. some (
                        st3,
                        bytes_at (content st n) offset c
                            ++ bytes_at l (offset + c) (min (suc size - c) (len - (offset + c))),
                      ))
                      (content-Keeps st st2 n k)
                  ∙ ap (λ l. some (st3, l))
                      (bytes_at-append (content st n) offset c
                        (min (suc size - c) (len - (offset + c))) (min (suc size) (len - offset))
                        (omega arith)),
              record { kept = λ b x. k'.kept b x ∙ k.kept b x; valid = k'.valid },
            )
      ]

  -- With a valid cache, and a file whose sectors and tables lie in the device and whose size the
  -- index can express, `inode_read_at` ends, gives the bytes of the file from the offset on, as many as are asked for
  -- and are there, and changes no sector.
  pub inode_read_at_lem :
      (st : Buffer d) (inode : Inode) (size offset : ℕ)
      → IsValid d st
      → IsFile st inode.disk_inode
      → Gives st
          (bytes_at (content st inode.disk_inode) offset (min size (inode_length inode - offset)))
          (inode_read_at d fs inode size offset st)
  unfolding inode_read_at inode_length
  inode_read_at_lem st inode size offset v f =
      read_loop_lem (suc size) st inode size offset v f (omega arith)
