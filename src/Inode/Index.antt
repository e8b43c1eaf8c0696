-- ===== src/Inode/Index.antt =====
-- `byte_to_sector` of filesys/inode.c: the four cases of the index against the flat list of a
-- file's sectors.
use cs162proj.Prelude.{
  ℕ, ◌+◌, ◌-◌, ◌*◌, ◌/◌, ◌%◌, ◌<◌, ◌≡◌, refl, sym, ap, subst, ◌∙◌, List, ◌++◌, Option, some, arith,
  length, ltb, lt→ltb, ltb→lt, ltb→le, Bool-cases, inl, inr,
}
use cs162proj.Block.{Driver, sector_size, IsUsable}
use cs162proj.Buffer.{Buffer}
use cs162proj.Buffer.Invariant.{IsValid, view, length-view}
use cs162proj.Buffer.Read.{buffer_read_lem}
use cs162proj.Inode.{
  dir_len, per_sector, InodeDisk, Inode, words, nth, inode_length, read_entry, double_entry,
  sector_at, byte_to_sector_helper, byte_to_sector,
}
use cs162proj.Inode.Blocks.{
  nth-some, nth-left, nth-right, concat_map, nth-concat_map, length-words, take-all,
}

module _ (d : Driver) (fs : ℕ) where
  -- A read does not change what a sector holds.
  pub record Keeps (st st' : Buffer d) : Type 0 where
    pub kept : (b s : ℕ) → view d st' b s ≡ view d st b s
    pub valid : IsValid d st'

  -- The sector numbers that a sector holds.
  abbrev pub table : Buffer d → ℕ → List ℕ
  table st s = words (view d st fs s)

  -- The specification: all sectors of a file in their order.
  abbrev pub flat : Buffer d → InodeDisk → List ℕ
  flat st n =
      n.dir
      ++ (table st n.single_0
          ++ (table st n.single_1 ++ concat_map (table st) (table st n.double_indir)))

  -- The number of sectors that the bytes of the file take.
  abbrev pub used : InodeDisk → ℕ
  used n = (n.file_size + sector_size - 1) / sector_size

  -- The tables that a file of this size needs lie in the device; pointers behind its end are free.
  pub record IsSound (st : Buffer d) (n : InodeDisk) : Type 0 where
    pub full : length n.dir ≡ dir_len
    pub first : dir_len < used n → IsUsable d fs n.single_0
    pub second : dir_len + per_sector < used n → IsUsable d fs n.single_1
    pub double : dir_len + 2 * per_sector < used n → IsUsable d fs n.double_indir
    pub inner :
        (q id : ℕ)
        → dir_len + 2 * per_sector + q * per_sector < used n
        → nth (table st n.double_indir) q ≡ some id
        → IsUsable d fs id

  -- A lookup ends without a failure, at the sector that the list has at the place.
  abbrev pub Finds : Buffer d → List ℕ → ℕ → Option (Buffer d × ℕ) → Type 0
  Finds st l i r =
      (s : ℕ) × (st' : Buffer d) × (nth l i ≡ some s) × (r ≡ some (st', s)) × Keeps st st'

  pub length-table : (st : Buffer d) (s : ℕ) → IsValid d st → length (table st s) ≡ per_sector
  length-table st s v = length-words per_sector (view d st fs s) (length-view d st fs s v)

  read_entry_lem :
      (st : Buffer d) (s i : ℕ)
      → IsValid d st
      → IsUsable d fs s
      → i < per_sector
      → Finds st (table st s) i (read_entry d fs s i st)
  unfolding read_entry
  read_entry_lem st s i v u h =
      let (st', bytes, done, r) = buffer_read_lem d fs s 0 sector_size st v u (omega arith) in
      let whole : bytes ≡ view d st fs s =
        r.result ∙ take-all (view d st fs s) sector_size (length-view d st fs s v) in
      let (w, found) = nth-some (table st s) i (omega (arith, length-table st s v)) in
      (w, st', found, rw (done, whole, found) refl, record { kept = r.kept; valid = r.valid })

  double_entry_lem :
      (st : Buffer d) (n : InodeDisk) (i : ℕ)
      → IsValid d st
      → IsSound st n
      → i < per_sector * per_sector
      → dir_len + 2 * per_sector + i < used n
      → Finds st (concat_map (table st) (table st n.double_indir)) i (double_entry d fs n i st)
  unfolding double_entry
  double_entry_lem st n i v ok h within =
      let (id, st', found, done, k) =
        read_entry_lem st n.double_indir (i / per_sector) v (ok.double (omega arith))
          (omega arith) in
      let u = ok.inner (i / per_sector) id (omega arith) found in
      let (s, st'', found', done', k') =
        read_entry_lem st' id (i % per_sector) k.valid u (omega arith) in
      (
        s,
        st'',
        nth-concat_map (table st) (table st n.double_indir) (i / per_sector) (i % per_sector) i id
              (λ x. length-table st x v) (omega arith) (omega arith) found
            ∙ ap (λ l. nth (words l) (i % per_sector)) (sym (k.kept fs id))
            ∙ found',
        rw (done, done') refl,
        record { kept = λ b x. k'.kept b x ∙ k.kept b x; valid = k'.valid },
      )

  abbrev pub max_sectors : ℕ
  max_sectors = dir_len + 2 * per_sector + per_sector * per_sector

  -- The four cases, each with what is skipped of the list.
  sector_at-Finds :
      (st : Buffer d) (n : InodeDisk) (i : ℕ)
      → IsValid d st
      → IsSound st n
      → i < max_sectors
      → i < used n
      → Finds st (flat st n) i (sector_at d fs n i st)
  unfolding sector_at
  sector_at-Finds st n i v ok h within =
      let t0 = table st n.single_0 in
      let t1 = table st n.single_1 in
      let t2 = concat_map (table st) (table st n.double_indir) in
      let w0 = length-table st n.single_0 v in
      let w1 = length-table st n.single_1 v in
      let in_dir = ok.full in
      elim (Bool-cases (ltb i dir_len)) [
        | inl a ↦
            let near = ltb→lt i dir_len a in
            let (s, found) = nth-some n.dir i (omega arith) in
            (
              s,
              st,
              nth-left n.dir (t0 ++ (t1 ++ t2)) i (omega arith) ∙ found,
              rw (a, found) refl,
              record { kept = λ b x. refl; valid = v },
            )
        | inr a ↦
            let far = ltb→le i dir_len a in
            elim (Bool-cases (ltb i (dir_len + per_sector))) [
              | inl b ↦
                  let near = ltb→lt i (dir_len + per_sector) b in
                  let (s, st', found, done, k) =
                    read_entry_lem st n.single_0 (i - dir_len) v (ok.first (omega arith))
                      (omega arith) in
                  (
                    s,
                    st',
                    nth-right n.dir (t0 ++ (t1 ++ t2)) (i - dir_len) i (omega arith)
                        ∙ nth-left t0 (t1 ++ t2) (i - dir_len) (omega arith)
                        ∙ found,
                    rw (a, b) done,
                    k,
                  )
              | inr b ↦
                  let far' = ltb→le i (dir_len + per_sector) b in
                  elim (Bool-cases (ltb i (dir_len + 2 * per_sector))) [
                    | inl c ↦
                        let near = ltb→lt i (dir_len + 2 * per_sector) c in
                        let j = i - dir_len - per_sector in
                        let (s, st', found, done, k) =
                          read_entry_lem st n.single_1 j v (ok.second (omega arith))
                            (omega arith) in
                        (
                          s,
                          st',
                          nth-right n.dir (t0 ++ (t1 ++ t2)) (i - dir_len) i (omega arith)
                              ∙ nth-right t0 (t1 ++ t2) j (i - dir_len) (omega arith)
                              ∙ nth-left t1 t2 j (omega arith)
                              ∙ found,
                          rw (a, b, c) done,
                          k,
                        )
                    | inr c ↦
                        let far'' = ltb→le i (dir_len + 2 * per_sector) c in
                        let j = i - dir_len - per_sector in
                        let m = i - (dir_len + 2 * per_sector) in
                        let (s, st', found, done, k) =
                          double_entry_lem st n m v ok (omega arith) (omega arith) in
                        (
                          s,
                          st',
                          nth-right n.dir (t0 ++ (t1 ++ t2)) (i - dir_len) i (omega arith)
                              ∙ nth-right t0 (t1 ++ t2) j (i - dir_len) (omega arith)
                              ∙ nth-right t1 t2 m j (omega arith)
                              ∙ found,
                          rw (a, b, c) done,
                          k,
                        )
                  ]
            ]
      ]

  -- For a position in the file that the index can express, with a valid cache and the tables that a
  -- file of its size needs in the device, `byte_to_sector` finds the sector of the flat list that holds the
  -- byte, without an access out of bounds and without a change of any sector.
  pub byte_to_sector_lem :
      (st : Buffer d) (inode : Inode) (pos : ℕ)
      → IsValid d st
      → IsSound st inode.disk_inode
      → pos < inode_length inode
      → pos < max_sectors * sector_size
      → Finds st (flat st inode.disk_inode) (pos / sector_size) (byte_to_sector d fs inode pos st)
  unfolding byte_to_sector byte_to_sector_helper inode_length
  byte_to_sector_lem st inode pos v ok h small =
      subst (Finds st (flat st inode.disk_inode) (pos / sector_size))
        (rw (lt→ltb pos (inode_length inode) h) refl)
        (sector_at-Finds st inode.disk_inode (pos / sector_size) v ok (omega arith) (omega arith))
