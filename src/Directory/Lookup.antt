-- ===== src/Directory/Lookup.antt =====
-- filesys/directory.c: lookups find what the bytes of the directory say, read as a list of entries.
use cs162proj.Prelude.{
  ℕ, zero, suc, ◌+◌, ◌-◌, ◌*◌, ◌/◌, ◌≤◌, ◌<◌, ◌≡◌, ◌∙◌, ap, sym, refl, List, [], ◌∷◌, All, Option,
  none, some, Bool, true, false, ◌&&◌, ◌==◌, not, arith, min, if◌then◌else◌, ◌>>=◌, Bool-cases, inl,
  inr, length, length-take, length-drop, drop, bytes_at, ==_ne,
}
use cs162proj.Block.{Driver}
use cs162proj.Buffer.{Buffer}
use cs162proj.Buffer.Invariant.{IsValid}
use cs162proj.Inode.{Inode, InodeDisk, inode_length, inode_read_at}
use cs162proj.Inode.Index.{Keeps}
use cs162proj.Inode.Reading.{
  IsFile, content, IsFile-Keeps, content-Keeps, inode_read_at_lem, length-content,
}
use cs162proj.Path.{c_string}
use cs162proj.Strings.{strcmp}
use cs162proj.Directory.{
  DirEntry, Dir, entry_size, entry_of, is_equal, is_named, is_named_kind, scan, lookup,
  entry_lookup,
}

-- The `n` entries from the one with index `k` on.
abbrev pub entries_from : ℕ → ℕ → List ℕ → List DirEntry
entries_from k zero bytes = []
entries_from k (suc n) bytes =
    entry_of (bytes_at bytes (entry_size * k) entry_size) ∷ entries_from (k + 1) n bytes

-- The first entry that passes, with its offset; the entries start at index `k`.
abbrev pub first : (DirEntry → Bool) → ℕ → List DirEntry → Option (DirEntry × ℕ)
first b k [] = none
first b k (e ∷ es) = if b e then some (e, entry_size * k) else first b (k + 1) es

-- Whether an entry in use has the name.
abbrev pub named : List ℕ → DirEntry → Bool
named name e = elim e.in_use [
  | false ↦ false
  | true ↦ elim (c_string e.name) [ none ↦ false | some s ↦ is_equal (strcmp name s) ]
]

abbrev pub same_kind : Bool → DirEntry → Bool
same_kind is_dir e = elim is_dir [ true ↦ e.is_dir | false ↦ not e.is_dir ]

-- The name of an entry in use is terminated.
abbrev pub IsNamed : DirEntry → Type 0
IsNamed e = e.in_use ≡ true → (s : List ℕ) × (c_string e.name ≡ some s)

is_named_lem : (name : List ℕ) (e : DirEntry) → IsNamed e → is_named name e ≡ some (named name e)
unfolding is_named
is_named_lem name e v = tested e.in_use (c_string e.name) v
  where
    tested :
        (b : Bool) (o : Option (List ℕ))
        → (b ≡ true → (s : List ℕ) × (o ≡ some s))
        → (elim b [ false ↦ some false | true ↦ do s ← o; some (is_equal (strcmp name s)) ])
          ≡ some (elim b [
            | false ↦ false
            | true ↦ elim o [ none ↦ false | some s ↦ is_equal (strcmp name s) ]
          ])
    tested false o w = refl
    tested true none w = let (s, i) = w refl in absurd (cc)
    tested true (some s) w = refl

is_named_kind_lem :
    (is_dir : Bool) (name : List ℕ) (e : DirEntry)
    → IsNamed e
    → is_named_kind is_dir name e ≡ some (same_kind is_dir e && named name e)
unfolding is_named_kind
is_named_kind_lem is_dir name e v =
    tested is_dir e.is_dir (is_named name e) (named name e) (is_named_lem name e v)
  where
    tested :
        (b k : Bool) (o : Option Bool) (n : Bool)
        → o ≡ some n
        → (elim b [
          | true ↦ elim k [ true ↦ o | false ↦ some false ]
          | false ↦ elim k [ true ↦ some false | false ↦ o ]
        ])
          ≡ some ((elim b [ true ↦ k | false ↦ not k ]) && n)
    tested true true o n h = h
    tested true false o n h = refl
    tested false true o n h = refl
    tested false false o n h = h

length-bytes_at : (c : List ℕ) (o n : ℕ) → o + n ≤ length c → length (bytes_at c o n) ≡ n
length-bytes_at c o n h = omega (arith, length-take n (drop o c), length-drop o c)

module _ (d : Driver) (fs : ℕ) where
  -- The specification: the entries that the bytes of a directory hold; what is left behind the last
  -- whole one is no entry.
  abbrev pub entries : Buffer d → InodeDisk → List DirEntry
  entries st n = entries_from 0 (n.file_size / entry_size) (content d fs st n)

  -- The bytes that a read of one entry gives.
  read_lem :
      (st : Buffer d) (inode : Inode) (k : ℕ) (c : List ℕ)
      → IsValid d st
      → IsFile d fs st inode.disk_inode
      → content d fs st inode.disk_inode ≡ c
      → let n = min entry_size (inode.disk_inode.file_size - entry_size * k) in
        (st' : Buffer d) × (inode_read_at d fs inode entry_size (entry_size * k) st
          ≡ some (st', bytes_at c (entry_size * k) n))
        × (entry_size * k ≤ inode.disk_inode.file_size → length (bytes_at c (entry_size * k) n) ≡ n)
        × Keeps d fs st st'
  unfolding inode_length
  read_lem st inode k c v f same =
      let len = inode.disk_inode.file_size in
      let n = min entry_size (len - entry_size * k) in
      let (st', done, kept) = inode_read_at_lem d fs st inode entry_size (entry_size * k) v f in
      let size = length-content d fs st inode.disk_inode v f in
      (
        st',
        done ∙ ap (λ b. some (st', bytes_at b (entry_size * k) n)) same,
        (λ h.
            length-bytes_at c (entry_size * k) n (omega (arith, h, f.fits, size, ap length same))),
        kept,
      )

  module _ (test : DirEntry → Option Bool) (b : DirEntry → Bool) where
    scan_lem :
        (m k fuel : ℕ) (st : Buffer d) (inode : Inode) (c : List ℕ)
        → IsValid d st
        → IsFile d fs st inode.disk_inode
        → content d fs st inode.disk_inode ≡ c
        → k + m ≡ inode.disk_inode.file_size / entry_size
        → m < fuel
        → All (λ x. test x ≡ some (b x)) (entries_from k m c)
        → (st' : Buffer d) × (scan d fs test fuel inode (entry_size * k) st
            ≡ some (st', first b k (entries_from k m c)))
          × Keeps d fs st st'
    unfolding scan
    scan_lem m k zero st inode c v f same whole enough t = absurd (omega arith)
    scan_lem zero k (suc fuel) st inode c v f same whole enough t =
        let ofs = entry_size * k in
        let n = min entry_size (inode.disk_inode.file_size - ofs) in
        let (st', done, size, kept) = read_lem st inode k c v f same in
        let short : (length (bytes_at c ofs n) == entry_size) ≡ false =
          ==_ne _ _ (λ e. omega (arith, e, whole, size (omega (arith, whole)))) in
        (st', rw (done, ◌>>=◌, short) refl, kept)
    scan_lem (suc m) k (suc fuel) st inode c v f same whole enough t =
        let ofs = entry_size * k in
        let n = min entry_size (inode.disk_inode.file_size - ofs) in
        let (st', done, size, kept) = read_lem st inode k c v f same in
        let full : n ≡ entry_size = omega (arith, whole) in
        let done' : inode_read_at d fs inode entry_size ofs st
            ≡ some (st', bytes_at c ofs entry_size) =
          done ∙ ap (λ j. some (st', bytes_at c ofs j)) full in
        let all : (length (bytes_at c ofs entry_size) == entry_size) ≡ true =
          ap (λ j. j == entry_size)
            (ap (λ j. length (bytes_at c ofs j)) (sym full) ∙ size (omega (arith, whole)) ∙ full) in
        elim (Bool-cases (b (entry_of (bytes_at c ofs entry_size)))) [
          | inl hit ↦ (st', rw (done', ◌>>=◌, all, t.0, hit) refl, kept)
          | inr miss ↦
              let (st2, rest, kept2) =
                scan_lem m (k + 1) fuel st' inode c kept.valid
                  (IsFile-Keeps d fs st st' inode.disk_inode kept f)
                  (content-Keeps d fs st st' inode.disk_inode kept ∙ same) (omega arith)
                  (omega arith) t.1 in
              let behind : ofs + entry_size ≡ entry_size * (k + 1) = omega arith in
              (
                st2,
                rw (done', ◌>>=◌, all, t.0, miss, behind) rest,
                record { kept = λ x y. kept2.kept x y ∙ kept.kept x y; valid = kept2.valid },
              )
        ]

  all_tested :
      (test : DirEntry → Option Bool) (b : DirEntry → Bool) (es : List DirEntry)
      → ((e : DirEntry) → IsNamed e → test e ≡ some (b e))
      → All IsNamed es
      → All (λ x. test x ≡ some (b x)) es
  all_tested test b [] h a = tt
  all_tested test b (e ∷ es) h a = (h e a.0, all_tested test b es h a.1)

  -- A valid cache, a directory file in the device whose names in use are terminated, and one round
  -- more than it has whole entries as fuel: lookup and entry_lookup end, find the first entry in use
  -- with the name (of the kind, for entry_lookup) and its offset among the entries that the bytes of
  -- the file hold, or nothing if there is none, and change no sector.
  pub lookup_lem :
      (st : Buffer d) (dir : Dir) (name : List ℕ) (is_dir : Bool) (fuel : ℕ)
      → IsValid d st
      → IsFile d fs st dir.inode.disk_inode
      → All IsNamed (entries st dir.inode.disk_inode)
      → dir.inode.disk_inode.file_size / entry_size < fuel
      → ((st' : Buffer d) × (lookup d fs fuel dir name st
            ≡ some (st', first (named name) 0 (entries st dir.inode.disk_inode)))
          × Keeps d fs st st')
        × ((st' : Buffer d) × (entry_lookup d fs fuel dir name is_dir st
              ≡ some (
                st',
                first (λ e. same_kind is_dir e && named name e) 0 (entries st dir.inode.disk_inode),
              ))
            × Keeps d fs st st')
  unfolding lookup entry_lookup
  lookup_lem st dir name is_dir fuel v f names enough =
      let node = dir.inode.disk_inode in
      let count = node.file_size / entry_size in
      let c = content d fs st node in
      let es = entries st node in
      let both = λ (e : DirEntry). same_kind is_dir e && named name e in
      (
        scan_lem (is_named name) (named name) count 0 fuel st dir.inode c v f refl (omega arith)
            enough (all_tested (is_named name) (named name) es (is_named_lem name) names),
        scan_lem (is_named_kind is_dir name) both count 0 fuel st dir.inode c v f refl (omega arith)
            enough
            (all_tested (is_named_kind is_dir name) both es (is_named_kind_lem is_dir name) names),
      )
