-- ===== src/Directory.antt =====
-- filesys/directory.c: looking a name up in a directory, over inode.c and the buffer cache. A `none`
-- is a failure of what is below, a name that is not terminated, or a loop that has run out of fuel:
-- each round takes one from it.
pub mod Lookup
mod Tests
use cs162proj.Prelude.{
  ℕ, zero, suc, ◌+◌, List, [], ◌∷◌, Option, none, some, Bool, true, false, not, ◌==◌, length,
  get_or, ◌>>=◌, bytes_at,
}
use cs162proj.Block.{Driver}
use cs162proj.Buffer.{Buffer}
use cs162proj.Inode.{Inode, words, inode_read_at}
use cs162proj.Path.{c_string}
use cs162proj.Strings.{Sign, strcmp}

abbrev pub name_max : ℕ
name_max = 14

-- `name` is the array of NAME_MAX + 1 bytes. The lock is never used, and left out.
pub record DirEntry : Type 0 where
  pub inode_sector : ℕ
  pub name : List ℕ
  pub in_use : Bool
  pub is_dir : Bool

pub record Dir : Type 0 where
  pub inode : Inode
  pub pos : ℕ
  pub is_remove : Bool

-- `sizeof (struct dir_entry)`: the 21 bytes before the lock, 3 of padding, and 24 of the lock.
abbrev pub entry_size : ℕ
entry_size = 48

abbrev first_word : List ℕ → ℕ
first_word [] = 0
first_word (w ∷ ws) = w

-- The bytes of an entry as its fields.
pub entry_of : List ℕ → DirEntry
entry_of bytes = record {
  inode_sector = first_word (words bytes);
  name = bytes_at bytes 4 (name_max + 1);
  in_use = not (get_or bytes 19 0 == 0);
  is_dir = not (get_or bytes 20 0 == 0);
}

abbrev pub is_equal : Sign → Bool
is_equal Sign.equal = true
is_equal Sign.below = false
is_equal Sign.above = false

-- `e.in_use && !strcmp (name, e.name)`
unfoldable pub is_named : List ℕ → DirEntry → Option Bool
is_named name e = elim e.in_use [
  | false ↦ some false
  | true ↦ do s ← c_string e.name; some (is_equal (strcmp name s))
]

-- The test of `entry_lookup`.
unfoldable pub is_named_kind : Bool → List ℕ → DirEntry → Option Bool
unfolding is_named
is_named_kind is_dir name e = elim is_dir [
  | true ↦ elim e.is_dir [ true ↦ is_named name e | false ↦ some false ]
  | false ↦ elim e.is_dir [ true ↦ some false | false ↦ is_named name e ]
]

module _ (d : Driver) (fs : ℕ) where
  -- The loop `for (ofs = 0; inode_read_at (...) == sizeof e; ofs += sizeof e)` that stops at the first
  -- entry that passes the test: that entry and its offset.
  unfoldable pub scan :
      (DirEntry → Option Bool)
      → ℕ
      → Inode
      → ℕ
      → Buffer d
      → Option (Buffer d × Option (DirEntry × ℕ))
  scan test zero inode ofs st = none
  scan test (suc fuel) inode ofs st = do
    (st', bytes) ← inode_read_at d fs inode entry_size ofs st
    elim (length bytes == entry_size) [
      | false ↦ some (st', none)
      | true ↦ do
        hit ← test (entry_of bytes)
        elim hit [
          | true ↦ some (st', some (entry_of bytes, ofs))
          | false ↦ scan test fuel inode (ofs + entry_size) st'
        ]
    ]

  pub lookup : ℕ → Dir → List ℕ → Buffer d → Option (Buffer d × Option (DirEntry × ℕ))
  lookup fuel dir name st = scan (is_named name) fuel dir.inode 0 st

  pub entry_lookup : ℕ → Dir → List ℕ → Bool → Buffer d → Option (Buffer d × Option (DirEntry × ℕ))
  entry_lookup fuel dir name is_dir st = scan (is_named_kind is_dir name) fuel dir.inode 0 st
