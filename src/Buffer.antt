-- ===== src/Buffer.antt =====
-- filesys/buffer.c: the write-back cache of 64 sectors. The list `open_sectors` runs from the
-- sector used last to the one used longest ago. Each function but `buffer_clean` holds
-- `list_revise_lock` from its first access to its last, so it is one atomic step of the state;
-- `buffer_clean` is two steps. A `none` is a failed access to a device, or one to bytes behind the
-- sector's own 512, which belong to other entries.
pub mod Entries
pub mod Evict
pub mod Invariant
pub mod Recency
pub mod Empty
pub mod Session
mod Tests
pub mod Read
pub mod Stale
pub mod Flush
pub mod Write
use cs162proj.Prelude.{
  ◌%◌, ◌^◌, leb, ℕ, ◌+◌, List, [], ◌∷◌, ◌++◌, Option, none, some, Bool, true, false, ◌&&◌,
  if◌then◌else◌, ◌>>=◌, replicate, pop_back, memcpy_at, bytes_at,
}
use cs162proj.Block.{sector_size, same, Driver, Disks, block_read, block_write}

abbrev pub cache_size : ℕ
cache_size = 64

-- `struct sector_cache`. `sector_location` points to 512 bytes that only this entry uses: they are
-- the field `content`.
pub record SectorCache : Type 0 where
  pub sector_id : ℕ
  pub block_id : ℕ
  pub content : List ℕ
  pub valid : Bool
  pub dirty : Bool

-- Where the walk from the head of the list ends: at the entry of the sector, at the first entry
-- that is not valid, or at the end; with the entries before it and behind it.
pub data Walk : Type 0 where
  hit : List SectorCache → SectorCache → List SectorCache → Walk
  stop : List SectorCache → SectorCache → List SectorCache → Walk
  finish : Walk

pub past : SectorCache → Walk → Walk
past e (hit pre x post) = hit (e ∷ pre) x post
past e (stop pre x post) = stop (e ∷ pre) x post
past e finish = finish

abbrev pub matches : ℕ → ℕ → SectorCache → Bool
matches b s e = same b s e.block_id e.sector_id

-- The `for` loop of `buffer_read` and `buffer_write`.
pub walk : ℕ → ℕ → List SectorCache → Walk
walk b s [] = finish
walk b s (e ∷ es) =
    if e.valid then (if matches b s e then hit [] e es else past e (walk b s es)) else stop [] e es

-- An entry as `calloc` and the loop of `buffer_init` leave it.
abbrev pub blank : SectorCache
blank = record {
  sector_id = 0;
  block_id = 0;
  content = replicate sector_size 0;
  valid = false;
  dirty = false;
}

module _ (d : Driver) where
  pub record Buffer : Type 0 where
    pub open_sectors : List SectorCache
    pub num_access : ℕ
    pub num_hits : ℕ
    pub disks : Disks d

  -- The entry that a missing sector takes over is written back if it is dirty.
  pub write_back : SectorCache → Disks d → Option (Disks d)
  write_back e v =
      if e.dirty && e.valid then block_write d e.block_id e.sector_id e.content v else some v

  -- The rest of `buffer_read` at a miss, with the entry `e` taken out of the list.
  pub read_miss : ℕ → ℕ → ℕ → ℕ → Buffer → SectorCache → List SectorCache → Option (Buffer × List ℕ)
  read_miss b s offset size st e others = do
    v ← write_back e st.disks
    (w, c) ← block_read d b s v
    let fresh : SectorCache = record {
      sector_id = s;
      block_id = b;
      content = c;
      valid = true;
      dirty = false;
    }
    some (
      record st {
        open_sectors = fresh ∷ others;
        num_access = (st.num_access + 1) % 2 ^ 32;
        disks = w;
      },
      bytes_at c offset size,
    )

  pub buffer_read : ℕ → ℕ → ℕ → ℕ → Buffer → Option (Buffer × List ℕ)
  buffer_read b s offset size st =
      if leb (offset + size) sector_size
      then (elim (walk b s st.open_sectors) [
        | hit pre e post ↦ some (
          record st {
            open_sectors = e ∷ pre ++ post;
            num_access = (st.num_access + 1) % 2 ^ 32;
            num_hits = (st.num_hits + 1) % 2 ^ 32;
          },
          bytes_at e.content offset size,
        )
        | stop pre e post ↦ read_miss b s offset size st e (pre ++ post)
        | finish ↦ do (others, e) ← pop_back st.open_sectors; read_miss b s offset size st e others
      ])
      else none

  -- The rest of `buffer_write` at a miss. The bytes go over what the entry held before.
  pub write_miss : ℕ → ℕ → List ℕ → ℕ → ℕ → Buffer → SectorCache → List SectorCache → Option Buffer
  write_miss b s bytes offset size st e others = do
    v ← write_back e st.disks
    let fresh : SectorCache = record {
      sector_id = s;
      block_id = b;
      content = memcpy_at e.content offset bytes size;
      valid = true;
      dirty = true;
    }
    some (record st {
      open_sectors = fresh ∷ others;
      num_access = (st.num_access + 1) % 2 ^ 32;
      disks = v;
    })

  pub buffer_write : ℕ → ℕ → List ℕ → ℕ → ℕ → Buffer → Option Buffer
  buffer_write b s bytes offset size st =
      if leb (offset + size) sector_size
      then (elim (walk b s st.open_sectors) [
        | hit pre e post ↦ some (record st {
          open_sectors =
              record e {
                content = memcpy_at e.content offset bytes size;
                valid = true;
                dirty = true;
              }
                ∷ pre
              ++ post;
          num_access = (st.num_access + 1) % 2 ^ 32;
          num_hits = (st.num_hits + 1) % 2 ^ 32;
        })
        | stop pre e post ↦ write_miss b s bytes offset size st e (pre ++ post)
        | finish ↦ do
          (others, e) ← pop_back st.open_sectors
          write_miss b s bytes offset size st e others
      ])
      else none

  -- The loop of `buffer_update_disk`.
  pub flush : List SectorCache → Disks d → Option (List SectorCache × Disks d)
  flush [] v = some ([], v)
  flush (e ∷ es) v = elim (e.valid && e.dirty) [
    | true ↦ do
      w ← block_write d e.block_id e.sector_id e.content v
      (es', x) ← flush es w
      some (record e { dirty = false } ∷ es', x)
    | false ↦ do (es', x) ← flush es v; some (e ∷ es', x)
  ]

  pub buffer_update_disk : Buffer → Option Buffer
  unfolding flush
  buffer_update_disk st = do
    (es, v) ← flush st.open_sectors st.disks
    some (record st { open_sectors = es; disks = v })

  pub invalidate : List SectorCache → List SectorCache
  invalidate [] = []
  invalidate (e ∷ es) = record e { valid = false } ∷ invalidate es

  -- The second half of `buffer_clean`.
  pub clean_up : Buffer → Buffer
  unfolding invalidate
  clean_up st = record st {
    open_sectors = invalidate st.open_sectors;
    num_access = 0;
    num_hits = 0;
  }

  -- The lock is free between the two halves; `between` is what other threads do there.
  pub buffer_clean : (Buffer → Option Buffer) → Buffer → Option Buffer
  unfolding clean_up
  buffer_clean between st = do
    flushed ← buffer_update_disk st
    st' ← between flushed
    some (clean_up st')

  -- The counters, and the cache with both reset.
  pub buffer_performance : Buffer → (ℕ × ℕ) × Buffer
  buffer_performance st = ((st.num_access, st.num_hits), record st { num_access = 0; num_hits = 0 })
