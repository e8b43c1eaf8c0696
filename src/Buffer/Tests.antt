-- ===== src/Buffer/Tests.antt =====
-- Runs of filesys/buffer.c on memory, and its theorems at concrete states.
use cs162proj.Prelude.{
  Option, inr, ℕ, zero, suc, ◌+◌, ◌≤◌, ◌<◌, ◌≡◌, ◌≢◌, refl, List, [], ◌∷◌, some, none, true, false,
  arith, replicate, All, memcpy_at, inl,
}
use cs162proj.Block.{Disks, sector_size, IsUsable}
use cs162proj.Block.RamDisk.{ram}
use cs162proj.Buffer.{
  SectorCache, Buffer, walk, past, buffer_read, buffer_write, buffer_update_disk, buffer_clean,
}
use cs162proj.Buffer.Entries.{find, Distinct, ValidFirst}
use cs162proj.Buffer.Invariant.{IsEntry, IsValid, view}
use cs162proj.Buffer.Empty.{empty, empty-IsValid, IsCleaned, buffer_clean_lem}
use cs162proj.Buffer.Read.{Reads, buffer_read_lem}
use cs162proj.Buffer.Write.{Writes, buffer_write_lem}
use cs162proj.Buffer.Stale.{buffer_write_stale}
use cs162proj.Buffer.Flush.{IsFlushed, buffer_update_disk_lem}
use cs162proj.Buffer.Session.{Call, reads, writes, syncs, cleans, run, run_refines}

-- Sector `s` holds 512 times the byte `s`.
abbrev numbered : Disks ram
unfolding ram
numbered = record { dev = λ b s i. s; read_cnt = λ b. 0; write_cnt = λ b. 0 }

abbrev start : Buffer ram
unfolding ram
start = empty ram numbered

start-IsValid : IsValid ram start
unfolding ram
start-IsValid = empty-IsValid ram numbered

-- The cache after sectors 63 to 0 were read.
abbrev entry : ℕ → SectorCache
entry s = record {
  sector_id = s;
  block_id = 0;
  content = replicate sector_size s;
  valid = true;
  dirty = false;
}

abbrev entries_from : ℕ → ℕ → List SectorCache
entries_from s zero = []
entries_from s (suc n) = entry s ∷ entries_from (s + 1) n

abbrev full : Buffer ram
unfolding ram
full = record { open_sectors = entries_from 0 64; num_access = 64; num_hits = 0; disks = numbered }

find_below : (n s k : ℕ) → k < s → find 0 k (entries_from s n) ≡ none
find_below zero s k h = refl
find_below (suc n) s k h = ground (arith, find_below n (s + 1) k (omega arith))

Distinct-entries : (n s : ℕ) → Distinct (entries_from s n)
Distinct-entries zero s = tt
Distinct-entries (suc n) s =
    ((λ on. find_below n (s + 1) s (omega arith)), Distinct-entries n (s + 1))

ValidFirst-entries : (n s : ℕ) → ValidFirst (entries_from s n)
ValidFirst-entries zero s = tt
ValidFirst-entries (suc n) s = ((λ off. cc), ValidFirst-entries n (s + 1))

usable : (s : ℕ) → s < 1000 → IsUsable ram 0 s
unfolding ram
usable s h = (ground arith, refl)

IsEntry-entries : (n s : ℕ) → s + n ≤ 1000 → All (IsEntry ram numbered.dev) (entries_from s n)
unfolding ram
IsEntry-entries zero s h = tt
IsEntry-entries (suc n) s h = (
  record { full = refl; usable = λ on. usable s (omega arith); clean = λ on fresh. refl },
  IsEntry-entries n (s + 1) (omega arith),
)

full-IsValid : IsValid ram full
unfolding ram
full-IsValid = record {
  count = refl;
  cache = record {
    entries = IsEntry-entries 64 0 (omega arith);
    distinct = Distinct-entries 64 0;
    valid_first = ValidFirst-entries 64 0;
  };
}

abbrev history : List Call
history =
    reads 0 5 1 2
    ∷ writes 0 5 (replicate 512 9)
    ∷ reads 0 5 510 2
    ∷ syncs
    ∷ cleans
    ∷ reads 0 5 0 1
    ∷ []

history-run : run ram start history ≡ some ((5 ∷ 5 ∷ []) ∷ (9 ∷ 9 ∷ []) ∷ (9 ∷ []) ∷ [])
unfolding ram
history-run = run_refines ram history start start-IsValid (
  (usable 5 (omega arith), omega arith),
  (
    (usable 5 (omega arith), omega arith),
    (
      (usable 5 (omega arith), omega arith),
      (tt, (tt, ((usable 5 (omega arith), omega arith), tt))),
    ),
  ),
)

buffer_read_example : Reads ram 0 70 3 4 full (buffer_read ram 0 70 3 4 full)
buffer_read_example =
    buffer_read_lem ram 0 70 3 4 full full-IsValid (usable 70 (omega arith)) (omega arith)

buffer_write_example :
    Writes ram 0 7
      (1 ∷ 2 ∷ [])
      3
      2
      (view ram full 0 7)
      full
      (buffer_write ram 0 7 (1 ∷ 2 ∷ []) 3 2 full)
unfolding ram
buffer_write_example =
    buffer_write_lem ram 0 7 (1 ∷ 2 ∷ []) 3 2 full full-IsValid (usable 7 (omega arith))
      (omega arith) (omega arith) (inl refl)

-- Sector 70 takes over the entry of sector 63, and byte 0 of it is then 63.
buffer_write_stale_example :
    (st' : Buffer ram) × (buffer_write ram 0 70 (1 ∷ 2 ∷ []) 3 2 full ≡ some st')
    × (view ram st' 0 70 ≢ memcpy_at (view ram full 0 70) 3 (1 ∷ 2 ∷ []) 2)
unfolding walk past ram
buffer_write_stale_example =
    buffer_write_stale ram 0 70 (1 ∷ 2 ∷ []) 3 2 full (entries_from 0 63) (entry 63) 0 full-IsValid
      (usable 70 (omega arith)) refl refl (omega arith) (omega arith) refl (omega arith)

buffer_update_disk_example :
    (st' : Buffer ram) × (buffer_update_disk ram full ≡ some st') × IsFlushed ram full st'
buffer_update_disk_example = buffer_update_disk_lem ram full full-IsValid

-- Another thread writes sector 7 between the two halves.
abbrev other_write : Buffer ram → Option (Buffer ram)
other_write x = buffer_write ram 0 7 (replicate 512 9) 0 512 x

other_write-IsValid :
    (x : Buffer ram) → IsValid ram x → (y : Buffer ram) × (other_write x ≡ some y) × IsValid ram y
other_write-IsValid x v =
    let (y, done, out) =
      buffer_write_lem ram 0 7 (replicate 512 9) 0 512 x v (usable 7 (omega arith)) (omega arith)
        (omega arith) (inr (refl, refl)) in
    (y, done, out.valid)

buffer_clean_example :
    (x : Buffer ram) × (y : Buffer ram) × (st' : Buffer ram) × IsFlushed ram full x
    × (other_write x ≡ some y)
    × (buffer_clean ram other_write full ≡ some st')
    × IsCleaned ram y st'
buffer_clean_example = buffer_clean_lem ram other_write full full-IsValid other_write-IsValid
