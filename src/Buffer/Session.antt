-- ===== src/Buffer/Session.antt =====
-- Histories of calls of filesys/buffer.c, against the sectors as plain memory.
use cs162proj.Prelude.{
  ℕ, ◌+◌, arith, ◌≤◌, ◌≡◌, refl, ap, fun_ext, ◌∙◌, List, [], ◌∷◌, Option, some, ◌>>=◌,
  if◌then◌else◌, length, All, take, bytes_at, memcpy_at_whole, inr,
}
use cs162proj.Block.{Driver, IsUsable, sector_size, same}
use cs162proj.Buffer.{Buffer, buffer_read, buffer_write, buffer_update_disk, buffer_clean}
use cs162proj.Buffer.Invariant.{IsValid, view, length-view}
use cs162proj.Buffer.Read.{buffer_read_lem}
use cs162proj.Buffer.Write.{buffer_write_lem}
use cs162proj.Buffer.Flush.{buffer_update_disk_lem}
use cs162proj.Buffer.Empty.{buffer_clean_alone}

-- A client's call: a read of a part of a sector, a write of a whole sector, the write-back of the
-- cache, and its reset without a call between its two halves.
pub data Call : Type 0 where
  reads : ℕ → ℕ → ℕ → ℕ → Call
  writes : ℕ → ℕ → List ℕ → Call
  syncs : Call
  cleans : Call

abbrev pub Memory : Type 0
Memory = ℕ → ℕ → List ℕ

-- The specification: sectors as memory. A read returns its bytes.
abbrev pub spec : Memory → List Call → List (List ℕ)
spec m [] = []
spec m (reads b s offset size ∷ cs) = bytes_at (m b s) offset size ∷ spec m cs
spec m (writes b s c ∷ cs) =
    spec (λ b' s'. if same b s b' s' then take sector_size c else m b' s') cs
spec m (syncs ∷ cs) = spec m cs
spec m (cleans ∷ cs) = spec m cs

module _ (d : Driver) where
  -- The calls made one after the other, with the bytes of each read.
  pub run : Buffer d → List Call → Option (List (List ℕ))
  run st [] = some []
  run st (reads b s offset size ∷ cs) = do
    (st', bytes) ← buffer_read d b s offset size st
    rest ← run st' cs
    some (bytes ∷ rest)
  run st (writes b s c ∷ cs) = do st' ← buffer_write d b s c 0 sector_size st; run st' cs
  run st (syncs ∷ cs) = do st' ← buffer_update_disk d st; run st' cs
  run st (cleans ∷ cs) = do st' ← buffer_clean d (λ x. some x) st; run st' cs

  -- The call names a usable sector, a read bytes that lie in it, and a write brings a sector's worth of bytes.
  abbrev pub IsProper : Call → Type 0
  IsProper (reads b s offset size) = IsUsable d b s × (offset + size ≤ sector_size)
  IsProper (writes b s c) = IsUsable d b s × (sector_size ≤ length c)
  IsProper syncs = Unit
  IsProper cleans = Unit

  spec_ext :
      (m m' : Memory) (cs : List Call) → ((b s : ℕ) → m b s ≡ m' b s) → spec m cs ≡ spec m' cs
  spec_ext m m' cs e = ap (λ f. spec f cs) (fun_ext (λ b. fun_ext (λ s. e b s)))

  -- From a valid cache, no history of reads inside usable sectors, writes of whole usable sectors,
  -- write-backs, and resets between whose two halves no other call falls, panics or can be told from
  -- the same history on plain memory: caching, eviction and write-back do not show.
  pub run_refines :
      (cs : List Call) (st : Buffer d)
      → IsValid d st
      → All IsProper cs
      → run st cs ≡ some (spec (view d st) cs)
  unfolding run
  run_refines [] st v h = refl
  run_refines (reads b s offset size ∷ cs) st v h =
      let (st', bytes, done, out) = buffer_read_lem d b s offset size st v h.0.0 h.0.1 in
      rw (run, done, run_refines cs st' out.valid h.1, out.result)
        (ap (λ l. some (bytes_at (view d st b s) offset size ∷ l)) (spec_ext _ _ cs out.kept))
  run_refines (writes b s c ∷ cs) st v h =
      let (st', done, out) =
        buffer_write_lem d b s c 0 sector_size st v h.0.0 (omega arith) h.0.1 (inr (refl, refl)) in
      let whole = memcpy_at_whole (view d st b s) c sector_size (length-view d st b s v) h.0.1 in
      rw (run, done, run_refines cs st' out.valid h.1)
        (ap some (
          spec_ext _ _ cs λ b' s'.
            out.seen_as b' s' ∙ ap (λ x. if same b s b' s' then x else view d st b' s') whole))
  run_refines (syncs ∷ cs) st v h =
      let (st', done, out) = buffer_update_disk_lem d st v in
      rw (run, done, run_refines cs st' out.valid h.1) (ap some (spec_ext _ _ cs out.kept))
  run_refines (cleans ∷ cs) st v h =
      let (st', done, kept, valid) = buffer_clean_alone d st v in
      rw (run, done, run_refines cs st' valid h.1) (ap some (spec_ext _ _ cs kept))
