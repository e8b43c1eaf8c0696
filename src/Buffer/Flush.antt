-- ===== src/Buffer/Flush.antt =====
-- `buffer_update_disk` and `buffer_clean` of filesys/buffer.c bring the device up to date.
use cs162proj.Prelude.{
  ℕ, ◌≡◌, refl, ◌∙◌, List, [], ◌∷◌, some, none, true, false, ◌&&◌, if◌then◌else◌, arith, length,
  All, ==_refl, Bool-cases, inl, inr,
}
use cs162proj.Block.{Driver, Disks, IsUsable, same, block_write, block_write-some}
use cs162proj.Buffer.{SectorCache, Buffer, flush, buffer_update_disk}
use cs162proj.Buffer.Entries.{find, Distinct, ValidFirst, IsInvalid}
use cs162proj.Buffer.Invariant.{IsEntry, IsValid, seen, view}

same_refl : (b s : ℕ) → same b s b s ≡ true
same_refl b s = rw (==_refl b, ==_refl s)

-- The list with each valid entry marked clean.
abbrev cleaned : List SectorCache → List SectorCache
cleaned [] = []
cleaned (e ∷ es) = (if e.valid && e.dirty then record e { dirty = false } else e) ∷ cleaned es

find-cleaned : (b s : ℕ) (es : List SectorCache) → find b s (cleaned es) ≡ find b s es
find-cleaned b s [] = refl
find-cleaned b s (e ∷ es) = ground (arith, find-cleaned b s es)

length-cleaned : (es : List SectorCache) → length (cleaned es) ≡ length es
length-cleaned [] = refl
length-cleaned (e ∷ es) = omega (arith, length-cleaned es)

IsInvalid-cleaned : (es : List SectorCache) → All IsInvalid es → All IsInvalid (cleaned es)
IsInvalid-cleaned [] h = h
IsInvalid-cleaned (e ∷ es) h = (ground arith, IsInvalid-cleaned es h.1)

Distinct-cleaned : (es : List SectorCache) → Distinct es → Distinct (cleaned es)
Distinct-cleaned [] h = h
Distinct-cleaned (e ∷ es) h =
    (ground (arith, find-cleaned e.block_id e.sector_id es, h.0), Distinct-cleaned es h.1)

ValidFirst-cleaned : (es : List SectorCache) → ValidFirst es → ValidFirst (cleaned es)
ValidFirst-cleaned [] h = h
ValidFirst-cleaned (e ∷ es) h =
    ((λ off. IsInvalid-cleaned es (h.0 (ground arith))), ValidFirst-cleaned es h.1)

abbrev pub IsClean : SectorCache → Type 0
IsClean e = (e.valid && e.dirty) ≡ false

cleaned-IsClean : (es : List SectorCache) → All IsClean (cleaned es)
cleaned-IsClean [] = tt
cleaned-IsClean (e ∷ es) = (ground arith, cleaned-IsClean es)

module _ (d : Driver) where
  open d use {Dev, read, write, read-write}

  -- What the write-back of a list leaves on the device.
  record Flushed (es : List SectorCache) (v w : Disks d) : Type 0 where
    runs : flush d es v ≡ some (cleaned es, w)
    reads : (b s : ℕ) → read w.dev b s ≡ seen d es v.dev b s

  -- The part of an entry's invariant that does not speak of the device.
  abbrev IsKept : SectorCache → Type 0
  IsKept e = (length e.content ≡ 512) × (e.valid ≡ true → IsUsable d e.block_id e.sector_id)

  -- A clean entry agrees with the device, now or after the entries before it are written.
  abbrev Agrees : Dev → SectorCache → Type 0
  Agrees v e = e.valid ≡ true → e.dirty ≡ false → e.content ≡ read v e.block_id e.sector_id

  Agrees-write :
      (v : Dev) (b s : ℕ) (c : List ℕ) (es : List SectorCache)
      → length c ≡ 512
      → find b s es ≡ none
      → All (Agrees v) es
      → All (Agrees (write v b s c)) es
  Agrees-write v b s c [] n absent h = h
  Agrees-write v b s c (e ∷ es) n absent h = (
    (λ on fresh. ground (arith, absent, h.0 on fresh, read-write v b s c e.block_id e.sector_id n)),
    Agrees-write v b s c es n (ground arith) h.1,
  )

  flush_dirty :
      (e : SectorCache) (es es' : List SectorCache) (v x w : Disks d)
      → (e.valid && e.dirty) ≡ true
      → block_write d e.block_id e.sector_id e.content v ≡ some x
      → flush d es x ≡ some (es', w)
      → flush d (e ∷ es) v ≡ some (record e { dirty = false } ∷ es', w)
  unfolding flush
  flush_dirty e es es' v x w on done rest = rw (flush, on, done, rest)

  flush_clean :
      (e : SectorCache) (es es' : List SectorCache) (v w : Disks d)
      → (e.valid && e.dirty) ≡ false
      → flush d es v ≡ some (es', w)
      → flush d (e ∷ es) v ≡ some (e ∷ es', w)
  unfolding flush
  flush_clean e es es' v w off rest = rw (flush, off, rest)

  flush-Flushed :
      (es : List SectorCache) (v : Disks d)
      → All IsKept es
      → Distinct es
      → All (Agrees v.dev) es
      → (w : Disks d) × Flushed es v w
  unfolding flush
  flush-Flushed [] v kept apart agree = (v, record { runs = refl; reads = λ b s. refl })
  flush-Flushed (e ∷ es) v kept apart agree = elim (Bool-cases (e.valid && e.dirty)) [
    | inr off ↦
        let (w, f) = flush-Flushed es v kept.1 apart.1 agree.1 in
        (
          w,
          record {
            runs = flush_clean e es (cleaned es) v w off f.runs ∙ rw off;
            reads = λ b s. ground (arith, f.reads b s, apart.0, agree.0);
          },
        )
    | inl on ↦
        let (x, done, at) =
          block_write-some d e.block_id e.sector_id e.content v (kept.0.1 (ground arith)) in
        let absent = apart.0 (ground arith) in
        let agree' =
          rw (← at) at
            (Agrees-write v.dev e.block_id e.sector_id e.content es kept.0.0 absent agree.1) in
        let (w, f) = flush-Flushed es x kept.1 apart.1 agree' in
        (
          w,
          record {
            runs = flush_dirty e es (cleaned es) v x w on done f.runs ∙ rw on;
            reads = λ b s. ground (
              arith,
              f.reads b s,
              at,
              absent,
              read-write v.dev e.block_id e.sector_id e.content b s kept.0.0,
            );
          },
        )
  ]

  entries-IsKept : (v : Dev) (es : List SectorCache) → All (IsEntry d v) es → All IsKept es
  entries-IsKept v [] h = h
  entries-IsKept v (e ∷ es) h = ((h.0.full, h.0.usable), entries-IsKept v es h.1)

  entries-Agrees : (v : Dev) (es : List SectorCache) → All (IsEntry d v) es → All (Agrees v) es
  entries-Agrees v [] h = h
  entries-Agrees v (e ∷ es) h = (h.0.clean, entries-Agrees v es h.1)

  -- After a flush each valid entry agrees with the device.
  cleaned-entries :
      (u : Dev) (es : List SectorCache)
      → Distinct es
      → All IsKept es
      → ((b s : ℕ) (c : List ℕ) → find b s es ≡ some c → c ≡ read u b s)
      → All (IsEntry d u) (cleaned es)
  cleaned-entries u [] apart kept agree = tt
  cleaned-entries u (e ∷ es) apart kept agree = (
    record {
      full = ground (arith, kept.0.0);
      usable = ground (arith, kept.0.1);
      clean = λ on fresh.
          ground (arith, agree e.block_id e.sector_id e.content, same_refl e.block_id e.sector_id);
    },
    cleaned-entries u es apart.1 kept.1 (λ b s c h. agree b s c (ground (arith, apart.0, h))),
  )

  -- What a flush has done: the device holds what was seen, and nothing is left to write.
  pub record IsFlushed (st st' : Buffer d) : Type 0 where
    pub on_device : (b s : ℕ) → read st'.disks.dev b s ≡ view d st b s
    pub kept : (b s : ℕ) → view d st' b s ≡ view d st b s
    pub all_clean : All IsClean st'.open_sectors
    pub valid : IsValid d st'

  -- `buffer_update_disk` does not panic; afterwards every sector stands on the device as it was
  -- seen, is seen as before, no valid entry is dirty, and the invariant holds.
  pub buffer_update_disk_lem :
      (st : Buffer d)
      → IsValid d st
      → (st' : Buffer d) × (buffer_update_disk d st ≡ some st') × IsFlushed st st'
  unfolding buffer_update_disk
  buffer_update_disk_lem st h =
      let kept = entries-IsKept st.disks.dev st.open_sectors h.cache.entries in
      let agree = entries-Agrees st.disks.dev st.open_sectors h.cache.entries in
      let (w, f) = flush-Flushed st.open_sectors st.disks kept h.cache.distinct agree in
      (
        record st { open_sectors = cleaned st.open_sectors; disks = w },
        rw f.runs,
        record {
          on_device = f.reads;
          kept = λ b s. ground (arith, find-cleaned b s st.open_sectors, f.reads b s);
          all_clean = cleaned-IsClean st.open_sectors;
          valid = record {
            count = length-cleaned st.open_sectors ∙ h.count;
            cache = record {
              entries =
                  cleaned-entries w.dev st.open_sectors h.cache.distinct kept
                    (λ b s c e. ground (arith, f.reads b s));
              distinct = Distinct-cleaned st.open_sectors h.cache.distinct;
              valid_first = ValidFirst-cleaned st.open_sectors h.cache.valid_first;
            };
          };
        },
      )
