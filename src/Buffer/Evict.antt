-- ===== src/Buffer/Evict.antt =====
-- filesys/buffer.c at a miss: the entry that is taken over is written back if it is dirty.
use cs162proj.Prelude.{
  ℕ, ◌≡◌, ◌∙◌, List, [], ◌∷◌, none, some, true, false, ◌&&◌, if◌then◌else◌, All, arith, Bool-cases,
  inl, inr,
}
use cs162proj.Block.{Driver, Disks, block_write-some}
use cs162proj.Buffer.{SectorCache, matches, write_back}
use cs162proj.Buffer.Entries.{find}
use cs162proj.Buffer.Invariant.{IsEntry, IsCache, Taken, seen}

module _ (d : Driver) where
  open d use {Dev, read, write, read-write}

  -- What `write_back` leaves on the device.
  pub record WrittenBack (e : SectorCache) (v w : Disks d) : Type 0 where
    pub reads :
        (b s : ℕ)
        → read w.dev b s
          ≡ (if (e.dirty && e.valid) && matches b s e then e.content else read v.dev b s)

  pub write_back-WrittenBack :
      (e : SectorCache) (v : Disks d)
      → IsEntry d v.dev e
      → (w : Disks d) × (write_back d e v ≡ some w) × WrittenBack e v w
  unfolding write_back
  write_back-WrittenBack e v h = elim (Bool-cases (e.dirty && e.valid)) [
    | inr off ↦ (v, rw off, record { reads = λ b s. rw off })
    | inl on ↦
        let (w, done, at) =
          block_write-some d e.block_id e.sector_id e.content v (h.usable (ground arith)) in
        (
          w,
          rw on done,
          record {
            reads = λ b s.
                rw (on, at)
                  (read-write v.dev e.block_id e.sector_id e.content b s h.full ∙ ground arith);
          },
        )
  ]

  -- An entry that holds another sector does not notice.
  IsEntry-WrittenBack :
      (e x : SectorCache) (v w : Disks d)
      → WrittenBack e v w
      → (x.valid && (e.valid && matches e.block_id e.sector_id x)) ≡ false
      → IsEntry d v.dev x
      → IsEntry d w.dev x
  IsEntry-WrittenBack e x v w back apart h = record {
    full = h.full;
    usable = h.usable;
    clean = λ on fresh. ground (arith, apart, h.clean on fresh, back.reads x.block_id x.sector_id);
  }

  All-WrittenBack :
      (e : SectorCache) (others : List SectorCache) (v w : Disks d)
      → WrittenBack e v w
      → (e.valid ≡ true → find e.block_id e.sector_id others ≡ none)
      → All (IsEntry d v.dev) others
      → All (IsEntry d w.dev) others
  All-WrittenBack e [] v w back own h = h
  All-WrittenBack e (x ∷ others) v w back own h = (
    IsEntry-WrittenBack e x v w back (ground arith) h.0,
    All-WrittenBack e others v w back (ground arith) h.1,
  )

  -- What remains of the cache stands for the same sectors as before.
  pub record Evicted (es : List SectorCache) (v : Disks d) (e : SectorCache)
      (others : List SectorCache) (w : Disks d) : Type 0 where
    pub back : write_back d e v ≡ some w
    pub cache : IsCache d w.dev others
    pub seen_same : (b s : ℕ) → seen d others w.dev b s ≡ seen d es v.dev b s

  pub evict_lem :
      (es others : List SectorCache) (v : Disks d) (e : SectorCache)
      → Taken d v.dev es e others
      → (w : Disks d) × Evicted es v e others w
  evict_lem es others v e t =
      let (w, done, back) = write_back-WrittenBack e v t.entry in
      (
        w,
        record {
          back = done;
          cache = record {
            entries = All-WrittenBack e others v w back t.own t.rest.entries;
            distinct = t.rest.distinct;
            valid_first = t.rest.valid_first;
          };
          seen_same = λ b s. ground (arith, t.held b s, back.reads b s, t.own, t.entry.clean);
        },
      )
