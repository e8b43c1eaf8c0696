-- ===== src/Buffer/Invariant.antt =====
-- What is always true of the cache in filesys/buffer.c, what it stands for, and that taking an
-- entry over for another sector loses nothing.
use cs162proj.Prelude.{
  arith, ℕ, ◌≡◌, List, [], ◌∷◌, ◌++◌, append-nil, none, some, true, false, ◌&&◌, if◌then◌else◌,
  length, All, Bool-cases, inl, inr, pop_back, pop_back-some, ◌+◌,
}
use cs162proj.Block.{sector_size, Driver, IsUsable}
use cs162proj.Buffer.{SectorCache, Buffer, cache_size, matches}
use cs162proj.Buffer.Entries.{
  find, or_else, Distinct, ValidFirst, length-middle, All-middle, ValidFirst-middle,
  Distinct-middle, find-middle,
}

module _ (d : Driver) where
  open d use {Dev, read, write, length-read, read-write}

  -- Its content fills a sector, a valid entry's sector exists, and a clean one agrees with it.
  pub record IsEntry (v : Dev) (e : SectorCache) : Type 0 where
    pub full : length e.content ≡ sector_size
    pub usable : e.valid ≡ true → IsUsable d e.block_id e.sector_id
    pub clean : e.valid ≡ true → e.dirty ≡ false → e.content ≡ read v e.block_id e.sector_id

  pub record IsCache (v : Dev) (es : List SectorCache) : Type 0 where
    pub entries : All (IsEntry v) es
    pub distinct : Distinct es
    pub valid_first : ValidFirst es

  pub record IsValid (st : Buffer d) : Type 0 where
    pub count : length st.open_sectors ≡ cache_size
    pub cache : IsCache st.disks.dev st.open_sectors

  -- The content of a sector as a reader sees it.
  abbrev pub seen : List SectorCache → Dev → ℕ → ℕ → List ℕ
  seen es v b s = or_else (find b s es) (read v b s)

  abbrev pub view : Buffer d → ℕ → ℕ → List ℕ
  view st b s = seen st.open_sectors st.disks.dev b s

  length-seen :
      (es : List SectorCache) (v : Dev) (b s : ℕ)
      → All (IsEntry v) es
      → length (seen es v b s) ≡ sector_size
  length-seen [] v b s h = length-read v b s
  length-seen (e ∷ es) v b s h = elim (Bool-cases (e.valid && matches b s e)) [
    | inl m ↦ rw m h.0.full
    | inr m ↦ rw m (length-seen es v b s h.1)
  ]

  pub length-view : (st : Buffer d) (b s : ℕ) → IsValid st → length (view st b s) ≡ sector_size
  length-view st b s h = length-seen st.open_sectors st.disks.dev b s h.cache.entries

  -- One entry of a list and the others.
  pub record Taken (v : Dev) (es : List SectorCache) (e : SectorCache) (others : List SectorCache)
      : Type 0 where
    pub count : length es ≡ length others + 1
    pub entry : IsEntry v e
    pub rest : IsCache v others
    pub own : e.valid ≡ true → find e.block_id e.sector_id others ≡ none
    pub held :
        (b s : ℕ)
        → find b s es ≡ (if e.valid && matches b s e then some e.content else find b s others)

  pub Taken-middle :
      (v : Dev) (pre : List SectorCache) (e : SectorCache) (post : List SectorCache)
      → IsCache v (pre ++ (e ∷ post))
      → Taken v (pre ++ (e ∷ post)) e (pre ++ post)
  Taken-middle v pre e post h =
      let (entry, entries) = All-middle e post (IsEntry v) pre h.entries in
      let (distinct, own) = Distinct-middle e post pre h.distinct in
      record {
        count = length-middle e post pre;
        entry = entry;
        rest = record {
          entries = entries;
          distinct = distinct;
          valid_first = ValidFirst-middle e post pre h.valid_first;
        };
        own = own;
        held = λ b s. find-middle e post b s pre own;
      }

  -- `list_pop_back` finds an entry, and takes it out.
  pub Taken-back :
      (v : Dev) (x : SectorCache) (es : List SectorCache)
      → IsCache v (x ∷ es)
      → (others : List SectorCache) × (e : SectorCache) × (pop_back (x ∷ es) ≡ some (others, e))
        × (x ∷ es ≡ others ++ (e ∷ []))
        × Taken v (x ∷ es) e others
  Taken-back v x es h =
      let (others, e, popped, split) = pop_back-some x es in
      (
        others,
        e,
        popped,
        split,
        rw split (rw append-nil at (Taken-middle v others e [] (rw split at h))),
      )

  -- The list of 64 entries is never empty.
  pub Taken-last :
      (st : Buffer d)
      → IsValid st
      → (others : List SectorCache) × (e : SectorCache) × (pop_back st.open_sectors
          ≡ some (others, e))
        × (st.open_sectors ≡ others ++ (e ∷ []))
        × Taken st.disks.dev st.open_sectors e others
  Taken-last st h = go st.open_sectors h.count h.cache
    where
      go :
          (es : List SectorCache)
          → length es ≡ cache_size
          → IsCache st.disks.dev es
          → (others : List SectorCache) × (e : SectorCache) × (pop_back es ≡ some (others, e))
            × (es ≡ others ++ (e ∷ []))
            × Taken st.disks.dev es e others
      go [] n c = absurd (omega arith)
      go (x ∷ es) n c = Taken-back st.disks.dev x es c
