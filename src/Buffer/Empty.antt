-- ===== src/Buffer/Empty.antt =====
-- `buffer_clean` of filesys/buffer.c: a cache that holds no sector.
use cs162proj.Prelude.{
  ap₂, sym, arith, Option, Bool-cases, inl, inr, zero, suc, ℕ, ◌≡◌, refl, ap, ◌∙◌, List, [], ◌∷◌,
  some, none, true, false, ◌&&◌, length, All, replicate, length-replicate,
}
use cs162proj.Block.{Driver, Disks, sector_size}
use cs162proj.Buffer.{
  SectorCache, Buffer, cache_size, blank, invalidate, clean_up, buffer_clean, matches,
}
use cs162proj.Buffer.Entries.{find, is_dirty, Distinct, ValidFirst, IsInvalid}
use cs162proj.Buffer.Invariant.{IsEntry, IsValid, view, seen}
use cs162proj.Buffer.Flush.{IsFlushed, buffer_update_disk_lem}

-- A list without valid entries is a cache of any device that stands for the device itself.
module _ (d : Driver) where
  open d use {Dev, read}

  blank-IsEntry : (v : Dev) (n : ℕ) → All (IsEntry d v) (replicate n blank)
  blank-IsEntry v zero = tt
  blank-IsEntry v (suc n) = (
    record {
      full = length-replicate {A = ℕ} sector_size 0;
      usable = λ on. cc;
      clean = λ on fresh. cc;
    },
    blank-IsEntry v n,
  )

  blank-IsInvalid : (n : ℕ) → All IsInvalid (replicate n blank)
  blank-IsInvalid zero = tt
  blank-IsInvalid (suc n) = (refl, blank-IsInvalid n)

  blank-Distinct : (n : ℕ) → Distinct (replicate n blank)
  blank-Distinct zero = tt
  blank-Distinct (suc n) = ((λ on. cc), blank-Distinct n)

  blank-ValidFirst : (n : ℕ) → ValidFirst (replicate n blank)
  blank-ValidFirst zero = tt
  blank-ValidFirst (suc n) = ((λ off. blank-IsInvalid n), blank-ValidFirst n)

  abbrev pub empty : Disks d → Buffer d
  empty v = record {
    open_sectors = replicate cache_size blank;
    num_access = 0;
    num_hits = 0;
    disks = v;
  }

  pub empty-IsValid : (v : Disks d) → IsValid d (empty v)
  empty-IsValid v = record {
    count = length-replicate cache_size blank;
    cache = record {
      entries = blank-IsEntry v.dev cache_size;
      distinct = blank-Distinct cache_size;
      valid_first = blank-ValidFirst cache_size;
    };
  }

  find-invalidate : (es : List SectorCache) (b s : ℕ) → find b s (invalidate d es) ≡ none
  unfolding invalidate
  find-invalidate [] b s = refl
  find-invalidate (e ∷ es) b s = find-invalidate es b s

  length-invalidate : (es : List SectorCache) → length (invalidate d es) ≡ length es
  unfolding invalidate
  length-invalidate [] = refl
  length-invalidate (e ∷ es) = ap suc (length-invalidate es)

  IsEntry-invalidate :
      (v : Dev) (es : List SectorCache) → All (IsEntry d v) es → All (IsEntry d v) (invalidate d es)
  unfolding invalidate
  IsEntry-invalidate v [] h = tt
  IsEntry-invalidate v (e ∷ es) h = (
    record { full = h.0.full; usable = λ on. cc; clean = λ on fresh. cc },
    IsEntry-invalidate v es h.1,
  )

  IsInvalid-invalidate : (es : List SectorCache) → All IsInvalid (invalidate d es)
  unfolding invalidate
  IsInvalid-invalidate [] = tt
  IsInvalid-invalidate (e ∷ es) = (refl, IsInvalid-invalidate es)

  Distinct-invalidate : (es : List SectorCache) → Distinct (invalidate d es)
  unfolding invalidate
  Distinct-invalidate [] = tt
  Distinct-invalidate (e ∷ es) = ((λ on. cc), Distinct-invalidate es)

  ValidFirst-invalidate : (es : List SectorCache) → ValidFirst (invalidate d es)
  unfolding invalidate
  ValidFirst-invalidate [] = tt
  ValidFirst-invalidate (e ∷ es) = ((λ off. IsInvalid-invalidate es), ValidFirst-invalidate es)

  -- Where no entry of the sector is dirty, the device holds it as it is seen.
  clean_seen :
      (v : Dev) (es : List SectorCache) (b s : ℕ)
      → All (IsEntry d v) es
      → is_dirty b s es ≡ false
      → seen d es v b s ≡ read v b s
  clean_seen v [] b s h c = refl
  clean_seen v (e ∷ es) b s h c = elim (Bool-cases (e.valid && matches b s e)) [
    | inl m ↦
        let c' = rw m at c in
        let on : e.valid ≡ true = ground (arith, m) in
        let names : (e.block_id ≡ b) × (e.sector_id ≡ s) = ground (arith, m) in
        rw m (h.0.clean on c' ∙ ap₂ (read v) names.0 names.1)
    | inr m ↦ let c' = rw m at c in rw m (clean_seen v es b s h.1 c')
  ]

  -- What the second half of `buffer_clean` did to the cache `st`.
  pub record IsCleaned (st st' : Buffer d) : Type 0 where
    pub empty : (b s : ℕ) → find b s st'.open_sectors ≡ none
    pub storage : st'.disks ≡ st.disks
    pub kept : (b s : ℕ) → is_dirty b s st.open_sectors ≡ false → view d st' b s ≡ view d st b s
    pub lost :
        (b s : ℕ) → is_dirty b s st.open_sectors ≡ true → view d st' b s ≡ read st.disks.dev b s
    pub counters : (st'.num_access ≡ 0) × (st'.num_hits ≡ 0)
    pub valid : IsValid d st'

  clean_up_lem : (st : Buffer d) → IsValid d st → IsCleaned st (clean_up d st)
  unfolding clean_up
  clean_up_lem st v =
      let absent = find-invalidate st.open_sectors in
      record {
        empty = absent;
        storage = refl;
        kept = λ b s c.
            rw (absent b s) (sym (clean_seen st.disks.dev st.open_sectors b s v.cache.entries c));
        lost = λ b s c. rw (absent b s) refl;
        counters = (refl, refl);
        valid = record {
          count = length-invalidate st.open_sectors ∙ v.count;
          cache = record {
            entries = IsEntry-invalidate st.disks.dev st.open_sectors v.cache.entries;
            distinct = Distinct-invalidate st.open_sectors;
            valid_first = ValidFirst-invalidate st.open_sectors;
          };
        };
      }

  -- `buffer_clean` at a valid cache, where what other threads do between its two halves ends in a
  -- valid cache: the first half flushes the cache, and at the end it holds no sector, both
  -- counters are zero and the invariant holds. A sector is seen as it was before the second half, but
  -- one that was written in between and is still dirty falls back to what the device has.
  pub buffer_clean_lem :
      (between : Buffer d → Option (Buffer d)) (st : Buffer d)
      → IsValid d st
      → ((x : Buffer d) → IsValid d x → (y : Buffer d) × (between x ≡ some y) × IsValid d y)
      → (x : Buffer d) × (y : Buffer d) × (st' : Buffer d) × IsFlushed d st x
        × (between x ≡ some y)
        × (buffer_clean d between st ≡ some st')
        × IsCleaned y st'
  unfolding buffer_clean
  buffer_clean_lem between st v others =
      let (x, done, f) = buffer_update_disk_lem d st v in
      let (y, done', v') = others x f.valid in
      (x, y, clean_up d y, f, done', rw (done, done') refl, clean_up_lem y v')

  -- With nothing in between no sector changes.
  pub buffer_clean_alone :
      (st : Buffer d)
      → IsValid d st
      → (st' : Buffer d) × (buffer_clean d (λ x. some x) st ≡ some st')
        × ((b s : ℕ) → view d st' b s ≡ view d st b s)
        × IsValid d st'
  unfolding buffer_clean clean_up
  buffer_clean_alone st v =
      let (x, done, f) = buffer_update_disk_lem d st v in
      let out = clean_up_lem x f.valid in
      (clean_up d x, rw done refl, (λ b s. rw (out.empty b s) (f.on_device b s)), out.valid)
