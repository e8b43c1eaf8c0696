-- ===== src/Buffer/Write.antt =====
-- `buffer_write` of filesys/buffer.c: what a write does to the sector, at a hit and at a miss.
use cs162proj.Prelude.{
  ◌%◌, ◌^◌, le→leb, ℕ, ◌+◌, ◌≤◌, ◌≡◌, ◌⊎◌, refl, ap, sym, ◌∙◌, List, ◌∷◌, ◌++◌, Option, none, some,
  true, if◌then◌else◌, arith, length, memcpy_at, length-memcpy_at, memcpy_at_whole, inl, inr,
}
use cs162proj.Block.{Driver, IsUsable, sector_size, same}
use cs162proj.Buffer.{
  SectorCache, Buffer, Walk, hit, stop, finish, walk, matches, write_miss, buffer_write,
}
use cs162proj.Buffer.Entries.{is_cached, find, Walked, walk-Walked}
use cs162proj.Buffer.Invariant.{IsValid, Taken, Taken-middle, Taken-last, view, length-view}
use cs162proj.Buffer.Recency.{keys, recent, order_hit, order_stop, order_finish}
use cs162proj.Buffer.Evict.{evict_lem}

module _ (d : Driver) (b s : ℕ) (bytes : List ℕ) (offset size : ℕ) where
  open d use {read}

  -- The bytes went over `base`, no other sector changed.
  pub record HasWritten (base : List ℕ) (st st' : Buffer d) : Type 0 where
    pub full : length base ≡ sector_size
    pub seen_as :
        (b' s' : ℕ)
        → view d st' b' s'
          ≡ (if same b s b' s' then memcpy_at base offset bytes size else view d st b' s')
    pub valid : IsValid d st'
    pub order : keys st'.open_sectors ≡ recent b s (keys st.open_sectors)
    pub accesses : st'.num_access ≡ (st.num_access + 1) % 2 ^ 32
    pub hits :
        st'.num_hits
        ≡ (if is_cached b s st.open_sectors then (st.num_hits + 1) % 2 ^ 32 else st.num_hits)

  abbrev pub Writes : List ℕ → Buffer d → Option (Buffer d) → Type 0
  Writes base st r = (st' : Buffer d) × (r ≡ some st') × HasWritten base st st'

  pub miss_lem :
      (st : Buffer d) (e : SectorCache) (others : List SectorCache)
      → IsValid d st
      → IsUsable d b s
      → find b s st.open_sectors ≡ none
      → (b, s) ∷ keys others ≡ recent b s (keys st.open_sectors)
      → Taken d st.disks.dev st.open_sectors e others
      → Writes e.content st (write_miss d b s bytes offset size st e others)
  unfolding write_miss
  miss_lem st e others inv u absent order t =
      let (v, ev) = evict_lem d st.open_sectors others st.disks e t in
      let gone : find b s others ≡ none = ground (arith, t.held b s) in
      let fresh : SectorCache = record {
        sector_id = s;
        block_id = b;
        content = memcpy_at e.content offset bytes size;
        valid = true;
        dirty = true;
      } in
      (
        record st {
          open_sectors = fresh ∷ others;
          num_access = (st.num_access + 1) % 2 ^ 32;
          disks = v;
        },
        rw ev.back,
        record {
          full = t.entry.full;
          seen_as = λ b' s'. ground (arith, ev.seen_same b' s');
          valid = record {
            count = ground (arith, t.count, inv.count);
            cache = record {
              entries = (
                record {
                  full = length-memcpy_at e.content offset bytes size ∙ t.entry.full;
                  usable = λ _. u;
                  clean = λ _ off. cc;
                },
                ev.cache.entries,
              );
              distinct = ((λ _. gone), ev.cache.distinct);
              valid_first = ((λ off. cc), ev.cache.valid_first);
            };
          };
          order = order;
          accesses = refl;
          hits = ground (arith, absent);
        },
      )

  hit_lem :
      (st : Buffer d) (e : SectorCache) (others : List SectorCache)
      → IsValid d st
      → e.valid ≡ true
      → matches b s e ≡ true
      → (b, s) ∷ keys others ≡ recent b s (keys st.open_sectors)
      → Taken d st.disks.dev st.open_sectors e others
      → Writes (view d st b s) st (
          some (record st {
            open_sectors =
                record e {
                  content = memcpy_at e.content offset bytes size;
                  valid = true;
                  dirty = true;
                }
                ∷ others;
            num_access = (st.num_access + 1) % 2 ^ 32;
            num_hits = (st.num_hits + 1) % 2 ^ 32;
          }))
  hit_lem st e others inv on m order t =
      let base : view d st b s ≡ e.content = ground (arith, t.held b s) in
      (
        record st {
          open_sectors =
              record e {
                content = memcpy_at e.content offset bytes size;
                valid = true;
                dirty = true;
              }
              ∷ others;
          num_access = (st.num_access + 1) % 2 ^ 32;
          num_hits = (st.num_hits + 1) % 2 ^ 32;
        },
        refl,
        record {
          full = length-view d st b s inv;
          seen_as = λ b' s'. ground (arith, t.held b' s', base);
          valid = record {
            count = ground (arith, t.count, inv.count);
            cache = record {
              entries = (
                record {
                  full = length-memcpy_at e.content offset bytes size ∙ t.entry.full;
                  usable = λ _. t.entry.usable on;
                  clean = λ _ off. cc;
                },
                t.rest.entries,
              );
              distinct = ((λ _. t.own on), t.rest.distinct);
              valid_first = ((λ off. cc), t.rest.valid_first);
            };
          };
          order = ground (arith, order);
          accesses = refl;
          hits = ground (arith, t.held b s);
        },
      )

  -- The bytes of the sector itself lie below the write, at a hit or where the write covers it all.
  abbrev pub Underneath : List ℕ → Buffer d → Type 0
  Underneath base st = (find b s st.open_sectors ≡ none) ⊎ (base ≡ view d st b s)

  write_walk :
      (st : Buffer d) (w : Walk)
      → walk b s st.open_sectors ≡ w
      → Walked b s st.open_sectors w
      → IsValid d st
      → IsUsable d b s
      → offset + size ≤ sector_size
      → (base : List ℕ) × Underneath base st
        × Writes base st (buffer_write d b s bytes offset size st)
  unfolding buffer_write
  write_walk st (hit pre e post) eq (split, on, m) inv u fits = (
    view d st b s,
    inr refl,
    rw (buffer_write, le→leb (offset + size) sector_size fits, eq)
        (hit_lem st e (pre ++ post) inv on m (order_hit d b s st e pre post split inv on m)
          (rw (← split) at (Taken-middle d st.disks.dev pre e post (rw split at inv.cache)))),
  )
  write_walk st (stop pre e post) eq (split, off, absent) inv u fits = (
    e.content,
    inl absent,
    rw (buffer_write, le→leb (offset + size) sector_size fits, eq)
        (miss_lem st e (pre ++ post) inv u absent
          (order_stop d b s st e pre post split inv off absent)
          (rw (← split) at (Taken-middle d st.disks.dev pre e post (rw split at inv.cache)))),
  )
  write_walk st finish eq absent inv u fits =
      let (others, e, popped, split, t) = Taken-last d st inv in
      let order = order_finish d b s st e others split inv eq absent in
      (
        e.content,
        inl absent,
        rw (buffer_write, le→leb (offset + size) sector_size fits, eq, popped)
            (miss_lem st e others inv u absent order t),
      )

  write_any :
      (st : Buffer d)
      → IsValid d st
      → IsUsable d b s
      → offset + size ≤ sector_size
      → (base : List ℕ) × Underneath base st
        × Writes base st (buffer_write d b s bytes offset size st)
  write_any st inv u fits =
      write_walk st (walk b s st.open_sectors) refl
        (walk-Walked b s st.open_sectors inv.cache.valid_first) inv u fits

  -- A write of bytes that lie in a usable sector that is cached, or of a whole sector, does not panic, puts
  -- the bytes at the offset of that sector, leaves every other sector as it was seen, and keeps the
  -- invariant.
  pub buffer_write_lem :
      (st : Buffer d)
      → IsValid d st
      → IsUsable d b s
      → offset + size ≤ sector_size
      → size ≤ length bytes
      → (is_cached b s st.open_sectors ≡ true) ⊎ ((offset ≡ 0) × (size ≡ sector_size))
      → Writes (view d st b s) st (buffer_write d b s bytes offset size st)
  buffer_write_lem st inv u fits room covered =
      let (base, under, wrote) = write_any st inv u fits in
      let (st', done, out) = wrote in
      (
        st',
        done,
        record {
          full = length-view d st b s inv;
          seen_as = λ b' s'.
              out.seen_as b' s'
              ∙ ap (λ c. if same b s b' s' then c else view d st b' s')
                  (replaced base under covered out.full);
          valid = out.valid;
          order = out.order;
          accesses = out.accesses;
          hits = out.hits;
        },
      )
    where
      replaced :
          (base : List ℕ)
          → Underneath base st
          → (is_cached b s st.open_sectors ≡ true) ⊎ ((offset ≡ 0) × (size ≡ sector_size))
          → length base ≡ sector_size
          → memcpy_at base offset bytes size ≡ memcpy_at (view d st b s) offset bytes size
      replaced base (inr e) c n = ap (λ x. memcpy_at x offset bytes size) e
      replaced base (inl absent) (inl present) n = absurd (ground (arith, absent, present))
      replaced base (inl absent) (inr (zero_offset, whole)) n =
          rw (zero_offset, whole)
            (memcpy_at_whole base bytes sector_size n (omega arith)
              ∙ sym (
                  memcpy_at_whole (view d st b s) bytes sector_size (length-view d st b s inv)
                    (omega arith)))
