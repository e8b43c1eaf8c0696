-- ===== src/Buffer/Read.antt =====
-- `buffer_read` of filesys/buffer.c gives the sector's bytes, and changes no sector.
use cs162proj.Prelude.{
  ◌%◌, ◌^◌, le→leb, ◌≤◌, if◌then◌else◌, ℕ, ◌+◌, ◌≡◌, refl, ap, subst, All, sym, List, ◌∷◌, ◌++◌,
  none, some, true, false, arith, bytes_at, Option,
}
use cs162proj.Block.{Driver, sector_size, IsUsable, block_read-some}
use cs162proj.Buffer.{
  SectorCache, Buffer, Walk, hit, stop, finish, walk, matches, read_miss, buffer_read,
}
use cs162proj.Buffer.Entries.{is_cached, find, Walked, walk-Walked}
use cs162proj.Buffer.Invariant.{IsEntry, IsValid, Taken, Taken-middle, Taken-last, view}
use cs162proj.Buffer.Recency.{keys, recent, order_hit, order_stop, order_finish}
use cs162proj.Buffer.Evict.{evict_lem}

module _ (d : Driver) (b s offset size : ℕ) where
  open d use {read, length-read}

  -- The outcome of a read in a state: the bytes, an unchanged view, the invariant.
  pub record HasRead (st st' : Buffer d) (bytes : List ℕ) : Type 0 where
    pub result : bytes ≡ bytes_at (view d st b s) offset size
    pub kept : (b' s' : ℕ) → view d st' b' s' ≡ view d st b' s'
    pub valid : IsValid d st'
    pub order : keys st'.open_sectors ≡ recent b s (keys st.open_sectors)
    pub accesses : st'.num_access ≡ (st.num_access + 1) % 2 ^ 32
    pub hits :
        st'.num_hits
        ≡ (if is_cached b s st.open_sectors then (st.num_hits + 1) % 2 ^ 32 else st.num_hits)

  abbrev pub Reads : Buffer d → Option (Buffer d × List ℕ) → Type 0
  Reads st r = (st' : Buffer d) × (bytes : List ℕ) × (r ≡ some (st', bytes)) × HasRead st st' bytes

  miss_lem :
      (st : Buffer d) (e : SectorCache) (others : List SectorCache)
      → IsValid d st
      → IsUsable d b s
      → find b s st.open_sectors ≡ none
      → (b, s) ∷ keys others ≡ recent b s (keys st.open_sectors)
      → Taken d st.disks.dev st.open_sectors e others
      → Reads st (read_miss d b s offset size st e others)
  unfolding read_miss
  miss_lem st e others inv u absent order t =
      let (v, ev) = evict_lem d st.open_sectors others st.disks e t in
      let (w, done, dev) = block_read-some d b s v u.0 in
      let gone : find b s others ≡ none = ground (arith, t.held b s) in
      let fresh : SectorCache = record {
        sector_id = s;
        block_id = b;
        content = read v.dev b s;
        valid = true;
        dirty = false;
      } in
      let same_bytes : read v.dev b s ≡ view d st b s = ground (arith, gone, ev.seen_same b s) in
      (
        record st {
          open_sectors = fresh ∷ others;
          num_access = (st.num_access + 1) % 2 ^ 32;
          disks = w;
        },
        bytes_at (read v.dev b s) offset size,
        rw (ev.back, done),
        record {
          result = ap (λ c. bytes_at c offset size) same_bytes;
          kept = λ b' s'. ground (arith, same_bytes, dev, ev.seen_same b' s');
          valid = record {
            count = ground (arith, t.count, inv.count);
            cache = record {
              entries = (
                record { full = length-read v.dev b s; usable = λ _. u; clean = λ _ _. rw dev },
                subst (λ x. All (IsEntry d x) others) (sym dev) ev.cache.entries,
              );
              distinct = ((λ _. gone), ev.cache.distinct);
              valid_first = ((λ off. cc), ev.cache.valid_first);
            };
          };
          order = order;
          accesses = refl;
          hits = ground (arith, absent);
        },
      )

  hit_lem :
      (st : Buffer d) (e : SectorCache) (others : List SectorCache)
      → IsValid d st
      → e.valid ≡ true
      → matches b s e ≡ true
      → (b, s) ∷ keys others ≡ recent b s (keys st.open_sectors)
      → Taken d st.disks.dev st.open_sectors e others
      → Reads st (
          some (
            record st {
              open_sectors = e ∷ others;
              num_access = (st.num_access + 1) % 2 ^ 32;
              num_hits = (st.num_hits + 1) % 2 ^ 32;
            },
            bytes_at e.content offset size,
          ))
  hit_lem st e others inv on m order t = (
    record st {
      open_sectors = e ∷ others;
      num_access = (st.num_access + 1) % 2 ^ 32;
      num_hits = (st.num_hits + 1) % 2 ^ 32;
    },
    bytes_at e.content offset size,
    refl,
    record {
      result = ground (arith, t.held b s);
      kept = λ b' s'. ground (arith, t.held b' s');
      valid = record {
        count = ground (arith, t.count, inv.count);
        cache = record {
          entries = (t.entry, t.rest.entries);
          distinct = (t.own, t.rest.distinct);
          valid_first = ((λ off. cc), t.rest.valid_first);
        };
      };
      order = ground (arith, order);
      accesses = refl;
      hits = ground (arith, t.held b s);
    },
  )

  read_walk :
      (st : Buffer d) (w : Walk)
      → walk b s st.open_sectors ≡ w
      → Walked b s st.open_sectors w
      → IsValid d st
      → IsUsable d b s
      → offset + size ≤ sector_size
      → Reads st (buffer_read d b s offset size st)
  unfolding buffer_read
  read_walk st (hit pre e post) eq (split, on, m) inv u fits =
      rw (buffer_read, le→leb (offset + size) sector_size fits, eq)
        (hit_lem st e (pre ++ post) inv on m (order_hit d b s st e pre post split inv on m)
          (rw (← split) at (Taken-middle d st.disks.dev pre e post (rw split at inv.cache))))
  read_walk st (stop pre e post) eq (split, off, absent) inv u fits =
      rw (buffer_read, le→leb (offset + size) sector_size fits, eq)
        (miss_lem st e (pre ++ post) inv u absent
          (order_stop d b s st e pre post split inv off absent)
          (rw (← split) at (Taken-middle d st.disks.dev pre e post (rw split at inv.cache))))
  read_walk st finish eq absent inv u fits =
      let (others, e, popped, split, t) = Taken-last d st inv in
      let order = order_finish d b s st e others split inv eq absent in
      rw (buffer_read, le→leb (offset + size) sector_size fits, eq, popped)
        (miss_lem st e others inv u absent order t)

  -- On a usable sector, and bytes that all lie in it, `buffer_read` does not panic, copies out the bytes at the offset, leaves
  -- every sector as it was seen, and keeps the invariant.
  pub buffer_read_lem :
      (st : Buffer d)
      → IsValid d st
      → IsUsable d b s
      → offset + size ≤ sector_size
      → Reads st (buffer_read d b s offset size st)
  buffer_read_lem st inv u fits =
      read_walk st (walk b s st.open_sectors) refl
        (walk-Walked b s st.open_sectors inv.cache.valid_first) inv u fits
