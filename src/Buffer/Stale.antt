-- ===== src/Buffer/Stale.antt =====
-- `buffer_write` of filesys/buffer.c at a miss takes an entry over without reading the sector from
-- the device: what the write does not cover keeps the bytes of the sector that was there before.
use cs162proj.Prelude.{
  ℕ, ◌+◌, ◌-◌, ◌≤◌, ◌≡◌, ◌≢◌, ap, sym, ◌∙◌, List, some, true, false, ◌&&◌, leb, ltb, le→leb,
  if◌then◌else◌, arith, length, memcpy_at, get_or, get_or-memcpy_at, pop_back, ==_refl,
}
use cs162proj.Block.{Driver, IsUsable, sector_size, same}
use cs162proj.Buffer.{SectorCache, Buffer, finish, walk, buffer_write}
use cs162proj.Buffer.Entries.{walk-Walked}
use cs162proj.Buffer.Invariant.{IsValid, Taken-last, view, length-view}
use cs162proj.Buffer.Recency.{order_finish}
use cs162proj.Buffer.Write.{Writes, HasWritten, miss_lem}

same_refl : (b s : ℕ) → same b s b s ≡ true
same_refl b s = rw (==_refl b, ==_refl s)

module _ (d : Driver) (b s : ℕ) (bytes : List ℕ) (offset size : ℕ) where
  -- When the list is full and does not hold the sector, the bytes go over the content of the entry
  -- used longest ago.
  full_miss :
      (st : Buffer d) (others : List SectorCache) (e : SectorCache)
      → IsValid d st
      → IsUsable d b s
      → walk b s st.open_sectors ≡ finish
      → pop_back st.open_sectors ≡ some (others, e)
      → offset + size ≤ sector_size
      → Writes d b s bytes offset size e.content st (buffer_write d b s bytes offset size st)
  unfolding buffer_write
  full_miss st others e inv u full popped fits =
      let (others', e', popped', split', t) = Taken-last d st inv in
      let entry : e' ≡ e = cc in
      let rest : others' ≡ others = cc in
      let absent = rw full at (walk-Walked b s st.open_sectors inv.cache.valid_first) in
      rw (buffer_write, le→leb (offset + size) sector_size fits, full, popped)
        (miss_lem d b s bytes offset size st e others inv u absent
          (order_finish d b s st e others (rw (entry, rest) at split') inv full absent)
          (rw (entry, rest) at t))

  -- On a full cache, a write of part of a sector that is not cached loses the rest of the sector:
  -- where, outside the range written, the sector differs from the entry used longest ago, what is
  -- seen afterwards is not the sector with the bytes put in.
  pub buffer_write_stale :
      (st : Buffer d) (others : List SectorCache) (e : SectorCache) (i : ℕ)
      → IsValid d st
      → IsUsable d b s
      → walk b s st.open_sectors ≡ finish
      → pop_back st.open_sectors ≡ some (others, e)
      → offset + size ≤ sector_size
      → size ≤ length bytes
      → (leb offset i && ltb i (offset + size)) ≡ false
      → get_or e.content i 0 ≢ get_or (view d st b s) i 0
      → (st' : Buffer d) × (buffer_write d b s bytes offset size st ≡ some st')
        × (view d st' b s ≢ memcpy_at (view d st b s) offset bytes size)
  buffer_write_stale st others e i inv u full popped fits room outside differ =
      let (st', done, out) = full_miss st others e inv u full popped fits in
      (
        st',
        done,
        λ right. differ (
            sym (byte e.content out.full)
            ∙ ap (λ c. get_or c i 0) (sym (wrote st' out) ∙ right)
            ∙ byte (view d st b s) (length-view d st b s inv)),
      )
    where
      byte :
          (c : List ℕ)
          → length c ≡ sector_size
          → get_or (memcpy_at c offset bytes size) i 0 ≡ get_or c i 0
      byte c n =
          get_or-memcpy_at c offset bytes size i (omega arith) room
          ∙ ap (λ t. if t then get_or bytes (i - offset) 0 else get_or c i 0) outside

      wrote :
          (st' : Buffer d)
          → HasWritten d b s bytes offset size e.content st st'
          → view d st' b s ≡ memcpy_at e.content offset bytes size
      wrote st' out = rw same_refl at (out.seen_as b s)
