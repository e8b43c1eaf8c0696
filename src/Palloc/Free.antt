-- ===== src/Palloc/Free.antt =====
-- threads/palloc.c: pages that are given back.
use cs162proj.Prelude.{
  ℕ, zero, suc, ◌+◌, ◌*◌, ◌%◌, ◌/◌, ◌-◌, ◌^◌, ◌≤◌, ◌<◌, ◌≡◌, ◌≢◌, ◌∙◌, ap, refl, sym, subst, Option,
  none, some, Bool, true, false, not, arith, Bool-cases, inl, inr, ==_ne,
}
use cs162proj.Bitmap.{test_bit, bitmap_all}
use cs162proj.Bitmap.Ranges.{IsFilled, count, queries_lem, bitmap_set_multiple_lem, in_range}
use cs162proj.Palloc.{
  Pool, PallocFlags, Palloc, pg_size, fill, pool_of, with_map, palloc_get_multiple,
  palloc_free_multiple, free_pages, owner, page_from_pool,
}
use cs162proj.Palloc.Pages.{
  IsPool, IsPalloc, asked, free_group, HandedOut, Outcome, asked-IsPool, with_map-IsPalloc,
  with_map-memory, with_map-asked, palloc_get_multiple_lem,
}

count_all :
    (f : ℕ → Bool) (at n : ℕ)
    → ((j : ℕ) → in_range at n j ≡ true → f j ≡ true)
    → count f at n true ≡ n
count_all f at zero h = refl
count_all f at (suc n) h =
    ground (arith, h at (ground arith), count_all f (at + 1) n (λ j r. h j (ground (arith, r))))

in_pool :
    (p : Pool) (i : ℕ)
    → IsPool p
    → i < p.used_map.bit_cnt
    → page_from_pool p (p.base + pg_size * i) ≡ true
unfolding page_from_pool
in_pool p i v h = ground (arith, v.fits, v.aligned, h)

beyond :
    (p : Pool) (page : ℕ)
    → IsPool p
    → p.base + pg_size * p.used_map.bit_cnt ≤ page
    → page_from_pool p page ≡ false
unfolding page_from_pool
beyond p page v h = ground (arith, v.fits, v.aligned)

-- The pool of a page is found.
owner_lem :
    (user : Bool) (st : Palloc) (i : ℕ)
    → IsPalloc st
    → i < (pool_of user st).used_map.bit_cnt
    → owner st ((pool_of user st).base + pg_size * i) ≡ some user
unfolding owner
owner_lem true st i v h = rw (
  beyond st.kernel_pool (st.user_pool.base + pg_size * i) v.kernel (omega (arith, v.apart)),
  in_pool st.user_pool i v.user h,
)
owner_lem false st i v h = rw (in_pool st.kernel_pool i v.kernel h)

-- What giving back `page_cnt` pages from place `i` of a pool on leaves.
pub record GivenBack (user : Bool) (page_cnt i : ℕ) (st st' : Palloc) : Type 0 where
  pub freed : IsFilled (pool_of user st).used_map (pool_of user st').used_map i page_cnt false
  pub same_base : (pool_of user st').base ≡ (pool_of user st).base
  pub other : pool_of (not user) st' ≡ pool_of (not user) st
  pub cleared :
      st'.memory ≡ fill st.memory ((pool_of user st).base + pg_size * i) 0xcc (pg_size * page_cnt)
  pub valid : IsPalloc st'

module _ (user : Bool) (page_cnt i : ℕ) (st : Palloc) (v : IsPalloc st) where
  pub palloc_free_multiple_lem :
      0 < page_cnt
      → i + page_cnt ≤ (pool_of user st).used_map.bit_cnt
      → count (test_bit (pool_of user st).used_map) i page_cnt true ≡ page_cnt
      → (st' : Palloc) × (palloc_free_multiple ((pool_of user st).base + pg_size * i) page_cnt st
          ≡ some st')
        × GivenBack user page_cnt i st st'
  unfolding palloc_free_multiple free_pages
  palloc_free_multiple_lem pos fits used =
      let p = asked-IsPool user st v in
      let base = (pool_of user st).base in
      let all : bitmap_all (pool_of user st).used_map i page_cnt ≡ some true =
        (queries_lem (pool_of user st).used_map i page_cnt p.map fits).4
        ∙ ap some (ground (arith, used)) in
      let (m, done, s) =
        bitmap_set_multiple_lem (pool_of user st).used_map i page_cnt false p.map fits in
      let whole : (base + pg_size * i) % pg_size ≡ 0 = omega (arith, p.aligned) in
      let idx : (base + pg_size * i) / pg_size - base / pg_size ≡ i = omega (arith, p.aligned) in
      let size : pg_size * page_cnt % 2 ^ 32 ≡ pg_size * page_cnt = omega (arith, p.fits) in
      let st1 : Palloc = record st {
        memory = fill st.memory (base + pg_size * i) 0xcc (pg_size * page_cnt);
      } in
      let (is_m, same_base, other) = with_map-asked user st1 m in
      (
        with_map user st1 m,
        rw (
          whole,
          ==_ne (base + pg_size * i) 0 (omega (arith, p.high)),
          ==_ne page_cnt 0 (omega arith),
          owner_lem user st i v (omega arith),
          idx,
          all,
          done,
          size,
        ),
        record {
          freed = rw is_m s;
          same_base = same_base;
          other = other;
          cleared = with_map-memory user st1 m;
          valid =
              with_map-IsPalloc user st1 m
                (record { kernel = v.kernel; user = v.user; apart = v.apart }) s.valid s.size;
        },
      )

outcome_got :
    (flags : PallocFlags) (page_cnt : ℕ) (st st' : Palloc) (pages : ℕ) (o : Option ℕ)
    → Outcome flags page_cnt st o
    → palloc_get_multiple flags page_cnt st ≡ some (st', pages)
    → pages ≢ 0
    → (i : ℕ) × (pages ≡ (asked flags st).base + pg_size * i) × HandedOut flags page_cnt i st st'
outcome_got flags page_cnt st st' pages none h e real = elim (Bool-cases flags.pal_assert) [
  | inl panics ↦ let h' = rw panics at h in absurd (cc)
  | inr quiet ↦ let h' = rw quiet at h in absurd (real (cc))
]
outcome_got flags page_cnt st st' pages (some i) (w, h, o) e real =
    let is_w : w ≡ st' = cc in
    let place : pages ≡ (asked flags st).base + pg_size * i = cc in
    (i, place, subst (λ x. HandedOut flags page_cnt i st x) is_w o)

pub no_pages :
    (flags : PallocFlags) (page_cnt : ℕ) (st st' : Palloc) (pages : ℕ)
    → palloc_get_multiple flags page_cnt st ≡ some (st', pages)
    → pages ≢ 0
    → 0 < page_cnt
unfolding palloc_get_multiple
no_pages flags zero st st' pages e real = absurd (real (cc))
no_pages flags (suc n) st st' pages e real = omega arith

-- Pages that were handed out are those of a group.
pub got_lem :
    (flags : PallocFlags) (page_cnt : ℕ) (st st' : Palloc) (pages : ℕ)
    → IsPalloc st
    → palloc_get_multiple flags page_cnt st ≡ some (st', pages)
    → pages ≢ 0
    → (i : ℕ) × (pages ≡ (asked flags st).base + pg_size * i) × HandedOut flags page_cnt i st st'
got_lem flags page_cnt st st' pages v e real =
    outcome_got flags page_cnt st st' pages (free_group flags page_cnt st)
      (palloc_get_multiple_lem flags page_cnt st v (no_pages flags page_cnt st st' pages e real)) e
      real

-- Pages from palloc_get_multiple of a valid allocator, given back by palloc_free_multiple: no
-- assertion fails, the pool that they are from is found, both pools are as before the call, bit
-- by bit, and the allocator is valid.
pub get-free :
    (flags : PallocFlags) (page_cnt : ℕ) (st st' : Palloc) (pages : ℕ)
    → IsPalloc st
    → palloc_get_multiple flags page_cnt st ≡ some (st', pages)
    → pages ≢ 0
    → (st'' : Palloc) × (palloc_free_multiple pages page_cnt st' ≡ some st'')
      × ((j : ℕ) → test_bit (asked flags st'').used_map j ≡ test_bit (asked flags st).used_map j)
      × ((asked flags st'').base ≡ (asked flags st).base)
      × (pool_of (not flags.pal_user) st'' ≡ pool_of (not flags.pal_user) st)
      × IsPalloc st''
get-free flags page_cnt st st' pages v e real =
    let pos = no_pages flags page_cnt st st' pages e real in
    let (i, place, o) = got_lem flags page_cnt st st' pages v e real in
    let u = flags.pal_user in
    let used : count (test_bit (pool_of u st').used_map) i page_cnt true ≡ page_cnt =
      count_all (test_bit (pool_of u st').used_map) i page_cnt
        (λ j r. o.marked.tests j ∙ ground (arith, r)) in
    let (st'', done, g) =
      palloc_free_multiple_lem u page_cnt i st' o.valid pos (omega (arith, o.inside, o.marked.size))
        used in
    (
      st'',
      ap (λ a. palloc_free_multiple a page_cnt st')
            (place ∙ ap (λ b. b + pg_size * i) (sym o.same_base))
          ∙ done,
      (λ j. ground (arith, g.freed.tests j, o.marked.tests j, o.first.group j)),
      g.same_base ∙ o.same_base,
      g.other ∙ o.other,
      g.valid,
    )
