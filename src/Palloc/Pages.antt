-- ===== src/Palloc/Pages.antt =====
-- threads/palloc.c: which pages are handed out, and that they come back.
use cs162proj.Prelude.{
  ℕ, ◌+◌, ◌*◌, ◌%◌, ◌^◌, ◌≤◌, ◌<◌, ◌≡◌, ap, refl, Option, none, some, Bool, true, false, not, ◌==◌,
  if◌then◌else◌, arith, Bool-cases, inl, inr, ==_ne,
}
use cs162proj.Bitmap.{Bitmap, bitmap_error, test_bit}
use cs162proj.Bitmap.Bits.{IsBitmap}
use cs162proj.Bitmap.Ranges.{IsFilled}
use cs162proj.Bitmap.Scan.{IsFirst, Flipped, first_group, places, bitmap_scan_and_flip_lem}
use cs162proj.Palloc.{
  Pool, PallocFlags, Palloc, pg_size, fill, pool_of, with_map, hand_out, palloc_get_multiple,
}

-- The pages of a pool are whole pages of the address space.
pub record IsPool (p : Pool) : Type 0 where
  pub map : IsBitmap p.used_map
  pub aligned : p.base % pg_size ≡ 0
  pub high : pg_size ≤ p.base
  pub fits : p.base + pg_size * p.used_map.bit_cnt ≤ 2 ^ 32

pub record IsPalloc (st : Palloc) : Type 0 where
  pub kernel : IsPool st.kernel_pool
  pub user : IsPool st.user_pool
  pub apart : st.kernel_pool.base + pg_size * st.kernel_pool.used_map.bit_cnt ≤ st.user_pool.base

-- The pool that is asked, and the bits of it.
abbrev pub asked : PallocFlags → Palloc → Pool
asked flags st = pool_of flags.pal_user st

-- The first group of free pages, if there is one.
abbrev pub free_group : PallocFlags → ℕ → Palloc → Option ℕ
free_group flags page_cnt st =
    first_group (test_bit (asked flags st).used_map) 0 (places (asked flags st).used_map 0 page_cnt)
      page_cnt false

-- What handing out `page_cnt` pages from place `i` on leaves.
pub record HandedOut (flags : PallocFlags) (page_cnt i : ℕ) (st st' : Palloc) : Type 0 where
  pub first :
      IsFirst
        (test_bit (asked flags st).used_map)
        0
        page_cnt
        false
        i
        (places (asked flags st).used_map 0 page_cnt)
  pub marked : IsFilled (asked flags st).used_map (asked flags st').used_map i page_cnt true
  pub inside : i + page_cnt ≤ (asked flags st).used_map.bit_cnt
  pub same_base : (asked flags st').base ≡ (asked flags st).base
  pub other : pool_of (not flags.pal_user) st' ≡ pool_of (not flags.pal_user) st
  pub zeroed :
      flags.pal_zero ≡ true
      → st'.memory ≡ fill st.memory ((asked flags st).base + pg_size * i) 0 (pg_size * page_cnt)
  pub kept : flags.pal_zero ≡ false → st'.memory ≡ st.memory
  pub valid : IsPalloc st'

abbrev pub Outcome : PallocFlags → ℕ → Palloc → Option ℕ → Type 0
Outcome flags page_cnt st none =
    palloc_get_multiple flags page_cnt st ≡ (if flags.pal_assert then none else some (st, 0))
Outcome flags page_cnt st (some i) =
    (st' : Palloc) × (palloc_get_multiple flags page_cnt st
      ≡ some (st', (asked flags st).base + pg_size * i))
    × HandedOut flags page_cnt i st st'

pub asked-IsPool : (user : Bool) (st : Palloc) → IsPalloc st → IsPool (pool_of user st)
asked-IsPool true st v = v.user
asked-IsPool false st v = v.kernel

-- A bitmap of the same size keeps the allocator valid.
pub with_map-IsPalloc :
    (user : Bool) (st : Palloc) (m : Bitmap)
    → IsPalloc st
    → IsBitmap m
    → m.bit_cnt ≡ (pool_of user st).used_map.bit_cnt
    → IsPalloc (with_map user st m)
with_map-IsPalloc true st m v w e = record {
  kernel = v.kernel;
  user = record {
    map = w;
    aligned = v.user.aligned;
    high = v.user.high;
    fits = omega (arith, v.user.fits);
  };
  apart = v.apart;
}
with_map-IsPalloc false st m v w e = record {
  kernel = record {
    map = w;
    aligned = v.kernel.aligned;
    high = v.kernel.high;
    fits = omega (arith, v.kernel.fits);
  };
  user = v.user;
  apart = omega (arith, v.apart);
}

with_map-same : (user : Bool) (st : Palloc) → with_map user st (pool_of user st).used_map ≡ st
with_map-same true st = refl
with_map-same false st = refl

pub with_map-memory :
    (user : Bool) (st : Palloc) (m : Bitmap) → (with_map user st m).memory ≡ st.memory
with_map-memory true st m = refl
with_map-memory false st m = refl

pub with_map-asked :
    (user : Bool) (st : Palloc) (m : Bitmap)
    → ((pool_of user (with_map user st m)).used_map ≡ m)
      × ((pool_of user (with_map user st m)).base ≡ (pool_of user st).base)
      × (pool_of (not user) (with_map user st m) ≡ pool_of (not user) st)
with_map-asked true st m = (refl, refl, refl)
with_map-asked false st m = (refl, refl, refl)

-- The memory that `hand_out` leaves.
abbrev wiped : PallocFlags → ℕ → ℕ → Palloc → Palloc
wiped flags page_cnt pages st =
    if flags.pal_zero
    then record st { memory = fill st.memory pages 0 (pg_size * page_cnt) }
    else st

hand_out_real :
    (flags : PallocFlags) (page_cnt pages : ℕ) (st : Palloc)
    → 0 < pages
    → pg_size * page_cnt < 2 ^ 32
    → hand_out flags page_cnt pages st ≡ some (wiped flags page_cnt pages st, pages)
unfolding hand_out
hand_out_real flags page_cnt pages st h k =
    let e : pg_size * page_cnt % 2 ^ 32 ≡ pg_size * page_cnt = omega arith in
    elim (Bool-cases flags.pal_zero) [
      | inl zero_it ↦ simp (zero_it, e, ==_ne pages 0 (omega arith))
      | inr keep ↦ simp (keep, ==_ne pages 0 (omega arith))
    ]

module _ (page_cnt i : ℕ) (st : Palloc) (m : Bitmap) (v : IsPalloc st) (a : Bool) (u : Bool)
    (first : IsFirst
      (test_bit (pool_of u st).used_map)
      0
      page_cnt
      false
      i
      (places (pool_of u st).used_map 0 page_cnt))
    (inside : i + page_cnt ≤ (pool_of u st).used_map.bit_cnt)
    (s : IsFilled (pool_of u st).used_map m i page_cnt true) where
  wiped-HandedOut :
      (z : Bool)
      → let flags : PallocFlags = record { pal_assert = a; pal_zero = z; pal_user = u } in
        HandedOut flags page_cnt i st
          (wiped flags page_cnt ((pool_of u st).base + pg_size * i) (with_map u st m))
  wiped-HandedOut true =
      let (is_m, same_base, other) = with_map-asked u st m in
      let w = with_map-IsPalloc u st m v s.valid s.size in
      record {
        first = first;
        marked = rw is_m s;
        inside = inside;
        same_base = same_base;
        other = other;
        zeroed = λ e.
            ap (λ mem. fill mem ((pool_of u st).base + pg_size * i) 0 (pg_size * page_cnt))
              (with_map-memory u st m);
        kept = λ e. cc;
        valid = record { kernel = w.kernel; user = w.user; apart = w.apart };
      }
  wiped-HandedOut false =
      let (is_m, same_base, other) = with_map-asked u st m in
      record {
        first = first;
        marked = rw is_m s;
        inside = inside;
        same_base = same_base;
        other = other;
        zeroed = λ e. cc;
        kept = λ e. with_map-memory u st m;
        valid = with_map-IsPalloc u st m v s.valid s.size;
      }

nothing_left :
    (flags : PallocFlags) (page_cnt : ℕ) (st : Palloc)
    → hand_out flags page_cnt 0 st ≡ (if flags.pal_assert then none else some (st, 0))
unfolding hand_out
nothing_left flags page_cnt st = refl

get_place :
    (flags : PallocFlags) (page_cnt : ℕ) (st : Palloc) (o : Option ℕ)
    → IsPalloc st
    → 0 < page_cnt
    → free_group flags page_cnt st ≡ o
    → Flipped (asked flags st).used_map 0 page_cnt false o
    → Outcome flags page_cnt st o
unfolding palloc_get_multiple
get_place flags page_cnt st none v pos eq h =
    rw (==_ne page_cnt 0 (omega arith), h, with_map-same flags.pal_user st)
      (nothing_left flags page_cnt st)
get_place flags page_cnt st (some i) v pos eq (m, done, small, first, s) =
    let p = asked-IsPool flags.pal_user st v in
    let inside : i + page_cnt ≤ (asked flags st).used_map.bit_cnt = ground (arith, first.to) in
    let base = (asked flags st).base in
    let real : (i == bitmap_error) ≡ false = ground (arith, small) in
    let place : (base + pg_size * i % 2 ^ 32) % 2 ^ 32 ≡ base + pg_size * i =
      omega (arith, p.fits) in
    (
      wiped flags page_cnt (base + pg_size * i) (with_map flags.pal_user st m),
      rw (==_ne page_cnt 0 (omega arith), done, real, place)
          (hand_out_real flags page_cnt (base + pg_size * i) (with_map flags.pal_user st m)
            (omega (arith, p.high)) (omega (arith, p.fits))),
      wiped-HandedOut page_cnt i st m v flags.pal_assert flags.pal_user first inside s
          flags.pal_zero,
    )

-- In a valid allocator, for `0 < page_cnt`: where the pool that is asked has no `page_cnt` free
-- pages in a row, palloc_get_multiple changes nothing and gives a null pointer, or panics if
-- PAL_ASSERT is set. Otherwise it gives the address of the first such pages and marks them, and
-- only them, as used; they lie in that pool, which keeps its base, and were free; the other pool
-- stays as it is; memory is zeroed in these pages if PAL_ZERO is set, and unchanged elsewhere and
-- without the flag; and the allocator is valid again.
pub palloc_get_multiple_lem :
    (flags : PallocFlags) (page_cnt : ℕ) (st : Palloc)
    → IsPalloc st
    → 0 < page_cnt
    → Outcome flags page_cnt st (free_group flags page_cnt st)
palloc_get_multiple_lem flags page_cnt st v pos =
    get_place flags page_cnt st (free_group flags page_cnt st) v pos refl (
      bitmap_scan_and_flip_lem (asked flags st).used_map 0 page_cnt false
        (asked-IsPool flags.pal_user st v).map (omega arith))
