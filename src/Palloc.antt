-- ===== src/Palloc.antt =====
-- threads/palloc.c: the two pools of pages. Addresses are kernel virtual addresses, and 0 is a null
-- pointer; the contents of memory are a function on them. A `none` is a PANIC or a failed ASSERT.
-- The lock of a pool is held around its scan only, which is one step here. A bitmap stands for
-- the words at the start of its pool, which lie outside of the pages that the pool hands out.
pub mod Pages
pub mod Free
pub mod Apart
pub mod Init
mod Tests
use cs162proj.Prelude.{
  ℕ, ◌+◌, ◌-◌, ◌*◌, ◌/◌, ◌%◌, ◌^◌, List, Option, none, some, Bool, true, false, not, ◌&&◌, ◌||◌,
  ltb, leb, ◌==◌, if◌then◌else◌, ◌>>=◌, ◌>>◌, assert,
}
use cs162proj.Bitmap.{
  Bitmap, bitmap_error, bitmap_size, bitmap_buf_size, bitmap_create_in_buf, bitmap_scan_and_flip,
  bitmap_set_multiple, bitmap_all, add_size,
}

-- PGSIZE and PHYS_BASE
abbrev pub pg_size : ℕ
pg_size = 4096

abbrev pub phys_base : ℕ
phys_base = 0xc0000000

abbrev pub pg_ofs : ℕ → ℕ
pg_ofs va = va % pg_size

abbrev pub pg_no : ℕ → ℕ
pg_no va = va / pg_size

abbrev pub ptov : ℕ → Option ℕ
ptov paddr = do assert (ltb paddr phys_base); some (add_size paddr phys_base)

-- The lock is left out.
pub record Pool : Type 0 where
  pub used_map : Bitmap
  pub base : ℕ

pub record PallocFlags : Type 0 where
  pub pal_assert : Bool
  pub pal_zero : Bool
  pub pal_user : Bool

-- The variables of the module and the memory.
pub record Palloc : Type 0 where
  pub kernel_pool : Pool
  pub user_pool : Pool
  pub memory : ℕ → ℕ

-- `size_t` multiplication
abbrev pub mul_size : ℕ → ℕ → ℕ
mul_size a b = a * b % 2 ^ 32

-- `memset`
abbrev pub fill : (ℕ → ℕ) → ℕ → ℕ → ℕ → ℕ → ℕ
fill memory dst value size a = if leb dst a && ltb a (dst + size) then value else memory a

-- `true` chooses the user pool.
abbrev pub pool_of : Bool → Palloc → Pool
pool_of user st = if user then st.user_pool else st.kernel_pool

-- A new bitmap for one of the pools.
abbrev pub with_map : Bool → Palloc → Bitmap → Palloc
with_map true st m =
    let pool = st.user_pool in record st { user_pool = record pool { used_map = m } }
with_map false st m =
    let pool = st.kernel_pool in record st { kernel_pool = record pool { used_map = m } }

-- What follows the scan.
pub hand_out : PallocFlags → ℕ → ℕ → Palloc → Option (Palloc × ℕ)
hand_out flags page_cnt pages st =
    if not (pages == 0)
    then (if flags.pal_zero
        then some (record st { memory = fill st.memory pages 0 (mul_size pg_size page_cnt) }, pages)
        else some (st, pages))
    else if flags.pal_assert
    then none
    else some (st, pages)

-- `page_cnt` is not 0. The result is the address of the pages.
pub get_pages : PallocFlags → ℕ → Palloc → Option (Palloc × ℕ)
get_pages flags page_cnt st = do
  let pool = pool_of flags.pal_user st
  (m, page_idx) ← bitmap_scan_and_flip pool.used_map 0 page_cnt false
  let st' = with_map flags.pal_user st m
  let pages = add_size pool.base (mul_size pg_size page_idx)
  if not (page_idx == bitmap_error)
      then hand_out flags page_cnt pages st'
      else hand_out flags page_cnt 0 st'

pub palloc_get_multiple : PallocFlags → ℕ → Palloc → Option (Palloc × ℕ)
unfolding get_pages
palloc_get_multiple flags page_cnt st =
    if page_cnt == 0 then some (st, 0) else get_pages flags page_cnt st

pub palloc_get_page : PallocFlags → Palloc → Option (Palloc × ℕ)
palloc_get_page flags st = palloc_get_multiple flags 1 st

pub page_from_pool : Pool → ℕ → Bool
page_from_pool pool page =
    let page_no = pg_no page in
    let start_page = pg_no pool.base in
    let end_page = add_size start_page (bitmap_size pool.used_map) in
    leb start_page page_no && ltb page_no end_page

-- Which pool a page is from; `none` is NOT_REACHED.
pub owner : Palloc → ℕ → Option Bool
owner st pages =
    if page_from_pool st.kernel_pool pages
    then some false
    else if page_from_pool st.user_pool pages
    then some true
    else none

-- The pages are not NULL and `page_cnt` is not 0.
pub free_pages : ℕ → ℕ → Palloc → Option Palloc
free_pages pages page_cnt st = do
  user ← owner st pages
  let pool = pool_of user st
  let page_idx = pg_no pages - pg_no pool.base
  let cleared = fill st.memory pages 0xcc (mul_size pg_size page_cnt)
  used ← bitmap_all pool.used_map page_idx page_cnt
  assert used
  m ← bitmap_set_multiple pool.used_map page_idx page_cnt false
  some (with_map user (record st { memory = cleared }) m)

pub palloc_free_multiple : ℕ → ℕ → Palloc → Option Palloc
unfolding free_pages
palloc_free_multiple pages page_cnt st = do
  assert (pg_ofs pages == 0)
  if pages == 0 || page_cnt == 0 then some st else free_pages pages page_cnt st

pub palloc_free_page : ℕ → Palloc → Option Palloc
palloc_free_page page st = palloc_free_multiple page 1 st

-- `DIV_ROUND_UP (bitmap_buf_size (page_cnt), PGSIZE)`
abbrev pub map_pages : ℕ → ℕ
map_pages page_cnt = add_size (bitmap_buf_size page_cnt) (pg_size - 1) / pg_size

-- `words` is what the memory behind the bitmap's structure holds.
pub init_pool : ℕ → ℕ → List ℕ → Option Pool
init_pool base page_cnt words = do
  let bm_pages = map_pages page_cnt
  assert (leb bm_pages page_cnt)
  m ← bitmap_create_in_buf (page_cnt - bm_pages) words (mul_size bm_pages pg_size)
  some (record { used_map = m; base = add_size base (mul_size bm_pages pg_size) })

-- `(end - start) / PGSIZE` of two pointers, as a `size_t`.
abbrev pub page_diff : ℕ → ℕ → ℕ
page_diff end start =
    if leb start end then (end - start) / pg_size else (2 ^ 32 - (start - end) / pg_size) % 2 ^ 32

-- The two pools, for `init_ram_pages` pages of memory. `kernel_words` and `user_words` are what the
-- memory holds where the bitmaps go.
pub palloc_init : ℕ → ℕ → List ℕ → List ℕ → Option (Pool × Pool)
palloc_init init_ram_pages user_page_limit kernel_words user_words = do
  free_start ← ptov (1024 * 1024)
  free_end ← ptov (mul_size init_ram_pages pg_size)
  let free_pages = page_diff free_end free_start
  let half = free_pages / 2
  let user_pages = if ltb user_page_limit half then user_page_limit else half
  let kernel_pages = free_pages - user_pages
  kernel_pool ← init_pool free_start kernel_pages kernel_words
  user_pool ← init_pool (add_size free_start (mul_size kernel_pages pg_size)) user_pages user_words
  some (kernel_pool, user_pool)
