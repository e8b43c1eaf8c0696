-- ===== src/Palloc/Init.antt =====
-- threads/palloc.c: the two pools that palloc_init makes.
use cs162proj.Prelude.{
  ℕ, ◌+◌, ◌*◌, ◌%◌, ◌/◌, ◌-◌, ◌^◌, ◌≤◌, ◌<◌, ◌≡◌, refl, some, List, ltb, if◌then◌else◌, arith,
  le→leb, lt→ltb,
}
use cs162proj.Bitmap.{Bitmap, bitmap_create_in_buf}
use cs162proj.Bitmap.Create.{IsRoom, IsEmpty, create_in_buf_lem}
use cs162proj.Palloc.{Pool, pg_size, page_diff, phys_base, map_pages, init_pool, palloc_init}
use cs162proj.Palloc.Pages.{IsPool, IsPalloc}

-- A pool made at `base` from `page_cnt` pages: all that its bitmap leaves, all free.
pub record IsFresh (base page_cnt : ℕ) (p : Pool) : Type 0 where
  pub valid : IsPool p
  pub empty : IsEmpty (page_cnt - map_pages page_cnt) p.used_map
  pub behind : p.base ≡ base + pg_size * map_pages page_cnt
  pub room : map_pages page_cnt ≤ page_cnt

map_pages-le : (n : ℕ) → 0 < n → n < 2 ^ 19 → map_pages n ≤ n
map_pages-le n h k = omega arith

pool_run :
    (base page_cnt : ℕ) (words : List ℕ) (bm_pages : ℕ) (m : Bitmap)
    → map_pages page_cnt ≡ bm_pages
    → bm_pages ≤ page_cnt
    → base + pg_size * page_cnt < 2 ^ 32
    → bitmap_create_in_buf (page_cnt - bm_pages) words (bm_pages * pg_size) ≡ some m
    → init_pool base page_cnt words
      ≡ some (record { used_map = m; base = base + bm_pages * pg_size })
unfolding init_pool
pool_run base page_cnt words bm_pages m e enough fits done =
    let size : bm_pages * pg_size % 2 ^ 32 ≡ bm_pages * pg_size = omega arith in
    let start : (base + bm_pages * pg_size) % 2 ^ 32 ≡ base + bm_pages * pg_size = omega arith in
    rw (e, le→leb _ _ enough, size, done, start)

-- How many pages the user pool is given.
abbrev pub user_share : ℕ → ℕ → ℕ
user_share init_ram_pages limit =
    let half = (init_ram_pages - 256) / 2 in if ltb limit half then limit else half

-- `palloc_init` once the two pools are known.
init_run :
    (init_ram_pages limit users kernels : ℕ) (kernel_words user_words : List ℕ) (k u : Pool)
    → 256 ≤ init_ram_pages
    → init_ram_pages < 2 ^ 18
    → user_share init_ram_pages limit ≡ users
    → init_ram_pages - 256 - users ≡ kernels
    → init_pool (phys_base + 1024 * 1024) kernels kernel_words ≡ some k
    → init_pool (phys_base + 1024 * 1024 + pg_size * kernels) users user_words ≡ some u
    → palloc_init init_ram_pages limit kernel_words user_words ≡ some (k, u)
unfolding palloc_init
init_run init_ram_pages limit users kernels kernel_words user_words k u h small e f made_k made_u =
    let bytes : init_ram_pages * pg_size % 2 ^ 32 ≡ init_ram_pages * pg_size = omega arith in
    let end : (init_ram_pages * pg_size + phys_base) % 2 ^ 32
        ≡ init_ram_pages * pg_size + phys_base =
      omega arith in
    let pages : page_diff (init_ram_pages * pg_size + phys_base) (phys_base + 1024 * 1024)
        ≡ init_ram_pages - 256 =
      ground arith in
    let second : (phys_base + 1024 * 1024 + kernels * pg_size % 2 ^ 32) % 2 ^ 32
        ≡ phys_base + 1024 * 1024 + pg_size * kernels =
      omega arith in
    rw (
      bytes,
      lt→ltb (init_ram_pages * pg_size) phys_base (omega arith),
      end,
      pages,
      e,
      f,
      made_k,
      second,
      made_u,
    )

pub init_pool_lem :
    (base page_cnt : ℕ) (words : List ℕ)
    → 0 < page_cnt
    → page_cnt < 2 ^ 19
    → base % pg_size ≡ 0
    → 0 < base
    → base + pg_size * page_cnt < 2 ^ 32
    → IsRoom (page_cnt - map_pages page_cnt) words
    → (p : Pool) × (init_pool base page_cnt words ≡ some p) × IsFresh base page_cnt p
unfolding init_pool
init_pool_lem base page_cnt words pos small aligned high fits room =
    let enough = map_pages-le page_cnt pos small in
    let (m, done, e) =
      create_in_buf_lem (page_cnt - map_pages page_cnt) words (map_pages page_cnt * pg_size) room
        (omega arith) in
    (
      record { used_map = m; base = base + map_pages page_cnt * pg_size },
      pool_run base page_cnt words (map_pages page_cnt) m refl enough (omega arith) done,
      record {
        valid = record {
          map = e.valid;
          aligned = omega arith;
          high = omega arith;
          fits = omega (arith, e.size);
        };
        empty = e;
        behind = omega arith;
        room = enough;
      },
    )

-- For 258 pages of memory at least and less than 1 GB, a limit of 1 at least, and storage
-- for the bitmaps: palloc_init does not panic. The kernel's pool begins at 1 MB and the user's
-- behind it, each behind the pages of its bitmap; both have all their pages free.
pub palloc_init_lem :
    (init_ram_pages limit : ℕ) (kernel_words user_words : List ℕ)
    → 258 ≤ init_ram_pages
    → init_ram_pages < 2 ^ 18
    → 0 < limit
    → let users = user_share init_ram_pages limit in
      let kernels = init_ram_pages - 256 - users in
      let start = phys_base + 1024 * 1024 in
      IsRoom (kernels - map_pages kernels) kernel_words
      → IsRoom (users - map_pages users) user_words
      → (k : Pool) × (u : Pool) × (palloc_init init_ram_pages limit kernel_words user_words
          ≡ some (k, u))
        × IsFresh start kernels k
        × IsFresh (start + pg_size * kernels) users u
        × ((memory : ℕ → ℕ) → IsPalloc (record { kernel_pool = k; user_pool = u; memory = memory }))
palloc_init_lem init_ram_pages limit kernel_words user_words h small pos room_k room_u =
    let users = user_share init_ram_pages limit in
    let kernels = init_ram_pages - 256 - users in
    let start : ℕ = phys_base + 1024 * 1024 in
    let bounds : (0 < users) × (2 * users ≤ init_ram_pages - 256) = ground arith in
    let (k, made_k, fresh_k) =
      init_pool_lem start kernels kernel_words (omega (arith, bounds.1)) (omega arith) (omega arith)
        (omega arith) (omega arith) room_k in
    let (u, made_u, fresh_u) =
      init_pool_lem (start + pg_size * kernels) users user_words bounds.0 (omega (arith, bounds.1))
        (omega arith) (omega arith) (omega (arith, bounds.1)) room_u in
    (
      k,
      u,
      init_run init_ram_pages limit users kernels kernel_words user_words k u (omega arith) small
          refl refl made_k made_u,
      fresh_k,
      fresh_u,
      λ memory. record {
        kernel = fresh_k.valid;
        user = fresh_u.valid;
        apart = omega (arith, fresh_k.behind, fresh_k.empty.size, fresh_k.room, fresh_u.behind);
      },
    )
