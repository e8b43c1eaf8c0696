-- ===== src/Palloc/Tests.antt =====
-- The theorems on threads/palloc.c at two small pools.
use cs162proj.Prelude.{
  ℕ, ◌+◌, ◌*◌, ◌≤◌, ◌≡◌, ◌⊎◌, refl, [], ◌∷◌, some, true, false, replicate, arith,
}
use cs162proj.Bitmap.{
  test_bit, bitmap_scan_and_flip, bitmap_scan, scan_loop, bitmap_contains, contains_loop,
  bitmap_test, bitmap_set_multiple, set_loop, bitmap_set, bitmap_mark,
}
use cs162proj.Palloc.{
  Pool, PallocFlags, Palloc, pg_size, phys_base, pool_of, palloc_get_multiple, get_pages, hand_out,
  palloc_free_multiple, palloc_init,
}
use cs162proj.Palloc.Pages.{IsPalloc, asked, Outcome, free_group, palloc_get_multiple_lem}
use cs162proj.Palloc.Free.{get-free}
use cs162proj.Palloc.Apart.{get_twice}
use cs162proj.Palloc.Init.{IsFresh, palloc_init_lem}

-- Pages 0, 1, 2, 4 and 33 of 40 of the kernel's pool are in use, and page 0 of 8 of the user's.
abbrev two_pools : Palloc
two_pools = record {
  kernel_pool = record {
    used_map = record { bit_cnt = 40; bits = 0x17 ∷ 0x2 ∷ [] };
    base = 0xc0101000;
  };
  user_pool = record { used_map = record { bit_cnt = 8; bits = 1 ∷ [] }; base = 0xc0200000 };
  memory = λ a. 7;
}

two_pools-IsPalloc : IsPalloc two_pools
two_pools-IsPalloc = omega arith

abbrev plain : PallocFlags
plain = record { pal_assert = false; pal_zero = false; pal_user = false }

abbrev for_user : PallocFlags
for_user = record { pal_assert = true; pal_zero = false; pal_user = true }

abbrev after_one : Palloc
after_one = record {
  kernel_pool = record {
    used_map = record { bit_cnt = 40; bits = 0xf7 ∷ 0x2 ∷ [] };
    base = 0xc0101000;
  };
  user_pool = record { used_map = record { bit_cnt = 8; bits = 1 ∷ [] }; base = 0xc0200000 };
  memory = λ a. 7;
}

abbrev after_two : Palloc
after_two = record {
  kernel_pool = record {
    used_map = record { bit_cnt = 40; bits = 0xf7 ∷ 0x2 ∷ [] };
    base = 0xc0101000;
  };
  user_pool = record { used_map = record { bit_cnt = 8; bits = 7 ∷ [] }; base = 0xc0200000 };
  memory = λ a. 7;
}

palloc_get_multiple_example : Outcome plain 3 two_pools (free_group plain 3 two_pools)
palloc_get_multiple_example =
    palloc_get_multiple_lem plain 3 two_pools two_pools-IsPalloc (omega arith)

get-free_example :
    (st'' : Palloc) × (palloc_free_multiple 0xc0106000 3 after_one ≡ some st'')
    × ((j : ℕ)
        → test_bit (asked plain st'').used_map j ≡ test_bit (asked plain two_pools).used_map j)
    × ((asked plain st'').base ≡ (asked plain two_pools).base)
    × (pool_of true st'' ≡ pool_of true two_pools)
    × IsPalloc st''
unfolding palloc_get_multiple get_pages hand_out bitmap_scan_and_flip bitmap_scan scan_loop
    bitmap_contains contains_loop bitmap_test test_bit bitmap_set_multiple set_loop bitmap_set
    bitmap_mark
get-free_example =
    get-free plain 3 two_pools after_one 0xc0106000 two_pools-IsPalloc refl (omega arith)

get_twice_example :
    (0xc0106000 + pg_size * 3 ≤ 0xc0201000) ⊎ (0xc0201000 + pg_size * 2 ≤ 0xc0106000)
unfolding palloc_get_multiple get_pages hand_out bitmap_scan_and_flip bitmap_scan scan_loop
    bitmap_contains contains_loop bitmap_test test_bit bitmap_set_multiple set_loop bitmap_set
    bitmap_mark
get_twice_example =
    get_twice plain for_user 3 2 two_pools after_one after_two 0xc0106000 0xc0201000
      two_pools-IsPalloc refl refl (omega arith) (omega arith)

-- 4 MB of memory.
palloc_init_example :
    (k : Pool) × (u : Pool) × (palloc_init 1024 2000 (replicate 24 5) (replicate 24 9)
      ≡ some (k, u))
    × IsFresh (phys_base + 1024 * 1024) 384 k
    × IsFresh (phys_base + 1024 * 1024 + pg_size * 384) 384 u
    × ((memory : ℕ → ℕ) → IsPalloc (record { kernel_pool = k; user_pool = u; memory = memory }))
palloc_init_example =
    palloc_init_lem 1024 2000 (replicate 24 5) (replicate 24 9) (omega arith) (omega arith)
      (omega arith) (omega arith) (omega arith)
