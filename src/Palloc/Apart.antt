-- ===== src/Palloc/Apart.antt =====
-- threads/palloc.c: pages in use at the same time do not overlap.
use cs162proj.Prelude.{
  ℕ, ◌+◌, ◌*◌, ◌≤◌, ◌<◌, ◌≡◌, ◌≢◌, ◌⊎◌, max, ◌∙◌, refl, some, Bool, true, false, leb, arith,
  Bool-cases, inl, inr,
}
use cs162proj.Bitmap.{test_bit}
use cs162proj.Bitmap.Ranges.{in_range}
use cs162proj.Palloc.{PallocFlags, Palloc, pg_size, pool_of, palloc_get_multiple}
use cs162proj.Palloc.Pages.{IsPalloc}
use cs162proj.Palloc.Free.{got_lem, no_pages}

-- Two groups of pages, of one pool or of both, do not overlap.
apart_groups :
    (u1 u2 : Bool) (st : Palloc) (i j m n : ℕ)
    → IsPalloc st
    → i + m ≤ (pool_of u1 st).used_map.bit_cnt
    → j + n ≤ (pool_of u2 st).used_map.bit_cnt
    → (u1 ≡ u2 → (i + m ≤ j) ⊎ (j + n ≤ i))
    → ((pool_of u1 st).base + pg_size * i + pg_size * m ≤ (pool_of u2 st).base + pg_size * j)
      ⊎ ((pool_of u2 st).base + pg_size * j + pg_size * n ≤ (pool_of u1 st).base + pg_size * i)
apart_groups true true st i j m n v p q h = elim (h refl) [
  | inl l ↦ inl (omega arith)
  | inr r ↦ inr (omega arith)
]
apart_groups false false st i j m n v p q h = elim (h refl) [
  | inl l ↦ inl (omega arith)
  | inr r ↦ inr (omega arith)
]
apart_groups true false st i j m n v p q h = inr (omega (arith, v.apart))
apart_groups false true st i j m n v p q h = inl (omega (arith, v.apart))

-- A group that is in use and one that is free do not overlap.
used_free :
    (f : ℕ → Bool) (i j m n : ℕ)
    → 0 < m
    → 0 < n
    → ((k : ℕ) → in_range i m k ≡ true → f k ≡ true)
    → ((k : ℕ) → in_range j n k ≡ true → f k ≡ false)
    → (i + m ≤ j) ⊎ (j + n ≤ i)
used_free f i j m n p q used free = elim (Bool-cases (leb (i + m) j)) [
  | inl before ↦ inl (ground arith)
  | inr a ↦ elim (Bool-cases (leb (j + n) i)) [
    | inl behind ↦ inr (ground arith)
    | inr b ↦
        let set_bit = used (max i j) (ground arith) in
        let clear_bit = free (max i j) (ground arith) in absurd (ground arith)
  ]
]

-- Pages handed out by palloc_get_multiple in a valid allocator, and others handed out by the next
-- call, with any flags: the two ranges of addresses have no byte in common.
pub get_twice :
    (flags flags' : PallocFlags) (m n : ℕ) (st st' st'' : Palloc) (p q : ℕ)
    → IsPalloc st
    → palloc_get_multiple flags m st ≡ some (st', p)
    → palloc_get_multiple flags' n st' ≡ some (st'', q)
    → p ≢ 0
    → q ≢ 0
    → (p + pg_size * m ≤ q) ⊎ (q + pg_size * n ≤ p)
get_twice flags flags' m n st st' st'' p q v e e' real real' =
    let u = flags.pal_user in
    let u' = flags'.pal_user in
    let (i, place, o) = got_lem flags m st st' p v e real in
    let (j, place', o') = got_lem flags' n st' st'' q o.valid e' real' in
    let used : (k : ℕ) → in_range i m k ≡ true → test_bit (pool_of u st').used_map k ≡ true =
      λ k r. o.marked.tests k ∙ ground (arith, r) in
    let free : (k : ℕ) → in_range j n k ≡ true → test_bit (pool_of u' st').used_map k ≡ false =
      λ k r. ground (arith, o'.first.group k, r) in
    let at : p ≡ (pool_of u st').base + pg_size * i = omega (arith, place, o.same_base) in
    rw (at, place')
      (apart_groups u u' st' i j m n o.valid (omega (arith, o.inside, o.marked.size)) o'.inside
        (λ same.
          used_free (test_bit (pool_of u st').used_map) i j m n (no_pages flags m st st' p e real)
            (no_pages flags' n st' st'' q e' real') used (rw same free)))
