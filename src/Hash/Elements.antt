-- ===== src/Hash/Elements.antt =====
-- lib/kernel/hash.c: valid tables, and what insert_elem, remove_elem and rehash do to one.
use native.Mathlib.Nat.{one-le-pow}
use cs162proj.Prelude.{
  ◌+◌, sym, ℕ, zero, suc, ◌<◌, ◌^◌, ◌≡◌, ◌∙◌, ap, refl, inl, inr, List, [], ◌∷◌, some, none, Bool,
  true, false, arith, ◌==◌, if◌then◌else◌, Bool-cases, length, replicate, length-replicate,
}
use cs162proj.Hash.{
  Hash, wanted, equal, find_bucket, insert_elem, remove_elem, rehash, hash_find, hash_init,
  hash_clear, clear_loop, hash_size,
}
use cs162proj.Hash.Rounding.{round_loop_lem}
use cs162proj.Hash.Counts.{total, total-push, total-replicate, total-move_all, total-without_all}
use cs162proj.Hash.Buckets.{
  IsKey, found_itself, found-equal, bucket_idx_alike, equal_to_both, find_alike,
}
use cs162proj.Hash.Moving.{move_all_lem}
use cs162proj.Hash.Tables.{
  IsBuckets, search, empty-IsBuckets, push-IsBuckets, without-IsBuckets, search-push,
  search-without,
}

wanted-le : (n : ℕ) → 0 < wanted n
wanted-le n = ground arith

module _ (hash : ℕ → ℕ) (less : ℕ → ℕ → Bool) where
  -- Every element is in its bucket, no two are equal, and `elem_cnt` counts them.
  abbrev pub IsTable : Hash → Type 0
  IsTable h = IsBuckets hash less h.bucket_cnt h.buckets × (h.elem_cnt ≡ total h.buckets)

  clear_loop-empty :
      (n : ℕ) (bs : List (List ℕ)) → length bs ≡ n → (clear_loop false bs).0 ≡ replicate n []
  unfolding clear_loop
  clear_loop-empty zero [] h = refl
  clear_loop-empty zero (l ∷ bs) h = absurd (omega arith)
  clear_loop-empty (suc n) [] h = absurd (omega arith)
  clear_loop-empty (suc n) (l ∷ bs) h = ap (λ t. [] ∷ t) (clear_loop-empty n bs (omega arith))

  -- With memory for four buckets, hash_init makes a table without elements.
  hash_init_lem :
      (block : List (List ℕ))
      → length block ≡ 4
      → (h : Hash) × (hash_init (some block) ≡ some h) × IsTable h × (hash_size h ≡ 0)
  unfolding hash_init hash_clear hash_size
  hash_init_lem block h = (
    _,
    refl,
    rw (clear_loop-empty 4 block h)
        (empty-IsBuckets hash less 4 (omega arith), sym (total-replicate 4)),
    refl,
  )

  module _ (key : IsKey hash less) where
    -- A rehash ends, and finds what was found before.
    pub rehash_lem :
        (got : Bool) (h : Hash)
        → IsTable h
        → (h' : Hash) × (rehash hash less got h ≡ some h')
          × IsTable h'
          × ((e : ℕ) → hash_find hash less h' e ≡ hash_find hash less h e)
    unfolding rehash hash_find find_bucket
    rehash_lem got h b =
        let (k, e, low, high) = round_loop_lem (wanted h.elem_cnt) (wanted-le h.elem_cnt) in
        let (moved, view) =
          move_all_lem hash less key h.bucket_cnt (2 ^ k) h.buckets b.0
            (one-le-pow k 2 (omega arith)) in
        let count =
          total-move_all hash less (2 ^ k) h.buckets (replicate (2 ^ k) [])
            (one-le-pow k 2 (omega arith)) (length-replicate (2 ^ k) []) in
        let counted = b.1 ∙ omega (arith, count, total-replicate (2 ^ k)) in
        rw e (elim (Bool-cases (2 ^ k == h.bucket_cnt)) [
          | inl s ↦ rw s (h, refl, b, λ x. refl)
          | inr s ↦ elim (Bool-cases got) [
            | inl g ↦ rw (s, g) (_, refl, (moved, counted), view)
            | inr g ↦ rw (s, g) (h, refl, b, λ x. refl)
          ]
        ])

    pub insert_elem_lem :
        (h : Hash) (new : ℕ)
        → IsTable h
        → h.elem_cnt + 1 < 2 ^ 32
        → hash_find hash less h new ≡ none
        → IsTable (insert_elem hash less h new)
          × ((e : ℕ)
              → hash_find hash less (insert_elem hash less h new) e
                ≡ (if equal hash less new e then some new else hash_find hash less h e))
    unfolding insert_elem hash_find find_bucket
    insert_elem_lem h new b bound absent = (
      (
        push-IsBuckets hash less h.bucket_cnt new h.buckets b.0 absent,
        omega (
          arith,
          b.1,
          bound,
          total-push hash less h.bucket_cnt new h.buckets b.0.some_buckets b.0.size,
        ),
      ),
      λ e. search-push hash less key h.bucket_cnt new e h.buckets b.0,
    )

    pub remove_elem_lem :
        (h : Hash) (e x : ℕ)
        → IsTable h
        → h.elem_cnt < 2 ^ 32
        → hash_find hash less h e ≡ some x
        → IsTable (remove_elem hash less h x)
          × ((remove_elem hash less h x).elem_cnt < h.elem_cnt)
          × ((c : ℕ)
              → hash_find hash less (remove_elem hash less h x) c
                ≡ (if equal hash less e c then none else hash_find hash less h c))
    unfolding remove_elem hash_find find_bucket
    remove_elem_lem h e x b bound at =
        let same = found-equal hash less key _ e x at in
        let itself : search hash less h.bucket_cnt h.buckets x ≡ some x =
          rw (bucket_idx_alike hash less key h.bucket_cnt x e same)
            (found_itself hash less key _ e x at) in
        let count = total-without_all hash less key h.bucket_cnt x h.buckets b.0 itself in
        (
          (
            without-IsBuckets hash less h.bucket_cnt x h.buckets b.0,
            omega (arith, b.1, bound, count),
          ),
          omega (arith, b.1, bound, count),
          λ c.
              search-without hash less key h.bucket_cnt x c h.buckets b.0 itself
              ∙ ap (λ t. if t then none else search hash less h.bucket_cnt h.buckets c)
                  (equal_to_both hash less key x e c same),
        )

    pub find_same :
        (h : Hash) (a b : ℕ)
        → equal hash less a b ≡ true
        → hash_find hash less h a ≡ hash_find hash less h b
    unfolding hash_find find_bucket
    find_same h a b t =
        rw (bucket_idx_alike hash less key h.bucket_cnt a b t) (find_alike hash less key a b _ t)
