-- ===== src/Hash/Moving.antt =====
-- lib/kernel/hash.c: `rehash` moves the elements to the new buckets.
use cs162proj.Prelude.{
  ℕ, zero, suc, ◌+◌, ◌<◌, ◌≡◌, ◌∙◌, sym, refl, inl, inr, List, [], ◌∷◌, ◌++◌, All, get_or,
  replicate, Option, some, none, Bool, false, arith, if◌then◌else◌, Bool-cases,
}
use cs162proj.Hash.{bucket_idx, equal, find_elem, push_to, move_bucket, move_all}
use cs162proj.Hash.Buckets.{
  IsKey, IsUnique, or_else, find-append, find_misplaced, find_alike, all_unequal,
}
use cs162proj.Hash.Tables.{
  IsBuckets, IsBucket, search, empty-IsBuckets, push-IsBuckets, search-push, get_or-replicate,
}

abbrev concat : List (List ℕ) → List ℕ
concat [] = []
concat (l ∷ bs) = l ++ concat bs

or_else-none : (o : Option ℕ) → or_else o none ≡ o
or_else-none none = refl
or_else-none (some x) = refl

module _ (hash : ℕ → ℕ) (less : ℕ → ℕ → Bool) where
  module _ (key : IsKey hash less) where
    -- The elements of a list are moved one by one.
    move_bucket_lem :
        (cnt : ℕ) (l : List ℕ) (new : List (List ℕ))
        → IsBuckets hash less cnt new
        → IsUnique hash less l
        → All (λ x. search hash less cnt new x ≡ none) l
        → IsBuckets hash less cnt (move_bucket hash less cnt l new)
          × ((e : ℕ)
              → search hash less cnt (move_bucket hash less cnt l new) e
                ≡ or_else (find_elem hash less l e) (search hash less cnt new e))
    unfolding move_bucket find_elem
    move_bucket_lem cnt [] new b u fresh = (b, λ e. refl)
    move_bucket_lem cnt (x ∷ l) new b u fresh =
        let pushed = push_to hash less cnt x new in
        let b' = push-IsBuckets hash less cnt x new b fresh.0 in
        let (moved, view) =
          move_bucket_lem cnt l pushed b' u.1
            (still l (all_unequal hash less key l x u.0) fresh.1) in
        (moved, λ e. view e ∙ rw (search-push hash less key cnt x e new b) (first e))
      where
        still :
            (m : List ℕ)
            → All (λ y. equal hash less x y ≡ false) m
            → All (λ y. search hash less cnt new y ≡ none) m
            → All (λ y. search hash less cnt (push_to hash less cnt x new) y ≡ none) m
        still [] h a = tt
        still (y ∷ m) h a = (search-push hash less key cnt x y new b ∙ rw h.0 a.0, still m h.1 a.1)

        first :
            (e : ℕ)
            → or_else
                (find_elem hash less l e)
                (if equal hash less x e then some x else search hash less cnt new e)
              ≡ or_else
                  (if equal hash less x e then some x else find_elem hash less l e)
                  (search hash less cnt new e)
        first e = elim (Bool-cases (equal hash less x e)) [
          | inl t ↦ rw (t, ← find_alike hash less key x e l t, u.0) refl
          | inr f ↦ rw f refl
        ]

    move_all-concat :
        (cnt : ℕ) (old new : List (List ℕ))
        → move_all hash less cnt old new ≡ move_bucket hash less cnt (concat old) new
    unfolding move_all
    move_all-concat cnt [] new = refl
    move_all-concat cnt (l ∷ old) new =
        move_all-concat cnt old (move_bucket hash less cnt l new) ∙ sym (two_lists l new)
      where
        two_lists :
            (m : List ℕ) (bs : List (List ℕ))
            → move_bucket hash less cnt (m ++ concat old) bs
              ≡ move_bucket hash less cnt (concat old) (move_bucket hash less cnt m bs)
        two_lists [] bs = refl
        two_lists (x ∷ m) bs = two_lists m (push_to hash less cnt x bs)

    -- The buckets from the one with index `k` on.
    module _ (cnt : ℕ) where
      abbrev IsFrom : ℕ → List (List ℕ) → Type 0
      IsFrom k bs = (i : ℕ) → IsBucket hash less cnt (k + i) (get_or bs i [])

      later : (k : ℕ) (l : List ℕ) (bs : List (List ℕ)) → IsFrom k (l ∷ bs) → IsFrom (suc k) bs
      later k l bs b i = let e : suc k + i ≡ k + suc i = omega arith in rw e (b (suc i))

      none_before :
          (k e : ℕ) (bs : List (List ℕ))
          → IsFrom k bs
          → bucket_idx hash less cnt e < k
          → find_elem hash less (concat bs) e ≡ none
      unfolding find_elem
      none_before k e [] b h = refl
      none_before k e (l ∷ bs) b h =
          find-append hash less l (concat bs) e
          ∙ rw
              (
                find_misplaced hash less key cnt (k + 0) e l (b 0).0 (λ i. omega arith),
                none_before (suc k) e bs (later k l bs b) (omega arith),
              )
              refl

      find-concat :
          (k j e : ℕ) (bs : List (List ℕ))
          → IsFrom k bs
          → bucket_idx hash less cnt e ≡ k + j
          → find_elem hash less (concat bs) e ≡ find_elem hash less (get_or bs j []) e
      unfolding find_elem
      find-concat k j e [] b h = refl
      find-concat k zero e (l ∷ bs) b h =
          find-append hash less l (concat bs) e
          ∙ rw (none_before (suc k) e bs (later k l bs b) (omega arith))
              (or_else-none (find_elem hash less l e))
      find-concat k (suc j) e (l ∷ bs) b h =
          find-append hash less l (concat bs) e
          ∙ rw (find_misplaced hash less key cnt (k + 0) e l (b 0).0 (λ i. omega arith))
              (find-concat (suc k) j e bs (later k l bs b) (omega arith))

      concat-IsUnique : (k : ℕ) (bs : List (List ℕ)) → IsFrom k bs → IsUnique hash less (concat bs)
      concat-IsUnique k [] b = tt
      concat-IsUnique k (l ∷ bs) b =
          joined (concat-IsUnique (suc k) bs (later k l bs b)) l (b 0).1 (b 0).0
        where
          joined :
              IsUnique hash less (concat bs)
              → (m : List ℕ) → IsUnique hash less m
              → All (λ x. bucket_idx hash less cnt x ≡ k + 0) m
              → IsUnique hash less (m ++ concat bs)
          joined whole [] u p = whole
          joined whole (x ∷ m) u p = (
            find-append hash less m (concat bs) x
                ∙ rw (u.0, none_before (suc k) x bs (later k l bs b) (omega (arith, p.0))) refl,
            joined whole m u.1 p.1,
          )

    -- Moving every element to empty buckets changes no search.
    pub move_all_lem :
        (cnt cnt' : ℕ) (old : List (List ℕ))
        → IsBuckets hash less cnt old
        → 0 < cnt'
        → IsBuckets hash less cnt' (move_all hash less cnt' old (replicate cnt' []))
          × ((e : ℕ)
              → search hash less cnt' (move_all hash less cnt' old (replicate cnt' [])) e
                ≡ search hash less cnt old e)
    unfolding find_elem
    move_all_lem cnt cnt' old b h =
        let from : (i : ℕ) → IsBucket hash less cnt (0 + i) (get_or old i []) =
          λ i. let e : 0 + i ≡ i = omega arith in rw e (b.each i) in
        let fresh = empty-IsBuckets hash less cnt' h in
        let unique = concat-IsUnique cnt 0 old from in
        let (moved, view) =
          move_bucket_lem cnt' (concat old) (replicate cnt' []) fresh unique
            (all_none (concat old)) in
        rw (move_all-concat cnt' old (replicate cnt' [])) (
          moved,
          λ e.
              view e
              ∙ rw
                  (
                    find-concat cnt 0 (bucket_idx hash less cnt e) e old from (omega arith),
                    nothing_found e,
                  )
                  (or_else-none (search hash less cnt old e)),
        )
      where
        nothing_found : (e : ℕ) → search hash less cnt' (replicate cnt' []) e ≡ none
        nothing_found e = rw (get_or-replicate cnt' (bucket_idx hash less cnt' e)) refl

        all_none : (l : List ℕ) → All (λ x. search hash less cnt' (replicate cnt' []) x ≡ none) l
        all_none [] = tt
        all_none (x ∷ l) = (nothing_found x, all_none l)
