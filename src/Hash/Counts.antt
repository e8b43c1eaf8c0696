-- ===== src/Hash/Counts.antt =====
-- lib/kernel/hash.c: how many elements the buckets hold, which `elem_cnt` counts.
use cs162proj.Prelude.{
  ℕ, zero, suc, ◌+◌, ◌<◌, ◌≡◌, ◌≢◌, ◌∙◌, ap, refl, inl, inr, List, [], ◌∷◌, length, get_or, set,
  length-set, replicate, some, none, Bool, arith, ◌==◌, Bool-cases, ==_iff,
}
use cs162proj.Hash.{
  bucket_idx, equal, find_elem, push_to, without, without_all, move_bucket, move_all,
}
use cs162proj.Hash.Buckets.{IsKey, IsUnique, find_misplaced, bucket_idx-lt, without_absent}
use cs162proj.Hash.Tables.{IsBuckets, search}

abbrev pub total : List (List ℕ) → ℕ
total [] = 0
total (l ∷ bs) = length l + total bs

total-set :
    (bs : List (List ℕ)) (i x : ℕ)
    → i < length bs
    → total (set bs i (x ∷ get_or bs i [])) ≡ suc (total bs)
total-set [] i x h = absurd (omega arith)
total-set (l ∷ bs) zero x h = omega arith
total-set (l ∷ bs) (suc i) x h = omega (arith, total-set bs i x (omega arith))

pub total-replicate : (n : ℕ) → total (replicate n []) ≡ 0
total-replicate zero = refl
total-replicate (suc n) = omega (arith, total-replicate n)

module _ (hash : ℕ → ℕ) (less : ℕ → ℕ → Bool) where
  length-push : (cnt x : ℕ) (bs : List (List ℕ)) → length (push_to hash less cnt x bs) ≡ length bs
  unfolding push_to
  length-push cnt x bs = length-set bs _ _

  pub total-push :
      (cnt x : ℕ) (bs : List (List ℕ))
      → 0 < cnt
      → length bs ≡ cnt
      → total (push_to hash less cnt x bs) ≡ suc (total bs)
  unfolding push_to
  total-push cnt x bs p h =
      total-set bs (bucket_idx hash less cnt x) x
        (omega (arith, h, bucket_idx-lt hash less cnt x p))

  total-move_bucket :
      (cnt : ℕ) (l : List ℕ) (new : List (List ℕ))
      → 0 < cnt
      → length new ≡ cnt
      → (length (move_bucket hash less cnt l new) ≡ cnt)
        × (total (move_bucket hash less cnt l new) ≡ length l + total new)
  unfolding move_bucket
  total-move_bucket cnt [] new p h = (h, omega arith)
  total-move_bucket cnt (x ∷ l) new p h =
      let (size, count) =
        total-move_bucket cnt l (push_to hash less cnt x new) p (length-push cnt x new ∙ h) in
      (size, omega (arith, count, total-push cnt x new p h))

  pub total-move_all :
      (cnt : ℕ) (old new : List (List ℕ))
      → 0 < cnt
      → length new ≡ cnt
      → total (move_all hash less cnt old new) ≡ total old + total new
  unfolding move_all
  total-move_all cnt [] new p h = omega arith
  total-move_all cnt (l ∷ old) new p h =
      let (size, count) = total-move_bucket cnt l new p h in
      omega (arith, count, total-move_all cnt old (move_bucket hash less cnt l new) p size)

  module _ (key : IsKey hash less) where
    length-without :
        (l : List ℕ) (x : ℕ)
        → IsUnique hash less l
        → find_elem hash less l x ≡ some x
        → suc (length (without x l)) ≡ length l
    unfolding find_elem
    length-without [] x u h = absurd (cc)
    length-without (y ∷ l) x u h = elim (Bool-cases (y == x)) [
      | inl t ↦
          let i : y ≡ x = (==_iff y x).0 t in
          let gone : find_elem hash less l x ≡ none = rw (← i) u.0 in
          rw (t, without_absent hash less key l x gone) refl
      | inr f ↦ elim (Bool-cases (equal hash less y x)) [
        | inl t ↦ let h' = rw t at h in let i : y ≡ x = cc in absurd (ground (arith, i, f))
        | inr s ↦ let h' = rw s at h in rw f (ap suc (length-without l x u.1 h'))
      ]
    ]

    total_absent :
        (bs : List (List ℕ)) (x : ℕ)
        → ((j : ℕ) → find_elem hash less (get_or bs j []) x ≡ none)
        → total (without_all x bs) ≡ total bs
    total_absent [] x h = refl
    total_absent (l ∷ bs) x h =
        rw (without_absent hash less key l x (h 0))
          (ap (λ t. length l + t) (total_absent bs x (λ j. h (suc j))))

    total_one :
        (bs : List (List ℕ)) (i x : ℕ)
        → IsUnique hash less (get_or bs i [])
        → find_elem hash less (get_or bs i []) x ≡ some x
        → ((j : ℕ) → i ≢ j → find_elem hash less (get_or bs j []) x ≡ none)
        → suc (total (without_all x bs)) ≡ total bs
    unfolding find_elem
    total_one [] i x u h n = absurd (cc)
    total_one (l ∷ bs) zero x u h n =
        omega (arith, length-without l x u h, total_absent bs x (λ j. n (suc j) (λ e. omega arith)))
    total_one (l ∷ bs) (suc i) x u h n =
        rw (without_absent hash less key l x (n 0 (λ e. omega arith)))
          (omega (arith, total_one bs i x u h (λ j a. n (suc j) (λ e. a (omega arith)))))

    pub total-without_all :
        (cnt x : ℕ) (bs : List (List ℕ))
        → IsBuckets hash less cnt bs
        → search hash less cnt bs x ≡ some x
        → suc (total (without_all x bs)) ≡ total bs
    total-without_all cnt x bs b h =
        let i = bucket_idx hash less cnt x in
        total_one bs i x (b.each i).1 h
          (λ j n. find_misplaced hash less key cnt j x (get_or bs j []) (b.each j).0 n)
