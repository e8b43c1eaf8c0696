-- ===== src/Hash/Tables.antt =====
-- lib/kernel/hash.c: the buckets of a table, and the search in them when elements come and go.
use cs162proj.Prelude.{
  ℕ, zero, suc, ◌<◌, ◌≡◌, ◌∙◌, ap, refl, inl, inr, List, [], ◌∷◌, All, length, get_or,
  get_or-set_self, get_or-set_ne, length-set, replicate, length-replicate, Option, some, none, Bool,
  ◌==◌, if◌then◌else◌, Bool-cases, ==_iff, ==_apart,
}
use cs162proj.Hash.{bucket_idx, equal, find_elem, push_to, without_all}
use cs162proj.Hash.Buckets.{
  IsKey, IsUnique, find-push, find_misplaced, bucket_idx-lt, find-without, without-IsUnique,
  at-without_all, length-without_all, All-without, without_absent, apart-unequal,
}

pub get_or-replicate : (n i : ℕ) → get_or {A = List ℕ} (replicate n []) i [] ≡ []
get_or-replicate zero i = refl
get_or-replicate (suc n) zero = refl
get_or-replicate (suc n) (suc i) = get_or-replicate n i

module _ (hash : ℕ → ℕ) (less : ℕ → ℕ → Bool) where
  -- The elements of a bucket belong in it, and no two are equal.
  abbrev pub IsBucket : ℕ → ℕ → List ℕ → Type 0
  IsBucket cnt i l = All (λ x. bucket_idx hash less cnt x ≡ i) l × IsUnique hash less l

  pub record IsBuckets (cnt : ℕ) (bs : List (List ℕ)) : Type 0 where
    pub some_buckets : 0 < cnt
    pub size : length bs ≡ cnt
    pub each : (i : ℕ) → IsBucket cnt i (get_or bs i [])

  -- The search in the bucket that the element belongs in.
  abbrev pub search : ℕ → List (List ℕ) → ℕ → Option ℕ
  search cnt bs e = find_elem hash less (get_or bs (bucket_idx hash less cnt e) []) e

  pub empty-IsBuckets : (cnt : ℕ) → 0 < cnt → IsBuckets cnt (replicate cnt [])
  empty-IsBuckets cnt h = record {
    some_buckets = h;
    size = length-replicate cnt [];
    each = λ i. rw (get_or-replicate cnt i) (tt, tt);
  }

  pub push-IsBuckets :
      (cnt x : ℕ) (bs : List (List ℕ))
      → IsBuckets cnt bs
      → search cnt bs x ≡ none
      → IsBuckets cnt (push_to hash less cnt x bs)
  unfolding push_to
  push-IsBuckets cnt x bs b fresh =
      let i = bucket_idx hash less cnt x in
      let inside : i < length bs = rw b.size (bucket_idx-lt hash less cnt x b.some_buckets) in
      record {
        some_buckets = b.some_buckets;
        size = length-set bs i (x ∷ get_or bs i []) ∙ b.size;
        each = λ j. elim (Bool-cases (i == j)) [
          | inl s ↦
              let s' = (==_iff i j).0 s in
              rw (← s', get_or-set_self bs i (x ∷ get_or bs i []) [] inside)
                ((refl, (b.each i).0), (fresh, (b.each i).1))
          | inr s ↦ rw (get_or-set_ne bs i j (x ∷ get_or bs i []) [] (==_apart i j s)) (b.each j)
        ];
      }

  pub without-IsBuckets :
      (cnt x : ℕ) (bs : List (List ℕ)) → IsBuckets cnt bs → IsBuckets cnt (without_all x bs)
  without-IsBuckets cnt x bs b = record {
    some_buckets = b.some_buckets;
    size = length-without_all hash less bs x ∙ b.size;
    each = λ i. rw (at-without_all hash less bs x i) (
      All-without hash less (λ y. bucket_idx hash less cnt y ≡ i) (get_or bs i []) x (b.each i).0,
      without-IsUnique hash less (get_or bs i []) x (b.each i).1,
    );
  }

  module _ (key : IsKey hash less) where
    pub search-push :
        (cnt x e : ℕ) (bs : List (List ℕ))
        → IsBuckets cnt bs
        → search cnt (push_to hash less cnt x bs) e
          ≡ (if equal hash less x e then some x else search cnt bs e)
    search-push cnt x e bs b =
        find-push hash less key cnt x e bs
          (rw b.size (bucket_idx-lt hash less cnt x b.some_buckets))

    pub search-without :
        (cnt x e : ℕ) (bs : List (List ℕ))
        → IsBuckets cnt bs
        → search cnt bs x ≡ some x
        → search cnt (without_all x bs) e ≡ (if equal hash less x e then none else search cnt bs e)
    search-without cnt x e bs b h =
        let i = bucket_idx hash less cnt x in
        let j = bucket_idx hash less cnt e in
        rw (at-without_all hash less bs x j) (elim (Bool-cases (i == j)) [
          | inl s ↦
              let s' = (==_iff i j).0 s in
              rw (← s') (find-without hash less key (get_or bs i []) x e (b.each i).1 h)
          | inr s ↦
              let n = ==_apart i j s in
              let absent = find_misplaced hash less key cnt j x (get_or bs j []) (b.each j).0 n in
              rw (apart-unequal hash less key cnt x e n) (
                ap (λ l. find_elem hash less l e)
                  (without_absent hash less key (get_or bs j []) x absent))
        ])
