-- ===== src/Hash/Buckets.antt =====
-- lib/kernel/hash.c: what the search for an element finds in a bucket and in the table, and what
-- pushing and removing an element changes.
use cs162proj.Prelude.{
  ℕ, zero, suc, ◌-◌, ◌<◌, ◌≡◌, ◌∙◌, ap, sym, refl, inl, inr, ◌≢◌, List, [], ◌∷◌, ◌++◌, All, length,
  get_or, get_or-set_self, get_or-set_ne, Option, some, none, Bool, true, false, arith, ◌==◌,
  if◌then◌else◌, Bool-cases, ==_iff, ==_apart, ==_ne, ==_refl,
}
use cs162proj.Prelude.Bits.{bit_and-le_mask}
use cs162proj.Hash.{bucket_idx, equal, find_elem, push_to, without, without_all}

-- What the functions of a table promise.
pub record IsKey (hash : ℕ → ℕ) (less : ℕ → ℕ → Bool) : Type 0 where
  pub same : (a : ℕ) → less a a ≡ false
  pub join :
      (a b c : ℕ)
      → equal hash less a b ≡ true
      → equal hash less b c ≡ true
      → equal hash less a c ≡ true
  pub agree : (a b : ℕ) → equal hash less a b ≡ true → hash a ≡ hash b

abbrev pub or_else : Option ℕ → Option ℕ → Option ℕ
or_else none b = b
or_else (some x) b = some x

both : (a b : Bool) → (a ≡ true → b ≡ true) → (b ≡ true → a ≡ true) → a ≡ b
both true true f g = refl
both true false f g = sym (f refl)
both false true f g = g refl
both false false f g = refl

not_both : {b : Bool} → b ≡ true → b ≡ false → ⊥
not_both h k = absurd (cc)

module _ (hash : ℕ → ℕ) (less : ℕ → ℕ → Bool) where
  -- No two elements of a bucket are equal.
  abbrev pub IsUnique : List ℕ → Type 0
  IsUnique [] = Unit
  IsUnique (x ∷ l) = (find_elem hash less l x ≡ none) × IsUnique l

  pub find-append :
      (l m : List ℕ) (e : ℕ)
      → find_elem hash less (l ++ m) e ≡ or_else (find_elem hash less l e) (find_elem hash less m e)
  unfolding find_elem
  find-append [] m e = refl
  find-append (x ∷ l) m e = elim (Bool-cases (equal hash less x e)) [
    | inl t ↦ rw t refl
    | inr f ↦ rw f (find-append l m e)
  ]

  find-without-none :
      (l : List ℕ) (x e : ℕ)
      → find_elem hash less l e ≡ none
      → find_elem hash less (without x l) e ≡ none
  unfolding find_elem
  find-without-none [] x e h = refl
  find-without-none (y ∷ l) x e h = ground (arith, h, find-without-none l x e)

  pub without-IsUnique : (l : List ℕ) (x : ℕ) → IsUnique l → IsUnique (without x l)
  without-IsUnique [] x u = tt
  without-IsUnique (y ∷ l) x u = elim (Bool-cases (y == x)) [
    | inl t ↦ rw t (without-IsUnique l x u.1)
    | inr f ↦ rw f (find-without-none l x y u.0, without-IsUnique l x u.1)
  ]

  pub at-without_all :
      (bs : List (List ℕ)) (x i : ℕ) → get_or (without_all x bs) i [] ≡ without x (get_or bs i [])
  at-without_all [] x i = refl
  at-without_all (l ∷ bs) x zero = refl
  at-without_all (l ∷ bs) x (suc i) = at-without_all bs x i

  pub length-without_all : (bs : List (List ℕ)) (x : ℕ) → length (without_all x bs) ≡ length bs
  length-without_all [] x = refl
  length-without_all (l ∷ bs) x = ap suc (length-without_all bs x)

  pub All-without : (P : ℕ → Type 0) (l : List ℕ) (x : ℕ) → All P l → All P (without x l)
  All-without P [] x a = tt
  All-without P (y ∷ l) x a = elim (Bool-cases (y == x)) [
    | inl t ↦ rw t (All-without P l x a.1)
    | inr f ↦ rw f (a.0, All-without P l x a.1)
  ]

  pub bucket_idx-lt : (cnt e : ℕ) → 0 < cnt → bucket_idx hash less cnt e < cnt
  unfolding bucket_idx
  bucket_idx-lt cnt e h = omega (arith, bit_and-le_mask (hash e) (hash e) (cnt - 1) (omega arith))

  module _ (key : IsKey hash less) where
    pub equal_refl : (a : ℕ) → equal hash less a a ≡ true
    equal_refl a = rw (key.same a) refl

    equal_sym : (a b : ℕ) → equal hash less a b ≡ equal hash less b a
    equal_sym a b = ground arith

    -- Equal elements are found alike.
    equal_alike :
        (a b y : ℕ) → equal hash less a b ≡ true → equal hash less y a ≡ equal hash less y b
    equal_alike a b y h =
        both (equal hash less y a) (equal hash less y b) (λ t. key.join y a b t h)
          (λ t. key.join y b a t (equal_sym b a ∙ h))

    pub find_alike :
        (a b : ℕ) (l : List ℕ)
        → equal hash less a b ≡ true
        → find_elem hash less l a ≡ find_elem hash less l b
    unfolding find_elem
    find_alike a b [] h = refl
    find_alike a b (y ∷ l) h = rw (equal_alike a b y h, find_alike a b l h) refl

    pub equal_to_both :
        (a b c : ℕ) → equal hash less a b ≡ true → equal hash less a c ≡ equal hash less b c
    equal_to_both a b c h = equal_sym a c ∙ equal_alike a b c h ∙ equal_sym c b

    -- Nothing equal to `x` is in a list in which it is not found.
    pub all_unequal :
        (l : List ℕ) (x : ℕ)
        → find_elem hash less l x ≡ none
        → All (λ y. equal hash less x y ≡ false) l
    unfolding find_elem
    all_unequal [] x h = tt
    all_unequal (y ∷ l) x h = elim (Bool-cases (equal hash less y x)) [
      | inl t ↦ let h' = rw t at h in absurd (cc)
      | inr f ↦ let h' = rw f at h in (equal_sym x y ∙ f, all_unequal l x h')
    ]

    pub found-equal :
        (l : List ℕ) (e x : ℕ) → find_elem hash less l e ≡ some x → equal hash less x e ≡ true
    unfolding find_elem
    found-equal [] e x h = absurd (cc)
    found-equal (y ∷ l) e x h = elim (Bool-cases (equal hash less y e)) [
      | inl t ↦ let h' = rw t at h in let i : y ≡ x = cc in rw (← i) t
      | inr f ↦ let h' = rw f at h in found-equal l e x h'
    ]

    -- What is found is found again by itself.
    pub found_itself :
        (l : List ℕ) (e x : ℕ) → find_elem hash less l e ≡ some x → find_elem hash less l x ≡ some x
    found_itself l e x h = find_alike x e l (found-equal l e x h) ∙ h

    pub without_absent : (l : List ℕ) (x : ℕ) → find_elem hash less l x ≡ none → without x l ≡ l
    unfolding find_elem
    without_absent [] x h = refl
    without_absent (y ∷ l) x h = elim (Bool-cases (equal hash less y x)) [
      | inl t ↦ let h' = rw t at h in absurd (cc)
      | inr f ↦
          let h' = rw f at h in
          let other : (y == x) ≡ false =
            ==_ne y x (λ i. let f' = rw i at f in not_both (equal_refl x) f') in
          rw other (ap (λ m. y ∷ m) (without_absent l x h'))
    ]

    -- Without an element of the bucket nothing equal to it is found, and all else as before.
    pub find-without :
        (l : List ℕ) (x e : ℕ)
        → IsUnique l
        → find_elem hash less l x ≡ some x
        → find_elem hash less (without x l) e
          ≡ (if equal hash less x e then none else find_elem hash less l e)
    unfolding find_elem
    find-without [] x e u h = absurd (cc)
    find-without (y ∷ l) x e u h = elim (Bool-cases (equal hash less y x)) [
      | inl t ↦
          let h' = rw t at h in
          let i : y ≡ x = cc in
          let gone : find_elem hash less l x ≡ none = rw (← i) u.0 in
          rw (i, ==_refl x, without_absent l x gone)
            (elim (Bool-cases (equal hash less x e)) [
              | inl s ↦ rw s (sym (find_alike x e l s) ∙ gone)
              | inr s ↦ rw s refl
            ])
      | inr f ↦
          let h' = rw f at h in
          let other : (y == x) ≡ false =
            ==_ne y x (λ i. let f' = rw i at f in not_both (equal_refl x) f') in
          rw (other, find-without l x e u.1 h')
            (elim (Bool-cases (equal hash less x e)) [
              | inl s ↦ rw (s, ← equal_alike x e y s, f) refl
              | inr s ↦ rw s refl
            ])
    ]

    pub bucket_idx_alike :
        (cnt a b : ℕ)
        → equal hash less a b ≡ true
        → bucket_idx hash less cnt a ≡ bucket_idx hash less cnt b
    unfolding bucket_idx
    bucket_idx_alike cnt a b h = rw (key.agree a b h) refl

    pub apart-unequal :
        (cnt a b : ℕ)
        → bucket_idx hash less cnt a ≢ bucket_idx hash less cnt b
        → equal hash less a b ≡ false
    apart-unequal cnt a b n = elim (Bool-cases (equal hash less a b)) [
      | inl t ↦ absurd (n (bucket_idx_alike cnt a b t))
      | inr f ↦ f
    ]

    -- An element that belongs elsewhere is not found.
    pub find_misplaced :
        (cnt i e : ℕ) (l : List ℕ)
        → All (λ x. bucket_idx hash less cnt x ≡ i) l
        → bucket_idx hash less cnt e ≢ i
        → find_elem hash less l e ≡ none
    unfolding find_elem
    find_misplaced cnt i e [] p n = refl
    find_misplaced cnt i e (x ∷ l) p n = elim (Bool-cases (equal hash less x e)) [
      | inl t ↦ absurd (n (sym (bucket_idx_alike cnt x e t) ∙ p.0))
      | inr f ↦ rw f (find_misplaced cnt i e l p.1 n)
    ]

    pub find-push :
        (cnt x e : ℕ) (bs : List (List ℕ))
        → bucket_idx hash less cnt x < length bs
        → find_elem hash less
            (get_or (push_to hash less cnt x bs) (bucket_idx hash less cnt e) [])
            e
          ≡ (if equal hash less x e
              then some x
              else find_elem hash less (get_or bs (bucket_idx hash less cnt e) []) e)
    unfolding find_elem push_to
    find-push cnt x e bs h =
        let i = bucket_idx hash less cnt x in
        let j = bucket_idx hash less cnt e in
        elim (Bool-cases (i == j)) [
          | inl s ↦
              let s' : i ≡ j = (==_iff i j).0 s in
              rw (← s', get_or-set_self bs i (x ∷ get_or bs i []) [] h) refl
          | inr s ↦
              let apart = ==_apart i j s in
              rw (apart-unequal cnt x e apart, get_or-set_ne bs i j (x ∷ get_or bs i []) [] apart)
                refl
        ]
