-- ===== src/LinkedList/Cut.antt =====
-- lib/kernel/list.c: the place between two neighbours of a list, where elements come and go.
use cs162proj.Prelude.{
  ℕ, ◌≡◌, ◌≢◌, ◌∙◌, ap, sym, subst, refl, List, [], ◌∷◌, ◌++◌, append_assoc, pop_back-some,
}
use cs162proj.LinkedList.{Heap, tail_of}
use cs162proj.LinkedList.Chains.{NotIn, Distinct, nodes, Distinct-split, All-split, All-append}

-- The nodes of a list cut in two: the front part ends with `a`, the back part begins with `b`.
pub record IsCut (list : ℕ) (xs ys us : List ℕ) (a b : ℕ) (vs : List ℕ) : Type 0 where
  pub front : list ∷ xs ≡ us ++ (a ∷ [])
  pub back : ys ++ (tail_of list ∷ []) ≡ b ∷ vs

pub nodes_mid :
    (list : ℕ) (xs ms : List ℕ) → nodes list (xs ++ ms) ≡ (list ∷ xs) ++ (ms ++ (tail_of list ∷ []))
nodes_mid list xs ms = ap (λ l. list ∷ l) (append_assoc xs ms (tail_of list ∷ []))

-- The first element of the part, or the tail.
abbrev pub first_of : List ℕ → ℕ → ℕ
first_of [] list = tail_of list
first_of (y ∷ ys) list = y

abbrev pub rest_of : List ℕ → ℕ → List ℕ
rest_of [] list = []
rest_of (y ∷ ys) list = ys ++ (tail_of list ∷ [])

back_lem : (ys : List ℕ) (list : ℕ) → ys ++ (tail_of list ∷ []) ≡ first_of ys list ∷ rest_of ys list
back_lem [] list = refl
back_lem (y ∷ ys) list = refl

pub cut :
    (list : ℕ) (xs ys : List ℕ)
    → (us : List ℕ) × (a : ℕ) × IsCut list xs ys us a (first_of ys list) (rest_of ys list)
cut list xs ys =
    let (us, a, _, e) = pop_back-some list xs in
    (us, a, record { front = e; back = back_lem ys list })

module _ (list : ℕ) (xs ys us : List ℕ) (a b : ℕ) (vs : List ℕ)
    (c : IsCut list xs ys us a b vs) where
  -- With more elements `ms` between the two parts.
  pub nodes_cut : (ms : List ℕ) → nodes list (xs ++ (ms ++ ys)) ≡ us ++ (a ∷ (ms ++ (b ∷ vs)))
  nodes_cut ms =
      ap (λ l. list ∷ l)
        (append_assoc xs (ms ++ ys) (tail_of list ∷ [])
          ∙ ap (λ l. xs ++ l) (append_assoc ms ys (tail_of list ∷ [])))
      ∙ ap (λ l. (list ∷ xs) ++ (ms ++ l)) c.back
      ∙ ap (λ l. l ++ (ms ++ (b ∷ vs))) c.front
      ∙ append_assoc us (a ∷ []) (ms ++ (b ∷ vs))

-- What is known of the two parts of a list without repetitions.
pub record IsApart (us : List ℕ) (a b : ℕ) (vs : List ℕ) : Type 0 where
  pub a_us : NotIn a us
  pub a_back : NotIn a (b ∷ vs)
  pub b_us : NotIn b us
  pub b_vs : NotIn b vs

pub apart_lem :
    (us : List ℕ) (a b : ℕ) (vs : List ℕ) → Distinct (us ++ (a ∷ b ∷ vs)) → IsApart us a b vs
apart_lem us a b vs d =
    let (p, q, r, s) = Distinct-split us a (b ∷ vs) d in
    let (p', q', r', s') = Distinct-split us b vs r in
    record { a_us = p; a_back = q; b_us = p'; b_vs = q' }

-- The ends of a list are not the neighbours of a place in it, but for the nearest ones.
pub ends_apart :
    (list : ℕ) (xs ys us : List ℕ) (a b : ℕ) (vs : List ℕ)
    → IsCut list xs ys us a b vs
    → IsApart us a b vs
    → (list ≢ b) × (tail_of list ≢ a)
ends_apart list xs ys us a b vs c p =
    let front =
      subst (NotIn b) (sym c.front)
        (All-append (λ x. x ≢ b) us (a ∷ []) p.b_us ((λ i. p.a_back.0 (sym i)), tt)) in
    let back = subst (NotIn a) (sym c.back) p.a_back in
    (front.0, (All-split (λ x. x ≢ a) ys (tail_of list ∷ []) back).1.0)

-- The elements outside of a list of addresses keep their links.
abbrev pub Keeps : Heap → Heap → List ℕ → Type 0
Keeps h h' l = (x : ℕ) → NotIn x l → (h'.next x ≡ h.next x) × (h'.prev x ≡ h.prev x)
