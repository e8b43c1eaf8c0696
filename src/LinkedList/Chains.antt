-- ===== src/LinkedList/Chains.antt =====
-- lib/kernel/list.c: what it means that a heap holds a list, and what a change of two links does.
use cs162proj.Prelude.{ℕ, ◌≡◌, ◌≢◌, sym, List, [], ◌∷◌, ◌++◌, All}
use cs162proj.LinkedList.{Heap, tail_of}

-- Each element points to the next one, which points back.
abbrev pub Chain : Heap → List ℕ → Type 0
Chain h [] = Unit
Chain h (x ∷ []) = Unit
Chain h (x ∷ y ∷ l) = (h.next x ≡ y) × (h.prev y ≡ x) × Chain h (y ∷ l)

abbrev pub NotIn : ℕ → List ℕ → Type 0
NotIn a l = All (λ x. x ≢ a) l

abbrev pub Distinct : List ℕ → Type 0
Distinct [] = Unit
Distinct (x ∷ l) = NotIn x l × Distinct l

-- The elements of the list with its head and its tail.
abbrev pub nodes : ℕ → List ℕ → List ℕ
nodes list xs = list ∷ (xs ++ (tail_of list ∷ []))

-- The heap holds the list `xs` at the address `list`.
pub record IsList (h : Heap) (list : ℕ) (xs : List ℕ) : Type 0 where
  pub chain : Chain h (nodes list xs)
  pub distinct : Distinct (nodes list xs)
  pub real : NotIn 0 (nodes list xs)
  pub head_end : h.prev list ≡ 0
  pub tail_end : h.next (tail_of list) ≡ 0

pub All-imp {ℓ κ μ} :
    {A : Type ℓ} (P : A → Type κ) (Q : A → Type μ) (l : List A)
    → ((x : A) → P x → Q x)
    → All P l
    → All Q l
All-imp P Q [] f a = tt
All-imp P Q (x ∷ l) f a = (f x a.0, All-imp P Q l f a.1)

pub All-and {ℓ κ μ} :
    {A : Type ℓ} (P : A → Type κ) (Q : A → Type μ) (l : List A)
    → All P l
    → All Q l
    → All (λ x. P x × Q x) l
All-and P Q [] a b = tt
All-and P Q (x ∷ l) a b = ((a.0, b.0), All-and P Q l a.1 b.1)

pub All-append {ℓ κ} :
    {A : Type ℓ} (P : A → Type κ) (l r : List A) → All P l → All P r → All P (l ++ r)
All-append P [] r a b = b
All-append P (x ∷ l) r a b = (a.0, All-append P l r a.1 b)

pub All-split {ℓ κ} :
    {A : Type ℓ} (P : A → Type κ) (l r : List A) → All P (l ++ r) → All P l × All P r
All-split P [] r a = (tt, a)
All-split P (x ∷ l) r a = let (b, c) = All-split P l r a.1 in ((a.0, b), c)

pub All-insert {ℓ κ} :
    {A : Type ℓ} (P : A → Type κ) (l : List A) (x : A) (r : List A)
    → P x
    → All P (l ++ r)
    → All P (l ++ (x ∷ r))
All-insert P [] x r p a = (p, a)
All-insert P (y ∷ l) x r p a = (a.0, All-insert P l x r p a.1)

-- A chain falls apart at each of its elements, and two chains join at one.
pub Chain-split :
    (h : Heap) (xs : List ℕ) (a : ℕ) (ys : List ℕ)
    → Chain h (xs ++ (a ∷ ys))
    → Chain h (xs ++ (a ∷ [])) × Chain h (a ∷ ys)
Chain-split h [] a ys c = (tt, c)
Chain-split h (x ∷ []) a ys c = ((c.0, c.1, tt), c.2)
Chain-split h (x ∷ y ∷ xs) a ys c =
    let (p, q) = Chain-split h (y ∷ xs) a ys c.2 in ((c.0, c.1, p), q)

pub Chain-join :
    (h : Heap) (xs : List ℕ) (a : ℕ) (ys : List ℕ)
    → Chain h (xs ++ (a ∷ []))
    → Chain h (a ∷ ys)
    → Chain h (xs ++ (a ∷ ys))
Chain-join h [] a ys p q = q
Chain-join h (x ∷ []) a ys p q = (p.0, p.1, q)
Chain-join h (x ∷ y ∷ xs) a ys p q = (p.0, p.1, Chain-join h (y ∷ xs) a ys p.2 q)

-- A chain survives changes that leave the links along it.
module _ (h h' : Heap) where
  abbrev pub SameNext : ℕ → Type 0
  SameNext x = h'.next x ≡ h.next x

  abbrev pub SamePrev : ℕ → Type 0
  SamePrev x = h'.prev x ≡ h.prev x

  pub Chain-back :
      (b : ℕ) (ys : List ℕ)
      → All SameNext (b ∷ ys)
      → All SamePrev ys
      → Chain h (b ∷ ys)
      → Chain h' (b ∷ ys)
  Chain-back b [] n p c = tt
  Chain-back b (y ∷ ys) n p c = (cc (n.0, c.0), cc (p.0, c.1), Chain-back y ys n.1 p.1 c.2)

  pub Chain-front :
      (xs : List ℕ) (a : ℕ)
      → All SameNext xs
      → All SamePrev (xs ++ (a ∷ []))
      → Chain h (xs ++ (a ∷ []))
      → Chain h' (xs ++ (a ∷ []))
  Chain-front [] a n p c = tt
  Chain-front (x ∷ []) a n p c = (cc (n.0, c.0), cc (p.1.0, c.1), tt)
  Chain-front (x ∷ y ∷ xs) a n p c =
      (cc (n.0, c.0), cc (p.1.0, c.1), Chain-front (y ∷ xs) a n.1 p.1 c.2)

-- The parts of a list without repetitions.
pub Distinct-split :
    (xs : List ℕ) (a : ℕ) (ys : List ℕ)
    → Distinct (xs ++ (a ∷ ys))
    → NotIn a xs × NotIn a ys × Distinct (xs ++ ys) × Distinct ys
Distinct-split [] a ys d = (tt, d.0, d.1, d.1)
Distinct-split (x ∷ xs) a ys d =
    let (p, q, r, s) = Distinct-split xs a ys d.1 in
    let (l, m) = All-split (λ y. y ≢ x) xs (a ∷ ys) d.0 in
    ((λ e. m.0 (sym e), p), q, (All-append (λ y. y ≢ x) xs ys l m.1, r), s)

pub Distinct-insert :
    (xs : List ℕ) (a : ℕ) (ys : List ℕ)
    → Distinct (xs ++ ys)
    → NotIn a (xs ++ ys)
    → Distinct (xs ++ (a ∷ ys))
Distinct-insert [] a ys d n = (n, d)
Distinct-insert (x ∷ xs) a ys d n =
    let (l, m) = All-split (λ y. y ≢ x) xs ys d.0 in
    (All-append (λ y. y ≢ x) xs (a ∷ ys) l ((λ e. n.0 (sym e)), m), Distinct-insert xs a ys d.1 n.1)
