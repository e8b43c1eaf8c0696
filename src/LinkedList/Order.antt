-- ===== src/LinkedList/Order.antt =====
-- lib/kernel/list.c: insertion into an ordered list. `less` is the comparison with its auxiliary data.
use cs162proj.Prelude.{
  ℕ, zero, suc, ◌<◌, ◌≡◌, ◌≢◌, ◌∙◌, ap, sym, subst, refl, inl, inr, List, [], ◌∷◌, ◌++◌, length,
  Option, some, none, Bool, true, false, not, ◌==◌, if◌then◌else◌, ◌>>=◌, ◌>>◌, assert, arith,
  ==_ne, ==_refl, Bool-cases,
}
use cs162proj.LinkedList.{Heap, tail_of, is_null, list_begin, list_next, list_insert}
use cs162proj.LinkedList.Chains.{Chain, NotIn, nodes, IsList}
use cs162proj.LinkedList.Cut.{first_of, Keeps}
use cs162proj.LinkedList.Insert.{list_insert_lem}
use cs162proj.LinkedList.Queue.{begin_lem, next_lem, next_first, tail_apart}

module _ (less : ℕ → ℕ → Bool) where
  -- The loop of `list_insert_ordered` from `e` on: the element to insert in front of.
  pub ordered_loop : ℕ → Heap → ℕ → ℕ → ℕ → Option ℕ
  ordered_loop zero h list elem e = none
  ordered_loop (suc fuel) h list elem e = elim (e == tail_of list) [
    | true ↦ some e
    | false ↦ elim (less elem e) [
      | true ↦ some e
      | false ↦ do e' ← list_next h e; ordered_loop fuel h list elem e'
    ]
  ]

  pub list_insert_ordered : ℕ → ℕ → ℕ → Heap → Option Heap
  unfolding ordered_loop
  list_insert_ordered fuel list elem h = do
    assert (not (is_null elem))
    front ← list_begin h list
    e ← ordered_loop fuel h list elem front
    list_insert e elem h

  -- No element is less than the one before it.
  abbrev pub IsOrdered : List ℕ → Type 0
  IsOrdered [] = Unit
  IsOrdered (x ∷ []) = Unit
  IsOrdered (x ∷ y ∷ l) = (less y x ≡ false) × IsOrdered (y ∷ l)

  -- Insertion into a sequence, behind all elements that are not greater.
  abbrev put_in : ℕ → List ℕ → List ℕ
  put_in elem [] = elem ∷ []
  put_in elem (y ∷ ys) = if less elem y then elem ∷ y ∷ ys else y ∷ put_in elem ys

  -- What the loop finds: the sequence is cut in front of the element.
  record IsPlace (elem list : ℕ) (ys : List ℕ) (o : Option ℕ) : Type 0 where
    front : List ℕ
    back : List ℕ
    cut : ys ≡ front ++ back
    found : o ≡ some (first_of back list)
    joined : put_in elem ys ≡ front ++ (elem ∷ back)

  ordered_loop_lem :
      (ys : List ℕ) (fuel : ℕ) (h : Heap) (list elem : ℕ)
      → Chain h (ys ++ (tail_of list ∷ []))
      → NotIn 0 (ys ++ (tail_of list ∷ []))
      → NotIn (tail_of list) ys
      → length ys < fuel
      → IsPlace elem list ys (ordered_loop fuel h list elem (first_of ys list))
  unfolding ordered_loop
  ordered_loop_lem ys zero h list elem c r t f = absurd (omega arith)
  ordered_loop_lem [] (suc fuel) h list elem c r t f = record {
    front = [];
    back = [];
    cut = refl;
    found = rw (==_refl (tail_of list), ordered_loop) refl;
    joined = refl;
  }
  ordered_loop_lem (y ∷ ys) (suc fuel) h list elem c r t f = elim (Bool-cases (less elem y)) [
    | inl s ↦ record {
      front = [];
      back = y ∷ ys;
      cut = refl;
      found = rw (==_ne y (tail_of list) t.0, s, ordered_loop) refl;
      joined = rw s refl;
    }
    | inr s ↦
        let (next, real, rest) = next_first h list y ys c r.1 in
        let p = ordered_loop_lem ys fuel h list elem rest r.1 t.1 (omega arith) in
        record {
          front = y ∷ p.front;
          back = p.back;
          cut = ap (λ l. y ∷ l) p.cut;
          found =
              rw
                (
                  ==_ne y (tail_of list) t.0,
                  s,
                  ordered_loop,
                  next_lem h y r.0 (λ e. real (sym next ∙ e)),
                  next,
                )
                p.found;
          joined = rw s (ap (λ l. y ∷ l) p.joined);
        }
  ]

  put_in-IsOrdered :
      ((a b : ℕ) → less a b ≡ true → less b a ≡ false)
      → (e : ℕ) (xs : List ℕ) → IsOrdered xs
      → IsOrdered (put_in e xs)
  put_in-IsOrdered asym e [] o = tt
  put_in-IsOrdered asym e (x ∷ []) o = elim (Bool-cases (less e x)) [
    | inl t ↦ rw t (asym e x t, tt)
    | inr f ↦ rw f (f, tt)
  ]
  put_in-IsOrdered asym e (x ∷ y ∷ l) o = elim (Bool-cases (less e x)) [
    | inl t ↦ rw t (asym e x t, o)
    | inr f ↦
        let rest = put_in-IsOrdered asym e (y ∷ l) o.1 in
        elim (Bool-cases (less e y)) [
          | inl t ↦ let rest' = rw t at rest in rw (f, t) (f, rest')
          | inr g ↦ let rest' = rw g at rest in rw (f, g) (o.0, rest')
        ]
  ]

  -- Where no two elements are each less than the other, an element that is not in an ordered list is
  -- inserted by list_insert_ordered, with one round more than there are elements as fuel: the heap
  -- then holds the ordered list with the element behind all elements that it is not less than, and
  -- keeps the links of all other addresses.
  pub list_insert_ordered_lem :
      (asym : (a b : ℕ) → less a b ≡ true → less b a ≡ false) (h : Heap) (list elem : ℕ)
      (xs : List ℕ) (fuel : ℕ)
      → IsList h list xs
      → NotIn elem (nodes list xs)
      → elem ≢ 0
      → IsOrdered xs
      → length xs < fuel
      → (h' : Heap) × (list_insert_ordered fuel list elem h ≡ some h')
        × IsList h' list (put_in elem xs)
        × IsOrdered (put_in elem xs)
        × Keeps h h' (nodes list (put_in elem xs))
  unfolding list_insert_ordered
  list_insert_ordered_lem asym h list elem xs fuel v n real o f =
      let (_, _, rest) = next_first h list list xs v.chain v.real.1 in
      let p = ordered_loop_lem xs fuel h list elem rest v.real.1 (tail_apart h list xs v) f in
      let v' = subst (IsList h list) p.cut v in
      let n' = subst (λ l. NotIn elem (nodes list l)) p.cut n in
      let (h', done, after, keeps) = list_insert_lem h list p.front p.back elem v' n' real in
      (
        h',
        rw (==_ne elem 0 real, begin_lem h list xs v, p.found) done,
        subst (IsList h' list) (sym p.joined) after,
        put_in-IsOrdered asym elem xs o,
        subst (λ l. Keeps h h' (nodes list l)) (sym p.joined) keeps,
      )
