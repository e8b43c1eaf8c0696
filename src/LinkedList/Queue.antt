-- ===== src/LinkedList/Queue.antt =====
-- lib/kernel/list.c: the functions on the ends of a list, and its size.
use cs162proj.Prelude.{
  ℕ, zero, suc, ◌+◌, ◌<◌, ◌≡◌, ◌≢◌, ◌∙◌, ap, sym, subst, List, [], ◌∷◌, ◌++◌, append-nil, length,
  Option, some, arith, ==_ne, ==_refl,
}
use cs162proj.LinkedList.{
  Heap, tail_of, list_begin, list_next, list_end, list_empty, list_front, list_back,
  list_push_front, list_push_back, list_pop_front, list_pop_back, size_loop, list_size,
}
use cs162proj.LinkedList.Chains.{Chain, NotIn, nodes, IsList, Distinct-split, Chain-split}
use cs162proj.LinkedList.Cut.{first_of, Keeps, nodes_mid}
use cs162proj.LinkedList.Insert.{list_insert_lem}
use cs162proj.LinkedList.Remove.{list_remove_lem}

abbrev pub Pushed : Heap → ℕ → List ℕ → Option Heap → Type 0
Pushed h list xs o = (h' : Heap) × (o ≡ some h') × IsList h' list xs × Keeps h h' (nodes list xs)

module _ (h : Heap) (list : ℕ) (xs : List ℕ) (v : IsList h list xs) where
  pub begin_lem : list_begin h list ≡ some (first_of xs list)
  unfolding list_begin
  begin_lem = rw (==_ne list 0 v.real.0) (ap some (first xs v.chain))
    where
      first : (ys : List ℕ) → Chain h (nodes list ys) → h.next list ≡ first_of ys list
      first [] c = c.0
      first (y ∷ ys) c = c.0

  end_lem : list_end list ≡ some (tail_of list)
  unfolding list_end
  end_lem = rw (==_ne list 0 v.real.0)

  pub list_push_front_lem :
      (e : ℕ) → NotIn e (nodes list xs) → e ≢ 0 → Pushed h list (e ∷ xs) (list_push_front list e h)
  unfolding list_push_front
  list_push_front_lem e n real = rw begin_lem (list_insert_lem h list [] xs e v n real)

  pub list_push_back_lem :
      (e : ℕ)
      → NotIn e (nodes list xs)
      → e ≢ 0
      → Pushed h list (xs ++ (e ∷ [])) (list_push_back list e h)
  unfolding list_push_back
  list_push_back_lem e n real = rw end_lem (
      list_insert_lem h list xs [] e (subst (IsList h list) (sym (append-nil xs)) v)
        (subst (λ l. NotIn e (nodes list l)) (sym (append-nil xs)) n) real)

pub tail_apart : (h : Heap) (list : ℕ) (xs : List ℕ) → IsList h list xs → NotIn (tail_of list) xs
tail_apart h list xs v = (Distinct-split xs (tail_of list) [] v.distinct.1).0

-- The result of taking an element out.
abbrev pub Popped : Heap → ℕ → List ℕ → ℕ → Option (Heap × ℕ) → Type 0
Popped h list xs e o =
    (h' : Heap) × (o ≡ some (h', e)) × IsList h' list xs × Keeps h h' (nodes list xs)

list_front_lem :
    (h : Heap) (list e : ℕ) (xs : List ℕ) → IsList h list (e ∷ xs) → list_front h list ≡ some e
unfolding list_front list_empty
list_front_lem h list e xs v =
    rw
      (
        begin_lem h list (e ∷ xs) v,
        end_lem h list (e ∷ xs) v,
        ==_ne e (tail_of list) (tail_apart h list (e ∷ xs) v).0,
      )
      (ap some v.chain.0)

pub list_pop_front_lem :
    (h : Heap) (list e : ℕ) (xs : List ℕ)
    → IsList h list (e ∷ xs)
    → Popped h list xs e (list_pop_front list h)
unfolding list_pop_front
list_pop_front_lem h list e xs v =
    let (h', done, v', keeps) = list_remove_lem h list [] e xs v in
    (h', rw (list_front_lem h list e xs v, done), v', keeps)

list_back_lem :
    (h : Heap) (list e : ℕ) (xs : List ℕ)
    → IsList h list (xs ++ (e ∷ []))
    → list_back h list ≡ some e
unfolding list_back list_empty
list_back_lem h list e xs v =
    let c = subst (Chain h) (nodes_mid list xs (e ∷ [])) v.chain in
    let (_, last) = Chain-split h (list ∷ xs) e (tail_of list ∷ []) c in
    let apart = first_apart list xs (tail_apart h list (xs ++ (e ∷ [])) v) in
    rw (begin_lem h list (xs ++ (e ∷ [])) v, end_lem h list (xs ++ (e ∷ [])) v, ==_ne _ _ apart)
      (ap some last.1)
  where
    first_apart :
        (list : ℕ) (xs : List ℕ)
        → NotIn (tail_of list) (xs ++ (e ∷ []))
        → first_of (xs ++ (e ∷ [])) list ≢ tail_of list
    first_apart list [] n = n.0
    first_apart list (x ∷ xs) n = n.0

pub list_pop_back_lem :
    (h : Heap) (list e : ℕ) (xs : List ℕ)
    → IsList h list (xs ++ (e ∷ []))
    → Popped h list xs e (list_pop_back list h)
unfolding list_pop_back
list_pop_back_lem h list e xs v =
    let (h', done, v', keeps) = list_remove_lem h list xs e [] v in
    (
      h',
      rw (list_back_lem h list e xs v, done),
      subst (IsList h' list) (append-nil xs) v',
      subst (λ l. Keeps h h' (nodes list l)) (append-nil xs) keeps,
    )

pub next_lem : (h : Heap) (e : ℕ) → e ≢ 0 → h.next e ≢ 0 → list_next h e ≡ some (h.next e)
unfolding list_next
next_lem h e p q = ground arith

-- The first element behind `y`.
pub next_first :
    (h : Heap) (list y : ℕ) (ys : List ℕ)
    → Chain h (y ∷ (ys ++ (tail_of list ∷ [])))
    → NotIn 0 (ys ++ (tail_of list ∷ []))
    → (h.next y ≡ first_of ys list) × (first_of ys list ≢ 0) × Chain h (ys ++ (tail_of list ∷ []))
next_first h list y [] c r = (c.0, r.0, tt)
next_first h list y (z ∷ ys) c r = (c.0, r.0, c.2)

size_loop_lem :
    (ys : List ℕ) (fuel : ℕ) (h : Heap) (list cnt : ℕ)
    → Chain h (ys ++ (tail_of list ∷ []))
    → NotIn 0 (ys ++ (tail_of list ∷ []))
    → NotIn (tail_of list) ys
    → length ys < fuel
    → size_loop fuel h list (first_of ys list) cnt ≡ some (cnt + length ys)
unfolding size_loop
size_loop_lem ys zero h list cnt c r t f = absurd (omega arith)
size_loop_lem [] (suc fuel) h list cnt c r t f =
    rw (==_refl (tail_of list), size_loop) (ap some (omega arith))
size_loop_lem (y ∷ ys) (suc fuel) h list cnt c r t f =
    let (next, real, rest) = next_first h list y ys c r.1 in
    rw (==_ne y (tail_of list) t.0, size_loop, next_lem h y r.0 (λ e. real (sym next ∙ e)), next)
      (size_loop_lem ys fuel h list (cnt + 1) rest r.1 t.1 (omega arith) ∙ ap some (omega arith))

-- With one round more than there are elements list_size ends, and gives their number.
pub list_size_lem :
    (h : Heap) (list : ℕ) (xs : List ℕ) (fuel : ℕ)
    → IsList h list xs
    → length xs < fuel
    → list_size fuel h list ≡ some (length xs)
unfolding list_size
list_size_lem h list xs fuel v f =
    let (_, _, rest) = next_first h list list xs v.chain v.real.1 in
    rw (begin_lem h list xs v) (
      size_loop_lem xs fuel h list 0 rest v.real.1 (tail_apart h list xs v) f
      ∙ ap some (omega arith))
