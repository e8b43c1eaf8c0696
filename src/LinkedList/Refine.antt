-- ===== src/LinkedList/Refine.antt =====
-- lib/kernel/list.c: histories of a list on the heap against histories of a plain sequence.
use cs162proj.Prelude.{
  ℕ, ◌+◌, ◌≡◌, ◌≢◌, subst, List, [], ◌∷◌, ◌++◌, length, pop_back, pop_back-some, Option, none, some,
  Bool, true, false, not, ◌&&◌, ◌||◌, arith, ◌==◌, if◌then◌else◌, ◌>>=◌, ◌<◌, ◌≤◌, ap,
  length-append, Option-cases, Bool-cases, inl, inr,
}
use cs162proj.LinkedList.{
  Heap, list_push_front, list_push_back, list_pop_front, list_pop_back, list_size,
}
use cs162proj.LinkedList.Chains.{NotIn, nodes, IsList}
use cs162proj.LinkedList.Queue.{
  list_push_front_lem, list_push_back_lem, list_pop_front_lem, list_pop_back_lem, list_size_lem,
}

pub data ListOp : Type 0 where
  push_front : ℕ → ListOp
  push_back : ℕ → ListOp
  pop_front : ListOp
  pop_back_op : ListOp
  size : ListOp

-- Whether an address is in a list of them.
abbrev pub has : ℕ → List ℕ → Bool
has a [] = false
has a (x ∷ l) = x == a || has a l

-- An element that can be added: it is not NULL, not in the list and not one of its ends.
abbrev pub fresh : ℕ → ℕ → List ℕ → Bool
fresh e list xs = not (e == 0) && not (has e (nodes list xs))

-- What an operation does to a sequence, with what it returns (0 for a push). `none`: not allowed.
abbrev pub on_sequence : ℕ → ListOp → List ℕ → Option (List ℕ × ℕ)
on_sequence list (push_front e) xs = if fresh e list xs then some (e ∷ xs, 0) else none
on_sequence list (push_back e) xs = if fresh e list xs then some (xs ++ (e ∷ []), 0) else none
on_sequence list pop_front [] = none
on_sequence list pop_front (x ∷ xs) = some (xs, x)
on_sequence list pop_back_op xs = pop_back xs
on_sequence list size xs = some (xs, length xs)

-- The same on the heap; the loop of list_size is given `fuel`.
abbrev pub on_heap : ℕ → ℕ → ListOp → Heap → Option (Heap × ℕ)
on_heap fuel list (push_front e) h = list_push_front list e h >>= λ h'. some (h', 0)
on_heap fuel list (push_back e) h = list_push_back list e h >>= λ h'. some (h', 0)
on_heap fuel list pop_front h = list_pop_front list h
on_heap fuel list pop_back_op h = list_pop_back list h
on_heap fuel list size h = list_size fuel h list >>= λ n. some (h, n)

abbrev pub run {ℓ} :
    {S : Type ℓ} → (ListOp → S → Option (S × ℕ)) → List ListOp → S → Option (S × List ℕ)
run step [] s = some (s, [])
run step (op ∷ ops) s = step op s >>= λ (s', r). run step ops s' >>= λ (s'', rs). some (s'', r ∷ rs)

fresh-NotIn : (e : ℕ) (l : List ℕ) → has e l ≡ false → NotIn e l
fresh-NotIn e [] h = tt
fresh-NotIn e (x ∷ l) h = (ground arith, fresh-NotIn e l (ground arith))

-- What one step on the heap gives.
abbrev Refined : ℕ → ℕ → ListOp → Heap → List ℕ → ℕ → Type 0
Refined fuel list op h xs' r =
    (h' : Heap) × (on_heap fuel list op h ≡ some (h', r)) × IsList h' list xs'

module _ (fuel list : ℕ) (h : Heap) where
  fresh_lem : (e : ℕ) (xs : List ℕ) → fresh e list xs ≡ true → NotIn e (nodes list xs) × (e ≢ 0)
  fresh_lem e xs f = (fresh-NotIn e (nodes list xs) (ground arith), ground arith)

  step_refines :
      (op : ListOp) (xs xs' : List ℕ) (r : ℕ)
      → IsList h list xs
      → length xs < fuel
      → on_sequence list op xs ≡ some (xs', r)
      → Refined fuel list op h xs' r
  step_refines (push_front e) xs xs' r v f s = elim (Bool-cases (fresh e list xs)) [
    | inr old ↦ let s' = rw old at s in absurd (cc)
    | inl new ↦
        let s' = rw new at s in
        let (n, real) = fresh_lem e xs new in
        let (h', done, v', _) = list_push_front_lem h list xs v e n real in
        let is_xs : e ∷ xs ≡ xs' = cc in
        let is_r : 0 ≡ r = cc in (h', rw (done, is_r), subst (IsList h' list) is_xs v')
  ]
  step_refines (push_back e) xs xs' r v f s = elim (Bool-cases (fresh e list xs)) [
    | inr old ↦ let s' = rw old at s in absurd (cc)
    | inl new ↦
        let s' = rw new at s in
        let (n, real) = fresh_lem e xs new in
        let (h', done, v', _) = list_push_back_lem h list xs v e n real in
        let is_xs : xs ++ (e ∷ []) ≡ xs' = cc in
        let is_r : 0 ≡ r = cc in (h', rw (done, is_r), subst (IsList h' list) is_xs v')
  ]
  step_refines pop_front [] xs' r v f s = absurd (cc)
  step_refines pop_front (x ∷ xs) xs' r v f s =
      let (h', done, v', _) = list_pop_front_lem h list x xs v in
      let is_xs : xs ≡ xs' = cc in
      let is_r : x ≡ r = cc in (h', rw (done, is_r), subst (IsList h' list) is_xs v')
  step_refines pop_back_op [] xs' r v f s = absurd (cc)
  step_refines pop_back_op (x ∷ xs) xs' r v f s =
      let (front, e, popped, split) = pop_back-some x xs in
      let (h', done, v', _) = list_pop_back_lem h list e front (subst (IsList h list) split v) in
      let is_xs : front ≡ xs' = cc in
      let is_r : e ≡ r = cc in (h', rw (done, is_r), subst (IsList h' list) is_xs v')
  step_refines size xs xs' r v f s =
      let is_xs : xs ≡ xs' = cc in
      let is_r : length xs ≡ r = cc in
      (h, rw (list_size_lem h list xs fuel v f, is_r), subst (IsList h list) is_xs v)

grows :
    (list : ℕ) (op : ListOp) (xs xs' : List ℕ) (r : ℕ)
    → on_sequence list op xs ≡ some (xs', r)
    → length xs' ≤ length xs + 1
grows list (push_front e) xs xs' r s = ground arith
grows list (push_back e) xs xs' r s = ground (arith, length-append xs (e ∷ []))
grows list pop_front [] xs' r s = absurd (cc)
grows list pop_front (x ∷ xs) xs' r s = ground arith
grows list pop_back_op [] xs' r s = absurd (cc)
grows list pop_back_op (x ∷ xs) xs' r s =
    let (front, e, popped, split) = pop_back-some x xs in
    let is_xs : front ≡ xs' = cc in
    omega (arith, ap length is_xs, ap length split, length-append front (e ∷ []))
grows list size xs xs' r s = ground arith

-- A history of pushes, pops and sizes that a plain sequence allows (no pop of an empty one, no push
-- of NULL or of an element or an end of the list), on a heap that holds the sequence, with fuel for the size
-- of all that the history can add: nothing fails, every result is that of the sequence, and
-- the heap holds the final sequence.
pub history_refines :
    (ops : List ListOp) (fuel list : ℕ) (h : Heap) (xs xs' rs : List ℕ)
    → IsList h list xs
    → length xs + length ops < fuel
    → run (on_sequence list) ops xs ≡ some (xs', rs)
    → (h' : Heap) × (run (on_heap fuel list) ops h ≡ some (h', rs)) × IsList h' list xs'
history_refines [] fuel list h xs xs' rs v f s =
    let is_xs : xs ≡ xs' = cc in
    let is_rs : ◌≡◌ {A = List ℕ} [] rs = cc in
    (h, ap (λ l. some (h, l)) is_rs, subst (IsList h list) is_xs v)
history_refines (op ∷ ops) fuel list h xs xs' rs v f s =
    elim (Option-cases (on_sequence list op xs)) [
      | inl bad ↦ let s' = rw bad at s in absurd (cc)
      | inr ((xs1, r), ok) ↦
          let s' = rw ok at s in
          elim (Option-cases (run (on_sequence list) ops xs1)) [
            | inl bad ↦ let s'' = rw bad at s' in absurd (cc)
            | inr ((xs2, rest), ok') ↦
                let s'' = rw ok' at s' in
                let (h1, done, v1) = step_refines fuel list h op xs xs1 r v (omega arith) ok in
                let (h2, done', v2) =
                  history_refines ops fuel list h1 xs1 xs2 rest v1
                    (omega (arith, grows list op xs xs1 r ok)) ok' in
                let is_xs : xs2 ≡ xs' = cc in
                let is_rs : r ∷ rest ≡ rs = cc in
                (
                  h2,
                  rw (done, done') (ap (λ l. some (h2, l)) is_rs),
                  subst (IsList h2 list) is_xs v2,
                )
          ]
    ]
