-- ===== src/LinkedList/Extrema.antt =====
-- lib/kernel/list.c: the greatest and the least element of a list. `less`
-- is the comparison with its auxiliary data.
use cs162proj.Prelude.{
  ℕ, zero, suc, ◌<◌, ◌≡◌, ◌∙◌, ap, sym, refl, inl, inr, fun_ext, List, [], ◌∷◌, ◌++◌, length,
  Option, some, none, Bool, true, false, ◌==◌, if◌then◌else◌, ◌>>=◌, arith, ==_ne, ==_refl,
  Bool-cases,
}
use cs162proj.LinkedList.{Heap, tail_of, list_begin, list_next}
use cs162proj.LinkedList.Chains.{Chain, NotIn, IsList}
use cs162proj.LinkedList.Cut.{first_of}
use cs162proj.LinkedList.Queue.{begin_lem, next_lem, next_first, tail_apart}

module _ (less : ℕ → ℕ → Bool) where
  -- The loop of `list_max` from `e` on.
  pub max_loop : ℕ → Heap → ℕ → ℕ → ℕ → Option ℕ
  max_loop zero h list e max = none
  max_loop (suc fuel) h list e max = elim (e == tail_of list) [
    | true ↦ some max
    | false ↦ do e' ← list_next h e; max_loop fuel h list e' (if less max e then e else max)
  ]

  pub list_max : ℕ → Heap → ℕ → Option ℕ
  unfolding max_loop
  list_max fuel h list = do
    max ← list_begin h list
    elim (max == tail_of list) [
      | true ↦ some max
      | false ↦ do e ← list_next h max; max_loop fuel h list e max
    ]

  -- The loop of `list_min` from `e` on.
  pub min_loop : ℕ → Heap → ℕ → ℕ → ℕ → Option ℕ
  min_loop zero h list e min = none
  min_loop (suc fuel) h list e min = elim (e == tail_of list) [
    | true ↦ some min
    | false ↦ do e' ← list_next h e; min_loop fuel h list e' (if less e min then e else min)
  ]

  pub list_min : ℕ → Heap → ℕ → Option ℕ
  unfolding min_loop
  list_min fuel h list = do
    min ← list_begin h list
    elim (min == tail_of list) [
      | true ↦ some min
      | false ↦ do e ← list_next h min; min_loop fuel h list e min
    ]

  -- The greatest element of a sequence, the earliest if there are several.
  abbrev greatest : ℕ → List ℕ → ℕ
  greatest max [] = max
  greatest max (y ∷ ys) = greatest (if less max y then y else max) ys

  max_loop_lem :
      (ys : List ℕ) (fuel : ℕ) (h : Heap) (list max : ℕ)
      → Chain h (ys ++ (tail_of list ∷ []))
      → NotIn 0 (ys ++ (tail_of list ∷ []))
      → NotIn (tail_of list) ys
      → length ys < fuel
      → max_loop fuel h list (first_of ys list) max ≡ some (greatest max ys)
  unfolding max_loop
  max_loop_lem ys zero h list max c r t f = absurd (omega arith)
  max_loop_lem [] (suc fuel) h list max c r t f = rw (==_refl (tail_of list), max_loop) refl
  max_loop_lem (y ∷ ys) (suc fuel) h list max c r t f =
      let (next, real, rest) = next_first h list y ys c r.1 in
      rw (==_ne y (tail_of list) t.0, max_loop, next_lem h y r.0 (λ e. real (sym next ∙ e)), next)
        (max_loop_lem ys fuel h list (if less max y then y else max) rest r.1 t.1 (omega arith))

  -- With one round more than there are elements list_max gives the earliest of the greatest elements.
  list_max_lem :
      (h : Heap) (list x : ℕ) (xs : List ℕ) (fuel : ℕ)
      → IsList h list (x ∷ xs)
      → length xs < fuel
      → list_max fuel h list ≡ some (greatest x xs)
  unfolding list_max
  list_max_lem h list x xs fuel v f =
      let (_, _, all) = next_first h list list (x ∷ xs) v.chain v.real.1 in
      let (next, real, rest) = next_first h list x xs all v.real.1.1 in
      let apart = tail_apart h list (x ∷ xs) v in
      rw
        (
          begin_lem h list (x ∷ xs) v,
          ◌>>=◌,
          ==_ne x (tail_of list) apart.0,
          next_lem h x v.real.1.0 (λ e. real (sym next ∙ e)),
          next,
        )
        (max_loop_lem xs fuel h list x rest v.real.1.1 apart.1 f)

-- The least element is the greatest in the opposite order.
module _ (less : ℕ → ℕ → Bool) where
  min_loop-max_loop :
      (fuel : ℕ) (h : Heap) (list e min : ℕ)
      → min_loop less fuel h list e min ≡ max_loop (λ a b. less b a) fuel h list e min
  unfolding min_loop max_loop
  min_loop-max_loop zero h list e min = refl
  min_loop-max_loop (suc fuel) h list e min = elim (Bool-cases (e == tail_of list)) [
    | inl t ↦ rw (t, min_loop, max_loop) refl
    | inr f ↦
        rw (f, min_loop, max_loop)
          (ap (λ k. list_next h e >>= k)
            (fun_ext (λ e'. min_loop-max_loop fuel h list e' (if less e min then e else min))))
  ]

  list_min-list_max :
      (fuel : ℕ) (h : Heap) (list : ℕ)
      → list_min less fuel h list ≡ list_max (λ a b. less b a) fuel h list
  unfolding list_min list_max
  list_min-list_max fuel h list =
      ap (λ k. list_begin h list >>= k)
        (fun_ext (λ m.
          ap (λ (o : Option ℕ). elim (m == tail_of list) [ true ↦ some m | false ↦ o ])
            (ap (λ k. list_next h m >>= k) (fun_ext (λ e. min_loop-max_loop fuel h list e m)))))

  list_min_lem :
      (h : Heap) (list x : ℕ) (xs : List ℕ) (fuel : ℕ)
      → IsList h list (x ∷ xs)
      → length xs < fuel
      → list_min less fuel h list ≡ some (greatest (λ a b. less b a) x xs)
  list_min_lem h list x xs fuel v f =
      list_min-list_max fuel h list ∙ list_max_lem (λ a b. less b a) h list x xs fuel v f
