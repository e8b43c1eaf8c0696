-- ===== src/Thread/Fairness.antt =====
-- The order in which threads/thread.c runs the ready threads.
use cs162proj.Prelude.{
  ℕ, zero, suc, ◌≡◌, ◌≢◌, refl, sym, ap, ap₂, ◌∙◌, List, [], ◌∷◌, ◌++◌, Option, some, false, arith,
  length, ◌>>=◌, append_assoc, ==_ne,
}
use cs162proj.Thread.{Threads, next_thread_to_run, thread_yield}
use cs162proj.Thread.Order.{mem, mem-append, IsScheduled, yielded, thread_yield-Gives}

-- `n` threads yield one after the other.
abbrev pub yields : ℕ → Threads → Option Threads
yields zero st = some st
yields (suc n) st = thread_yield st >>= yields n

-- What a yield does where there is a ready thread.
yield_first :
    (st : Threads) (x : ℕ) (xs : List ℕ)
    → IsScheduled st
    → st.current ≢ st.idle_thread
    → st.ready_list ≡ x ∷ xs
    → (st' : Threads) × (thread_yield st ≡ some st')
      × IsScheduled st'
      × (st'.current ≡ x)
      × (st'.ready_list ≡ xs ++ st.current ∷ [])
      × (st'.idle_thread ≡ st.idle_thread)
yield_first st x xs v ne e =
    let (st', done, w, v') = thread_yield-Gives st v in
    let list : yielded st v ≡ x ∷ (xs ++ st.current ∷ []) =
      rw (==_ne st.current st.idle_thread ne, e) refl in
    let chosen : (st'.current, st'.ready_list) ≡ (x, xs ++ st.current ∷ []) =
      w.chosen ∙ ap (next_thread_to_run st.idle_thread) list in
    (st', done, v', ap (λ p. p.0) chosen, ap (λ p. p.1) chosen, w.same_idle)

-- A thread with `length xs` others before it in the ready list runs after `length xs + 1` yields,
-- and the others have then gone to the end of the list in their order. The idle thread neither runs
-- nor is in the list.
pub round_robin :
    (xs : List ℕ) (y : ℕ) (ys : List ℕ) (st : Threads)
    → IsScheduled st
    → st.current ≢ st.idle_thread
    → mem st.idle_thread st.ready_list ≡ false
    → st.ready_list ≡ xs ++ (y ∷ ys)
    → (st' : Threads) × (yields (suc (length xs)) st ≡ some st')
      × (st'.current ≡ y)
      × (st'.ready_list ≡ ys ++ (st.current ∷ xs))
      × IsScheduled st'
round_robin [] y ys st v ne out e =
    let (st', done, v', c, r, i) = yield_first st y ys v ne e in (st', rw done refl, c, r, v')
round_robin (x ∷ xs) y ys st v ne out e =
    let (st1, done, v1, c, r, i) = yield_first st x (xs ++ (y ∷ ys)) v ne e in
    let out' : mem st.idle_thread (x ∷ (xs ++ (y ∷ ys))) ≡ false =
      ap (mem st.idle_thread) (sym e) ∙ out in
    let (st', done', c', r', v') =
      round_robin xs y (ys ++ st.current ∷ []) st1 v1 (λ k. ground (arith, i, c, k, out'))
        (ap₂ mem i r
          ∙ ground (arith, mem-append st.idle_thread (xs ++ (y ∷ ys)) (st.current ∷ []), out', ne))
        (r ∙ append_assoc xs (y ∷ ys) (st.current ∷ [])) in
    (
      st',
      rw done done',
      c',
      r'
          ∙ append_assoc ys (st.current ∷ []) (st1.current ∷ xs)
          ∙ ap (λ z. ys ++ (st.current ∷ (z ∷ xs))) c,
      v',
    )
