-- ===== src/Synch/Safety.antt =====
-- What holds of every schedule of threads that use threads/synch.c.
use cs162proj.Prelude.{
  ℕ, ◌≤◌, ◌<◌, ◌≡◌, refl, ap, List, [], ◌∷◌, Option, none, some, Bool, true, false, ◌||◌, arith,
  Bool-cases, inl, inr, ==_iff,
}
use cs162proj.Thread.{ThreadStatus, is_blocked}
use cs162proj.Thread.Order.{mem}
use cs162proj.Synch.{Lock, is_holder}
use cs162proj.Synch.System.{
  Doing, at_rest, waiting, taking, leaving, System, Action, down, acquire, round, own, try_down,
  release, finish, up, yield, idle_block, exit, perform, run,
}
use cs162proj.Synch.Counts.{count_some, count_unique, count_witness}
use cs162proj.Synch.Invariant.{awaits, is_awake, is_busy, awake, IsSemaphore, IsSystem}
use cs162proj.Synch.Steps.{
  Keeps, down-Keeps, acquire-Keeps, own-Keeps, release-Keeps, try-Keeps, held_lem,
}
use cs162proj.Synch.Switch.{yield-Keeps, idle_block-Keeps, exit-Keeps, round-Keeps}
use cs162proj.Synch.Wake.{up-Keeps, finish-Keeps}

module _ (n : ℕ) (is_lock : ℕ → Bool) where
  -- Every action fails no assertion and keeps the invariant.
  pub perform-Keeps :
      (a : Action) (st : System) (inv : IsSystem n is_lock st)
      → Keeps n is_lock st inv (perform is_lock a st)
  unfolding perform
  perform-Keeps (down s) st inv = down-Keeps n is_lock st inv s
  perform-Keeps (acquire l) st inv = acquire-Keeps n is_lock st inv l
  perform-Keeps round st inv = round-Keeps n is_lock st inv (st.doing st.threads.current) refl
  perform-Keeps own st inv = own-Keeps n is_lock st inv (st.doing st.threads.current) refl
  perform-Keeps (try_down s) st inv = try-Keeps n is_lock st inv s
  perform-Keeps (release l) st inv = release-Keeps n is_lock st inv l
  perform-Keeps finish st inv = finish-Keeps n is_lock st inv (st.doing st.threads.current) refl
  perform-Keeps (up s) st inv = up-Keeps n is_lock st inv s
  perform-Keeps yield st inv = yield-Keeps n is_lock st inv
  perform-Keeps idle_block st inv = idle_block-Keeps n is_lock st inv
  perform-Keeps exit st inv = exit-Keeps n is_lock st inv

  -- Schedules without an action that the code does not allow.
  run_keeps :
      (as' : List Action) (st : System)
      → IsSystem n is_lock st
      → (st' : System) × (run is_lock as' st ≡ some st') × IsSystem n is_lock st'
  unfolding run
  run_keeps [] st inv = (st, refl, inv)
  run_keeps (a ∷ as') st inv =
      let (st', done, inv') = perform-Keeps a st inv in
      let (st'', done', inv'') = run_keeps as' st' inv' in (st'', rw done done', inv'')

  -- Does the thread own the lock? It does from the return of `sema_down` in `lock_acquire` to the
  -- `sema_up` in `lock_release`.
  abbrev pub owns : System → ℕ → ℕ → Bool
  owns st l t = is_holder (st.lock l).holder t || is_busy (st.doing t) l

  holder_lem : (o : Option ℕ) (t u : ℕ) → is_holder o t ≡ true → is_holder o u ≡ true → t ≡ u
  holder_lem none t u e f = ground arith
  holder_lem (some h) t u e f = ground arith

  IsSemaphore-owners :
      (lock : Lock) (doing : ℕ → Doing) (status : ℕ → ThreadStatus) (l t u : ℕ)
      → is_lock l ≡ true
      → IsSemaphore n (is_lock l) status doing l lock
      → t < n
      → u < n
      → (is_holder lock.holder t || is_busy (doing t) l) ≡ true
      → (is_holder lock.holder u || is_busy (doing u) l) ≡ true
      → (t ≡ u) × (lock.semaphore.value ≡ 0)
  IsSemaphore-owners lock doing status l t u k ok lt lu et eu =
      let p = λ (x : ℕ). is_busy (doing x) l in
      let total = ok.owned k in
      elim (Bool-cases (is_holder lock.holder t)) [
        | inl ht ↦ elim (Bool-cases (is_holder lock.holder u)) [
          | inl hu ↦
              (holder_lem lock.holder t u ht hu, omega (arith, total, held_lem lock.holder t ht))
          | inr hu ↦
              let b : is_busy (doing u) l ≡ true = ground arith in
              absurd (omega (arith, total, held_lem lock.holder t ht, count_some p n u lu b))
        ]
        | inr ht ↦
            let b : is_busy (doing t) l ≡ true = ground arith in
            let some_t = count_some p n t lt b in
            elim (Bool-cases (is_holder lock.holder u)) [
              | inl hu ↦ absurd (omega (arith, total, held_lem lock.holder u hu, some_t))
              | inr hu ↦
                  let b' : is_busy (doing u) l ≡ true = ground arith in
                  (
                    count_unique p n t u (omega (arith, total)) lt lu b b',
                    omega (arith, total, some_t),
                  )
            ]
      ]

  awaits_lem : (p : Doing) (s : ℕ) → awaits p s ≡ true → p ≡ waiting s
  awaits_lem at_rest s e = ground arith
  awaits_lem (waiting x) s e = ap waiting ((==_iff x s).0 e)
  awaits_lem (taking x) s e = ground arith
  awaits_lem (leaving x) s e = ground arith

  -- Mutual exclusion: in every schedule from a state with the invariant, two threads never own one
  -- lock at the same time, and while one does the semaphore of the lock is 0.
  pub mutual_exclusion :
      (as' : List Action) (st : System)
      → IsSystem n is_lock st
      → (st' : System) × (run is_lock as' st ≡ some st')
        × ((l t u : ℕ)
            → is_lock l ≡ true
            → t < n
            → u < n
            → owns st' l t ≡ true
            → owns st' l u ≡ true
            → (t ≡ u) × ((st'.lock l).semaphore.value ≡ 0))
  mutual_exclusion as' st inv =
      let (st', done, ok) = run_keeps as' st inv in
      (
        st',
        done,
        λ l t u k lt lu et eu.
            IsSemaphore-owners (st'.lock l) st'.doing st'.threads.status l t u k (ok.semas l) lt lu
              et eu,
      )

  -- No wake-up is lost: where threads sleep on a semaphore that is positive, a thread that is awake
  -- is about to try for it.
  pub no_lost_wakeup :
      (as' : List Action) (st : System)
      → IsSystem n is_lock st
      → (st' : System) × (run is_lock as' st ≡ some st')
        × ((s t : ℕ)
            → mem t (st'.lock s).semaphore.waiters ≡ true
            → 0 < (st'.lock s).semaphore.value
            → (u : ℕ) × (u < n)
              × (st'.doing u ≡ waiting s)
              × (is_blocked (st'.threads.status u) ≡ false))
  no_lost_wakeup as' st inv =
      let (st', done, ok) = run_keeps as' st inv in
      (
        st',
        done,
        λ s t m positive.
            let one : 1 ≤ awake n st'.threads.status st'.doing s = elim (ok.semas s).wakeup [
              | inl e ↦ absurd (ground (arith, ap (mem t) e, m))
              | inr h ↦ omega (arith, h, positive)
            ] in
            let (u, low, e) = count_witness (is_awake st'.threads.status st'.doing s) n one in
            (u, low, awaits_lem (st'.doing u) s (ground (arith, e)), ground (arith, e)),
      )
