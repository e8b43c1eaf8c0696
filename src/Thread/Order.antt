-- ===== src/Thread/Order.antt =====
-- The invariant of threads/thread.c: one thread runs, and the ready list is the list of the ready
-- threads. No function fails an assertion in it, and each keeps it.
use cs162proj.Prelude.{
  ℕ, ◌≡◌, ◌≢◌, refl, sym, ap, ap₂, subst, ◌∙◌, List, [], ◌∷◌, ◌++◌, Option, none, some, Bool, true,
  false, ◌==◌, ◌&&◌, not, arith, if◌then◌else◌, Bool-cases, inl, inr, ==_ne,
}
use cs162proj.Thread.{
  ThreadStatus, thread_running, thread_ready, thread_blocked, thread_dying, is_running, is_dying,
  update, Threads, set_status, next_thread_to_run, destroy, thread_schedule_tail, schedule,
  thread_block, thread_unblock, thread_yield, thread_exit, remove,
}

abbrev pub mem : ℕ → List ℕ → Bool
mem t [] = false
mem t (x ∷ xs) = if t == x then true else mem t xs

abbrev pub Distinct : List ℕ → Type 0
Distinct [] = Unit
Distinct (x ∷ xs) = (mem x xs ≡ false) × Distinct xs

-- What holds of the states of the threads that are not current.
pub record IsQueue (status : ℕ → ThreadStatus) (ready : List ℕ) (idle : ℕ) : Type 0 where
  pub queued : (t : ℕ) → mem t ready ≡ true → status t ≡ thread_ready
  pub distinct : Distinct ready
  pub complete : (t : ℕ) → status t ≡ thread_ready → t ≢ idle → mem t ready ≡ true

pub record IsScheduled (st : Threads) : Type 0 where
  pub running : st.status st.current ≡ thread_running
  pub only : (t : ℕ) → st.status t ≡ thread_running → t ≡ st.current
  pub queue : IsQueue st.status st.ready_list st.idle_thread

-- The state in which `schedule` is called: no thread is marked as running.
pub record IsSwitching (st : Threads) : Type 0 where
  pub nobody : (t : ℕ) → is_running (st.status t) ≡ false
  pub queue : IsQueue st.status st.ready_list st.idle_thread

-- The switch: the first ready thread runs, or the idle thread.
pub record Switched (st st' : Threads) : Type 0 where
  pub chosen : (st'.current, st'.ready_list) ≡ next_thread_to_run st.idle_thread st.ready_list
  pub marked : (t : ℕ) → st'.status t ≡ update st.status st'.current thread_running t
  pub same_idle : st'.idle_thread ≡ st.idle_thread
  pub same_all : st'.all_list ≡ st.all_list

pub mem-append : (t : ℕ) (xs ys : List ℕ) → mem t (xs ++ ys) ≡ (if mem t xs then true else mem t ys)
mem-append t [] ys = refl
mem-append t (x ∷ xs) ys = ground (arith, mem-append t xs ys)

pub Distinct-snoc : (t : ℕ) (xs : List ℕ) → mem t xs ≡ false → Distinct xs → Distinct (xs ++ t ∷ [])
Distinct-snoc t [] h d = (refl, tt)
Distinct-snoc t (x ∷ xs) h d =
    (ground (arith, mem-append x xs (t ∷ [])), Distinct-snoc t xs (ground arith) d.1)

pub destroy-some :
    (prev : Option ℕ) (st : Threads)
    → ((p : ℕ) → prev ≡ some p → p ≢ st.current)
    → (st' : Threads) × (destroy prev st ≡ some st')
      × (st'.status ≡ st.status)
      × (st'.ready_list ≡ st.ready_list)
      × (st'.current ≡ st.current)
      × (st'.idle_thread ≡ st.idle_thread)
      × (st'.all_list ≡ st.all_list)
unfolding destroy
destroy-some none st h = (st, refl, refl, refl, refl, refl, refl)
destroy-some (some p) st h =
    elim (Bool-cases (is_dying (st.status p) && not (p == st.initial_thread))) [
      | inr e ↦ (st, rw e refl, refl, refl, refl, refl, refl)
      | inl e ↦ (
        record st { freed = p ∷ st.freed },
        rw (e, ==_ne p st.current (h p refl)) refl,
        refl,
        refl,
        refl,
        refl,
        refl,
      )
    ]

-- The thread that is left, unless it is chosen again.
abbrev left : ℕ → ℕ → Option ℕ
left current next = if current == next then none else some current

left-ne : (current next p : ℕ) → left current next ≡ some p → p ≢ next
left-ne current next p e = λ h. ground (arith, h)

pub schedule-some :
    (st : Threads) → IsSwitching st → (st' : Threads) × (schedule st ≡ some st') × Switched st st'
unfolding schedule thread_schedule_tail
schedule-some st q =
    let chosen = next_thread_to_run st.idle_thread st.ready_list in
    let next : ℕ = chosen.0 in
    let ready : Threads =
      record (set_status (record st { ready_list = chosen.1; current = next }) next
        thread_running) { thread_ticks = 0 } in
    let (st', done, s, r, c, i, a) =
      destroy-some (left st.current next) ready (left-ne st.current next) in
    (
      st',
      rw (q.nobody st.current) done,
      record {
        chosen = ap₂ (λ (x : ℕ) (y : List ℕ). (x, y)) c r;
        marked = λ t. ap (λ f. f t) s ∙ ap (λ k. update st.status k thread_running t) (sym c);
        same_idle = i;
        same_all = a;
      },
    )

IsQueue-cong :
    (s s' : ℕ → ThreadStatus) (ready : List ℕ) (idle : ℕ)
    → ((t : ℕ) → s' t ≡ s t)
    → IsQueue s ready idle
    → IsQueue s' ready idle
IsQueue-cong s s' ready idle h q = record {
  queued = λ t m. h t ∙ q.queued t m;
  distinct = q.distinct;
  complete = λ t e n. q.complete t (sym (h t) ∙ e) n;
}

-- The chosen thread is in the list no more.
IsQueue-chosen :
    (s : ℕ → ThreadStatus) (ready : List ℕ) (idle : ℕ)
    → IsQueue s ready idle
    → IsQueue
        (update s (next_thread_to_run idle ready).0 thread_running)
        (next_thread_to_run idle ready).1
        idle
IsQueue-chosen s [] idle q = record {
  queued = λ t m. cc;
  distinct = tt;
  complete = λ t e n. ground (arith, q.complete t);
}
IsQueue-chosen s (x ∷ xs) idle q = record {
  queued = λ t m. ground (arith, q.queued t, q.distinct);
  distinct = q.distinct.1;
  complete = λ t e n. ground (arith, q.complete t);
}

-- After a switch the invariant holds.
pub Switched-IsScheduled : (st st' : Threads) → IsSwitching st → Switched st st' → IsScheduled st'
Switched-IsScheduled st st' q w =
    let chosen = next_thread_to_run st.idle_thread st.ready_list in
    let queue = IsQueue-chosen st.status st.ready_list st.idle_thread q.queue in
    let current : st'.current ≡ chosen.0 = ap (λ p. p.0) w.chosen in
    let rest : st'.ready_list ≡ chosen.1 = ap (λ p. p.1) w.chosen in
    record {
      running = ground (arith, w.marked st'.current);
      only = λ t e. ground (arith, w.marked t, q.nobody t);
      queue =
          IsQueue-cong (update st.status st'.current thread_running) st'.status st'.ready_list
            st'.idle_thread w.marked (rw (current, rest, w.same_idle) queue);
    }

running_lem : (s : ThreadStatus) → is_running s ≡ true → s ≡ thread_running
running_lem thread_running e = refl
running_lem thread_ready e = ground arith
running_lem thread_blocked e = ground arith
running_lem thread_dying e = ground arith

module _ (st : Threads) (v : IsScheduled st) where
  -- Without the current thread nobody runs.
  nobody_else :
      (s : ThreadStatus)
      → is_running s ≡ false
      → (t : ℕ) → is_running (update st.status st.current s t) ≡ false
  nobody_else s h t = elim (Bool-cases (is_running (st.status t))) [
    | inl e ↦ ground (arith, v.only t (running_lem (st.status t) e))
    | inr e ↦ ground arith
  ]

  current_out : mem st.current st.ready_list ≡ false
  current_out = elim (Bool-cases (mem st.current st.ready_list)) [
    | inl e ↦ ground (arith, v.queue.queued st.current e, v.running)
    | inr e ↦ e
  ]

  -- The current thread blocks or dies.
  pub IsQueue-gone :
      (s : ThreadStatus)
      → s ≢ thread_ready
      → IsQueue (update st.status st.current s) st.ready_list st.idle_thread
  IsQueue-gone s n = record {
    queued = λ t m. ground (arith, v.queue.queued t m, current_out);
    distinct = v.queue.distinct;
    complete = λ t e k. ground (arith, v.queue.complete t);
  }

  abbrev pub yielded : List ℕ
  yielded = if st.current == st.idle_thread then st.ready_list else st.ready_list ++ st.current ∷ []

  pub IsQueue-yielded : IsQueue (update st.status st.current thread_ready) yielded st.idle_thread
  IsQueue-yielded = elim (Bool-cases (st.current == st.idle_thread)) [
    | inl e ↦ rw e (record {
      queued = λ t m. ground (arith, v.queue.queued t m, current_out);
      distinct = v.queue.distinct;
      complete = λ t c k. ground (arith, v.queue.complete t);
    })
    | inr e ↦ rw e (record {
      queued =
          λ t m. ground (arith, mem-append t st.ready_list (st.current ∷ []), v.queue.queued t);
      distinct = Distinct-snoc st.current st.ready_list current_out v.queue.distinct;
      complete =
          λ t c k. ground (arith, mem-append t st.ready_list (st.current ∷ []), v.queue.complete t);
    })
  ]

  -- What a call that gives up the processor comes to: it fails no assertion, the invariant holds
  -- again, and the switch starts from the state `before`.
  abbrev pub Gives : Threads → Option Threads → Type 0
  Gives before r = (st' : Threads) × (r ≡ some st') × Switched before st' × IsScheduled st'

  give_up : (before : Threads) → IsSwitching before → Gives before (schedule before)
  give_up before q =
      let (st', done, w) = schedule-some before q in
      (st', done, w, Switched-IsScheduled before st' q w)

  pub thread_block-Gives : Gives (set_status st st.current thread_blocked) (thread_block st)
  unfolding thread_block
  thread_block-Gives = subst (Gives (set_status st st.current thread_blocked)) (rw v.running refl) (
      give_up (set_status st st.current thread_blocked) (record {
        nobody = nobody_else thread_blocked refl;
        queue = IsQueue-gone thread_blocked (λ e. cc);
      }))

  pub thread_yield-Gives :
      Gives
        (set_status (record st { ready_list = yielded }) st.current thread_ready)
        (thread_yield st)
  unfolding thread_yield
  thread_yield-Gives =
      let before = set_status (record st { ready_list = yielded }) st.current thread_ready in
      subst (Gives before) (rw v.running refl) (
        give_up before (record { nobody = nobody_else thread_ready refl; queue = IsQueue-yielded }))

  pub thread_exit-Gives :
      Gives
        (set_status
          (record st { all_list = remove st.current st.all_list })
          st.current
          thread_dying)
        (thread_exit st)
  unfolding thread_exit
  thread_exit-Gives =
      let before =
        set_status (record st { all_list = remove st.current st.all_list }) st.current
          thread_dying in
      subst (Gives before) (rw v.running refl) (
        give_up before (record {
          nobody = nobody_else thread_dying refl;
          queue = IsQueue-gone thread_dying (λ e. cc);
        }))

  -- A blocked thread becomes the last of the ready list.
  abbrev pub woken : ℕ → Threads
  woken t = set_status (record st { ready_list = st.ready_list ++ t ∷ [] }) t thread_ready

  pub thread_unblock-IsScheduled :
      (t : ℕ)
      → st.status t ≡ thread_blocked
      → (thread_unblock t st ≡ some (woken t)) × IsScheduled (woken t)
  unfolding thread_unblock
  thread_unblock-IsScheduled t e =
      let out : mem t st.ready_list ≡ false = elim (Bool-cases (mem t st.ready_list)) [
        | inl m ↦ ground (arith, v.queue.queued t m)
        | inr m ↦ m
      ] in
      (
        rw e refl,
        record {
          running = ground (arith, v.running);
          only = λ x r. ground (arith, v.only x);
          queue = record {
            queued = λ x m. ground (arith, mem-append x st.ready_list (t ∷ []), v.queue.queued x);
            distinct = Distinct-snoc t st.ready_list out v.queue.distinct;
            complete =
                λ x r k. ground (arith, mem-append x st.ready_list (t ∷ []), v.queue.complete x);
          };
        },
      )
