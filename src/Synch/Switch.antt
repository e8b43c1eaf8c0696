-- ===== src/Synch/Switch.antt =====
-- The actions on the semaphores and locks of threads/synch.c in which the current thread gives up
-- the processor keep the invariant and fail no assertion.
use cs162proj.Prelude.{
  ℕ, ◌+◌, ◌-◌, ◌≤◌, ◌<◌, ◌≡◌, ◌≢◌, ◌⊎◌, refl, sym, ap, subst, ◌∙◌, [], ◌∷◌, ◌++◌, Bool, true, false,
  ◌==◌, ◌&&◌, not, arith, Bool-cases, inl, inr, ==_iff, ==_ne, ==_apart, ==_refl,
}
use cs162proj.Thread.{
  Threads, ThreadStatus, thread_blocked, thread_ready, thread_dying, is_blocked, update, set_status,
  remove, next_thread_to_run,
}
use cs162proj.Thread.Order.{
  mem, mem-append, Distinct, Distinct-snoc, IsQueue, IsScheduled, Switched, IsQueue-gone,
  IsQueue-yielded, yielded, thread_block-Gives, thread_yield-Gives, thread_exit-Gives,
}
use cs162proj.Synch.{Lock, sema_down_round}
use cs162proj.Synch.System.{
  Doing, at_rest, waiting, taking, leaving, is_at_rest, System, Action, perform, perform_round,
  after,
}
use cs162proj.Synch.Counts.{bit, count_some, count-change}
use cs162proj.Synch.Invariant.{
  awaits, is_awake, held, awake, IsSemaphore, IsSystem, awake-Switched, IsQuiet-Switched,
  next-ready,
}
use cs162proj.Synch.Steps.{bit_le, Keeps, stays, takes, free_lem}

-- A thread that sleeps is not the one that is chosen.
blocked-stays :
    (before th' : Threads) (doing : ℕ → Doing) (t s : ℕ)
    → IsQueue before.status before.ready_list before.idle_thread
    → doing before.idle_thread ≡ at_rest
    → Switched before th'
    → before.status t ≡ thread_blocked
    → doing t ≡ waiting s
    → th'.status t ≡ thread_blocked
blocked-stays before th' doing t s q rest w b d =
    let next = next_thread_to_run before.idle_thread before.ready_list in
    let current : th'.current ≡ next.0 = ap (λ p. p.0) w.chosen in
    elim (next-ready 0 before.status before.ready_list before.idle_thread q) [
      | inl idle ↦ ground (arith, w.marked t, b, ap doing idle, rest, d, current, idle)
      | inr (ready, m) ↦ ground (arith, w.marked t, b, current, ready)
    ]

bit_split : (a b : Bool) → bit a ≡ bit (a && b) + bit (a && not b)
bit_split true true = omega arith
bit_split true false = omega arith
bit_split false b = omega arith

module _ (n : ℕ) (is_lock : ℕ → Bool) (st : System) (inv : IsSystem n is_lock st) where
  abbrev c : ℕ
  c = st.threads.current

  asleep-still :
      (to : ThreadStatus) (t s : ℕ)
      → mem t (st.lock s).semaphore.waiters ≡ true
      → (update st.threads.status c to t ≡ thread_blocked) × (st.doing t ≡ waiting s) × (t < n)
  asleep-still to t s m =
      let (b, d, l) = (inv.semas s).asleep t m in
      let other : c ≢ t =
        λ e. ground (arith, ap st.threads.status e, inv.quiet.scheduled.running) in
      (rw (==_ne c t other) b, d, l)

  -- The state of the threads as the current one leaves them.
  module _ (before th' : Threads) (to : ThreadStatus)
      (marked : before.status ≡ update st.threads.status c to)
      (same : before.idle_thread ≡ st.threads.idle_thread)
      (queue : IsQueue before.status before.ready_list before.idle_thread)
      (w : Switched before th') where
    idle_rest : st.doing before.idle_thread ≡ at_rest
    idle_rest = ap st.doing same ∙ inv.quiet.idle_rest

    -- A semaphore after the switch, from the semaphore before it.
    IsSemaphore-switched :
        (s : ℕ) (lock' : Lock)
        → Distinct lock'.semaphore.waiters
        → ((t : ℕ)
            → mem t lock'.semaphore.waiters ≡ true
            → (before.status t ≡ thread_blocked) × (st.doing t ≡ waiting s) × (t < n))
        → (lock'.semaphore.waiters ≡ [])
          ⊎ (lock'.semaphore.value + bit (awaits (st.doing c) s && is_blocked to)
              ≤ awake n st.threads.status st.doing s)
        → (is_lock s ≡ true
            → lock'.semaphore.value + held lock'.holder
              ≡ (st.lock s).semaphore.value + held (st.lock s).holder)
        → IsSemaphore n (is_lock s) th'.status st.doing s lock'
    IsSemaphore-switched s lock' dist asleep wake own =
        let p0 = is_awake st.threads.status st.doing s in
        let p1 = is_awake before.status st.doing s in
        let others : (t : ℕ) → t ≢ c → p0 t ≡ p1 t = λ t ne.
          let here : before.status t ≡ st.threads.status t =
            ap (λ f. f t) marked ∙ rw (==_ne c t (λ k. ne (sym k))) refl in
          ap (λ x. awaits (st.doing t) s && not (is_blocked x)) (sym here) in
        let moved = count-change p0 p1 n c inv.quiet.current_low others in
        let old : p0 c ≡ awaits (st.doing c) s = ground (arith, inv.quiet.scheduled.running) in
        let new : p1 c ≡ (awaits (st.doing c) s && not (is_blocked to)) =
          let here : before.status c ≡ to = ap (λ f. f c) marked ∙ rw (==_refl c) refl in
          ap (λ x. awaits (st.doing c) s && not (is_blocked x)) here in
        let split = bit_split (awaits (st.doing c) s) (is_blocked to) in
        let switched = awake-Switched n before th' st.doing s queue idle_rest w in
        record {
          distinct = dist;
          asleep = λ t m.
              let (b, d, l) = asleep t m in
              (blocked-stays before th' st.doing t s queue idle_rest w b d, d, l);
          wakeup = elim wake [
            | inl e ↦ inl e
            | inr h ↦ inr (omega (arith, h, moved, ap bit old, ap bit new, split, switched))
          ];
          owned = λ k. omega (arith, own k, (inv.semas s).owned k);
        }

    -- No semaphore changes, and the thread does not block while it waits.
    IsSemaphore-kept :
        (s : ℕ)
        → (awaits (st.doing c) s && is_blocked to) ≡ false
        → IsSemaphore n (is_lock s) th'.status st.doing s (st.lock s)
    IsSemaphore-kept s free =
        let old = inv.semas s in
        IsSemaphore-switched s (st.lock s) old.distinct
          (λ t m. let (b, d, l) = asleep-still to t s m in (ap (λ f. f t) marked ∙ b, d, l))
          (elim old.wakeup [ inl e ↦ inl e | inr h ↦ inr (rw free (omega arith)) ]) (λ k. refl)

    switched :
        ((s : ℕ) → (awaits (st.doing c) s && is_blocked to) ≡ false)
        → ((t : ℕ) → mem t before.ready_list ≡ true → t < n)
        → IsScheduled th'
        → IsSystem n is_lock (record st { threads = th' })
    switched free low v = record {
      quiet =
          IsQuiet-Switched n before th' st.doing queue idle_rest
            (omega (arith, same, inv.quiet.idle_low)) low w v;
      semas = λ s. IsSemaphore-kept s (free s);
    }

  yielded_low : (t : ℕ) → mem t (yielded st.threads inv.quiet.scheduled) ≡ true → t < n
  yielded_low t m = ground (
    arith,
    mem-append t st.threads.ready_list (c ∷ []),
    inv.quiet.ready_low t,
    inv.quiet.current_low,
  )

  pub yield-Keeps : Keeps n is_lock st inv (perform is_lock Action.yield st)
  unfolding perform
  yield-Keeps =
      let v = inv.quiet.scheduled in
      let before =
        set_status (record (st.threads) { ready_list = yielded st.threads v }) c thread_ready in
      let (th', done, w, v') = thread_yield-Gives st.threads v in
      (
        record st { threads = th' },
        rw done refl,
        switched before th' thread_ready refl refl (IsQueue-yielded st.threads v) w
            (λ s. ground arith) yielded_low v',
      )

  pub idle_block-Keeps : Keeps n is_lock st inv (perform is_lock Action.idle_block st)
  unfolding perform
  idle_block-Keeps = elim (Bool-cases (c == st.threads.idle_thread)) [
    | inr e ↦ rw e (stays n is_lock st inv)
    | inl e ↦
        let v = inv.quiet.scheduled in
        let rest : st.doing c ≡ at_rest =
          ap st.doing ((==_iff c st.threads.idle_thread).0 e) ∙ inv.quiet.idle_rest in
        let before = set_status st.threads c thread_blocked in
        let (th', done, w, v') = thread_block-Gives st.threads v in
        rw e (
          record st { threads = th' },
          rw done refl,
          switched before th' thread_blocked refl refl
              (IsQueue-gone st.threads v thread_blocked (λ k. cc)) w (λ s. rw rest refl)
              inv.quiet.ready_low v',
        )
  ]

  pub exit-Keeps : Keeps n is_lock st inv (perform is_lock Action.exit st)
  unfolding perform
  exit-Keeps = elim (Bool-cases (is_at_rest (st.doing c) && not (c == st.threads.idle_thread))) [
    | inr e ↦ rw e (stays n is_lock st inv)
    | inl e ↦
        let v = inv.quiet.scheduled in
        let (rest, other) = free_lem n is_lock st inv e in
        let gone = record (st.threads) { all_list = remove c st.threads.all_list } in
        let (th', done, w, v') = thread_exit-Gives st.threads v in
        rw e (
          record st { threads = th' },
          rw done refl,
          switched (set_status gone c thread_dying) th' thread_dying refl refl
              (IsQueue-gone st.threads v thread_dying (λ k. cc)) w (λ s. rw rest refl)
              inv.quiet.ready_low v',
        )
  ]

  -- A thread that finds the value 0 joins the waiters.
  pub sleep-Keeps :
      (s : ℕ)
      → st.doing c ≡ waiting s
      → ((st.lock s).semaphore.value == 0) ≡ true
      → Keeps n is_lock st inv (perform_round is_lock (waiting s) st)
  unfolding perform_round sema_down_round
  sleep-Keeps s e zero_value =
      let v = inv.quiet.scheduled in
      let q = inv.quiet in
      let old = inv.semas s in
      let sema = (st.lock s).semaphore in
      let before = set_status st.threads c thread_blocked in
      let queue = IsQueue-gone st.threads v thread_blocked (λ k. cc) in
      let (th', done, w, v') = thread_block-Gives st.threads v in
      let sema' = record sema { waiters = sema.waiters ++ c ∷ [] } in
      let lock' = record (st.lock s) { semaphore = sema' } in
      let new : mem c sema.waiters ≡ false = elim (Bool-cases (mem c sema.waiters)) [
        | inl m ↦ ground (arith, (old.asleep c m).0, v.running)
        | inr m ↦ m
      ] in
      let here : is_awake st.threads.status st.doing s c ≡ true =
        rw (e, v.running) (ground (arith, ==_refl s)) in
      let one = count_some (is_awake st.threads.status st.doing s) n c q.current_low here in
      let value_zero : sema.value ≡ 0 = (==_iff sema.value 0).0 zero_value in
      (
        record st { threads = th'; lock = update st.lock s lock' },
        rw (zero_value, sema_down_round, done) refl,
        record {
          quiet =
              IsQuiet-Switched n before th' st.doing queue q.idle_rest q.idle_low q.ready_low w v';
          semas = λ x. elim (Bool-cases (s == x)) [
            | inr k ↦ rw k (
                IsSemaphore-kept before th' thread_blocked refl refl queue w x
                  (rw e (ground (arith, k))))
            | inl k ↦
                subst
                  (λ y. IsSemaphore n (is_lock y) th'.status st.doing y (update st.lock s lock' y))
                  ((==_iff s x).0 k)
                  (rw (==_refl s) (
                    IsSemaphore-switched before th' thread_blocked refl refl queue w s lock'
                      (Distinct-snoc c sema.waiters new old.distinct)
                      (λ t m. elim (Bool-cases (mem t sema.waiters)) [
                        | inl o ↦ asleep-still thread_blocked t s o
                        | inr o ↦
                            let same : t ≡ c =
                              ground (arith, mem-append t sema.waiters (c ∷ []), m, o) in
                            subst
                              (λ y.
                                (before.status y ≡ thread_blocked)
                                × (st.doing y ≡ waiting s)
                                × (y < n))
                              (sym same) (rw (==_refl c) refl, e, q.current_low)
                      ])
                      (inr (omega (arith, one, value_zero, bit_le (awaits (st.doing c) s && true))))
                      (λ l. refl)))
          ];
        },
      )

  pub round-Keeps :
      (p : Doing) → st.doing c ≡ p → Keeps n is_lock st inv (perform_round is_lock p st)
  unfolding perform_round sema_down_round
  round-Keeps at_rest e = stays n is_lock st inv
  round-Keeps (taking l) e = stays n is_lock st inv
  round-Keeps (leaving l) e = stays n is_lock st inv
  round-Keeps (waiting s) e = elim (Bool-cases ((st.lock s).semaphore.value == 0)) [
    | inl z ↦ sleep-Keeps s e z
    | inr z ↦
        let sema = (st.lock s).semaphore in
        let lock' = record (st.lock s) { semaphore = record sema { value = sema.value - 1 } } in
        let other : c ≢ st.threads.idle_thread =
          λ k. ground (arith, ap st.doing k, inv.quiet.idle_rest, e) in
        let apart = ==_apart sema.value 0 z in
        (
          record st { lock = update st.lock s lock'; doing = update st.doing c (after is_lock s) },
          rw (z, sema_down_round) refl,
          takes n is_lock st inv s (inl e) other (omega arith),
        )
  ]
