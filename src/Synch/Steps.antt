-- ===== src/Synch/Steps.antt =====
-- Every action on the semaphores and locks of threads/synch.c keeps the invariant and fails no
-- assertion: the actions in which no thread is switched or woken.
use cs162proj.Prelude.{
  ℕ, ◌+◌, ◌-◌, ◌≤◌, ◌<◌, ◌≡◌, ◌≢◌, ◌⊎◌, refl, sym, ap, subst, ◌∙◌, Option, none, some, Bool, true,
  false, ◌==◌, ◌&&◌, ltb, not, arith, Bool-cases, inl, inr, ==_iff, ==_ne, ==_apart, ==_refl,
  ltb→lt,
}
use cs162proj.Thread.{ThreadStatus, thread_running, update}
use cs162proj.Thread.Order.{mem, Distinct}
use cs162proj.Synch.{Lock, is_holder, sema_try_down, acquire_begin, acquire_end, release_begin}
use cs162proj.Synch.System.{
  Doing, at_rest, waiting, taking, leaving, is_at_rest, System, Action, perform, perform_own, after,
}
use cs162proj.Synch.Counts.{bit, count_some}
use cs162proj.Synch.Invariant.{
  awaits, is_busy, held, IsSemaphore, IsQuiet, IsSystem, awake-doing, busy-doing,
}

pub bit_le : (b : Bool) → bit b ≤ 1
bit_le true = omega arith
bit_le false = omega arith

pub held_lem : (o : Option ℕ) (t : ℕ) → is_holder o t ≡ true → held o ≡ 1
held_lem none t e = ground arith
held_lem (some h) t e = refl

module _ (n : ℕ) (is_lock : ℕ → Bool) (st : System) (inv : IsSystem n is_lock st) where
  abbrev c : ℕ
  c = st.threads.current

  abbrev status : ℕ → ThreadStatus
  status = st.threads.status

  c_runs : status c ≡ thread_running
  c_runs = inv.quiet.scheduled.running

  -- The current thread goes on to `p`, and the lock `s` to `lock'`, with the same threads asleep.
  pub IsSemaphore-doing :
      (s : ℕ) (p : Doing) (lock' : Lock)
      → lock'.semaphore.waiters ≡ (st.lock s).semaphore.waiters
      → lock'.semaphore.value + bit (awaits (st.doing c) s)
        ≤ (st.lock s).semaphore.value + bit (awaits p s)
      → (is_lock s ≡ true
          → lock'.semaphore.value + held lock'.holder + bit (is_busy p s)
            ≡ (st.lock s).semaphore.value + held (st.lock s).holder + bit (is_busy (st.doing c) s))
      → IsSemaphore n (is_lock s) status (update st.doing c p) s lock'
  IsSemaphore-doing s p lock' same small even =
      let old = inv.semas s in
      let low = inv.quiet.current_low in
      let ready = awake-doing n status st.doing c s p low c_runs in
      let owners = busy-doing n st.doing c s p low in
      record {
        distinct = subst Distinct (sym same) old.distinct;
        asleep = λ t m.
            let (b, d, l) = old.asleep t (ap (mem t) (sym same) ∙ m) in
            let other : c ≢ t = λ e. ground (arith, ap status e, c_runs) in
            (b, rw (==_ne c t other) d, l);
        wakeup = elim old.wakeup [ inl e ↦ inl (same ∙ e) | inr h ↦ inr (omega arith) ];
        owned = λ l. omega (arith, old.owned l, even l);
      }

  abbrev pub Keeps : Option System → Type 0
  Keeps r = (st' : System) × (r ≡ some st') × IsSystem n is_lock st'

  pub stays : Keeps (some st)
  stays = (st, refl, inv)

  -- The idle thread stays at rest.
  IsQuiet-doing :
      (p : Doing)
      → (c ≢ st.threads.idle_thread) ⊎ (p ≡ at_rest)
      → IsQuiet n st.threads (update st.doing c p)
  IsQuiet-doing p h =
      let q = inv.quiet in
      record {
        scheduled = q.scheduled;
        current_low = q.current_low;
        idle_low = q.idle_low;
        ready_low = q.ready_low;
        idle_rest = elim h [
          | inl ne ↦ rw (==_ne c st.threads.idle_thread ne) q.idle_rest
          | inr e ↦ ground (arith, q.idle_rest, e)
        ];
      }

  abbrev free : Bool
  free = is_at_rest (st.doing c) && not (c == st.threads.idle_thread)

  rest_lem : (p : Doing) → is_at_rest p ≡ true → p ≡ at_rest
  rest_lem at_rest e = refl
  rest_lem (waiting s) e = ground arith
  rest_lem (taking s) e = ground arith
  rest_lem (leaving s) e = ground arith

  pub free_lem : free ≡ true → (st.doing c ≡ at_rest) × (c ≢ st.threads.idle_thread)
  free_lem e =
      let r : is_at_rest (st.doing c) ≡ true = ground arith in
      let o : (c == st.threads.idle_thread) ≡ false = ground arith in
      (rest_lem (st.doing c) r, ==_apart c st.threads.idle_thread o)

  -- A free thread starts to wait.
  starts :
      (s : ℕ)
      → free ≡ true
      → IsSystem n is_lock (record st { doing = update st.doing c (waiting s) })
  starts s f =
      let (rest, other) = free_lem f in
      record {
        quiet = IsQuiet-doing (waiting s) (inl other);
        semas = λ x.
            IsSemaphore-doing x (waiting s) (st.lock x) refl (rw rest (omega arith))
              (λ l. rw rest refl);
      }

  pub down-Keeps : (s : ℕ) → Keeps (perform is_lock (Action.down s) st)
  unfolding perform
  down-Keeps s = elim (Bool-cases (free && not (is_lock s))) [
    | inr e ↦ rw e stays
    | inl e ↦
        rw e (record st { doing = update st.doing c (waiting s) }, refl, starts s (ground arith))
  ]

  pub acquire-Keeps : (l : ℕ) → Keeps (perform is_lock (Action.acquire l) st)
  unfolding perform acquire_begin
  acquire-Keeps l = elim (Bool-cases (free && is_lock l && not (is_holder (st.lock l).holder c))) [
    | inr e ↦ rw e stays
    | inl e ↦
        let out : is_holder (st.lock l).holder c ≡ false = ground arith in
        let st' = record st { doing = update st.doing c (waiting l) } in
        rw e (st', rw out refl, starts l (ground arith))
  ]

  -- The lock `l` becomes `lock'`, and the current thread goes on to `p`.
  abbrev moved : ℕ → Doing → Lock → System
  moved l p lock' = record st { lock = update st.lock l lock'; doing = update st.doing c p }

  pub moves :
      (l : ℕ) (p : Doing) (lock' : Lock)
      → (c ≢ st.threads.idle_thread) ⊎ (p ≡ at_rest)
      → IsSemaphore n (is_lock l) status (update st.doing c p) l lock'
      → ((s : ℕ) → s ≢ l → awaits (st.doing c) s ≡ false)
      → ((s : ℕ) → s ≢ l → is_busy p s ≡ is_busy (st.doing c) s)
      → IsSystem n is_lock (moved l p lock')
  moves l p lock' h own others still = record {
    quiet = IsQuiet-doing p h;
    semas = λ s. elim (Bool-cases (l == s)) [
      | inl e ↦
          subst
            (λ x.
              IsSemaphore n (is_lock x) status (update st.doing c p) x (update st.lock l lock' x))
            ((==_iff l s).0 e) (rw (==_refl l) own)
      | inr e ↦
          let ne : s ≢ l = λ k. ==_apart l s e (sym k) in
          rw e (
            IsSemaphore-doing s p (st.lock s) refl (rw (others s ne) (omega arith))
              (λ k. rw (still s ne) refl))
    ];
  }

  pub own-Keeps : (p : Doing) → st.doing c ≡ p → Keeps (perform_own is_lock p st)
  unfolding perform_own acquire_end
  own-Keeps at_rest e = stays
  own-Keeps (waiting s) e = stays
  own-Keeps (leaving l) e = stays
  own-Keeps (taking l) e =
      let lock' = record (st.lock l) { holder = some c } in
      let counted =
        count_some (λ t. is_busy (st.doing t) l) n c inv.quiet.current_low (rw e (==_refl l)) in
      (
        moved l at_rest lock',
        refl,
        moves l at_rest lock' (inr refl)
            (IsSemaphore-doing l at_rest lock' refl (rw e (omega arith))
              (λ k. rw e (omega (arith, (inv.semas l).owned k, counted, ap bit (==_refl l)))))
            (λ s ne. rw e refl) (λ s ne. rw e (sym (==_ne l s (λ k. ne (sym k))))),
      )

  pub release-Keeps : (l : ℕ) → Keeps (perform is_lock (Action.release l) st)
  unfolding perform release_begin
  release-Keeps l = elim (Bool-cases (free && is_lock l && is_holder (st.lock l).holder c)) [
    | inr e ↦ rw e stays
    | inl e ↦
        let mine : is_holder (st.lock l).holder c ≡ true = ground arith in
        let (rest, other) = free_lem (ground arith) in
        let lock' = record (st.lock l) { holder = none } in
        rw e (
          moved l (leaving l) lock',
          rw mine refl,
          moves l (leaving l) lock' (inl other)
              (IsSemaphore-doing l (leaving l) lock' refl (rw rest (omega arith)) (λ k.
                rw rest (omega (arith, held_lem (st.lock l).holder c mine, ap bit (==_refl l)))))
              (λ s ne. rw rest refl) (λ s ne. rw rest (==_ne l s (λ k. ne (sym k)))),
        )
  ]

  -- The current thread takes a value of the semaphore `s`.
  pub takes :
      (s : ℕ)
      → (st.doing c ≡ waiting s) ⊎ (st.doing c ≡ at_rest)
      → c ≢ st.threads.idle_thread
      → 0 < (st.lock s).semaphore.value
      → IsSystem n is_lock (
          moved s (after is_lock s) (record (st.lock s) {
            semaphore = record ((st.lock s).semaphore) { value = (st.lock s).semaphore.value - 1 };
          }))
  takes s h other some_left =
      let sema = (st.lock s).semaphore in
      let lock' = record (st.lock s) { semaphore = record sema { value = sema.value - 1 } } in
      let idle_hands : (x : ℕ) → is_busy (st.doing c) x ≡ false =
        λ x. elim h [ inl e ↦ rw e refl | inr e ↦ rw e refl ] in
      let elsewhere : (x : ℕ) → x ≢ s → awaits (st.doing c) x ≡ false =
        λ x ne. elim h [ inl e ↦ rw e (==_ne s x (λ k. ne (sym k))) | inr e ↦ rw e refl ] in
      elim (Bool-cases (is_lock s)) [
        | inl k ↦ rw k (
            moves s (taking s) lock' (inl other)
              (IsSemaphore-doing s (taking s) lock' refl
                (omega (arith, bit_le (awaits (st.doing c) s)))
                (λ _. rw (idle_hands s) (omega (arith, ap bit (==_refl s)))))
              elsewhere (λ x ne. ==_ne s x (λ m. ne (sym m)) ∙ sym (idle_hands x)))
        | inr k ↦ rw k (
            moves s at_rest lock' (inl other)
              (IsSemaphore-doing s at_rest lock' refl
                (omega (arith, bit_le (awaits (st.doing c) s))) (λ l. ground (arith, l, k)))
              elsewhere (λ x ne. sym (idle_hands x)))
      ]

  pub try-Keeps : (s : ℕ) → Keeps (perform is_lock (Action.try_down s) st)
  unfolding perform sema_try_down
  try-Keeps s = elim (Bool-cases (ltb 0 (st.lock s).semaphore.value)) [
    | inr e ↦ elim (Bool-cases free) [ inl f ↦ rw (e, f) stays | inr f ↦ rw (e, f) stays ]
    | inl e ↦ elim (Bool-cases free) [
      | inr f ↦ rw (e, f) stays
      | inl f ↦
          let (rest, other) = free_lem f in
          let sema = (st.lock s).semaphore in
          let lock' = record (st.lock s) { semaphore = record sema { value = sema.value - 1 } } in
          rw (e, f)
            (
              moved s (after is_lock s) lock',
              refl,
              takes s (inr rest) other (ltb→lt 0 (st.lock s).semaphore.value e),
            )
    ]
  ]
