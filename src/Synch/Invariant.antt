-- ===== src/Synch/Invariant.antt =====
-- What holds of the semaphores and locks of threads/synch.c in every state.
use cs162proj.Prelude.{
  ℕ, ◌+◌, ◌≤◌, ◌<◌, ◌≡◌, ◌≢◌, ◌⊎◌, refl, sym, ap, ◌∙◌, List, [], ◌∷◌, Option, none, some, Bool,
  true, false, ◌==◌, ◌&&◌, not, arith, inl, inr,
}
use cs162proj.Thread.{
  Threads, ThreadStatus, thread_running, thread_blocked, thread_ready, is_blocked, update,
  next_thread_to_run,
}
use cs162proj.Thread.Order.{mem, Distinct, IsQueue, IsScheduled, Switched}
use cs162proj.Synch.{Lock}
use cs162proj.Synch.System.{Doing, at_rest, waiting, taking, leaving, System}
use cs162proj.Synch.Counts.{bit, count, count-same, count-change}

abbrev pub awaits : Doing → ℕ → Bool
awaits at_rest s = false
awaits (waiting x) s = x == s
awaits (taking x) s = false
awaits (leaving x) s = false

-- The thread owns a lock that `holder` does not show.
abbrev pub is_busy : Doing → ℕ → Bool
is_busy at_rest s = false
is_busy (waiting x) s = false
is_busy (taking x) s = x == s
is_busy (leaving x) s = x == s

abbrev pub is_awake : (ℕ → ThreadStatus) → (ℕ → Doing) → ℕ → ℕ → Bool
is_awake status doing s t = awaits (doing t) s && not (is_blocked (status t))

abbrev pub held : Option ℕ → ℕ
held none = 0
held (some t) = 1

module _ (n : ℕ) where
  -- The threads that are about to try for the semaphore.
  abbrev pub awake : (ℕ → ThreadStatus) → (ℕ → Doing) → ℕ → ℕ
  awake status doing s = count (is_awake status doing s) n

  abbrev pub busy : (ℕ → Doing) → ℕ → ℕ
  busy doing l = count (λ t. is_busy (doing t) l) n

  -- One semaphore, and the lock around it if there is one.
  pub record IsSemaphore (is_lock : Bool) (status : ℕ → ThreadStatus) (doing : ℕ → Doing) (s : ℕ)
      (lock : Lock) : Type 0 where
    pub distinct : Distinct lock.semaphore.waiters
    pub asleep :
        (t : ℕ)
        → mem t lock.semaphore.waiters ≡ true
        → (status t ≡ thread_blocked) × (doing t ≡ waiting s) × (t < n)
    pub wakeup : (lock.semaphore.waiters ≡ []) ⊎ (lock.semaphore.value ≤ awake status doing s)
    pub owned : is_lock ≡ true → lock.semaphore.value + held lock.holder + busy doing s ≡ 1

  pub record IsQuiet (th : Threads) (doing : ℕ → Doing) : Type 0 where
    pub scheduled : IsScheduled th
    pub current_low : th.current < n
    pub idle_low : th.idle_thread < n
    pub ready_low : (t : ℕ) → mem t th.ready_list ≡ true → t < n
    pub idle_rest : doing th.idle_thread ≡ at_rest

  pub record IsSystem (is_lock : ℕ → Bool) (st : System) : Type 0 where
    pub quiet : IsQuiet st.threads st.doing
    pub semas : (s : ℕ) → IsSemaphore (is_lock s) st.threads.status st.doing s (st.lock s)

  -- Only the place of the thread `c` changes.
  pub awake-doing :
      (status : ℕ → ThreadStatus) (doing : ℕ → Doing) (c s : ℕ) (p : Doing)
      → c < n
      → status c ≡ thread_running
      → awake status (update doing c p) s + bit (awaits (doing c) s)
        ≡ awake status doing s + bit (awaits p s)
  awake-doing status doing c s p low run =
      let p0 = is_awake status doing s in
      let p1 = is_awake status (update doing c p) s in
      let others : (t : ℕ) → t ≢ c → p0 t ≡ p1 t = λ t ne. ground (arith, ne) in
      let old : p0 c ≡ awaits (doing c) s = ground (arith, run) in
      let new : p1 c ≡ awaits p s = ground (arith, run) in
      omega (arith, count-change p0 p1 n c low others, ap bit old, ap bit new)

  pub busy-doing :
      (doing : ℕ → Doing) (c s : ℕ) (p : Doing)
      → c < n
      → busy (update doing c p) s + bit (is_busy (doing c) s) ≡ busy doing s + bit (is_busy p s)
  busy-doing doing c s p low =
      let p0 = λ (t : ℕ). is_busy (doing t) s in
      let p1 = λ (t : ℕ). is_busy (update doing c p t) s in
      let others : (t : ℕ) → t ≢ c → p0 t ≡ p1 t = λ t ne. ground (arith, ne) in
      let new : p1 c ≡ is_busy p s = ground arith in
      omega (arith, count-change p0 p1 n c low others, ap bit new)

  -- A sleeping thread wakes up.
  pub awake-woken :
      (status : ℕ → ThreadStatus) (doing : ℕ → Doing) (w s : ℕ)
      → w < n
      → status w ≡ thread_blocked
      → awake (update status w thread_ready) doing s
        ≡ awake status doing s + bit (awaits (doing w) s)
  awake-woken status doing w s low e =
      let p0 = is_awake status doing s in
      let p1 = is_awake (update status w thread_ready) doing s in
      let others : (t : ℕ) → t ≢ w → p0 t ≡ p1 t = λ t ne. ground (arith, ne) in
      let old : p0 w ≡ false = ground (arith, e) in
      let new : p1 w ≡ awaits (doing w) s = ground arith in
      omega (arith, count-change p0 p1 n w low others, ap bit old, ap bit new)

  pub next-ready :
      (status : ℕ → ThreadStatus) (ready : List ℕ) (idle : ℕ)
      → IsQueue status ready idle
      → ((next_thread_to_run idle ready).0 ≡ idle)
        ⊎ ((status (next_thread_to_run idle ready).0 ≡ thread_ready)
            × (mem (next_thread_to_run idle ready).0 ready ≡ true))
  next-ready status [] idle q = inl refl
  next-ready status (x ∷ xs) idle q =
      let first : mem x (x ∷ xs) ≡ true = ground arith in inr (q.queued x first, first)

  mem-rest :
      (ready : List ℕ) (idle t : ℕ)
      → mem t (next_thread_to_run idle ready).1 ≡ true
      → mem t ready ≡ true
  mem-rest [] idle t h = h
  mem-rest (x ∷ xs) idle t h = ground arith

  -- The thread that is chosen was not asleep, so the threads that are awake stay the same.
  pub awake-Switched :
      (before th' : Threads) (doing : ℕ → Doing) (s : ℕ)
      → IsQueue before.status before.ready_list before.idle_thread
      → doing before.idle_thread ≡ at_rest
      → Switched before th'
      → awake th'.status doing s ≡ awake before.status doing s
  awake-Switched before th' doing s q rest w =
      let next = next_thread_to_run before.idle_thread before.ready_list in
      let current : th'.current ≡ next.0 = ap (λ p. p.0) w.chosen in
      count-same (is_awake th'.status doing s) (is_awake before.status doing s) n (λ t low.
        elim (next-ready before.status before.ready_list before.idle_thread q) [
          | inl idle ↦ ground (arith, w.marked t, current, idle, rest)
          | inr (ready, m) ↦ ground (arith, w.marked t, current, ready)
        ])

  -- What stays true of the threads over a switch.
  pub IsQuiet-Switched :
      (before th' : Threads) (doing : ℕ → Doing)
      → IsQueue before.status before.ready_list before.idle_thread
      → doing before.idle_thread ≡ at_rest
      → before.idle_thread < n
      → ((t : ℕ) → mem t before.ready_list ≡ true → t < n)
      → Switched before th'
      → IsScheduled th'
      → IsQuiet th' doing
  IsQuiet-Switched before th' doing q rest idle_low ready_low w v =
      let next = next_thread_to_run before.idle_thread before.ready_list in
      let current : th'.current ≡ next.0 = ap (λ p. p.0) w.chosen in
      let queue : th'.ready_list ≡ next.1 = ap (λ p. p.1) w.chosen in
      record {
        scheduled = v;
        current_low = elim (next-ready before.status before.ready_list before.idle_thread q) [
          | inl idle ↦ omega (arith, current, idle, idle_low)
          | inr (ready, m) ↦ omega (arith, current, ready_low next.0 m)
        ];
        idle_low = omega (arith, w.same_idle, idle_low);
        ready_low = λ t m.
            ready_low t
              (mem-rest before.ready_list before.idle_thread t (ap (mem t) (sym queue) ∙ m));
        idle_rest = ap doing w.same_idle ∙ rest;
      }
