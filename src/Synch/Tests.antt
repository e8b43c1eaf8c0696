-- ===== src/Synch/Tests.antt =====
-- Runs of threads/synch.c, and its theorems at two threads and the idle thread.
use cs162proj.Prelude.{
  ℕ, ◌<◌, ◌≡◌, refl, List, [], ◌∷◌, Option, none, some, Bool, true, false, arith, ◌==◌,
  if◌then◌else◌, inl,
}
use cs162proj.Thread.{
  ThreadStatus, thread_running, thread_ready, thread_blocked, thread_block, thread_unblock,
  thread_yield, schedule, thread_schedule_tail, destroy, is_blocked,
}
use cs162proj.Thread.Order.{mem}
use cs162proj.Synch.{
  lock_init, sema_up, sema_down_round, acquire_begin, acquire_end, release_begin, release_end,
}
use cs162proj.Synch.System.{
  at_rest, waiting, System, Action, acquire, round, own, release, finish, yield, run, perform,
  perform_round, perform_own, perform_finish,
}
use cs162proj.Synch.Counts.{count_none}
use cs162proj.Synch.Invariant.{is_busy, IsSystem}
use cs162proj.Synch.Checked.{Ends, perform_checked, run_checked, run-IsSystem}
use cs162proj.Synch.Safety.{owns, mutual_exclusion, no_lost_wakeup}

abbrev states : ℕ → ThreadStatus
states t = if t == 1 then thread_running else if t == 2 then thread_ready else thread_blocked

abbrev is_lock : ℕ → Bool
is_lock s = s == 0

-- Thread 1 runs, 2 is ready, 0 is the idle thread. Number 0 is a lock.
abbrev start : System
start = record {
  threads = record {
    status = states;
    ready_list = 2 ∷ [];
    all_list = 1 ∷ 0 ∷ 2 ∷ [];
    current = 1;
    idle_thread = 0;
    initial_thread = 1;
    thread_ticks = 0;
    idle_ticks = 0;
    kernel_ticks = 0;
    user_ticks = 0;
    freed = [];
  };
  lock = λ l. lock_init;
  doing = λ t. at_rest;
}

start-IsSystem : IsSystem 3 is_lock start
start-IsSystem = record {
  quiet = record {
    scheduled = record {
      running = refl;
      only = λ t e. ground arith;
      queue = record {
        queued = λ t m. ground arith;
        distinct = (refl, tt);
        complete = λ t e k. ground arith;
      };
    };
    current_low = omega arith;
    idle_low = omega arith;
    ready_low = λ t m. ground arith;
    idle_rest = refl;
  };
  semas = λ s. record {
    distinct = tt;
    asleep = λ t m. cc;
    wakeup = inl refl;
    owned = λ k. omega (arith, count_none (λ t. is_busy (start.doing t) s) 3 (λ t. refl));
  };
}

-- Thread 1 acquires the lock; 2 tries to and sleeps; 1 releases it.
abbrev contended : List Action
contended = acquire 0 ∷ round ∷ own ∷ yield ∷ acquire 0 ∷ round ∷ release 0 ∷ finish ∷ []

-- The running thread, the ready list and the value of the lock's semaphore.
shown : Option System → Option (ℕ × List ℕ × ℕ)
shown none = none
shown (some st) = some (st.threads.current, st.threads.ready_list, (st.lock 0).semaphore.value)

contended-run : shown (run is_lock contended start) ≡ some (1, 2 ∷ [], 1)
unfolding shown run perform perform_round perform_own perform_finish acquire_begin acquire_end
    release_begin release_end sema_up sema_down_round thread_block thread_unblock thread_yield
    schedule thread_schedule_tail destroy
contended-run = refl

mutual_exclusion_example :
    (st' : System) × (run is_lock contended start ≡ some st')
    × ((l t u : ℕ)
        → is_lock l ≡ true
        → t < 3
        → u < 3
        → owns 3 is_lock st' l t ≡ true
        → owns 3 is_lock st' l u ≡ true
        → (t ≡ u) × ((st'.lock l).semaphore.value ≡ 0))
mutual_exclusion_example = mutual_exclusion 3 is_lock contended start start-IsSystem

no_lost_wakeup_example :
    (st' : System) × (run is_lock contended start ≡ some st')
    × ((s t : ℕ)
        → mem t (st'.lock s).semaphore.waiters ≡ true
        → 0 < (st'.lock s).semaphore.value
        → (u : ℕ) × (u < 3)
          × (st'.doing u ≡ waiting s)
          × (is_blocked (st'.threads.status u) ≡ false))
no_lost_wakeup_example = no_lost_wakeup 3 is_lock contended start start-IsSystem

-- Thread 1 acquires the lock twice.
abbrev twice : List Action
twice = acquire 0 ∷ round ∷ own ∷ acquire 0 ∷ []

run_example : Ends is_lock 3 twice start
run_example = run-IsSystem is_lock 3 twice start start-IsSystem

twice-fails : run_checked is_lock twice start ≡ none
unfolding run_checked perform_checked perform perform_round perform_own acquire_begin acquire_end
    sema_down_round
twice-fails = refl
