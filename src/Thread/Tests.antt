-- ===== src/Thread/Tests.antt =====
-- Runs of threads/thread.c, and its theorems at three threads and the idle thread.
use cs162proj.Prelude.{ℕ, ◌≡◌, refl, List, [], ◌∷◌, Option, some, arith, ◌==◌, if◌then◌else◌, ◌>>=◌}
use cs162proj.Thread.{
  ThreadStatus, thread_running, thread_ready, thread_blocked, Threads, thread_block, thread_unblock,
  thread_exit, schedule, thread_schedule_tail, destroy,
}
use cs162proj.Thread.Order.{IsScheduled}
use cs162proj.Thread.Fairness.{yields, round_robin}

abbrev states : ℕ → ThreadStatus
states t =
    if t == 1
    then thread_running
    else if t == 2
    then thread_ready
    else if t == 3
    then thread_ready
    else thread_blocked

-- Thread 1 runs, 2 and 3 are ready, 0 is the idle thread.
abbrev start : Threads
start = record {
  status = states;
  ready_list = 2 ∷ 3 ∷ [];
  all_list = 1 ∷ 0 ∷ 2 ∷ 3 ∷ [];
  current = 1;
  idle_thread = 0;
  initial_thread = 1;
  thread_ticks = 0;
  idle_ticks = 0;
  kernel_ticks = 0;
  user_ticks = 0;
  freed = [];
}

start-IsScheduled : IsScheduled start
start-IsScheduled = record {
  running = refl;
  only = λ t e. ground arith;
  queue = record {
    queued = λ t m. ground arith;
    distinct = (refl, (refl, tt));
    complete = λ t e k. ground arith;
  };
}

-- Thread 1 blocks and 2 exits; 3 wakes 1 up and exits: 1 runs, and two pages were freed.
life_runs : Threads → Option (ℕ × List ℕ)
life_runs st = do
  a ← thread_block st
  b ← thread_exit a
  c ← thread_unblock 1 b
  e ← thread_exit c
  some (e.current, e.freed)

life : life_runs start ≡ some (1, 3 ∷ 2 ∷ [])
unfolding thread_block thread_unblock thread_exit schedule thread_schedule_tail destroy life_runs
life = refl

round_robin_example :
    (st' : Threads) × (yields 2 start ≡ some st')
    × (st'.current ≡ 3)
    × (st'.ready_list ≡ 1 ∷ 2 ∷ [])
    × IsScheduled st'
round_robin_example = round_robin (2 ∷ []) 3 [] start start-IsScheduled (omega arith) refl refl
