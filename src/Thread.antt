-- ===== src/Thread.antt =====
-- threads/thread.c from `thread_start` on: the states of the threads, the ready list and the switch
-- to the next thread. A thread is a number, which stands for its `struct thread *`. Interrupts are
-- off in each function, so each is one step; `switch_threads` makes the other thread current, and
-- what stands behind the call runs when the thread is chosen again. A `none` is a failed ASSERT.
pub mod Order
pub mod Fairness
mod Tests
use cs162proj.Prelude.{
  ℕ, ◌+◌, List, [], ◌∷◌, ◌++◌, Option, none, some, Bool, true, false, ◌==◌, leb, not, ◌&&◌,
  if◌then◌else◌, ◌>>=◌, ◌>>◌, assert,
}

-- TIME_SLICE
abbrev pub time_slice : ℕ
time_slice = 4

pub data ThreadStatus : Type 0 where
  thread_running : ThreadStatus
  thread_ready : ThreadStatus
  thread_blocked : ThreadStatus
  thread_dying : ThreadStatus

abbrev pub is_running : ThreadStatus → Bool
is_running ThreadStatus.thread_running = true
is_running ThreadStatus.thread_ready = false
is_running ThreadStatus.thread_blocked = false
is_running ThreadStatus.thread_dying = false

abbrev pub is_blocked : ThreadStatus → Bool
is_blocked ThreadStatus.thread_blocked = true
is_blocked ThreadStatus.thread_running = false
is_blocked ThreadStatus.thread_ready = false
is_blocked ThreadStatus.thread_dying = false

abbrev pub is_dying : ThreadStatus → Bool
is_dying ThreadStatus.thread_dying = true
is_dying ThreadStatus.thread_running = false
is_dying ThreadStatus.thread_ready = false
is_dying ThreadStatus.thread_blocked = false

-- A function with one value replaced.
abbrev pub update {ℓ} : {A : Type ℓ} → (ℕ → A) → ℕ → A → ℕ → A
update f i a j = if i == j then a else f j

-- `current` is the thread whose stack the processor uses. `freed` are the pages of dead threads that
-- went back to the page allocator.
pub record Threads : Type 0 where
  pub status : ℕ → ThreadStatus
  pub ready_list : List ℕ
  pub all_list : List ℕ
  pub current : ℕ
  pub idle_thread : ℕ
  pub initial_thread : ℕ
  pub thread_ticks : ℕ
  pub idle_ticks : ℕ
  pub kernel_ticks : ℕ
  pub user_ticks : ℕ
  pub freed : List ℕ

abbrev pub set_status : Threads → ℕ → ThreadStatus → Threads
set_status st t s = record st { status = update st.status t s }

-- The next thread and the rest of the ready list.
abbrev pub next_thread_to_run : ℕ → List ℕ → ℕ × List ℕ
next_thread_to_run idle [] = (idle, [])
next_thread_to_run idle (t ∷ ts) = (t, ts)

-- A dead thread's page is freed by the thread that runs after it.
unfoldable pub destroy : Option ℕ → Threads → Option Threads
destroy none st = some st
destroy (some prev) st =
    if is_dying (st.status prev) && not (prev == st.initial_thread)
    then (assert (not (prev == st.current)) >> some (record st { freed = prev ∷ st.freed }))
    else some st

unfoldable pub thread_schedule_tail : Option ℕ → Threads → Option Threads
thread_schedule_tail prev st =
    destroy prev
      (record (set_status st st.current ThreadStatus.thread_running) { thread_ticks = 0 })

unfoldable pub schedule : Threads → Option Threads
schedule st = do
  let (next, rest) = next_thread_to_run st.idle_thread st.ready_list
  assert (not (is_running (st.status st.current)))
  thread_schedule_tail (if st.current == next then none else some st.current)
      (record st { ready_list = rest; current = next })

unfoldable pub thread_block : Threads → Option Threads
thread_block st = do
  assert (is_running (st.status st.current))
  schedule (set_status st st.current ThreadStatus.thread_blocked)

unfoldable pub thread_unblock : ℕ → Threads → Option Threads
thread_unblock t st = do
  assert (is_blocked (st.status t))
  some (set_status (record st { ready_list = st.ready_list ++ t ∷ [] }) t ThreadStatus.thread_ready)

unfoldable pub thread_yield : Threads → Option Threads
thread_yield st = do
  assert (is_running (st.status st.current))
  let ready =
      if st.current == st.idle_thread then st.ready_list else st.ready_list ++ st.current ∷ []
  schedule (set_status (record st { ready_list = ready }) st.current ThreadStatus.thread_ready)

abbrev pub remove : ℕ → List ℕ → List ℕ
remove t [] = []
remove t (x ∷ xs) = if t == x then xs else x ∷ remove t xs

-- What follows `process_exit`.
unfoldable pub thread_exit : Threads → Option Threads
thread_exit st = do
  assert (is_running (st.status st.current))
  let left = record st { all_list = remove st.current st.all_list }
  schedule (set_status left st.current ThreadStatus.thread_dying)

-- `is_user` tells whether the current thread has a page directory. The second result tells whether
-- the interrupt is to end with `thread_yield`.
unfoldable pub thread_tick : Bool → Threads → Threads × Bool
thread_tick is_user st =
    let counted =
      if st.current == st.idle_thread
      then record st { idle_ticks = st.idle_ticks + 1 }
      else if is_user
      then record st { user_ticks = st.user_ticks + 1 }
      else record st { kernel_ticks = st.kernel_ticks + 1 } in
    let after = record counted { thread_ticks = st.thread_ticks + 1 } in
    (after, leb time_slice (st.thread_ticks + 1))
