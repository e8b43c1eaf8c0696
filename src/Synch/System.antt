-- ===== src/Synch/System.antt =====
-- Any number of threads that use the semaphores and locks of threads/synch.c, in any order.
use cs162proj.Prelude.{
  ℕ, List, [], ◌∷◌, Option, some, Bool, true, false, ◌==◌, ◌&&◌, not, if◌then◌else◌, ◌>>=◌, ◌>>◌,
}
use cs162proj.Thread.{Threads, thread_block, thread_yield, thread_exit, update}
use cs162proj.Synch.{
  Semaphore, Lock, sema_down_round, sema_try_down, sema_up, acquire_begin, acquire_end,
  release_begin, release_end, is_holder,
}

-- Where a thread stands: in no function of synch.c, in the loop of `sema_down`, behind it in
-- `lock_acquire` or `lock_try_acquire`, or between the two halves of `lock_release`.
pub data Doing : Type 0 where
  at_rest : Doing
  waiting : ℕ → Doing
  taking : ℕ → Doing
  leaving : ℕ → Doing

abbrev pub is_at_rest : Doing → Bool
is_at_rest Doing.at_rest = true
is_at_rest (Doing.waiting s) = false
is_at_rest (Doing.taking s) = false
is_at_rest (Doing.leaving s) = false

-- `is_lock` tells which semaphores are the semaphore of a lock; their number is the lock's as well.
pub record System : Type 0 where
  pub threads : Threads
  pub lock : ℕ → Lock
  pub doing : ℕ → Doing

-- What the current thread does next, or what an interrupt does.
pub data Action : Type 0 where
  down : ℕ → Action
  acquire : ℕ → Action
  round : Action
  own : Action
  try_down : ℕ → Action
  release : ℕ → Action
  finish : Action
  up : ℕ → Action
  yield : Action
  idle_block : Action
  exit : Action

module _ (is_lock : ℕ → Bool) where
  abbrev pub current : System → ℕ
  current st = st.threads.current

  abbrev pub set_doing : System → ℕ → Doing → System
  set_doing st t p = record st { doing = update st.doing t p }

  abbrev pub set_sema : System → ℕ → Semaphore → System
  set_sema st s sema = record st {
    lock = update st.lock s (record { holder = (st.lock s).holder; semaphore = sema });
  }

  -- Where a thread stands after it has taken the value of a semaphore.
  abbrev pub after : ℕ → Doing
  after s = if is_lock s then Doing.taking s else Doing.at_rest

  -- A thread of the kernel that is in no function of synch.c. The idle thread calls none.
  abbrev pub is_free : System → Bool
  is_free st = is_at_rest (st.doing (current st)) && not (current st == st.threads.idle_thread)

  unfoldable pub perform_round : Doing → System → Option System
  perform_round (Doing.waiting s) st = do
    (th, sema, taken) ← sema_down_round st.threads (st.lock s).semaphore
    let next = set_sema (record st { threads = th }) s sema
    some (if taken then set_doing next (current st) (after s) else next)
  perform_round Doing.at_rest st = some st
  perform_round (Doing.taking l) st = some st
  perform_round (Doing.leaving l) st = some st

  unfoldable pub perform_own : Doing → System → Option System
  perform_own (Doing.taking l) st = some (
      set_doing (record st { lock = update st.lock l (acquire_end st.threads (st.lock l)) })
        (current st) Doing.at_rest)
  perform_own Doing.at_rest st = some st
  perform_own (Doing.waiting s) st = some st
  perform_own (Doing.leaving l) st = some st

  unfoldable pub perform_finish : Doing → System → Option System
  perform_finish (Doing.leaving l) st = do
    (th, lock) ← release_end st.threads (st.lock l)
    some (
        set_doing (record st { threads = th; lock = update st.lock l lock }) (current st)
          Doing.at_rest)
  perform_finish Doing.at_rest st = some st
  perform_finish (Doing.waiting s) st = some st
  perform_finish (Doing.taking l) st = some st

  -- An action that the code does not allow in a state leaves it: a thread inside a function takes up
  -- no other, acquires no lock that it holds, releases only what it holds, and treats the semaphore
  -- of a lock by the lock's functions.
  unfoldable pub perform : Action → System → Option System
  perform (Action.down s) st =
      if is_free st && not (is_lock s)
      then some (set_doing st (current st) (Doing.waiting s))
      else some st
  perform (Action.acquire l) st =
      if is_free st && is_lock l && not (is_holder (st.lock l).holder (current st))
      then (acquire_begin st.threads (st.lock l)
          >> some (set_doing st (current st) (Doing.waiting l)))
      else some st
  perform Action.round st = perform_round (st.doing (current st)) st
  perform Action.own st = perform_own (st.doing (current st)) st
  perform (Action.try_down s) st =
      let (sema, success) = sema_try_down (st.lock s).semaphore in
      if is_free st && success
      then some (set_doing (set_sema st s sema) (current st) (after s))
      else some st
  perform (Action.release l) st =
      if is_free st && is_lock l && is_holder (st.lock l).holder (current st)
      then (release_begin st.threads (st.lock l) >>= λ lock.
          some
            (set_doing (record st { lock = update st.lock l lock }) (current st) (Doing.leaving l)))
      else some st
  perform Action.finish st = perform_finish (st.doing (current st)) st
  perform (Action.up s) st =
      if is_lock s
      then some st
      else (sema_up st.threads (st.lock s).semaphore >>= λ (th, sema).
          some (set_sema (record st { threads = th }) s sema))
  perform Action.yield st = thread_yield st.threads >>= λ th. some (record st { threads = th })
  perform Action.idle_block st =
      if current st == st.threads.idle_thread
      then (thread_block st.threads >>= λ th. some (record st { threads = th }))
      else some st
  perform Action.exit st =
      if is_free st
      then (thread_exit st.threads >>= λ th. some (record st { threads = th }))
      else some st

  -- A schedule is the list of what is done.
  unfoldable pub run : List Action → System → Option System
  run [] st = some st
  run (a ∷ as') st = perform a st >>= λ st'. run as' st'
