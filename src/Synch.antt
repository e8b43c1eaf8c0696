-- ===== src/Synch.antt =====
-- threads/synch.c: semaphores, locks and condition variables over the threads of thread.c.
-- Interrupts are off where a semaphore changes, so each of those stretches is one step; what stands
-- between them is open to other threads. A `none` is a failed ASSERT.
pub mod System
pub mod Counts
pub mod Invariant
pub mod Steps
pub mod Switch
pub mod Wake
pub mod Safety
pub mod Checked
mod Tests
use cs162proj.Prelude.{
  ℕ, zero, suc, ◌+◌, ◌-◌, ◌%◌, ◌^◌, List, [], ◌∷◌, ◌++◌, Option, none, some, Bool, true, false,
  ◌==◌, ltb, not, if◌then◌else◌, ◌>>=◌, ◌>>◌, assert,
}
use cs162proj.Thread.{Threads, thread_block, thread_unblock}

pub record Semaphore : Type 0 where
  pub value : ℕ
  pub waiters : List ℕ

abbrev pub sema_init : ℕ → Semaphore
sema_init value = record { value = value; waiters = [] }

-- One round of the loop of `sema_down` by the current thread. The Boolean tells whether the loop is
-- over and the value was taken; otherwise the thread sleeps, and goes on with the next round.
unfoldable pub sema_down_round : Threads → Semaphore → Option (Threads × Semaphore × Bool)
sema_down_round th sema = elim (sema.value == 0) [
  | true ↦ do
    th' ← thread_block th
    some (th', record sema { waiters = sema.waiters ++ th.current ∷ [] }, false)
  | false ↦ some (th, record sema { value = sema.value - 1 }, true)
]

unfoldable pub sema_try_down : Semaphore → Semaphore × Bool
sema_try_down sema =
    if ltb 0 sema.value then (record sema { value = sema.value - 1 }, true) else (sema, false)

-- The thread that has waited longest is woken.
abbrev pub wake_first : Threads → List ℕ → Option (Threads × List ℕ)
wake_first th [] = some (th, [])
wake_first th (t ∷ ts) = thread_unblock t th >>= λ th'. some (th', ts)

-- The value is an `unsigned`.
unfoldable pub sema_up : Threads → Semaphore → Option (Threads × Semaphore)
sema_up th sema = do
  (th', rest) ← wake_first th sema.waiters
  some (th', record { value = (sema.value + 1) % 2 ^ 32; waiters = rest })

pub record Lock : Type 0 where
  pub holder : Option ℕ
  pub semaphore : Semaphore

abbrev pub lock_init : Lock
lock_init = record { holder = none; semaphore = sema_init 1 }

abbrev pub is_holder : Option ℕ → ℕ → Bool
is_holder none t = false
is_holder (some h) t = h == t

abbrev pub lock_held_by_current_thread : Threads → Lock → Bool
lock_held_by_current_thread th lock = is_holder lock.holder th.current

-- `lock_acquire` before and behind its `sema_down`.
unfoldable pub acquire_begin : Threads → Lock → Option (Unit {0})
acquire_begin th lock = assert (not (lock_held_by_current_thread th lock))

unfoldable pub acquire_end : Threads → Lock → Lock
acquire_end th lock = record lock { holder = some th.current }

-- `lock_try_acquire` before its `sema_try_down`.
unfoldable pub try_begin : Threads → Lock → Option (Unit {0})
try_begin th lock = assert (not (lock_held_by_current_thread th lock))

-- `lock_release` before and with its `sema_up`.
unfoldable pub release_begin : Threads → Lock → Option Lock
release_begin th lock = do
  assert (lock_held_by_current_thread th lock)
  some (record lock { holder = none })

unfoldable pub release_end : Threads → Lock → Option (Threads × Lock)
release_end th lock = do
  (th', sema) ← sema_up th lock.semaphore
  some (th', record lock { semaphore = sema })
