-- ===== src/Intq.antt =====
-- devices/intq.c: the queue of bytes between threads and interrupt handlers. Interrupts are off, so
-- one function is one step. A thread is a number; a `none` is a failed ASSERT.
pub mod Order
mod Tests
use cs162proj.Prelude.{
  ℕ, ◌+◌, ◌%◌, List, Option, none, some, Bool, true, false, ◌==◌, not, ◌>>=◌, ◌>>◌, assert, get_or,
  set, replicate,
}

-- INTQ_BUFSIZE
abbrev pub intq_bufsize : ℕ
intq_bufsize = 64

-- `lock` is the holder of the lock, which only a thread that waits takes.
pub record Intq : Type 0 where
  pub lock : Option ℕ
  pub not_full : Option ℕ
  pub not_empty : Option ℕ
  pub buf : List ℕ
  pub head : ℕ
  pub tail : ℕ

-- Only the fields that the function sets; the array stays as it is.
pub intq_init : List ℕ → Intq
intq_init buf = record {
  lock = none;
  not_full = none;
  not_empty = none;
  buf = buf;
  head = 0;
  tail = 0;
}

abbrev pub next : ℕ → ℕ
next pos = (pos + 1) % intq_bufsize

pub intq_empty : Intq → Bool
intq_empty q = q.head == q.tail

pub intq_full : Intq → Bool
intq_full q = next q.head == q.tail

-- What a call comes to: the thread sleeps in `lock_acquire` until the lock is free, it sleeps in
-- `wait` with the lock held, or the call is done, with its result and the thread that
-- `thread_unblock` is called for.
pub data Outcome {ℓ} (R : Type ℓ) : Type ℓ where
  blocks : Intq → Outcome R
  sleeps : Intq → Outcome R
  done : Intq → R → Option ℕ → Outcome R

-- `wait` (q, &q->not_empty) and `wait` (q, &q->not_full) in the thread `current`.
pub wait_not_empty : ℕ → Intq → Option Intq
wait_not_empty current q = do assert (intq_empty q); some (record q { not_empty = some current })

pub wait_not_full : ℕ → Intq → Option Intq
wait_not_full current q = do assert (intq_full q); some (record q { not_full = some current })

-- `signal`: the thread that is to be woken is the second component.
pub signal_not_full : Intq → Option (Intq × Option ℕ)
signal_not_full q = do assert (not (intq_full q)); some (record q { not_full = none }, q.not_full)

pub signal_not_empty : Intq → Option (Intq × Option ℕ)
signal_not_empty q = do
  assert (not (intq_empty q))
  some (record q { not_empty = none }, q.not_empty)

-- The body of the loop of `intq_getc` and `intq_putc` up to the sleep: `lock_acquire`, which fails
-- for a thread that has the lock, and `wait`.
pub wait_turn {ℓ} : {R : Type ℓ} → (ℕ → Intq → Option Intq) → Bool → ℕ → Intq → Option (Outcome R)
wait_turn wait intr_context current q = elim q.lock [
  | none ↦ do
    assert (not intr_context)
    q' ← wait current (record q { lock = some current })
    some (Outcome.sleeps q')
  | some holder ↦ do
    assert (not intr_context)
    assert (not (holder == current))
    some (Outcome.blocks q)
]

-- `lock_release` by a thread that was woken in `wait`.
pub give_turn : ℕ → Intq → Option Intq
give_turn current q = elim q.lock [
  | none ↦ none
  | some holder ↦ do assert (holder == current); some (record q { lock = none })
]

-- `intr_context` tells that an interrupt handler is running, `current` the running thread. A thread
-- that gets the free lock after `blocks` goes on with `wait_turn`, and one that is woken after
-- `sleeps` with `intq_getc_woken`, where the loop's test is made again.
pub intq_getc : Bool → ℕ → Intq → Option (Outcome ℕ)
unfolding wait_turn
intq_getc intr_context current q = elim (intq_empty q) [
  | true ↦ wait_turn wait_not_empty intr_context current q
  | false ↦ do
    let byte = get_or q.buf q.tail 0
    (q', woken) ← signal_not_full (record q { tail = next q.tail })
    some (Outcome.done q' byte woken)
]

pub intq_getc_woken : ℕ → Intq → Option (Outcome ℕ)
unfolding give_turn
intq_getc_woken current q = do q' ← give_turn current q; intq_getc false current q'

pub intq_putc : Bool → ℕ → ℕ → Intq → Option (Outcome (Unit {0}))
unfolding wait_turn
intq_putc intr_context current byte q = elim (intq_full q) [
  | true ↦ wait_turn wait_not_full intr_context current q
  | false ↦ do
    (q', woken) ← signal_not_empty (record q { buf = set q.buf q.head byte; head = next q.head })
    some (Outcome.done q' tt woken)
]

pub intq_putc_woken : ℕ → ℕ → Intq → Option (Outcome (Unit {0}))
unfolding give_turn
intq_putc_woken current byte q = do q' ← give_turn current q; intq_putc false current byte q'
