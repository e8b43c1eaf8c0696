-- ===== src/Intq/Order.antt =====
-- The queue of devices/intq.c gives the bytes in the order in which they came.
use cs162proj.Prelude.{
  ◌||◌, ◌>>=◌, ◌>>◌, assert, not, Option-cases, ℕ, zero, suc, ◌+◌, ◌-◌, ◌%◌, ◌≤◌, ◌<◌, ◌≡◌, ◌≢◌,
  refl, sym, ap, ap₂, ◌∙◌, List, [], ◌∷◌, ◌++◌, Option, none, some, Bool, true, false, ◌==◌, arith,
  length, get_or, set, length-set, get_or-set_self, get_or-set_ne, if◌then◌else◌, ==_iff, ==_ne,
  ==_apart, subst, Bool-cases, inl, inr,
}
use cs162proj.Intq.{
  Intq, Outcome, intq_bufsize, next, intq_empty, intq_full, intq_getc, intq_putc, wait_not_empty,
  wait_turn, wait_not_full, signal_not_full, signal_not_empty,
}

pub record IsValid (q : Intq) : Type 0 where
  pub full : length q.buf ≡ intq_bufsize
  pub head_in : q.head < intq_bufsize
  pub tail_in : q.tail < intq_bufsize

-- The number of bytes in the queue.
abbrev pub count : Intq → ℕ
count q = (q.head + intq_bufsize - q.tail) % intq_bufsize

-- The `n` bytes from a place on.
abbrev pub from : List ℕ → ℕ → ℕ → List ℕ
from buf pos zero = []
from buf pos (suc n) = get_or buf pos 0 ∷ from buf (next pos) n

-- The specification: the bytes in the queue, the oldest first.
abbrev pub contents : Intq → List ℕ
contents q = from q.buf q.tail (count q)

from_snoc :
    (n : ℕ) (buf : List ℕ) (pos : ℕ)
    → pos < intq_bufsize
    → from buf pos (suc n) ≡ from buf pos n ++ get_or buf ((pos + n) % intq_bufsize) 0 ∷ []
from_snoc zero buf pos h =
    let same : pos ≡ (pos + 0) % intq_bufsize = omega arith in ap (λ i. get_or buf i 0 ∷ []) same
from_snoc (suc n) buf pos h =
    let same : (next pos + n) % intq_bufsize ≡ (pos + suc n) % intq_bufsize = omega arith in
    ap (λ l. get_or buf pos 0 ∷ l)
      (from_snoc n buf (next pos) (omega arith)
        ∙ ap (λ i. from buf (next pos) n ++ get_or buf i 0 ∷ []) same)

from_ne :
    (n : ℕ) (buf : List ℕ) (pos head v : ℕ)
    → pos < intq_bufsize
    → head < intq_bufsize
    → n ≤ (head + intq_bufsize - pos) % intq_bufsize
    → from (set buf head v) pos n ≡ from buf pos n
from_ne zero buf pos head v p h k = refl
from_ne (suc n) buf pos head v p h k =
    ap₂ (λ x l. x ∷ l) (get_or-set_ne buf head pos v 0 (λ e. omega arith))
      (from_ne n buf (next pos) head v (omega arith) h (omega arith))

-- The queue without its oldest byte.
abbrev taken : Intq → Intq
taken q = record q { tail = next q.tail; not_full = none }

abbrev added : Intq → ℕ → Intq
added q byte = record q { buf = set q.buf q.head byte; head = next q.head; not_empty = none }

-- What becomes of a call that has to wait, by who has the lock: with the lock free the thread takes
-- it and sleeps, in the queue `asleep`; with another thread as the holder it blocks and the queue
-- stays as it is. An interrupt handler and the holder itself fail an ASSERT.
abbrev pub Waits {ℓ} : {R : Type ℓ} → Bool → ℕ → Intq → Intq → Option (Outcome R) → Type ℓ
Waits intr_context current q asleep r = elim q.lock [
  | none ↦ r ≡ (if intr_context then none else some (Outcome.sleeps asleep))
  | some holder ↦ r ≡ (if intr_context || holder == current then none else some (Outcome.blocks q))
]

-- What `intq_getc` does to a queue, by what is in it: it waits at an empty queue and takes the
-- oldest byte otherwise.
abbrev pub Gets : Bool → ℕ → Intq → List ℕ → Option (Outcome ℕ) → Type 0
Gets intr_context current q [] r =
    Waits intr_context current q (record q { lock = some current; not_empty = some current }) r
Gets intr_context current q (x ∷ xs) r =
    (q' : Intq) × (r ≡ some (Outcome.done q' x q.not_full))
    × (contents q' ≡ xs)
    × (q'.not_empty ≡ q.not_empty)
    × (q'.lock ≡ q.lock)
    × IsValid q'

wait_turn_lem {ℓ} :
    (R : Type ℓ) (wait : ℕ → Intq → Option Intq) (intr_context : Bool) (current : ℕ)
    (q asleep : Intq)
    → wait current (record q { lock = some current }) ≡ some asleep
    → Waits {R = R} intr_context current q asleep (wait_turn wait intr_context current q)
unfolding wait_turn
wait_turn_lem R wait intr_context current q asleep e = elim (Option-cases q.lock) [
  | inl l ↦ rw l (free intr_context)
  | inr (holder, l) ↦ rw l (taken_by _ intr_context (holder == current))
]
  where
    free :
        (b : Bool)
        → ◌≡◌ {A = Option (Outcome R)}
            (assert (not b)
              >> (wait current (record q { lock = some current }) >>= λ x. some (Outcome.sleeps x)))
            (if b then none else some (Outcome.sleeps asleep))
    free true = refl
    free false = rw e refl

    taken_by :
        (x : Intq) (b c : Bool)
        → ◌≡◌ {A = Option (Outcome R)}
            (assert (not b) >> (assert (not c) >> some (Outcome.blocks x)))
            (if b || c then none else some (Outcome.blocks x))
    taken_by x true c = refl
    taken_by x false true = refl
    taken_by x false false = refl

getc_empty :
    (intr_context : Bool) (current : ℕ) (q : Intq)
    → (q.head == q.tail) ≡ true
    → Gets intr_context current q [] (intq_getc intr_context current q)
unfolding intq_getc intq_empty wait_not_empty
getc_empty intr_context current q e =
    rw (e, intq_getc)
      (wait_turn_lem _ wait_not_empty intr_context current q
        (record q { lock = some current; not_empty = some current }) (rw e refl))

getc_taken :
    (intr_context : Bool) (current : ℕ) (q : Intq)
    → (q.head == q.tail) ≡ false
    → (next q.head == next q.tail) ≡ false
    → intq_getc intr_context current q
      ≡ some (Outcome.done (taken q) (get_or q.buf q.tail 0) q.not_full)
unfolding intq_getc intq_empty intq_full signal_not_full
getc_taken intr_context current q e f = rw (e, intq_getc, f) refl

-- At a valid queue `intq_getc` gives the oldest byte and leaves the others in their order, and wakes
-- the thread that waits for room. At an empty one the thread takes the free lock and sleeps as the
-- one that waits for a byte; while another thread has the lock it blocks and the queue stays as it
-- is. An interrupt handler there, or a thread that has the lock, fails an ASSERT.
pub intq_getc_lem :
    (intr_context : Bool) (current : ℕ) (q : Intq)
    → IsValid q
    → Gets intr_context current q (contents q) (intq_getc intr_context current q)
intq_getc_lem intr_context current q v = elim (Bool-cases (q.head == q.tail)) [
  | inl e ↦
      let same = (==_iff q.head q.tail).0 e in
      let none_left : 0 ≡ count q = omega arith in
      subst
        (λ n. Gets intr_context current q (from q.buf q.tail n) (intq_getc intr_context current q))
        none_left (getc_empty intr_context current q e)
  | inr e ↦
      let other = ==_apart q.head q.tail e in
      let n = count q - 1 in
      let more : suc n ≡ count q = omega arith in
      let rest : count (taken q) ≡ n = omega arith in
      let room : (next q.head == next q.tail) ≡ false =
        ==_ne (next q.head) (next q.tail) (λ h. other (omega arith)) in
      subst
        (λ n. Gets intr_context current q (from q.buf q.tail n) (intq_getc intr_context current q))
        more
        (
          taken q,
          getc_taken intr_context current q e room,
          ap (from q.buf (next q.tail)) rest,
          refl,
          refl,
          record { full = v.full; head_in = v.head_in; tail_in = omega arith },
        )
]

-- What `intq_putc` does: it waits at a full queue, and adds the byte behind the others otherwise.
abbrev pub Puts : Bool → ℕ → ℕ → Intq → Bool → Option (Outcome (Unit {0})) → Type 0
Puts intr_context current byte q true r =
    Waits intr_context current q (record q { lock = some current; not_full = some current }) r
Puts intr_context current byte q false r =
    (q' : Intq) × (r ≡ some (Outcome.done q' tt q.not_empty))
    × (contents q' ≡ contents q ++ byte ∷ [])
    × (q'.not_full ≡ q.not_full)
    × (q'.lock ≡ q.lock)
    × IsValid q'

putc_full :
    (intr_context : Bool) (current byte : ℕ) (q : Intq)
    → (next q.head == q.tail) ≡ true
    → Puts intr_context current byte q true (intq_putc intr_context current byte q)
unfolding intq_putc intq_full wait_not_full
putc_full intr_context current byte q e =
    rw (e, intq_putc)
      (wait_turn_lem _ wait_not_full intr_context current q
        (record q { lock = some current; not_full = some current }) (rw e refl))

putc_added :
    (intr_context : Bool) (current byte : ℕ) (q : Intq)
    → (next q.head == q.tail) ≡ false
    → intq_putc intr_context current byte q ≡ some (Outcome.done (added q byte) tt q.not_empty)
unfolding intq_putc intq_full intq_empty signal_not_empty
putc_added intr_context current byte q e = rw (e, intq_putc, e) refl

length-from : (n : ℕ) (buf : List ℕ) (pos : ℕ) → length (from buf pos n) ≡ n
length-from zero buf pos = refl
length-from (suc n) buf pos = ap suc (length-from n buf (next pos))

contents-added :
    (q : Intq) (byte : ℕ)
    → IsValid q
    → next q.head ≢ q.tail
    → contents (added q byte) ≡ contents q ++ byte ∷ []
contents-added q byte v room =
    let buf = set q.buf q.head byte in
    let n = count q in
    let more : count (added q byte) ≡ suc n = omega arith in
    let place : (q.tail + n) % intq_bufsize ≡ q.head = omega arith in
    ap (from buf q.tail) more
    ∙ from_snoc n buf q.tail v.tail_in
    ∙ ap₂ (λ l x. l ++ x ∷ [])
        (from_ne n q.buf q.tail q.head byte v.tail_in v.head_in (omega arith))
        (ap (λ i. get_or buf i 0) place
          ∙ get_or-set_self q.buf q.head byte 0 (omega (arith, v.full)))

-- At a valid queue with fewer than 63 bytes `intq_putc` adds the byte behind the others and wakes the
-- thread that waits for a byte. With 63 the thread takes the free lock and sleeps as the one that
-- waits for room; while another thread has the lock it blocks and the queue stays as it is. An
-- interrupt handler there, or a thread that has the lock, fails an ASSERT.
pub intq_putc_lem :
    (intr_context : Bool) (current byte : ℕ) (q : Intq)
    → IsValid q
    → Puts intr_context current byte q
        (length (contents q) == intq_bufsize - 1)
        (intq_putc intr_context current byte q)
intq_putc_lem intr_context current byte q v =
    let size = length-from (count q) q.buf q.tail in
    elim (Bool-cases (next q.head == q.tail)) [
      | inl e ↦
          let same = (==_iff (next q.head) q.tail).0 e in
          let all : length (contents q) ≡ intq_bufsize - 1 = omega arith in
          let test = (==_iff (length (contents q)) (intq_bufsize - 1)).1 all in
          subst (λ b. Puts intr_context current byte q b (intq_putc intr_context current byte q))
            (sym test) (putc_full intr_context current byte q e)
      | inr e ↦
          let room = ==_apart (next q.head) q.tail e in
          let test = ==_ne (length (contents q)) (intq_bufsize - 1) (λ h. room (omega arith)) in
          subst (λ b. Puts intr_context current byte q b (intq_putc intr_context current byte q))
            (sym test)
            (
              added q byte,
              putc_added intr_context current byte q e,
              contents-added q byte v room,
              refl,
              refl,
              record {
                full = length-set q.buf q.head byte ∙ v.full;
                head_in = omega arith;
                tail_in = v.tail_in;
              },
            )
    ]
