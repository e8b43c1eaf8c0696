-- ===== src/Intq/Tests.antt =====
-- Runs of devices/intq.c and its theorems at concrete queues.
use cs162proj.Prelude.{
  ◌≡◌, refl, [], ◌∷◌, none, some, true, false, arith, replicate, set, length, ◌==◌, ◌-◌,
}
use cs162proj.Intq.{Intq, intq_bufsize, intq_init, intq_getc, intq_putc}
use cs162proj.Intq.Order.{IsValid, contents, Gets, Puts, intq_getc_lem, intq_putc_lem}

-- Three bytes, of which one has gone round; thread 4 waits for room.
abbrev three : Intq
three = record {
  lock = none;
  not_full = some 4;
  not_empty = none;
  buf = set (set (set (replicate 64 0) 62 7) 63 8) 0 9;
  head = 1;
  tail = 62;
}

three-IsValid : IsValid three
three-IsValid = record { full = refl; head_in = omega arith; tail_in = omega arith }

three_bytes : contents three ≡ 7 ∷ 8 ∷ 9 ∷ []
three_bytes = refl

empty_queue : contents (intq_init (replicate 64 1)) ≡ []
unfolding intq_init
empty_queue = refl

intq_getc_example : Gets true 0 three (contents three) (intq_getc true 0 three)
intq_getc_example = intq_getc_lem true 0 three three-IsValid

intq_putc_example :
    Puts false 3 5 three (length (contents three) == intq_bufsize - 1) (intq_putc false 3 5 three)
intq_putc_example = intq_putc_lem false 3 5 three three-IsValid
