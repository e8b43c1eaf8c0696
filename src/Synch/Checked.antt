-- ===== src/Synch/Checked.antt =====
-- The assertions of threads/synch.c on who may call: schedules in which a thread can also acquire a
-- lock that it holds, or release one that it does not.
use cs162proj.Prelude.{
  ℕ, ◌≡◌, ◌⊎◌, refl, ap, ◌∙◌, List, [], ◌∷◌, ◌++◌, Option, none, some, Bool, true, false, ◌&&◌, not,
  if◌then◌else◌, ◌>>=◌, ◌>>◌, assert, inl, inr,
}
use cs162proj.Synch.{Lock, acquire_begin, release_begin, try_begin, is_holder}
use cs162proj.Synch.System.{
  System, Action, down, acquire, round, own, try_down, release, finish, up, yield, idle_block, exit,
  is_free, current, perform,
}
use cs162proj.Synch.Invariant.{IsSystem}
use cs162proj.Synch.Safety.{perform-Keeps}

-- The three assertions: a call with a bad guard fails, any other goes on as without the assertion.
at_acquire :
    (p l h : Bool) (x y : Option System)
    → (((p && l) && h ≡ true)
        × ((if p && l
              then (assert (not h) >> (if p && l && not h then (assert (not h) >> x) else y))
              else y)
            ≡ none))
      ⊎ ((if p && l
            then (assert (not h) >> (if p && l && not h then (assert (not h) >> x) else y))
            else y)
          ≡ (if p && l && not h then (assert (not h) >> x) else y))
at_acquire true true true x y = inl (refl, refl)
at_acquire true true false x y = inr refl
at_acquire true false h x y = inr refl
at_acquire false l h x y = inr refl

at_try :
    (p h : Bool) (y : Option System)
    → ((p && h ≡ true) × ((if p then (assert (not h) >> y) else y) ≡ none))
      ⊎ ((if p then (assert (not h) >> y) else y) ≡ y)
at_try true true y = inl (refl, refl)
at_try true false y = inr refl
at_try false h y = inr refl

at_release :
    (p l h : Bool) (lock : Lock) (x : Lock → Option System) (y : Option System)
    → (((p && l) && not h ≡ true)
        × ((if p && l
              then ((assert h >> some lock) >>= λ k.
                  if p && l && h then ((assert h >> some lock) >>= x) else y)
              else y)
            ≡ none))
      ⊎ ((if p && l
            then ((assert h >> some lock) >>= λ k.
                if p && l && h then ((assert h >> some lock) >>= x) else y)
            else y)
          ≡ (if p && l && h then ((assert h >> some lock) >>= x) else y))
at_release true true true lock x y = inr refl
at_release true true false lock x y = inl (refl, refl)
at_release true false h lock x y = inr refl
at_release false l h lock x y = inr refl

module _ (is_lock : ℕ → Bool) where
  -- `perform` with the assertions at the entry of `lock_acquire`, `lock_try_acquire` and
  -- `lock_release`. A thread inside a function still takes up no other.
  unfoldable pub perform_checked : Action → System → Option System
  perform_checked (acquire l) st =
      if is_free is_lock st && is_lock l
      then (acquire_begin st.threads (st.lock l) >> perform is_lock (acquire l) st)
      else some st
  perform_checked (try_down s) st =
      if is_free is_lock st && is_lock s
      then (try_begin st.threads (st.lock s) >> perform is_lock (try_down s) st)
      else perform is_lock (try_down s) st
  perform_checked (release l) st =
      if is_free is_lock st && is_lock l
      then (release_begin st.threads (st.lock l) >>= λ lock. perform is_lock (release l) st)
      else some st
  perform_checked (down s) st = perform is_lock (down s) st
  perform_checked round st = perform is_lock round st
  perform_checked own st = perform is_lock own st
  perform_checked finish st = perform is_lock finish st
  perform_checked (up s) st = perform is_lock (up s) st
  perform_checked yield st = perform is_lock yield st
  perform_checked idle_block st = perform is_lock idle_block st
  perform_checked exit st = perform is_lock exit st

  unfoldable pub run_checked : List Action → System → Option System
  run_checked [] st = some st
  run_checked (a ∷ as') st = perform_checked a st >>= λ st'. run_checked as' st'

  -- The current thread acquires or tries to acquire a lock that it holds, or releases a lock that it
  -- does not hold.
  abbrev pub misuses : Action → System → Bool
  misuses (acquire l) st =
      (is_free is_lock st && is_lock l) && is_holder (st.lock l).holder (current is_lock st)
  misuses (try_down l) st =
      (is_free is_lock st && is_lock l) && is_holder (st.lock l).holder (current is_lock st)
  misuses (release l) st =
      (is_free is_lock st && is_lock l) && not (is_holder (st.lock l).holder (current is_lock st))
  misuses (down s) st = false
  misuses round st = false
  misuses own st = false
  misuses finish st = false
  misuses (up s) st = false
  misuses yield st = false
  misuses idle_block st = false
  misuses exit st = false

  abbrev Checks : Action → System → Type 0
  Checks a st =
      ((misuses a st ≡ true) × (perform_checked a st ≡ none))
      ⊎ (perform_checked a st ≡ perform is_lock a st)

  checks_lem : (a : Action) (st : System) → Checks a st
  unfolding perform_checked perform acquire_begin try_begin release_begin
  checks_lem (acquire l) st =
      at_acquire (is_free is_lock st) (is_lock l)
        (is_holder (st.lock l).holder (current is_lock st)) _ _
  checks_lem (try_down l) st =
      at_try (is_free is_lock st && is_lock l) (is_holder (st.lock l).holder (current is_lock st)) _
  checks_lem (release l) st =
      at_release (is_free is_lock st) (is_lock l)
        (is_holder (st.lock l).holder (current is_lock st)) _ _ _
  checks_lem (down s) st = inr refl
  checks_lem round st = inr refl
  checks_lem own st = inr refl
  checks_lem finish st = inr refl
  checks_lem (up s) st = inr refl
  checks_lem yield st = inr refl
  checks_lem idle_block st = inr refl
  checks_lem exit st = inr refl

  -- How a schedule ends: with the invariant, or at a first misuse, which fails an assertion.
  pub data Ends (n : ℕ) (as' : List Action) (st : System) : Type 0 where
    completed :
        (st' : System) → run_checked as' st ≡ some st' → IsSystem n is_lock st' → Ends n as' st
    misused :
        (pre : List Action) (a : Action) (post : List Action) (st' : System)
        → as' ≡ pre ++ (a ∷ post)
        → run_checked pre st ≡ some st'
        → IsSystem n is_lock st'
        → misuses a st' ≡ true
        → run_checked as' st ≡ none
        → Ends n as' st

  -- From a state with the invariant, a schedule of threads that may also acquire locks that they hold
  -- and release locks that they do not hold fails no assertion of thread.c or synch.c before the
  -- first such misuse, keeps the invariant up to there, and fails at the misuse. Without one it ends
  -- in a state with the invariant.
  pub run-IsSystem :
      (n : ℕ) (as' : List Action) (st : System) → IsSystem n is_lock st → Ends n as' st
  unfolding run_checked
  run-IsSystem n [] st inv = completed st refl inv
  run-IsSystem n (a ∷ as') st inv = elim (checks_lem a st) [
    | inl (bad, fails) ↦ misused [] a as' st refl refl inv bad (rw fails refl)
    | inr same ↦
        let (st1, done, inv1) = perform-Keeps n is_lock a st inv in
        let first = same ∙ done in
        elim (run-IsSystem n as' st1 inv1) [
          | completed st' rest inv' ↦ completed st' (rw first rest) inv'
          | misused pre b post st' split before inv' bad fails ↦
              misused (a ∷ pre) b post st' (ap (λ l. a ∷ l) split) (rw first before) inv' bad
                (rw first fails)
        ]
  ]
