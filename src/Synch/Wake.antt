-- ===== src/Synch/Wake.antt =====
-- The actions on the semaphores and locks of threads/synch.c that wake a thread keep the invariant
-- and fail no assertion.
use cs162proj.Prelude.{
  ℕ, ◌+◌, ◌%◌, ◌^◌, ◌<◌, ◌≡◌, ◌≢◌, ◌⊎◌, refl, sym, ap, subst, fun_ext, ◌∙◌, List, [], ◌∷◌, Option,
  some, Bool, true, ◌==◌, arith, Bool-cases, inl, inr, ==_iff, ==_ne, ==_apart, ==_refl,
}
use cs162proj.Thread.{Threads, thread_blocked, thread_ready, update}
use cs162proj.Thread.Order.{mem, mem-append, Distinct, woken, thread_unblock-IsScheduled}
use cs162proj.Synch.{Semaphore, Lock, sema_up, release_end}
use cs162proj.Synch.System.{
  Doing, at_rest, waiting, taking, leaving, System, Action, perform, perform_finish,
}
use cs162proj.Synch.Counts.{bit, count_some}
use cs162proj.Synch.Invariant.{awaits, is_busy, held, IsSemaphore, IsSystem, awake-woken}
use cs162proj.Synch.Steps.{Keeps, stays, moves, IsSemaphore-doing}

update-update : (f : ℕ → Lock) (i : ℕ) (a b : Lock) → update (update f i a) i b ≡ update f i b
update-update f i a b = fun_ext λ j. ground arith

list_cases : (l : List ℕ) → (l ≡ []) ⊎ ((x : ℕ) × (xs : List ℕ) × (l ≡ x ∷ xs))
list_cases [] = inl refl
list_cases (x ∷ xs) = inr (x, xs, refl)

abbrev raised : Option ℕ → Lock → List ℕ → Lock
raised holder x rest = record {
  holder = holder;
  semaphore = record { value = (x.semaphore.value + 1) % 2 ^ 32; waiters = rest };
}

module _ (n : ℕ) (is_lock : ℕ → Bool) (st : System) (inv : IsSystem n is_lock st) where
  abbrev c : ℕ
  c = st.threads.current

  abbrev upped : ℕ → Option ℕ → List ℕ → Lock
  upped s holder' rest = record {
    holder = holder';
    semaphore = record { value = ((st.lock s).semaphore.value + 1) % 2 ^ 32; waiters = rest };
  }

  -- The semaphore of which `w` is the first waiter, after `w` is woken.
  woken_own :
      (s w : ℕ) (ws : List ℕ) (holder' : Option ℕ)
      → (st.lock s).semaphore.waiters ≡ w ∷ ws
      → (is_lock s ≡ true
          → ((st.lock s).semaphore.value + 1) % 2 ^ 32 + held holder'
            ≡ (st.lock s).semaphore.value + held (st.lock s).holder)
      → IsSemaphore n
          (is_lock s)
          (update st.threads.status w thread_ready)
          st.doing
          s
          (upped s holder' ws)
  woken_own s w ws holder' e even =
      let old = inv.semas s in
      let dist = subst Distinct e old.distinct in
      let (b, d, low) = old.asleep w (ap (mem w) e ∙ rw (==_refl w) refl) in
      let more = awake-woken n st.threads.status st.doing w s low b in
      record {
        distinct = dist.1;
        asleep = λ t m.
            let other : w ≢ t = λ k. ground (arith, ap (λ y. mem y ws) k, m, dist.0) in
            let (b', d', l') = old.asleep t (ap (mem t) e ∙ ground (arith, m)) in
            (rw (==_ne w t other) b', d', l');
        wakeup = elim old.wakeup [
          | inl none_left ↦ absurd (ground (arith, sym e ∙ none_left))
          | inr h ↦ inr (omega (arith, h, more, ap (λ p. bit (awaits p s)) d, ap bit (==_refl s)))
        ];
        owned = λ l. omega (arith, even l, old.owned l);
      }

  -- Another semaphore.
  woken_other :
      (s w x : ℕ)
      → s ≢ x
      → st.threads.status w ≡ thread_blocked
      → st.doing w ≡ waiting s
      → w < n
      → IsSemaphore n (is_lock x) (update st.threads.status w thread_ready) st.doing x (st.lock x)
  woken_other s w x ne b d low =
      let old = inv.semas x in
      let more = awake-woken n st.threads.status st.doing w x low b in
      record {
        distinct = old.distinct;
        asleep = λ t m.
            let (b', d', l') = old.asleep t m in
            let other : w ≢ t = λ k. ne (ground (arith, ap st.doing k, d, d')) in
            (rw (==_ne w t other) b', d', l');
        wakeup = elim old.wakeup [ inl e ↦ inl e | inr h ↦ inr (omega (arith, h, more)) ];
        owned = old.owned;
      }

  -- The semaphore `s` goes up, and the lock's holder becomes `holder'`.
  abbrev after_up : ℕ → Option ℕ → Threads → List ℕ → System
  after_up s holder' th rest = record st {
    threads = th;
    lock = update st.lock s (upped s holder' rest);
  }

  -- What `sema_up` gives, with the invariant of the state behind it.
  abbrev Ups : ℕ → Option ℕ → Option (Threads × Semaphore) → Type 0
  Ups s holder' r =
      (th : Threads) × (rest : List ℕ) × (r ≡ some (th, (upped s holder' rest).semaphore))
      × (th.current ≡ c)
      × IsSystem n is_lock (after_up s holder' th rest)

  abbrev IsEven : ℕ → Option ℕ → Type 0
  IsEven s holder' =
      is_lock s ≡ true
      → ((st.lock s).semaphore.value + 1) % 2 ^ 32 + held holder'
        ≡ (st.lock s).semaphore.value + held (st.lock s).holder

  up_woken :
      (s w : ℕ) (ws : List ℕ) (holder' : Option ℕ)
      → (st.lock s).semaphore.waiters ≡ w ∷ ws
      → IsEven s holder'
      → Ups s holder' (sema_up st.threads (st.lock s).semaphore)
  unfolding sema_up
  up_woken s w ws holder' e even =
      let q = inv.quiet in
      let old = inv.semas s in
      let (b, d, low) = old.asleep w (ap (mem w) e ∙ rw (==_refl w) refl) in
      let (done, v') = thread_unblock-IsScheduled st.threads q.scheduled w b in
      let th = woken st.threads q.scheduled w in
      (
        th,
        ws,
        rw (e, done) refl,
        refl,
        record {
          quiet = record {
            scheduled = v';
            current_low = q.current_low;
            idle_low = q.idle_low;
            ready_low =
                λ t m. ground (arith, mem-append t st.threads.ready_list (w ∷ []), q.ready_low t);
            idle_rest = q.idle_rest;
          };
          semas = λ x. elim (Bool-cases (s == x)) [
            | inr k ↦ rw k (woken_other s w x (==_apart s x k) b d low)
            | inl k ↦
                subst
                  (λ y.
                    IsSemaphore n (is_lock y) th.status st.doing y
                      (update st.lock s (upped s holder' ws) y))
                  ((==_iff s x).0 k) (rw (==_refl s) (woken_own s w ws holder' e even))
          ];
        },
      )

  up_alone :
      (s : ℕ) (holder' : Option ℕ)
      → (st.lock s).semaphore.waiters ≡ []
      → IsEven s holder'
      → Ups s holder' (sema_up st.threads (st.lock s).semaphore)
  unfolding sema_up
  up_alone s holder' e even =
      let old = inv.semas s in
      (
        st.threads,
        [],
        rw e refl,
        refl,
        record {
          quiet = inv.quiet;
          semas = λ x. elim (Bool-cases (s == x)) [
            | inr k ↦ rw k (inv.semas x)
            | inl k ↦
                subst
                  (λ y.
                    IsSemaphore n (is_lock y) st.threads.status st.doing y
                      (update st.lock s (upped s holder' []) y))
                  ((==_iff s x).0 k)
                  (rw (==_refl s) (record {
                    distinct = tt;
                    asleep = λ t m. cc;
                    wakeup = inl refl;
                    owned = λ l. omega (arith, even l, old.owned l);
                  }))
          ];
        },
      )

  pub up_lem :
      (s : ℕ) (holder' : Option ℕ)
      → IsEven s holder'
      → Ups s holder' (sema_up st.threads (st.lock s).semaphore)
  up_lem s holder' even = elim (list_cases (st.lock s).semaphore.waiters) [
    | inl e ↦ up_alone s holder' e even
    | inr (w, ws, e) ↦ up_woken s w ws holder' e even
  ]

  pub up-Keeps : (s : ℕ) → Keeps n is_lock st inv (perform is_lock (Action.up s) st)
  unfolding perform
  up-Keeps s = elim (Bool-cases (is_lock s)) [
    | inl e ↦ rw e (stays n is_lock st inv)
    | inr e ↦
        let (th, rest, done, same, ok) = up_lem s (st.lock s).holder (λ l. ground (arith, l, e)) in
        rw e (after_up s (st.lock s).holder th rest, rw done refl, ok)
  ]

module _ (n : ℕ) (is_lock : ℕ → Bool) (st : System) (inv : IsSystem n is_lock st) where
  abbrev me : ℕ
  me = st.threads.current

  -- A lock between the halves of `lock_release` has neither a value nor a holder.
  leaving_lem :
      (l : ℕ)
      → st.doing me ≡ leaving l
      → is_lock l ≡ true
      → ((st.lock l).semaphore.value ≡ 0) × (held (st.lock l).holder ≡ 0)
  leaving_lem l e k =
      let counted =
        count_some (λ t. is_busy (st.doing t) l) n me inv.quiet.current_low (rw e (==_refl l)) in
      let all = (inv.semas l).owned k in (omega (arith, counted, all), omega (arith, counted, all))

  -- The state as if the holder had not been cleared.
  uncleared : ℕ → Lock
  uncleared l = record (st.lock l) { holder = some me }

  IsSystem-uncleared :
      (l : ℕ)
      → st.doing me ≡ leaving l
      → IsSystem n is_lock
          (record st { lock = update st.lock l (uncleared l); doing = update st.doing me at_rest })
  unfolding uncleared
  IsSystem-uncleared l e =
      moves n is_lock st inv l at_rest (uncleared l) (inr refl)
        (IsSemaphore-doing n is_lock st inv l at_rest (uncleared l) refl (rw e (omega arith))
          (λ k. rw e (omega (arith, leaving_lem l e k, ap bit (==_refl l)))))
        (λ s ne. rw e refl) (λ s ne. rw e (sym (==_ne l s (λ k. ne (sym k)))))

  pub finish-Keeps :
      (p : Doing) → st.doing me ≡ p → Keeps n is_lock st inv (perform_finish is_lock p st)
  unfolding perform_finish release_end uncleared
  finish-Keeps at_rest e = stays n is_lock st inv
  finish-Keeps (waiting s) e = stays n is_lock st inv
  finish-Keeps (taking l) e = stays n is_lock st inv
  finish-Keeps (leaving l) e =
      let st1 = record st {
        lock = update st.lock l (uncleared l);
        doing = update st.doing me at_rest;
      } in
      let holder = (st.lock l).holder in
      let p : update st.lock l (uncleared l) l ≡ uncleared l = rw (==_refl l) refl in
      let result : Lock → List ℕ → Lock = raised holder in
      let (th, rest, done, same, ok) =
        up_lem n is_lock st1 (IsSystem-uncleared l e) l holder
          (λ k. rw (==_refl l) (omega (arith, leaving_lem l e k))) in
      let went : sema_up st.threads (st.lock l).semaphore
          ≡ some (th, (result (uncleared l) rest).semaphore) =
        subst (λ x. sema_up st.threads x.semaphore ≡ some (th, (result x rest).semaphore)) p done in
      let kept : IsSystem n is_lock (record st1 {
        threads = th;
        lock = update (update st.lock l (uncleared l)) l (result (uncleared l) rest);
      }) =
        subst
          (λ x. IsSystem n is_lock (record st1 {
            threads = th;
            lock = update (update st.lock l (uncleared l)) l (result x rest);
          }))
          p ok in
      (
        record st1 { threads = th; lock = update st.lock l (result (uncleared l) rest) },
        rw went refl,
        subst (λ f. IsSystem n is_lock (record st1 { threads = th; lock = f }))
            (update-update st.lock l (uncleared l) (result (uncleared l) rest)) kept,
      )
