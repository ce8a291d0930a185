-- ===== src/Core/System/Calls.antt =====
-- What one call of a coroutine does to the places of all coroutines (core/coroutine.h and
-- core/coroutine.cpp).
use coroutine_http.Prelude.{
  ℕ, ◌+◌, ◌≤◌, ◌≡◌, refl, sym, ap, inl, inr, Bool, true, false, Option, none, some, List, [], ◌∷◌,
  ◌==◌, if◌then◌else◌, occurrences, nat_eq, Option-cases, Bool-cases, arith, ℤ, pos, negsuc,
}
use mathlib.Core.Path.{subst, subst₂, subst₃}
use coroutine_http.Prelude.Dict.{Dict, lookup, insert}
use coroutine_http.Core.Timer.{IsHeap, HeapOps}
use coroutine_http.Core.Scheduler.{
  Scheduler, make_ready, create, post, yield_from, yield_now, wait_from, wait_event, wait_resumed,
  push_timer, sleep_from, sleep, finish, switched_back,
}
use coroutine_http.Core.Channel.{Channel, Linked, fill_slot, park, send, recv}
use coroutine_http.Core.System.{
  Call, creates, posts, yields, sleeps, waits, after_wait, sends, receives, returns, on_sched,
  is_none, Move, calls, call, after_call,
}
use coroutine_http.Core.System.Places.{
  at, spots, born, spots-make_ready, spots-yield_from, spots-park, spots-wait_from,
  spots-sleep_from, spots-create, spots-finish,
}

abbrev listed : Option ℕ → List ℕ
listed none = []
listed (some c) = c ∷ []

-- The coroutine whose place a call overwrites: it already waited for the descriptor, or as the
-- sender or the receiver of the channel.
abbrev pub displaced : Call → Linked → List ℕ
displaced (waits fd events) l = listed (lookup fd l.sched.waiting_map)
displaced (sends val) l = if is_none l.chan.recv_waiter then listed l.chan.send_waiter else []
displaced receives l = if is_none l.chan.send_waiter then listed l.chan.recv_waiter else []
displaced _ l = []

abbrev pub displaced_by : Move → Linked → List ℕ
displaced_by (calls k) l = displaced k l
displaced_by _ l = []

-- All the places of coroutine `c`: those of the scheduler, and the two of the channel.
abbrev pub places : ℕ → Linked → ℕ
places c l = spots c l.sched + at c l.chan.send_waiter + at c l.chan.recv_waiter

occurrences-listed : (c : ℕ) (o : Option ℕ) → occurrences c (listed o) ≡ at c o
occurrences-listed c none = refl
occurrences-listed c (some d) = omega arith

switched_back_idle : (s : Scheduler) → s.running_coro ≡ none → switched_back s ≡ s
unfolding switched_back
switched_back_idle s h = ground arith

-- What a call does to the places, the ids, the timers and the running coroutine.
pub record Settles (c : ℕ) (lost : List ℕ) (l m : Linked) (away : Bool) : Type 0 where
  pub sum :
      places c m + occurrences c lost + born l.sched.next_id c ≡ places c l + born m.sched.next_id c
  pub fresh : 1 ≤ m.sched.next_id
  pub heap : IsHeap m.sched.timer_heap
  pub quiet : away ≡ true → m.sched.running_coro ≡ none

-- With the steps of `run` behind a switch.
abbrev pub settled : Linked × Bool → Linked
settled r = (after_call r).linked

switched-Settles :
    {c : ℕ} {lost : List ℕ} {l m : Linked}
    → Settles c lost l m true
    → Settles c lost l (on_sched m (switched_back m.sched)) true
switched-Settles {c} {lost} {l} {m} p =
    subst (λ s. Settles c lost l (on_sched m s) true)
      (sym (switched_back_idle m.sched (p.quiet refl))) p

module _ (ops : HeapOps) (c cur : ℕ) (l : Linked) (h : l.sched.running_coro ≡ some cur)
    (fresh : 1 ≤ l.sched.next_id) (heap : IsHeap l.sched.timer_heap) where
  abbrev Settled : Call → Type 0
  Settled k = Settles c (displaced k l) l (settled (call ops k cur l)) (call ops k cur l).1

  yields-Settles : Settles c [] l (on_sched l (yield_now l.sched)) true
  yields-Settles = subst (λ t. Settles c [] l (on_sched l t) true) (sym here) there
    where
      here : yield_now l.sched ≡ yield_from cur l.sched
      here = unfold yield_now in ground arith

      there : Settles c [] l (on_sched l (yield_from cur l.sched)) true
      there = record {
        sum = unfold yield_from make_ready in omega (arith, spots-yield_from c cur l.sched h);
        fresh = unfold yield_from make_ready in fresh;
        heap = unfold yield_from make_ready in heap;
        quiet = λ _. unfold yield_from make_ready in refl;
      }

  asleep-Settles :
      (now ms : ℕ) → Settles c [] l (on_sched l (sleep_from ops now ms cur l.sched)) true
  asleep-Settles now ms = record {
    sum =
        unfold sleep_from push_timer in omega (arith, spots-sleep_from c ops now ms cur l.sched h);
    fresh = unfold sleep_from push_timer in fresh;
    heap =
        unfold sleep_from push_timer in
        ops.push_heap-IsHeap l.sched.timer_heap (record { expire_ms = now + ms; co = cur }) heap;
    quiet = λ _. unfold sleep_from push_timer in refl;
  }

  sleeps-Settles : (now : ℕ) (ms : ℤ) → Settles c [] l (on_sched l (sleep ops now ms l.sched)) true
  unfolding sleep
  sleeps-Settles now (negsuc n) = yields-Settles
  sleeps-Settles now (pos ms) = elim (Bool-cases (ms == 0)) [
    | inl zero_ms ↦
        let here : sleep ops now (pos ms) l.sched ≡ yield_now l.sched = ground arith in
        subst (λ t. Settles c [] l (on_sched l t) true) (sym here) yields-Settles
    | inr some_ms ↦
        let here : sleep ops now (pos ms) l.sched ≡ sleep_from ops now ms cur l.sched =
          ground arith in
        subst (λ t. Settles c [] l (on_sched l t) true) (sym here) (asleep-Settles now ms)
  ]

  waits-Settles :
      (fd events : ℕ)
      → Settles c
          (listed (lookup fd l.sched.waiting_map))
          l
          (on_sched l (wait_event fd events l.sched))
          true
  waits-Settles fd events =
      subst (λ t. Settles c (listed (lookup fd l.sched.waiting_map)) l (on_sched l t) true)
        (sym here) there
    where
      here : wait_event fd events l.sched ≡ wait_from fd events cur l.sched
      here = unfold wait_event in ground arith

      there :
          Settles c
            (listed (lookup fd l.sched.waiting_map))
            l
            (on_sched l (wait_from fd events cur l.sched))
            true
      there = record {
        sum =
            unfold wait_from in
            omega (
              arith,
              spots-wait_from c fd events cur l.sched h,
              occurrences-listed c (lookup fd l.sched.waiting_map),
            );
        fresh = unfold wait_from in fresh;
        heap = unfold wait_from in heap;
        quiet = λ _. unfold wait_from in refl;
      }

  creates-Settles : (f : ℕ) → Settles c [] l (on_sched l (create f l.sched).1) false
  creates-Settles f = record {
    sum = omega (arith, spots-create c f l.sched fresh);
    fresh = unfold create make_ready in omega arith;
    heap = unfold create make_ready in heap;
    quiet = λ e. ground arith;
  }

  posts-Settles : (f : ℕ) → Settles c [] l (on_sched l (post f l.sched)) false
  unfolding post
  posts-Settles f = record {
    sum = omega arith;
    fresh = fresh;
    heap = heap;
    quiet = λ e. ground arith;
  }

  resumed-Settles : (fd : ℕ) → Settles c [] l (on_sched l (wait_resumed fd l.sched)) false
  unfolding wait_resumed
  resumed-Settles fd = record {
    sum = omega arith;
    fresh = fresh;
    heap = heap;
    quiet = λ e. ground arith;
  }

  finished-Settles : Settles c [] l (on_sched l (switched_back (finish l.sched))) true
  finished-Settles = record {
    sum = omega (arith, spots-finish c cur l.sched h, ap (λ n. born n c) ids);
    fresh = omega (arith, ids);
    heap = subst IsHeap (sym timers) heap;
    quiet = λ _. idle;
  }
    where
      ids : (switched_back (finish l.sched)).next_id ≡ l.sched.next_id
      ids = unfold finish switched_back in ground arith

      timers : (switched_back (finish l.sched)).timer_heap ≡ l.sched.timer_heap
      timers = unfold finish switched_back in ground arith

      idle : (switched_back (finish l.sched)).running_coro ≡ none
      idle = unfold finish switched_back in ground arith

  handed-Settles :
      (val r : ℕ)
      → l.chan.recv_waiter ≡ some r
      → Settles c [] l
          (record {
            sched = yield_from cur (make_ready r l.sched);
            chan = record l.chan { recv_waiter = none; recv_slot = none };
            results = fill_slot l.chan.recv_slot val l.results;
          })
          true
  handed-Settles val r there = record {
    sum =
        let moved = spots-yield_from c cur (make_ready r l.sched) (unfold make_ready in h) in
        let woken = spots-make_ready c r l.sched in
        unfold yield_from make_ready in omega (arith, moved, woken, ap (at c) there);
    fresh = unfold yield_from make_ready in fresh;
    heap = unfold yield_from make_ready in heap;
    quiet = λ _. unfold yield_from make_ready in refl;
  }

  parked-Settles :
      (chan : Channel) (results : Dict ℕ ℕ) (lost : List ℕ)
      → at c chan.send_waiter + at c chan.recv_waiter + occurrences c lost
        ≡ at c l.chan.send_waiter + at c l.chan.recv_waiter + at c (some cur)
      → Settles c lost l (record { sched = park cur l.sched; chan = chan; results = results }) true
  parked-Settles chan results lost e = record {
    sum = let moved = spots-park c cur l.sched h in unfold park in omega (arith, moved, e);
    fresh = unfold park in fresh;
    heap = unfold park in heap;
    quiet = λ _. unfold park in refl;
  }

  sends-Settles : (val : ℕ) → Settles c (displaced (sends val) l) l (send cur val l) true
  unfolding send
  sends-Settles val = elim (Option-cases l.chan.recv_waiter) [
    | inl nobody ↦
        subst₂ (λ lost m. Settles c lost l m true) (ground arith) (ground arith)
          (parked-Settles (record l.chan { send_waiter = some cur; send_val = val }) l.results
            (listed l.chan.send_waiter) (omega (arith, occurrences-listed c l.chan.send_waiter)))
    | inr (r, there) ↦
        subst₂ (λ lost m. Settles c lost l m true) (ground arith) (ground arith)
          (handed-Settles val r there)
  ]

  taken-Settles :
      (s : ℕ)
      → l.chan.send_waiter ≡ some s
      → Settles c [] l
          (record l { sched = make_ready s l.sched; chan = record l.chan { send_waiter = none } })
          false
  taken-Settles s there = record {
    sum =
        let woken = spots-make_ready c s l.sched in
        unfold make_ready in omega (arith, woken, ap (at c) there);
    fresh = unfold make_ready in fresh;
    heap = unfold make_ready in heap;
    quiet = λ e. ground arith;
  }

  receives-Settles : Settles c (displaced receives l) l (recv cur l).1 (is_none (recv cur l).0)
  unfolding recv
  receives-Settles = elim (Option-cases l.chan.send_waiter) [
    | inl nobody ↦
        subst₃ (λ lost m away. Settles c lost l m away) (ground arith) (ground arith) (ground arith)
          (parked-Settles (record l.chan { recv_waiter = some cur; recv_slot = some cur })
            (insert cur 0 l.results) (listed l.chan.recv_waiter)
            (omega (arith, occurrences-listed c l.chan.recv_waiter)))
    | inr (s, there) ↦
        subst₃ (λ lost m away. Settles c lost l m away) (ground arith) (ground arith) (ground arith)
          (taken-Settles s there)
  ]

  -- Every call moves coroutines between places, and takes one out of them only where it displaces
  -- it.
  pub call-Settles :
      (k : Call) → Settles c (displaced k l) l (settled (call ops k cur l)) (call ops k cur l).1
  unfolding call after_call
  call-Settles (creates f) = creates-Settles f
  call-Settles (posts f) = posts-Settles f
  call-Settles yields = switched-Settles yields-Settles
  call-Settles (sleeps now ms) = switched-Settles (sleeps-Settles now ms)
  call-Settles (waits fd events) = switched-Settles (waits-Settles fd events)
  call-Settles (after_wait fd) = resumed-Settles fd
  call-Settles (sends val) = switched-Settles (sends-Settles val)
  call-Settles receives = received (recv cur l) receives-Settles
    where
      received :
          (r : Option ℕ × Linked)
          → Settles c (displaced receives l) l r.1 (is_none r.0)
          → Settles c (displaced receives l) l (settled (r.1, is_none r.0)) (is_none r.0)
      received (none, m) p = switched-Settles p
      received (some v, m) p = p
  call-Settles returns = finished-Settles
