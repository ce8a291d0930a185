-- ===== src/Core/System/Tasks.antt =====
-- The functions that a scheduler has been given (`create`, `post` and `drain_post_queue` of
-- core/coroutine.cpp): an abstract book of them, which `run` keeps whatever else happens.
use coroutine_http.Prelude.{
  ℕ, zero, suc, ◌≡◌, refl, sym, ap, ◌∙◌, inl, inr, Bool, true, false, some, List, [], ◌∷◌, ◌++◌,
  length, leb, is_empty, nat_eq, Option-cases, Bool-cases, arith, ℤ, pos, negsuc,
}
use mathlib.Core.Path.{subst}
use mathlib.Core.Option.{some-injective}
use coroutine_http.Prelude.Dict.{Dict, lookup, insert}
use coroutine_http.Core.Timer.{TimerEntry, HeapOps}
use coroutine_http.Core.Scheduler.{
  Scheduler, Event, pipe_in, fd_ready, is_due, make_ready, create, create_all, post, yield_from,
  yield_now, wait_event, wait_from, wait_resumed, sleep, sleep_from, push_timer, pop_timer, finish,
  switched_back, drain_post_queue, resume, fire_loop, fire_timers, handle_event, handle_events,
}
use coroutine_http.Core.Channel.{Linked, park, send, recv}
use coroutine_http.Core.System.{
  Phase, dispatching, inside, polling, stopped, System, Call, creates, posts, yields, sleeps, waits,
  after_wait, sends, receives, returns, Move, resumes, calls, posted, goes_idle, polled,
  interrupted, failed, call, after_call, idle_round, poll_round, dispatch_step, inside_step,
  polling_step, phase_step, step,
}

-- The functions of the coroutines, by their identifiers, and those that wait to become one.
pub record Book : Type 0 where
  pub next_id : ℕ
  pub started : Dict ℕ ℕ
  pub waiting : List ℕ

abbrev pub book : Scheduler → Book
book s = record { next_id = s.next_id; started = s.funcs; waiting = s.post_queue }

-- A function becomes a coroutine.
abbrev pub enter : ℕ → Book → Book
enter f b = record b { next_id = suc b.next_id; started = insert b.next_id f b.started }

abbrev pub enter_all : List ℕ → Book → Book
enter_all [] b = b
enter_all (f ∷ fs) b = enter_all fs (enter f b)

-- A function is put behind the others that wait.
abbrev pub append : ℕ → Book → Book
append f b = record b { waiting = b.waiting ++ f ∷ [] }

-- All that wait become coroutines, in their order.
abbrev pub admit : Book → Book
admit b = enter_all b.waiting (record b { waiting = [] })

abbrev pub admit_at : List Event → Book → Book
admit_at [] b = b
admit_at (pipe_in ∷ evs) b = admit_at evs (admit b)
admit_at (fd_ready fd ∷ evs) b = admit_at evs b

-- What a move does to the book.
abbrev pub entry : Move → Book → Book
entry (calls (creates f)) b = enter f b
entry (calls (posts f)) b = append f b
entry (posted f) b = append f b
entry (polled evs now) b = admit_at evs b
entry _ b = b

-- The functions that a move of one scheduler gives to it.
abbrev pub handed : Move → List ℕ
handed (calls (creates f)) = f ∷ []
handed (calls (posts f)) = f ∷ []
handed (posted f) = f ∷ []
handed _ = []

pub create_all-book : (fs : List ℕ) (s : Scheduler) → book (create_all fs s) ≡ enter_all fs (book s)
unfolding create_all create make_ready
create_all-book [] s = refl
create_all-book (f ∷ fs) s = create_all-book fs (create f s).1

handle_events-book :
    (evs : List Event) (s : Scheduler) → book (handle_events evs s) ≡ admit_at evs (book s)
unfolding handle_events handle_event
handle_events-book [] s = refl
handle_events-book (pipe_in ∷ evs) s =
    handle_events-book evs (drain_post_queue (record s { pipe = 0 }))
    ∙ ap (admit_at evs) (drained s)
  where
    drained : (s : Scheduler) → book (drain_post_queue (record s { pipe = 0 })) ≡ admit (book s)
    drained s =
        unfold drain_post_queue in
        create_all-book s.post_queue (record s { pipe = 0; post_queue = [] })
handle_events-book (fd_ready fd ∷ evs) s =
    handle_events-book evs (handle_event (fd_ready fd) s) ∙ ap (admit_at evs) (woken s)
  where
    woken : (s : Scheduler) → book (handle_event (fd_ready fd) s) ≡ book s
    woken s = elim (Option-cases (lookup fd s.waiting_map)) [
      | inl missing ↦ rw (missing, handle_event) refl
      | inr (co, found) ↦ rw (found, handle_event) (unfold make_ready in refl)
    ]

yield_now-book : (s : Scheduler) → book (yield_now s) ≡ book s
unfolding yield_now yield_from make_ready
yield_now-book s = ground arith

switched_back-book : (s : Scheduler) → book (switched_back s) ≡ book s
unfolding switched_back
switched_back-book s = ground arith

send-book : (cur val : ℕ) (l : Linked) → book (send cur val l).sched ≡ book l.sched
unfolding send park make_ready yield_from
send-book cur val l = ground arith

recv-book : (cur : ℕ) (l : Linked) → book (recv cur l).1.sched ≡ book l.sched
unfolding recv park make_ready
recv-book cur l = ground arith

wait_event-book : (fd events : ℕ) (s : Scheduler) → book (wait_event fd events s) ≡ book s
unfolding wait_event wait_from
wait_event-book fd events s = ground arith

finish-book : (s : Scheduler) → book (finish s) ≡ book s
unfolding finish
finish-book s = ground arith

module _ (ops : HeapOps) where
  pop_timer-book :
      (s : Scheduler) (r : TimerEntry × Scheduler) → pop_timer ops s ≡ some r → book r.1 ≡ book s
  unfolding pop_timer
  pop_timer-book s r h = ground arith

  fire_loop-book :
      (fuel now count : ℕ) (s : Scheduler) → book (fire_loop ops fuel now count s).1 ≡ book s
  unfolding fire_loop
  fire_loop-book zero now count s = refl
  fire_loop-book (suc fuel) now count s = elim (Bool-cases (is_due now s.timer_heap)) [
    | inr early ↦ rw (early, fire_loop) refl
    | inl due ↦ elim (Option-cases (pop_timer ops s)) [
      | inl empty ↦ rw (due, fire_loop) (rw (empty, fire_loop) refl)
      | inr (r, popped) ↦
          rw (due, fire_loop)
            (rw (popped, fire_loop)
              (fire_loop-book fuel now (suc count) (make_ready r.0.co r.1)
                ∙ (unfold make_ready in pop_timer-book s r popped)))
    ]
  ]

  fire_timers-book : (now : ℕ) (s : Scheduler) → book (fire_timers ops now s).1 ≡ book s
  unfolding fire_timers
  fire_timers-book now s = fire_loop-book (length s.timer_heap) now 0 s

  sleep-book : (now : ℕ) (ms : ℤ) (s : Scheduler) → book (sleep ops now ms s) ≡ book s
  unfolding sleep sleep_from push_timer
  sleep-book now (negsuc n) s = yield_now-book s
  sleep-book now (pos ms) s = ground (arith, yield_now-book s)

  call-book :
      (k : Call) (cur : ℕ) (l : Linked)
      → book (call ops k cur l).0.sched ≡ entry (calls k) (book l.sched)
  unfolding call
  call-book (creates f) cur l = unfold create make_ready in refl
  call-book (posts f) cur l = unfold post in refl
  call-book yields cur l = yield_now-book l.sched
  call-book (sleeps now ms) cur l = sleep-book now ms l.sched
  call-book (waits fd events) cur l = wait_event-book fd events l.sched
  call-book (after_wait fd) cur l = unfold wait_resumed in refl
  call-book (sends val) cur l = send-book cur val l
  call-book receives cur l = recv-book cur l
  call-book returns cur l = finish-book l.sched

  after_call-book : (r : Linked × Bool) → book (after_call r).linked.sched ≡ book r.0.sched
  unfolding after_call
  after_call-book (l, true) = switched_back-book l.sched
  after_call-book (l, false) = refl

  abbrev Enters : Move → Linked → System → Type 0
  Enters m l t = book t.linked.sched ≡ entry m (book l.sched)

  Enters-of : (m : Move) (l : Linked) (s t : System) → s ≡ t → Enters m l s → Enters m l t
  Enters-of m l s t same e = subst (Enters m l) same e

  inside-Enters : (m : Move) (l : Linked) (t : System) → inside_step ops m l ≡ some t → Enters m l t
  unfolding inside_step
  inside-Enters (calls k) l t h = elim (Option-cases l.sched.running_coro) [
    | inl nobody ↦ absurd (ground arith)
    | inr (cur, runs) ↦
        Enters-of (calls k) l (after_call (call ops k cur l)) t (ground arith)
          (after_call-book (call ops k cur l) ∙ call-book k cur l)
  ]
  inside-Enters m l t h = absurd (ground arith)

  polling-Enters :
      (m : Move) (l : Linked) (t : System) → polling_step ops m l ≡ some t → Enters m l t
  unfolding polling_step poll_round
  polling-Enters (polled evs now) l t h = elim (Bool-cases (leb (length evs) 64)) [
    | inr many ↦ absurd (ground arith)
    | inl few ↦
        Enters-of (polled evs now) l (poll_round ops evs now l) t (ground arith)
          (fire_timers-book now (handle_events evs l.sched) ∙ handle_events-book evs l.sched)
  ]
  polling-Enters interrupted l t h =
      ap (λ (s : System). book s.linked.sched) (sym (some-injective _ _ h))
  polling-Enters failed l t h =
      ap (λ (s : System). book s.linked.sched) (sym (some-injective _ _ h))
  polling-Enters m l t h = absurd (ground arith)

  dispatch-Enters :
      (m : Move) (l : Linked) (t : System) → dispatch_step ops m l ≡ some t → Enters m l t
  unfolding dispatch_step idle_round resume
  dispatch-Enters resumes l t h = front l.sched.ready_queue refl
    where
      front : (q : List ℕ) → l.sched.ready_queue ≡ q → Enters resumes l t
      front [] e = absurd (ground arith)
      front (c ∷ q) e = ground arith
  dispatch-Enters (goes_idle now) l t h = elim (Bool-cases (is_empty l.sched.ready_queue)) [
    | inr busy ↦ absurd (ground arith)
    | inl idle ↦
        Enters-of (goes_idle now) l (idle_round ops now l) t (ground arith)
          (fire_timers-book now l.sched)
  ]
  dispatch-Enters m l t h = absurd (ground arith)

  phase-Enters :
      (phase : Phase) (m : Move) (l : Linked) (t : System)
      → phase_step ops phase m l ≡ some t
      → Enters m l t
  unfolding phase_step
  phase-Enters dispatching m l t h = dispatch-Enters m l t h
  phase-Enters inside m l t h = inside-Enters m l t h
  phase-Enters polling m l t h = polling-Enters m l t h
  phase-Enters stopped m l t h = absurd (ground arith)

  -- The scheduler implements the book: whatever it does besides, with its queues, timers,
  -- descriptors and channel, a move changes what the scheduler has been given exactly as the book
  -- says. A created function becomes the next coroutine at once, a posted one waits behind the
  -- others, and when the wake-up pipe is reported, all that wait become coroutines in their order;
  -- no other move starts, drops or repeats one.
  pub step_refines :
      (m : Move) (s t : System)
      → step ops m s ≡ some t
      → book t.linked.sched ≡ entry m (book s.linked.sched)
  unfolding step post
  step_refines (posted f) s t h =
      ap (λ (u : System). book u.linked.sched) (sym (some-injective _ _ h))
  step_refines resumes s t h = phase-Enters s.phase resumes s.linked t h
  step_refines (calls k) s t h = phase-Enters s.phase (calls k) s.linked t h
  step_refines (goes_idle now) s t h = phase-Enters s.phase (goes_idle now) s.linked t h
  step_refines (polled evs now) s t h = phase-Enters s.phase (polled evs now) s.linked t h
  step_refines interrupted s t h = phase-Enters s.phase interrupted s.linked t h
  step_refines failed s t h = phase-Enters s.phase failed s.linked t h
