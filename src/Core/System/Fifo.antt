-- ===== src/Core/System/Fifo.antt =====
-- The order in which `Scheduler::run` (core/coroutine.cpp) resumes the ready coroutines.
use coroutine_http.Prelude.{
  ℕ, zero, suc, ◌≡◌, refl, sym, ap, ◌∙◌, inl, inr, Bool, true, false, Option, none, some, List, [],
  ◌∷◌, ◌++◌, append-nil, append_assoc, length, leb, ◌==◌, is_empty, nat_eq, Option-cases,
  Bool-cases, arith, ℤ, pos, negsuc,
}
use mathlib.Core.Path.{subst}
use coroutine_http.Prelude.Dict.{lookup}
use coroutine_http.Core.Timer.{TimerEntry, HeapOps}
use coroutine_http.Core.Scheduler.{
  Scheduler, Event, pipe_in, fd_ready, is_due, make_ready, create, create_all, post, yield_from,
  yield_now, wait_event, wait_from, wait_resumed, sleep, sleep_from, push_timer, pop_timer, finish,
  switched_back, drain_post_queue, resume, fire_loop, fire_timers, handle_event, handle_events,
}
use coroutine_http.Core.Channel.{Linked, park, send, recv}
use coroutine_http.Core.System.{
  Phase, dispatching, inside, polling, stopped, System, Call, creates, posts, yields, sleeps, waits,
  after_wait, sends, receives, returns, Move, resumes, calls, posted, goes_idle, polled,
  interrupted, failed, call, after_call, idle_round, poll_round, dispatch_step, inside_step,
  polling_step, phase_step, step,
}

-- The ready queue has only grown at its back.
pub data Grows (q r : List ℕ) : Type 0 where
  by : (new : List ℕ) → r ≡ q ++ new → Grows q r

Grows-refl : (q : List ℕ) → Grows q q
Grows-refl q = by [] (sym (append-nil q))

Grows-trans : {q r s : List ℕ} → Grows q r → Grows r s → Grows q s
Grows-trans {q} (by a e) (by b f) = by (a ++ b) (f ∙ ap (λ x. x ++ b) e ∙ append_assoc q a b)

abbrev GrowsTo : Scheduler → Scheduler → Type 0
GrowsTo s t = Grows s.ready_queue t.ready_queue

make_ready-Grows : (co : ℕ) (s : Scheduler) → GrowsTo s (make_ready co s)
unfolding make_ready
make_ready-Grows co s = by (co ∷ []) refl

create_all-Grows : (fs : List ℕ) (s : Scheduler) → GrowsTo s (create_all fs s)
unfolding create_all create make_ready
create_all-Grows [] s = Grows-refl _
create_all-Grows (f ∷ fs) s =
    Grows-trans (by (s.next_id ∷ []) refl) (create_all-Grows fs (create f s).1)

handle_event-Grows : (ev : Event) (s : Scheduler) → GrowsTo s (handle_event ev s)
unfolding handle_event drain_post_queue make_ready
handle_event-Grows pipe_in s =
    create_all-Grows s.post_queue (record s { pipe = 0; post_queue = [] })
handle_event-Grows (fd_ready fd) s = elim (Option-cases (lookup fd s.waiting_map)) [
  | inl missing ↦ rw (missing, handle_event) (Grows-refl s.ready_queue)
  | inr (co, found) ↦ rw (found, handle_event) (by (co ∷ []) refl)
]

handle_events-Grows : (evs : List Event) (s : Scheduler) → GrowsTo s (handle_events evs s)
unfolding handle_events
handle_events-Grows [] s = Grows-refl _
handle_events-Grows (ev ∷ evs) s =
    Grows-trans (handle_event-Grows ev s) (handle_events-Grows evs (handle_event ev s))

switched_back-ready : (s : Scheduler) → (switched_back s).ready_queue ≡ s.ready_queue
unfolding switched_back
switched_back-ready s = ground arith

yield_now-Grows : (s : Scheduler) → GrowsTo s (yield_now s)
unfolding yield_now yield_from make_ready
yield_now-Grows s = elim (Option-cases s.running_coro) [
  | inl nobody ↦ rw (nobody, yield_now) (Grows-refl s.ready_queue)
  | inr (cur, runs) ↦ rw (runs, yield_now) (by (cur ∷ []) refl)
]

same-Grows : {q r : List ℕ} → r ≡ q → Grows q r
same-Grows {q} e = by [] (e ∙ sym (append-nil q))

wait_event-Grows : (fd events : ℕ) (s : Scheduler) → GrowsTo s (wait_event fd events s)
unfolding wait_event wait_from
wait_event-Grows fd events s = same-Grows (ground arith)

finish-Grows : (s : Scheduler) → GrowsTo s (finish s)
unfolding finish
finish-Grows s = same-Grows (ground arith)

send-Grows : (val cur : ℕ) (l : Linked) → GrowsTo l.sched (send cur val l).sched
unfolding send park make_ready yield_from
send-Grows val cur l = elim (Option-cases l.chan.recv_waiter) [
  | inl nobody ↦ same-Grows (ground arith)
  | inr (r, there) ↦
      by (r ∷ cur ∷ []) (ground (arith, append_assoc l.sched.ready_queue (r ∷ []) (cur ∷ [])))
]

recv-Grows : (cur : ℕ) (l : Linked) → GrowsTo l.sched (recv cur l).1.sched
unfolding recv park make_ready
recv-Grows cur l = elim (Option-cases l.chan.send_waiter) [
  | inl nobody ↦ same-Grows (ground arith)
  | inr (s, there) ↦ by (s ∷ []) (ground arith)
]

-- A move either resumes the front coroutine, which leaves the queue, or adds at the back.
abbrev pub Queues : Move → System → System → Type 0
Queues resumes s t =
    (c : ℕ) × (s.linked.sched.ready_queue ≡ c ∷ t.linked.sched.ready_queue)
    × (t.linked.sched.running_coro ≡ some c)
Queues _ s t = Grows s.linked.sched.ready_queue t.linked.sched.ready_queue

module _ (ops : HeapOps) where
  pop_timer-ready :
      (s : Scheduler) (r : TimerEntry × Scheduler)
      → pop_timer ops s ≡ some r
      → r.1.ready_queue ≡ s.ready_queue
  unfolding pop_timer
  pop_timer-ready s r h = ground arith

  fire_loop-Grows :
      (fuel now count : ℕ) (s : Scheduler) → GrowsTo s (fire_loop ops fuel now count s).1
  unfolding fire_loop
  fire_loop-Grows zero now count s = Grows-refl _
  fire_loop-Grows (suc fuel) now count s = elim (Bool-cases (is_due now s.timer_heap)) [
    | inr early ↦ rw (early, fire_loop) (Grows-refl s.ready_queue)
    | inl due ↦ elim (Option-cases (pop_timer ops s)) [
      | inl empty ↦ rw (due, fire_loop) (rw (empty, fire_loop) (Grows-refl s.ready_queue))
      | inr (r, popped) ↦
          rw (due, fire_loop)
            (rw (popped, fire_loop)
              (Grows-trans
                (subst (λ q. Grows q (make_ready r.0.co r.1).ready_queue)
                  (pop_timer-ready s r popped) (make_ready-Grows r.0.co r.1))
                (fire_loop-Grows fuel now (suc count) (make_ready r.0.co r.1))))
    ]
  ]

  fire_timers-Grows : (now : ℕ) (s : Scheduler) → GrowsTo s (fire_timers ops now s).1
  unfolding fire_timers
  fire_timers-Grows now s = fire_loop-Grows (length s.timer_heap) now 0 s

  sleep-Grows : (now : ℕ) (ms : ℤ) (s : Scheduler) → GrowsTo s (sleep ops now ms s)
  unfolding sleep sleep_from push_timer
  sleep-Grows now (negsuc n) s = yield_now-Grows s
  sleep-Grows now (pos ms) s = elim (Bool-cases (ms == 0)) [
    | inl zero_ms ↦ rw (zero_ms, sleep) (yield_now-Grows s)
    | inr some_ms ↦
        rw (some_ms, sleep)
          (elim (Option-cases s.running_coro) [
            | inl nobody ↦ rw nobody (Grows-refl s.ready_queue)
            | inr (cur, runs) ↦ rw runs (Grows-refl s.ready_queue)
          ])
  ]

  call-Grows : (k : Call) (cur : ℕ) (l : Linked) → GrowsTo l.sched (call ops k cur l).0.sched
  unfolding call
  call-Grows (creates f) cur l = unfold create make_ready in by (l.sched.next_id ∷ []) refl
  call-Grows (posts f) cur l = unfold post in Grows-refl _
  call-Grows yields cur l = yield_now-Grows l.sched
  call-Grows (sleeps now ms) cur l = sleep-Grows now ms l.sched
  call-Grows (waits fd events) cur l = wait_event-Grows fd events l.sched
  call-Grows (after_wait fd) cur l = unfold wait_resumed in Grows-refl _
  call-Grows (sends val) cur l = send-Grows val cur l
  call-Grows receives cur l = recv-Grows cur l
  call-Grows returns cur l = finish-Grows l.sched

  after_call-ready :
      (r : Linked × Bool) → (after_call r).linked.sched.ready_queue ≡ r.0.sched.ready_queue
  unfolding after_call
  after_call-ready (l, true) = switched_back-ready l.sched
  after_call-ready (l, false) = refl

  inside-Queues :
      (m : Move) (l : Linked) (t : System)
      → inside_step ops m l ≡ some t
      → Queues m (record { linked = l; phase = inside }) t
  unfolding inside_step
  inside-Queues (calls k) l t h = elim (Option-cases l.sched.running_coro) [
    | inl nobody ↦ absurd (ground arith)
    | inr (cur, runs) ↦
        let here : after_call (call ops k cur l) ≡ t = ground arith in
        Grows-trans (call-Grows k cur l) (
          same-Grows (
            ap (λ (s : System). s.linked.sched.ready_queue) (sym here)
            ∙ after_call-ready (call ops k cur l)))
  ]
  inside-Queues m l t h = absurd (ground arith)

  polling-Queues :
      (m : Move) (l : Linked) (t : System)
      → polling_step ops m l ≡ some t
      → Queues m (record { linked = l; phase = polling }) t
  unfolding polling_step poll_round
  polling-Queues (polled evs now) l t h = elim (Bool-cases (leb (length evs) 64)) [
    | inr many ↦ absurd (ground arith)
    | inl few ↦
        let here : poll_round ops evs now l ≡ t = ground arith in
        subst (λ (s : System). GrowsTo l.sched s.linked.sched) here
          (Grows-trans (handle_events-Grows evs l.sched)
            (fire_timers-Grows now (handle_events evs l.sched)))
  ]
  polling-Queues interrupted l t h = same-Grows (ground arith)
  polling-Queues failed l t h = same-Grows (ground arith)
  polling-Queues m l t h = absurd (ground arith)

  dispatch-Queues :
      (m : Move) (l : Linked) (t : System)
      → dispatch_step ops m l ≡ some t
      → Queues m (record { linked = l; phase = dispatching }) t
  unfolding dispatch_step idle_round resume
  dispatch-Queues resumes l t h = front l.sched.ready_queue refl
    where
      front :
          (q : List ℕ)
          → l.sched.ready_queue ≡ q
          → Queues resumes (record { linked = l; phase = dispatching }) t
      front [] e = absurd (ground arith)
      front (c ∷ q) e = (c, ground arith, ground arith)
  dispatch-Queues (goes_idle now) l t h = elim (Bool-cases (is_empty l.sched.ready_queue)) [
    | inr busy ↦ absurd (ground arith)
    | inl idle ↦
        let here : idle_round ops now l ≡ t = ground arith in
        subst (λ (s : System). GrowsTo l.sched s.linked.sched) here (fire_timers-Grows now l.sched)
  ]
  dispatch-Queues m l t h = absurd (ground arith)

  phase-Queues :
      (phase : Phase) (m : Move) (l : Linked) (t : System)
      → phase_step ops phase m l ≡ some t
      → Queues m (record { linked = l; phase = phase }) t
  unfolding phase_step
  phase-Queues dispatching m l t h = dispatch-Queues m l t h
  phase-Queues inside m l t h = inside-Queues m l t h
  phase-Queues polling m l t h = polling-Queues m l t h
  phase-Queues stopped m l t h = absurd (ground arith)

  pub step-Queues : (m : Move) (s t : System) → step ops m s ≡ some t → Queues m s t
  unfolding step post
  step-Queues (posted f) s t h = same-Grows (ground arith)
  step-Queues resumes s t h = phase-Queues s.phase resumes s.linked t h
  step-Queues m s t h = phase-Queues s.phase m s.linked t h

  -- A sequence of moves; `none` where one of them is not possible.
  unfoldable pub run : List Move → System → Option System
  run [] s = some s
  run (m ∷ ms) s = elim (step ops m s) [ none ↦ none | some t ↦ run ms t ]

abbrev pub is_resume : Move → Bool
is_resume resumes = true
is_resume _ = false
