-- ===== src/Core/System/Conserved.antt =====
-- No coroutine of `Scheduler::run` (core/coroutine.cpp) is in two places, and those that are in
-- none are known.
use coroutine_http.Prelude.{
  ℕ, ◌+◌, ◌≤◌, ◌≡◌, ◌≢◌, map, refl, sym, ap, ◌∙◌, inl, inr, Bool, true, false, none, some, List, [],
  ◌++◌, length, leb, ◌==◌, is_empty, occurrences, count_if-append, nat_eq, Option-cases, Bool-cases,
  arith,
}
use mathlib.Core.Path.{subst}
use mathlib.Core.Option.{some-injective}
use coroutine_http.Core.Timer.{TimerEntry, IsHeap, HeapOps}
use coroutine_http.Core.Scheduler.{
  Scheduler, new_scheduler, destroy, post, resume, fire_timers, handle_events,
}
use coroutine_http.Core.Channel.{Linked}
use coroutine_http.Core.System.{
  Phase, dispatching, inside, polling, stopped, System, new_system, on_sched, Move, resumes, calls,
  posted, goes_idle, polled, interrupted, failed, call, after_call, idle_round, poll_round,
  dispatch_step, inside_step, polling_step, phase_step, step,
}
use coroutine_http.Core.System.Places.{
  born, at, spots-create_all, spots-resume, handle_events-spots, spots-fire_timers, occurrences-cos,
}
use coroutine_http.Core.System.Calls.{
  displaced, displaced_by, places, Settles, settled, call-Settles,
}

abbrev pub is_inside : Phase → Bool
is_inside inside = true
is_inside dispatching = false
is_inside polling = false
is_inside stopped = false

-- Each coroutine that has been created, and no other number, is in one place or has lost its place,
-- once; the timers form a heap; outside a coroutine none is marked as running.
pub record Inv (lost : List ℕ) (s : System) : Type 0 where
  pub sum : (c : ℕ) → places c s.linked + occurrences c lost ≡ born s.linked.sched.next_id c
  pub fresh : 1 ≤ s.linked.sched.next_id
  pub heap : IsHeap s.linked.sched.timer_heap
  pub quiet : is_inside s.phase ≡ false → s.linked.sched.running_coro ≡ none

-- The states that `run` reaches, with the coroutines that have been displaced on the way.
pub data Reach (ops : HeapOps) : List ℕ → System → Type 0 where
  start : (fs : List ℕ) → Reach ops [] (new_system fs)
  later :
      {lost : List ℕ} {s t : System} (m : Move)
      → Reach ops lost s
      → step ops m s ≡ some t
      → Reach ops (displaced_by m s.linked ++ lost) t

settled-Inv :
    (lost gone : List ℕ) (l : Linked) (r : Linked × Bool)
    → ((c : ℕ) → places c l + occurrences c lost ≡ born l.sched.next_id c)
    → ((c : ℕ) → Settles c gone l (settled r) r.1)
    → Inv (gone ++ lost) (after_call r)
unfolding after_call
settled-Inv lost gone l (m, true) before p = record {
  sum = λ c. omega (arith, before c, (p c).sum, count_if-append (λ x. x == c) gone lost);
  fresh = (p 0).fresh;
  heap = (p 0).heap;
  quiet = λ _. (p 0).quiet refl;
}
settled-Inv lost gone l (m, false) before p = record {
  sum = λ c. omega (arith, before c, (p c).sum, count_if-append (λ x. x == c) gone lost);
  fresh = (p 0).fresh;
  heap = (p 0).heap;
  quiet = λ e. ground arith;
}

module _ (ops : HeapOps) where
  inside-Inv :
      (lost : List ℕ) (m : Move) (l : Linked) (t : System)
      → inside_step ops m l ≡ some t
      → Inv lost (record { linked = l; phase = inside })
      → Inv (displaced_by m l ++ lost) t
  unfolding inside_step
  inside-Inv lost (calls k) l t h inv = elim (Option-cases l.sched.running_coro) [
    | inl nobody ↦ absurd (ground arith)
    | inr (cur, runs) ↦
        let here : after_call (call ops k cur l) ≡ t = ground arith in
        subst (Inv (displaced k l ++ lost)) here (
          settled-Inv lost (displaced k l) l (call ops k cur l) inv.sum
            (λ c. call-Settles ops c cur l runs inv.fresh inv.heap k))
  ]
  inside-Inv lost m l t h inv = ground arith

  round-Inv :
      (lost : List ℕ) (now : ℕ) (phase : Phase) (l : Linked) (s : Scheduler)
      → IsHeap s.timer_heap
      → 1 ≤ s.next_id
      → s.running_coro ≡ none
      → ((c : ℕ) → places c (on_sched l s) + occurrences c lost ≡ born s.next_id c)
      → Inv lost (record { linked = on_sched l (fire_timers ops now s).1; phase = phase })
  round-Inv lost now phase l s heap fresh idle before = record {
    sum = λ c.
        let p = spots-fire_timers c ops now s heap in
        omega (arith, before c, p.0, ap (λ n. born n c) p.1);
    fresh = omega (arith, (spots-fire_timers 0 ops now s heap).1);
    heap = (spots-fire_timers 0 ops now s heap).3;
    quiet = λ _. (spots-fire_timers 0 ops now s heap).2 ∙ idle;
  }

  dispatch-Inv :
      (lost : List ℕ) (m : Move) (l : Linked) (t : System)
      → dispatch_step ops m l ≡ some t
      → Inv lost (record { linked = l; phase = dispatching })
      → Inv (displaced_by m l ++ lost) t
  unfolding dispatch_step idle_round
  dispatch-Inv lost resumes l t h inv = elim (Option-cases (resume l.sched)) [
    | inl nobody ↦ absurd (ground arith)
    | inr (s, runs) ↦
        let here : record { linked = on_sched l s; phase = inside } ≡ t = ground arith in
        subst (Inv lost) here (record {
          sum = λ c.
              let p = spots-resume c l.sched s (inv.quiet refl) runs in
              omega (arith, inv.sum c, p.0, ap (λ n. born n c) p.1);
          fresh = omega (arith, (spots-resume 0 l.sched s (inv.quiet refl) runs).1, inv.fresh);
          heap = subst IsHeap (sym (spots-resume 0 l.sched s (inv.quiet refl) runs).2) inv.heap;
          quiet = λ e. ground arith;
        })
  ]
  dispatch-Inv lost (goes_idle now) l t h inv = elim (Bool-cases (is_empty l.sched.ready_queue)) [
    | inr busy ↦ absurd (ground arith)
    | inl idle ↦
        let here : idle_round ops now l ≡ t = ground arith in
        subst (Inv lost) here
          (round-Inv lost now _ l l.sched inv.heap inv.fresh (inv.quiet refl) inv.sum)
  ]
  dispatch-Inv lost m l t h inv = ground arith

  polling-Inv :
      (lost : List ℕ) (m : Move) (l : Linked) (t : System)
      → polling_step ops m l ≡ some t
      → Inv lost (record { linked = l; phase = polling })
      → Inv (displaced_by m l ++ lost) t
  unfolding polling_step poll_round
  polling-Inv lost (polled evs now) l t h inv = elim (Bool-cases (leb (length evs) 64)) [
    | inr many ↦ absurd (ground arith)
    | inl few ↦
        let here : poll_round ops evs now l ≡ t = ground arith in
        let p = handle_events-spots 0 evs l.sched inv.fresh in
        subst (Inv lost) here (
          round-Inv lost now dispatching l (handle_events evs l.sched)
            (subst IsHeap (sym p.2) inv.heap) p.1 (p.3 ∙ inv.quiet refl)
            (λ c. omega (arith, inv.sum c, (handle_events-spots c evs l.sched inv.fresh).0)))
  ]
  polling-Inv lost interrupted l t h inv =
      subst (Inv lost) (some-injective _ _ h)
        (record { sum = inv.sum; fresh = inv.fresh; heap = inv.heap; quiet = λ _. inv.quiet refl })
  polling-Inv lost failed l t h inv =
      subst (Inv lost) (some-injective _ _ h)
        (record { sum = inv.sum; fresh = inv.fresh; heap = inv.heap; quiet = λ _. inv.quiet refl })
  polling-Inv lost m l t h inv = ground arith

  phase-Inv :
      (lost : List ℕ) (phase : Phase) (m : Move) (l : Linked) (t : System)
      → phase_step ops phase m l ≡ some t
      → Inv lost (record { linked = l; phase = phase })
      → Inv (displaced_by m l ++ lost) t
  unfolding phase_step
  phase-Inv lost dispatching m l t h inv = dispatch-Inv lost m l t h inv
  phase-Inv lost inside m l t h inv = inside-Inv lost m l t h inv
  phase-Inv lost polling m l t h inv = polling-Inv lost m l t h inv
  phase-Inv lost stopped m l t h inv = ground arith

  posted-Inv :
      (lost : List ℕ) (f : ℕ) (s : System)
      → Inv lost s
      → Inv lost (record s { linked = on_sched s.linked (post f s.linked.sched) })
  unfolding post
  posted-Inv lost f s inv = record {
    sum = inv.sum;
    fresh = inv.fresh;
    heap = inv.heap;
    quiet = inv.quiet;
  }

  step-Inv :
      (lost : List ℕ) (m : Move) (s t : System)
      → step ops m s ≡ some t
      → Inv lost s
      → Inv (displaced_by m s.linked ++ lost) t
  unfolding step
  step-Inv lost (posted f) s t h inv =
      subst (Inv lost) (some-injective _ _ h) (posted-Inv lost f s inv)
  step-Inv lost m s t h inv = phase-Inv lost s.phase m s.linked t h inv

  new_system-Inv : (fs : List ℕ) → Inv [] (new_system fs)
  unfolding new_system
  new_system-Inv fs =
      let p = spots-create_all 0 fs new_scheduler (omega arith) in
      record {
        sum = λ c. ground (arith, (spots-create_all c fs new_scheduler (omega arith)).0);
        fresh = p.1;
        heap = subst IsHeap (sym p.2) (λ i q e positive hp he. ground arith);
        quiet = λ _. p.3;
      }

  -- In every state that `run` reaches, whatever the coroutines call, the other threads post and
  -- `epoll_wait` reports: each coroutine that has been created is in exactly one of the places
  -- ready queue, waiting map, timer heap, running, sender or receiver of the channel, deleted, or
  -- else has been displaced exactly once, by a second waiter for its descriptor or its end of the
  -- channel; and no other number is anywhere. So no coroutine is queued twice, resumed after it was
  -- deleted, or deleted twice; and none is forgotten in any other way. The timers form a heap, and
  -- outside a coroutine none is marked as running.
  pub Reach-Inv : (lost : List ℕ) (s : System) → Reach ops lost s → Inv lost s
  Reach-Inv _ _ (start fs) = new_system-Inv fs
  Reach-Inv _ _ (later {lost} {s} {t} m r h) = step-Inv lost m s t h (Reach-Inv lost s r)

  -- A coroutine that has once been displaced is in no place of any later state: it is never
  -- resumed, and never deleted.
  pub displaced_never_returns :
      (lost : List ℕ) (s : System) (c : ℕ)
      → Reach ops lost s
      → occurrences c lost ≢ 0
      → places c s.linked ≡ 0
  displaced_never_returns lost s c r gone = ground (arith, (Reach-Inv lost s r).sum c)

  -- The destructor of a scheduler outside its coroutines, together with the deletions before,
  -- deletes each coroutine that was ever created exactly once, except those that wait in a
  -- channel or have been displaced: those it never deletes.
  pub destroy-deletes :
      (lost : List ℕ) (s : System) (c : ℕ)
      → Reach ops lost s
      → is_inside s.phase ≡ false
      → occurrences c (destroy s.linked.sched).deleted
          + at c s.linked.chan.send_waiter
          + at c s.linked.chan.recv_waiter
          + occurrences c lost
        ≡ born s.linked.sched.next_id c
  unfolding destroy
  destroy-deletes lost s c r out =
      let v = Reach-Inv lost s r in
      let sched = s.linked.sched in
      let cos = map (λ (e : TimerEntry). e.co) sched.timer_heap in
      let waiting = map (λ (p : ℕ × ℕ). p.1) sched.waiting_map in
      omega (
        arith,
        v.sum c,
        ap (at c) (v.quiet out),
        occurrences-cos c sched.timer_heap,
        count_if-append (λ x. x == c) cos (waiting ++ (sched.ready_queue ++ sched.deleted)),
        count_if-append (λ x. x == c) waiting (sched.ready_queue ++ sched.deleted),
        count_if-append (λ x. x == c) sched.ready_queue sched.deleted,
      )
