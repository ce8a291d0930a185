-- ===== src/Core/System.antt =====
-- `Scheduler::run` of core/coroutine.cpp as a machine: a move is what the environment chooses, that
-- is the next call of the coroutine that runs, a task posted by another thread, or what the clock
-- and `epoll_wait` return; `step` is what the scheduler makes of it. One channel stands for all.
pub mod Places
pub mod Calls
pub mod Conserved
pub mod Fifo
pub mod Turn
pub mod Tasks
pub mod Ledger
use coroutine_http.Prelude.{
  ℕ, Bool, true, false, Option, none, some, List, [], ◌∷◌, ◌&&◌, leb, length, is_empty,
  if◌then◌else◌, ℤ,
}
use coroutine_http.Core.Timer.{HeapOps}
use coroutine_http.Core.Scheduler.{
  Scheduler, Event, new_scheduler, create, create_all, post, yield_now, wait_event, wait_resumed,
  sleep, fire_timers, resume, finish, switched_back, handle_events,
}
use coroutine_http.Core.Channel.{Linked, new_channel, send, recv}

-- Where `run` stands: in its inner loop, inside the coroutine to which it has switched, before
-- `epoll_wait`, or behind its outer loop.
pub data Phase : Type 0 where
  dispatching inside polling stopped : Phase

pub record System : Type 0 where
  pub linked : Linked
  pub phase : Phase

-- An unused channel over a scheduler before `run`, on which coroutines for `fs` have been created.
unfoldable pub new_system : List ℕ → System
new_system fs = record {
  linked = record { sched = create_all fs new_scheduler; chan = new_channel; results = [] };
  phase = dispatching;
}

-- A call that the running coroutine makes. The clock's time is an argument; `after_wait` is the end
-- of `wait_event`, and `returns` that of the coroutine's function.
pub data Call : Type 0 where
  creates posts : ℕ → Call
  yields : Call
  sleeps : ℕ → ℤ → Call
  waits : ℕ → ℕ → Call
  after_wait : ℕ → Call
  sends : ℕ → Call
  receives : Call
  returns : Call

abbrev pub on_sched : Linked → Scheduler → Linked
on_sched l s = record l { sched = s }

abbrev pub is_none {ℓ} : {A : Type ℓ} → Option A → Bool
is_none none = true
is_none (some a) = false

pub data Move : Type 0 where
  resumes : Move
  calls : Call → Move
  posted : ℕ → Move
  goes_idle : ℕ → Move
  polled : List Event → ℕ → Move
  interrupted failed : Move

-- Behind the switch back the inner loop goes on.
unfoldable pub after_call : Linked × Bool → System
after_call (l, true) = record { linked = on_sched l (switched_back l.sched); phase = dispatching }
after_call (l, false) = record { linked = l; phase = inside }

module _ (ops : HeapOps) where
  -- The state after a call of coroutine `cur`, and whether it has switched away.
  unfoldable pub call : Call → ℕ → Linked → Linked × Bool
  call (creates f) cur l = (on_sched l (create f l.sched).1, false)
  call (posts f) cur l = (on_sched l (post f l.sched), false)
  call yields cur l = (on_sched l (yield_now l.sched), true)
  call (sleeps now ms) cur l = (on_sched l (sleep ops now ms l.sched), true)
  call (waits fd events) cur l = (on_sched l (wait_event fd events l.sched), true)
  call (after_wait fd) cur l = (on_sched l (wait_resumed fd l.sched), false)
  call (sends val) cur l = (send cur val l, true)
  call receives cur l = let r = recv cur l in (r.1, is_none r.0)
  call returns cur l = (on_sched l (finish l.sched), true)

  -- The inner loop is over: the timers, and then the inner loop again or `epoll_wait`.
  unfoldable pub idle_round : ℕ → Linked → System
  idle_round now l =
      let t = (fire_timers ops now l.sched).1 in
      record {
        linked = on_sched l t;
        phase = if is_empty t.ready_queue then polling else dispatching;
      }

  -- What `epoll_wait` has reported, and the timers once more.
  unfoldable pub poll_round : List Event → ℕ → Linked → System
  poll_round evs now l = record {
    linked = on_sched l (fire_timers ops now (handle_events evs l.sched)).1;
    phase = dispatching;
  }

  unfoldable pub dispatch_step : Move → Linked → Option System
  unfolding idle_round
  dispatch_step resumes l = elim (resume l.sched) [
    | none ↦ none
    | some t ↦ some (record { linked = on_sched l t; phase = inside })
  ]
  dispatch_step (goes_idle now) l =
      if is_empty l.sched.ready_queue then some (idle_round now l) else none
  dispatch_step _ l = none

  unfoldable pub inside_step : Move → Linked → Option System
  unfolding call after_call
  inside_step (calls c) l = elim l.sched.running_coro [
    | none ↦ none
    | some cur ↦ some (after_call (call c cur l))
  ]
  inside_step _ l = none

  -- `evs` has room for 64 events. EINTR starts the outer loop again; another error ends it.
  unfoldable pub polling_step : Move → Linked → Option System
  unfolding poll_round
  polling_step (polled evs now) l =
      if leb (length evs) 64 then some (poll_round evs now l) else none
  polling_step interrupted l = some (record { linked = l; phase = dispatching })
  polling_step failed l = some (record { linked = l; phase = stopped })
  polling_step _ l = none

  unfoldable pub phase_step : Phase → Move → Linked → Option System
  unfolding dispatch_step inside_step polling_step
  phase_step dispatching m l = dispatch_step m l
  phase_step inside m l = inside_step m l
  phase_step polling m l = polling_step m l
  phase_step stopped m l = none

  -- `none`: the move is not possible here. Another thread may post at any time.
  unfoldable pub step : Move → System → Option System
  unfolding phase_step
  step (posted f) s = some (record s { linked = on_sched s.linked (post f s.linked.sched) })
  step m s = phase_step s.phase m s.linked
