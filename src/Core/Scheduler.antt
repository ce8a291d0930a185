-- ===== src/Core/Scheduler.antt =====
-- core/coroutine.h and core/coroutine.cpp: the scheduler of one thread. A coroutine is named by its
-- `coro_id`, which is never used twice, in place of its address; what its function does is not part
-- of the state: `swapcontext` into it is a step after which the environment chooses its next call,
-- and a call that switches back ends with `running_coro` empty. A `std::function` is a number.
pub mod Timers
pub mod TimerQueue
pub mod Timeout
pub mod Waiting
use coroutine_http.Prelude.{
  ℕ, zero, suc, ◌+◌, ◌-◌, Bool, true, false, Option, none, some, List, [], ◌∷◌, ◌++◌, ltb, leb,
  ◌==◌, if◌then◌else◌, length, map, nat_eq, ℤ, pos, negsuc, to_int32, is_empty,
}
use coroutine_http.Prelude.Dict.{Dict, lookup, insert, erase}
use coroutine_http.Core.Timer.{TimerEntry, HeapOps}

pub data State : Type 0 where
  ready running waiting finished : State

-- One entry of the interest set of an epoll instance: the events, and whether a further event is
-- reported; EPOLLONESHOT clears the mark when one is.
pub record Interest : Type 0 where
  pub events : ℕ
  pub armed : Bool

pub record Scheduler : Type 0 where
  pub running_coro : Option ℕ
  pub next_id : ℕ
  pub ready_queue : List ℕ
  pub waiting_map : Dict ℕ ℕ
  pub timer_heap : List TimerEntry
  pub post_queue : List ℕ
  pub pipe : ℕ
  pub interest : Dict ℕ Interest
  pub funcs : Dict ℕ ℕ
  pub states : Dict ℕ State
  pub deleted : List ℕ

-- `Scheduler(int id)`; the read end of the pipe is registered without EPOLLONESHOT, apart from
-- `interest`, which holds the descriptors of `wait_event`.
abbrev pub new_scheduler : Scheduler
new_scheduler = record {
  running_coro = none;
  next_id = 1;
  ready_queue = [];
  waiting_map = [];
  timer_heap = [];
  post_queue = [];
  pipe = 0;
  interest = [];
  funcs = [];
  states = [];
  deleted = [];
}

-- `co->state = s`
unfoldable pub set_state : ℕ → State → Scheduler → Scheduler
set_state co state s = record s { states = insert co state s.states }

-- `co->state = State::READY; ready_queue.push_back(co);`
unfoldable pub make_ready : ℕ → Scheduler → Scheduler
unfolding set_state
make_ready co s = record (set_state co ready s) { ready_queue = s.ready_queue ++ co ∷ [] }

unfoldable pub create : ℕ → Scheduler → ℕ × Scheduler
unfolding make_ready
create f s =
    let co = s.next_id in
    (co, make_ready co (record s { next_id = suc co; funcs = insert co f s.funcs }))

-- How many bytes a Linux pipe holds: 16 pages.
abbrev pub pipe_capacity : ℕ
pipe_capacity = 65536

-- The byte that wakes `epoll_wait`: where the pipe is full, `write` fails and nothing is added.
unfoldable pub wake_byte : ℕ → ℕ
wake_byte pipe = if ltb pipe pipe_capacity then suc pipe else pipe

unfoldable pub post : ℕ → Scheduler → Scheduler
unfolding wake_byte
post f s = record s { post_queue = s.post_queue ++ f ∷ []; pipe = wake_byte s.pipe }

unfoldable pub create_all : List ℕ → Scheduler → Scheduler
unfolding create
create_all [] s = s
create_all (f ∷ fs) s = create_all fs (create f s).1

unfoldable pub drain_post_queue : Scheduler → Scheduler
unfolding create_all
drain_post_queue s = create_all s.post_queue (record s { post_queue = [] })

-- A call that does nothing outside a coroutine.
abbrev pub when_running : (ℕ → Scheduler → Scheduler) → Scheduler → Scheduler
when_running body s = elim s.running_coro [ none ↦ s | some cur ↦ body cur s ]

-- `yield` of the running coroutine `cur`, up to the switch.
unfoldable pub yield_from : ℕ → Scheduler → Scheduler
unfolding make_ready
yield_from cur s = record (make_ready cur s) { running_coro = none }

unfoldable pub yield_now : Scheduler → Scheduler
unfolding yield_from
yield_now s = when_running yield_from s

-- EPOLL_CTL_ADD; `none` is the error EEXIST.
unfoldable pub epoll_add : ℕ → ℕ → Dict ℕ Interest → Option (Dict ℕ Interest)
epoll_add fd events set = elim (lookup fd set) [
  | some old ↦ none
  | none ↦ some (insert fd (record { events = events; armed = true }) set)
]

-- EPOLL_CTL_MOD, which fails and changes nothing where the descriptor is not in the set.
unfoldable pub epoll_mod : ℕ → ℕ → Dict ℕ Interest → Dict ℕ Interest
epoll_mod fd events set = elim (lookup fd set) [
  | some old ↦ insert fd (record { events = events; armed = true }) set
  | none ↦ set
]

-- EPOLL_CTL_DEL
abbrev pub epoll_del : ℕ → Dict ℕ Interest → Dict ℕ Interest
epoll_del fd set = erase fd set

-- The registration in `wait_event`.
unfoldable pub watch : ℕ → ℕ → Scheduler → Dict ℕ Interest
unfolding epoll_add epoll_mod
watch fd events s = elim (lookup fd s.waiting_map) [
  | some other ↦ epoll_mod fd events s.interest
  | none ↦ elim (epoll_add fd events s.interest) [
    | some set ↦ set
    | none ↦ epoll_mod fd events s.interest
  ]
]

-- `wait_event` up to the switch.
unfoldable pub wait_from : ℕ → ℕ → ℕ → Scheduler → Scheduler
unfolding set_state watch
wait_from fd events cur s = record (set_state cur waiting s) {
  interest = watch fd events s;
  waiting_map = insert fd cur s.waiting_map;
  running_coro = none;
}

unfoldable pub wait_event : ℕ → ℕ → Scheduler → Scheduler
unfolding wait_from
wait_event fd events s = when_running (wait_from fd events) s

-- What `wait_event` does when its coroutine runs again; its result is 0.
unfoldable pub wait_resumed : ℕ → Scheduler → Scheduler
wait_resumed fd s = record s { interest = epoll_del fd s.interest }

-- `back` and `pop_back` of a vector: the last entry, and the others.
unfoldable pub split_back : List TimerEntry → Option (TimerEntry × List TimerEntry)
split_back [] = none
split_back (e ∷ l) = elim (split_back l) [ none ↦ some (e, []) | some r ↦ some (r.0, e ∷ r.1) ]

-- The test of the loop in `fire_timers`.
abbrev pub is_due : ℕ → List TimerEntry → Bool
is_due now [] = false
is_due now (e ∷ l) = leb e.expire_ms now

module _ (ops : HeapOps) where
  unfoldable pub push_timer : TimerEntry → Scheduler → Scheduler
  push_timer entry s = record s { timer_heap = ops.push_heap (s.timer_heap ++ entry ∷ []) }

  -- The most urgent entry; `none` where the heap is empty, which no caller lets happen.
  unfoldable pub pop_timer : Scheduler → Option (TimerEntry × Scheduler)
  unfolding split_back
  pop_timer s = elim (split_back (ops.pop_heap s.timer_heap)) [
    | none ↦ none
    | some r ↦ some (r.0, record s { timer_heap = r.1 })
  ]

  -- `sleep` up to the switch; `now` is what `now_ms()` returns. The sum, an `int64_t` in the
  -- source, is taken to stay below 2^63.
  unfoldable pub sleep_from : ℕ → ℕ → ℕ → Scheduler → Scheduler
  unfolding set_state push_timer
  sleep_from now ms cur s =
      record (push_timer (record { expire_ms = now + ms; co = cur }) (set_state cur waiting s)) {
        running_coro = none;
      }

  unfoldable pub sleep : ℕ → ℤ → Scheduler → Scheduler
  unfolding sleep_from yield_now
  sleep now (negsuc n) s = yield_now s
  sleep now (pos ms) s = if ms == 0 then yield_now s else when_running (sleep_from now ms) s

  -- The loop of `fire_timers`, with the number of entries that it has fired.
  unfoldable pub fire_loop : ℕ → ℕ → ℕ → Scheduler → ℕ × Scheduler
  unfolding pop_timer make_ready
  fire_loop zero now count s = (count, s)
  fire_loop (suc fuel) now count s = elim (is_due now s.timer_heap) [
    | false ↦ (count, s)
    | true ↦ elim (pop_timer s) [
      | none ↦ (count, s)
      | some r ↦ fire_loop fuel now (suc count) (make_ready r.0.co r.1)
    ]
  ]

  -- Each round takes one entry, so their number is fuel enough.
  unfoldable pub fire_timers : ℕ → Scheduler → ℕ × Scheduler
  unfolding fire_loop
  fire_timers now s = fire_loop (length s.timer_heap) now 0 s

-- -1 where no timer is set. The difference is at least 0, and is narrowed to an `int`.
unfoldable pub next_timeout_ms : ℕ → Scheduler → ℤ
next_timeout_ms now s = elim s.timer_heap [ [] ↦ negsuc 0 | e ∷ l ↦ to_int32 (e.expire_ms - now) ]

-- The timeout that `run` passes to `epoll_wait`.
unfoldable pub poll_timeout : ℕ → Scheduler → ℕ
unfolding next_timeout_ms
poll_timeout now s = elim (next_timeout_ms now s) [ pos n ↦ n | negsuc n ↦ 50 ]

-- The first step of the inner loop of `run`: the front coroutine is switched to.
unfoldable pub resume : Scheduler → Option Scheduler
unfolding set_state
resume s = elim s.ready_queue [
  | [] ↦ none
  | co ∷ rest ↦
      some (record (set_state co running s) { ready_queue = rest; running_coro = some co })
]

-- The end of `co_entry`: the function has returned or thrown.
unfoldable pub finish : Scheduler → Scheduler
unfolding set_state
finish s = when_running (λ cur t. set_state cur finished t) s

abbrev pub is_finished : Option State → Bool
is_finished none = false
is_finished (some ready) = false
is_finished (some running) = false
is_finished (some waiting) = false
is_finished (some finished) = true

-- The last steps of the inner loop, behind the switch back.
unfoldable pub switched_back : Scheduler → Scheduler
switched_back s = elim s.running_coro [
  | none ↦ s
  | some co ↦
      if is_finished (lookup co s.states)
      then record s { running_coro = none; deleted = co ∷ s.deleted }
      else record s { running_coro = none }
]

-- What `epoll_wait` reports: the wake-up pipe, or a descriptor.
pub data Event : Type 0 where
  pipe_in : Event
  fd_ready : ℕ → Event

-- EPOLLONESHOT: the descriptor that is reported stays in the set, and is reported no more.
unfoldable pub disarm : ℕ → Dict ℕ Interest → Dict ℕ Interest
disarm fd set = elim (lookup fd set) [
  | none ↦ set
  | some i ↦ insert fd (record i { armed = false }) set
]

-- One round of the loop over the events. The reads empty the pipe.
unfoldable pub handle_event : Event → Scheduler → Scheduler
unfolding drain_post_queue make_ready disarm
handle_event pipe_in s = drain_post_queue (record s { pipe = 0 })
handle_event (fd_ready fd) s =
    let t = record s { interest = disarm fd s.interest } in
    elim (lookup fd s.waiting_map) [
      | none ↦ t
      | some co ↦ make_ready co (record t { waiting_map = erase fd s.waiting_map })
    ]

unfoldable pub handle_events : List Event → Scheduler → Scheduler
unfolding handle_event
handle_events [] s = s
handle_events (ev ∷ evs) s = handle_events evs (handle_event ev s)

unfoldable pub unwatch_all : Dict ℕ ℕ → Dict ℕ Interest → Dict ℕ Interest
unwatch_all [] set = set
unwatch_all ((fd, co) ∷ m) set = unwatch_all m (epoll_del fd set)

-- `~Scheduler()`. What is deleted is listed with the last first; the descriptors of the scheduler
-- itself are closed in Core.Lifetime.
unfoldable pub destroy : Scheduler → Scheduler
unfolding unwatch_all
destroy s = record s {
  ready_queue = [];
  waiting_map = [];
  timer_heap = [];
  interest = unwatch_all s.waiting_map s.interest;
  deleted =
      map (λ (e : TimerEntry). e.co) s.timer_heap
      ++ (map (λ p. p.1) s.waiting_map ++ (s.ready_queue ++ s.deleted));
}
