-- ===== src/Core/Scheduler/Waiting.antt =====
-- `wait_event` of core/coroutine.cpp, and the event that ends the wait.
use coroutine_http.Prelude.{
  ℕ, ◌≡◌, ◌⊎◌, inl, inr, true, none, some, [], ◌∷◌, ◌++◌, nat_eq, ◌==◌, if◌then◌else◌, Option-cases,
  arith,
}
use coroutine_http.Prelude.Dict.{lookup, lookup-insert, lookup-insert_self}
use coroutine_http.Core.Scheduler.{
  Scheduler, Interest, fd_ready, watch, wait_from, wait_event, handle_event, make_ready,
}

-- The descriptor has no waiter, or it is in the interest set.
abbrev pub IsRegistered : ℕ → Scheduler → Type 0
IsRegistered fd s =
    (lookup fd s.waiting_map ≡ none) ⊎ ((i : Interest) × (lookup fd s.interest ≡ some i))

lookup-watch :
    (fd events : ℕ) (s : Scheduler)
    → IsRegistered fd s
    → lookup fd (watch fd events s) ≡ some (record { events = events; armed = true })
unfolding watch
lookup-watch fd events s h = elim (Option-cases (lookup fd s.interest)) [
  | inl absent ↦
      ground (arith, h, lookup-insert_self fd (record { events = events; armed = true }) s.interest)
  | inr (i, there) ↦
      ground (arith, lookup-insert_self fd (record { events = events; armed = true }) s.interest)
]

-- A coroutine that calls `wait_event` gives up the processor; its descriptor is then registered
-- for just these events, armed, whether it was in the interest set before or not, and every other
-- descriptor keeps its waiter. And in whatever state the waiter is still entered when epoll reports
-- the descriptor, the coroutine goes to the back of the ready queue.
pub wait_event_wakes :
    (fd events cur : ℕ) (s : Scheduler)
    → s.running_coro ≡ some cur
    → IsRegistered fd s
    → ((wait_event fd events s).running_coro ≡ none)
      × (lookup fd (wait_event fd events s).interest
          ≡ some (record { events = events; armed = true }))
      × ((fd' : ℕ)
          → lookup fd' (wait_event fd events s).waiting_map
            ≡ (if fd == fd' then some cur else lookup fd' s.waiting_map))
      × ((t : Scheduler)
          → lookup fd t.waiting_map ≡ lookup fd (wait_event fd events s).waiting_map
          → (handle_event (fd_ready fd) t).ready_queue ≡ t.ready_queue ++ cur ∷ [])
unfolding wait_event wait_from handle_event make_ready
wait_event_wakes fd events cur s runs reg = (
  ground arith,
  ground (arith, lookup-watch fd events s reg),
  λ fd'. ground (arith, lookup-insert fd fd' cur s.waiting_map),
  λ t same. ground (arith, lookup-insert_self fd cur s.waiting_map),
)
