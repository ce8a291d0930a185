-- ===== src/Core/Scheduler/Timeout.antt =====
-- `next_timeout_ms` of core/coroutine.cpp, and the timeout of `epoll_wait`.
use coroutine_http.Prelude.{
  ℕ, ◌-◌, ◌^◌, ◌≤◌, ◌<◌, ◌≡◌, refl, ap, ◌∙◌, some, List, [], ◌∷◌, get_elem?, arith, to_int32,
}
use coroutine_http.Core.Timer.{TimerEntry, IsHeap}
use coroutine_http.Core.Timer.Front.{front_le}
use coroutine_http.Core.Scheduler.{Scheduler, poll_timeout}

timeout_at_front :
    (now : ℕ) (s : Scheduler) (e : TimerEntry) (l : List TimerEntry)
    → s.timer_heap ≡ e ∷ l
    → (poll_timeout now s ≤ e.expire_ms - now)
      × (e.expire_ms - now < 2 ^ 31 → poll_timeout now s ≡ e.expire_ms - now)
unfolding poll_timeout to_int32
timeout_at_front now s e l h = (ground arith, λ small. ground arith)

timeout_idle : (now : ℕ) (s : Scheduler) → s.timer_heap ≡ [] → poll_timeout now s ≡ 50
unfolding poll_timeout
timeout_idle now s h = ground arith

-- However far off the timers are, `epoll_wait` is not asked to sleep past the first of them, even
-- where the difference does not fit an `int`; where it fits, the timeout is exact for the front
-- entry; and without a timer it is 50 ms.
pub poll_timeout_bounds :
    (now : ℕ) (s : Scheduler)
    → IsHeap s.timer_heap
    → ((i : ℕ) (e : TimerEntry)
        → get_elem? s.timer_heap i ≡ some e
        → poll_timeout now s ≤ e.expire_ms - now)
      × ((e : TimerEntry)
          → get_elem? s.timer_heap 0 ≡ some e
          → e.expire_ms - now < 2 ^ 31
          → poll_timeout now s ≡ e.expire_ms - now)
      × (s.timer_heap ≡ [] → poll_timeout now s ≡ 50)
poll_timeout_bounds now s heap =
    (each s.timer_heap refl, front s.timer_heap refl, timeout_idle now s)
  where
    each :
        (l : List TimerEntry)
        → s.timer_heap ≡ l
        → (i : ℕ) (e : TimerEntry) → get_elem? l i ≡ some e
        → poll_timeout now s ≤ e.expire_ms - now
    each [] h i e k = ground arith
    each (f ∷ l) h i e k =
        let heap' : IsHeap (f ∷ l) = rw h at heap in
        omega (arith, (timeout_at_front now s f l h).0, front_le i f e l heap' k)

    front :
        (l : List TimerEntry)
        → s.timer_heap ≡ l
        → (e : TimerEntry) → get_elem? l 0 ≡ some e
        → e.expire_ms - now < 2 ^ 31
        → poll_timeout now s ≡ e.expire_ms - now
    front [] h e k small = ground arith
    front (f ∷ l) h e k small =
        let same : f ≡ e = ground arith in
        let n : f.expire_ms ≡ e.expire_ms = ap (λ (d : TimerEntry). d.expire_ms) same in
        (timeout_at_front now s f l h).1 (omega arith) ∙ omega arith
