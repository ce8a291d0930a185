-- ===== src/Tests/Core.antt =====
-- core/: two coroutines that wait for one descriptor, a timer, a channel, and a posted task.
use coroutine_http.Prelude.{
  ℕ, ◌+◌, ◌-◌, ◌^◌, ◌≤◌, ◌<◌, ◌≡◌, refl, inl, ◌⊎◌, true, none, some, List, [], ◌∷◌, ◌++◌, length,
  ◌==◌, nat_eq, if◌then◌else◌, get_elem?, occurrences, arith,
}
use coroutine_http.Core.Timer.{TimerEntry, IsHeap}
use coroutine_http.Core.Timer.Sorted.{sorted_heap}
use coroutine_http.Core.Scheduler.{
  push_timer, Scheduler, new_scheduler, poll_timeout, fd_ready, create_all, yield_now, wait_event,
  resume, switched_back, fire_timers, handle_event, destroy,
}
use coroutine_http.Prelude.Dict.{lookup, insert, erase}
use coroutine_http.Core.System.{System, new_system, Move, resumes, calls, yields, waits, step, call}
use coroutine_http.Core.System.Conserved.{Reach, start, later, Inv, Reach-Inv, destroy-deletes}
use coroutine_http.Core.System.Places.{born, at}
use coroutine_http.Core.System.Fifo.{run}
use coroutine_http.Core.System.Turn.{run_reaches_turn}
use coroutine_http.Core.Scheduler.TimerQueue.{
  timers_of, of_entries, add, not_due, Popped, timers_refine_bag,
}
use coroutine_http.Core.Scheduler.Timers.{Fires, fire_timers-Fires}
use coroutine_http.Core.Scheduler.Timeout.{poll_timeout_bounds}
use coroutine_http.Core.Scheduler.Waiting.{IsRegistered, wait_event_wakes}

-- Both coroutines wait for descriptor 7.
abbrev both_wait : List Move
both_wait = resumes ∷ calls (waits 7 1) ∷ resumes ∷ calls (waits 7 4) ∷ []

abbrev after : List Move → System → System
unfolding step call wait_event switched_back
after [] s = s
after (m ∷ ms) s = elim (step sorted_heap m s) [ none ↦ s | some t ↦ after ms t ]

abbrev s0 : System
s0 = new_system (1 ∷ 2 ∷ [])

both_wait_reached : Reach sorted_heap (1 ∷ []) (after both_wait s0)
unfolding step call wait_event switched_back new_system create_all lookup insert erase resume
both_wait_reached =
    later (calls (waits 7 4))
      (later resumes (later (calls (waits 7 1)) (later resumes (start (1 ∷ 2 ∷ [])) refl) refl)
        refl)
      refl

Reach-Inv_example : Inv (1 ∷ []) (after both_wait s0)
Reach-Inv_example = Reach-Inv sorted_heap (1 ∷ []) (after both_wait s0) both_wait_reached

destroy-deletes_example :
    occurrences 2 (destroy (after both_wait s0).linked.sched).deleted
      + at 2 (after both_wait s0).linked.chan.send_waiter
      + at 2 (after both_wait s0).linked.chan.recv_waiter
      + occurrences 2 (1 ∷ [])
    ≡ born (after both_wait s0).linked.sched.next_id 2
unfolding after new_system resume create_all
destroy-deletes_example =
    destroy-deletes sorted_heap (1 ∷ []) (after both_wait s0) 2 both_wait_reached refl

-- The first coroutine yields, and the second has its turn.
abbrev first_yields : List Move
first_yields = resumes ∷ calls yields ∷ []

abbrev second_runs : List Move
second_runs = resumes ∷ calls yields ∷ resumes ∷ []

run_reaches_turn_example : (after second_runs s0).linked.sched.running_coro ≡ some 2
unfolding run step call yield_now switched_back resume create_all new_system after
run_reaches_turn_example =
    run_reaches_turn sorted_heap first_yields s0 (after first_yields s0) (after second_runs s0)
      (1 ∷ []) [] 2 refl refl refl refl

abbrev late : TimerEntry
late = record { expire_ms = 9; co = 2 }

abbrev due : TimerEntry
due = record { expire_ms = 5; co = 1 }

abbrev with_timers : Scheduler
with_timers = record new_scheduler { timer_heap = sorted_heap.push_heap (late ∷ due ∷ []) }

with_timers-IsHeap : IsHeap with_timers.timer_heap
with_timers-IsHeap =
    sorted_heap.push_heap-IsHeap (late ∷ []) due (λ i p e positive hp he. ground arith)

fire_timers-Fires_example :
    (fired : List TimerEntry) × ((fire_timers sorted_heap 6 with_timers).0 ≡ length fired)
    × Fires 6 fired with_timers (fire_timers sorted_heap 6 with_timers).1
fire_timers-Fires_example = fire_timers-Fires sorted_heap 6 with_timers with_timers-IsHeap

timers_refine_bag_example :
    ((e : TimerEntry)
      → (timers_of (push_timer sorted_heap e with_timers) ≡ add e (timers_of with_timers))
        × IsHeap (push_timer sorted_heap e with_timers).timer_heap)
    × ((timers_of with_timers ≡ of_entries []) ⊎ Popped sorted_heap with_timers with_timers-IsHeap)
    × ((now : ℕ)
        → timers_of (fire_timers sorted_heap now with_timers).1
          ≡ not_due now (timers_of with_timers))
timers_refine_bag_example = timers_refine_bag sorted_heap with_timers with_timers-IsHeap

poll_timeout_bounds_example :
    ((i : ℕ) (e : TimerEntry)
      → get_elem? with_timers.timer_heap i ≡ some e
      → poll_timeout 2 with_timers ≤ e.expire_ms - 2)
    × ((e : TimerEntry)
        → get_elem? with_timers.timer_heap 0 ≡ some e
        → e.expire_ms - 2 < 2 ^ 31
        → poll_timeout 2 with_timers ≡ e.expire_ms - 2)
    × (with_timers.timer_heap ≡ [] → poll_timeout 2 with_timers ≡ 50)
poll_timeout_bounds_example = poll_timeout_bounds 2 with_timers with_timers-IsHeap

-- Coroutine 3 runs, and nothing is registered.
abbrev running_3 : Scheduler
running_3 = record new_scheduler { running_coro = some 3 }

running_3-IsRegistered : IsRegistered 7 running_3
unfolding lookup
running_3-IsRegistered = inl refl

wait_event_wakes_example :
    ((wait_event 7 1 running_3).running_coro ≡ none)
    × (lookup 7 (wait_event 7 1 running_3).interest ≡ some (record { events = 1; armed = true }))
    × ((fd' : ℕ)
        → lookup fd' (wait_event 7 1 running_3).waiting_map
          ≡ (if 7 == fd' then some 3 else lookup fd' running_3.waiting_map))
    × ((t : Scheduler)
        → lookup 7 t.waiting_map ≡ lookup 7 (wait_event 7 1 running_3).waiting_map
        → (handle_event (fd_ready 7) t).ready_queue ≡ t.ready_queue ++ 3 ∷ [])
wait_event_wakes_example = wait_event_wakes 7 1 3 running_3 refl running_3-IsRegistered
