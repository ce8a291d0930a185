-- ===== src/Tests/Multi.antt =====
-- core/: two schedulers on two threads, between which tasks are dealt.
use coroutine_http.Prelude.{
  to_int32, ◌+◌, ◌≡◌, ℕ, ◌≤◌, ◌⊎◌, length, true, false, arith, refl, none, some, List, [], ◌∷◌,
  get_elem?, occurrences,
}
use coroutine_http.Core.Lifetime.{SysCalls, new_schedulers}
use coroutine_http.Core.Lifetime.Closing.{destroyed, is_built, destroyed-new_schedulers}
use coroutine_http.Core.Timer.Sorted.{sorted_heap}
use coroutine_http.Core.Scheduler.{pipe_in, create_all, post, fire_timers}
use coroutine_http.Core.System.{System, new_system, Move, posted, goes_idle, polled, failed, step}
use coroutine_http.Core.System.Tasks.{book, entry, step_refines}
use coroutine_http.Core.Multi.{rem}
use coroutine_http.Core.Threads.{
  Threads, new_threads, ThreadMove, moves, draws, delivers, draw, deliver, thread_step, Interleaves,
  start, later, Onward, next, here,
}
use coroutine_http.Net.TcpServer.{SocketCalls}
use coroutine_http.Main.Start.{num_threads, listening, main-listening, main_deals_safely}
use coroutine_http.Core.Threads.Ledger.{held_by, tasks, threads_conserve}
use coroutine_http.Core.Threads.Stopped.{Stalled, stopped_strands}

abbrev after : List Move → System → System
unfolding step
after [] s = s
after (m ∷ ms) s = elim (step sorted_heap m s) [ none ↦ s | some t ↦ after ms t ]

abbrev s0 : System
s0 = after (posted 5 ∷ goes_idle 0 ∷ []) (new_system [])

abbrev s1 : System
s1 = after (polled (pipe_in ∷ []) 0 ∷ []) s0

step_refines_example : book s1.linked.sched ≡ entry (polled (pipe_in ∷ []) 0) (book s0.linked.sched)
unfolding step new_system create_all post fire_timers after
step_refines_example = step_refines sorted_heap (polled (pipe_in ∷ []) 0) s0 s1 refl

abbrev after_all : List ThreadMove → Threads → Threads
unfolding thread_step
after_all [] t = t
after_all (m ∷ ms) t = elim (thread_step sorted_heap m t) [ none ↦ t | some u ↦ after_all ms u ]

abbrev t0 : Threads
t0 = new_threads ((1 ∷ []) ∷ [] ∷ [])

-- Two tasks are dealt, and the second arrives first.
abbrev two_dealt : Threads
two_dealt = after_all (draws 7 ∷ draws 8 ∷ delivers 1 ∷ []) t0

two_dealt_reached : Interleaves sorted_heap (8 ∷ 7 ∷ 1 ∷ []) two_dealt
unfolding thread_step new_threads new_system create_all post rem after_all to_int32 step
two_dealt_reached =
    later (delivers 1) (later (draws 8) (later (draws 7) (start ((1 ∷ []) ∷ [] ∷ [])) refl) refl)
      refl

threads_conserve_example :
    held_by 8 two_dealt.systems + occurrences 8 (tasks two_dealt.in_flight)
    ≡ occurrences 8 (8 ∷ 7 ∷ 1 ∷ [])
threads_conserve_example = threads_conserve sorted_heap 8 two_dealt_reached

-- The wait of the second scheduler fails, and a task is dealt to it.
abbrev one_stopped : Threads
one_stopped = after_all (moves 1 (goes_idle 0) ∷ moves 1 failed ∷ draws 7 ∷ draws 8 ∷ []) t0

abbrev one_stranded : Threads
one_stranded = after_all (delivers 1 ∷ []) one_stopped

-- The scheduler that has stopped.
abbrev idle : System
idle = after (goes_idle 0 ∷ failed ∷ []) (new_system [])

stopped_strands_example :
    (v : System) × (get_elem? one_stranded.systems 1 ≡ some v) × Stalled (8 ∷ []) idle v
unfolding thread_step new_threads new_system create_all post rem after_all to_int32 step fire_timers
stopped_strands_example =
    stopped_strands sorted_heap 1 idle one_stopped one_stranded (next (delivers 1) here refl) refl
      refl

-- `main` on a machine of four threads, whose sockets are free.
abbrev free_port : SocketCalls
free_port = record { socket = some 4; bind = true; listen = true }

abbrev from_main : (t : Threads) × Onward sorted_heap (listening 99 3) t
unfolding thread_step new_threads rem to_int32
from_main = (_, next (draws 7) here refl)

main_deals_safely_example :
    ((task : ℕ) → (u : Threads) × (draw task from_main.0 ≡ some u))
    × ((k : ℕ)
        → (length from_main.0.in_flight ≤ k)
          ⊎ ((u : Threads) × (deliver sorted_heap k from_main.0 ≡ some u)))
unfolding num_threads to_int32 from_main
main_deals_safely_example =
    main_deals_safely sorted_heap 4 99 1 free_port (listening 99 3) from_main.0 from_main.1
      (main-listening 4 99 1 free_port) (omega arith)

-- The second constructor gets no pipe.
abbrev failing : List SysCalls
failing = (some 3, some (4, 5)) ∷ (some 6, none) ∷ (some 7, some (8, 9)) ∷ []

destroyed-new_schedulers_example :
    (occurrences 6 (destroyed (new_schedulers failing)).opened
      ≡ occurrences 6 (destroyed (new_schedulers failing)).closed + occurrences 6 (6 ∷ []))
    × (is_built (new_schedulers failing).0 ≡ false)
destroyed-new_schedulers_example = destroyed-new_schedulers 6 failing
