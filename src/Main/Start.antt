-- ===== src/Main/Start.antt =====
-- The start of main.cpp, up to the threads of `MultiScheduler::run`.
use coroutine_http.Prelude.{
  ℕ, zero, suc, ◌-◌, ◌^◌, ◌≤◌, ◌<◌, ◌≡◌, ◌⊎◌, refl, ap, ◌∙◌, Option, none, some, List, [], ◌∷◌, map,
  length, ltb, if◌then◌else◌, arith, pos, negsuc, to_int32,
}
use mathlib.Core.Path.{subst}
use coroutine_http.Core.Timer.{HeapOps}
use coroutine_http.Core.Scheduler.{Scheduler, new_scheduler, create, create_all}
use coroutine_http.Core.Channel.{new_channel}
use coroutine_http.Core.System.{System, dispatching, new_system}
use coroutine_http.Core.Multi.{MultiScheduler, replicate_scheduler, new_multi}
use coroutine_http.Core.Threads.{Threads, draw, deliver, Onward, new_threads}
use coroutine_http.Core.Threads.Dealing.{InRange, drawn, dealing_defined}
use coroutine_http.Net.TcpServer.{
  start, init_socket, create_accept, on_connect, SocketCalls, started, no_handler, socket_failed,
  bind_failed, listen_failed,
}
use coroutine_http.Net.TcpServer.Start.{all_succeed}
use coroutine_http.Http.Server.{listen}

-- The number that `hardware_concurrency` returns, an `unsigned`, is converted to an `int`; below 1
-- it is taken as 2.
unfoldable pub num_threads : ℕ → ℕ
num_threads hardware = elim (to_int32 hardware) [ pos n ↦ if ltb n 1 then 2 else n | negsuc n ↦ 2 ]

-- A thread of `run` before its first step.
unfoldable pub run_thread : Scheduler → System
run_thread sched = record {
  linked = record { sched = sched; chan = new_channel; results = [] };
  phase = dispatching;
}

unfoldable pub run_all : MultiScheduler → Threads
unfolding run_thread
run_all ms = record {
  systems = map run_thread ms.schedulers;
  in_flight = [];
  rr_index = ms.rr_index;
}

-- `app.listen` on `ms.get(0)`, and `ms.run()`. An exception of `listen` ends the program: `none`.
unfoldable pub listen_and_run : ℕ → ℕ → SocketCalls → MultiScheduler → Option Threads
unfolding run_all
listen_and_run accept_task connect_handler calls ms = elim ms.schedulers [
  | [] ↦ none
  | first ∷ others ↦
      let r = listen accept_task connect_handler 8888 128 calls first in
      elim r.0 [
        | started ↦ some (run_all (record ms { schedulers = r.2 ∷ others }))
        | no_handler ↦ none
        | socket_failed ↦ none
        | bind_failed ↦ none
        | listen_failed ↦ none
      ]
]

unfoldable pub main : ℕ → ℕ → ℕ → SocketCalls → Option Threads
unfolding num_threads listen_and_run
main hardware accept_task connect_handler calls =
    listen_and_run accept_task connect_handler calls (new_multi (num_threads hardware))

-- Schedulers on which nothing has been created.
abbrev pub nothing_on : ℕ → List (List ℕ)
nothing_on zero = []
nothing_on (suc n) = [] ∷ nothing_on n

-- The threads where the server listens: the accept loop is created on the first scheduler, and
-- there are some others.
abbrev pub listening : ℕ → ℕ → Threads
listening accept_task others = new_threads ((accept_task ∷ []) ∷ nothing_on others)

idle_threads : (n : ℕ) → map run_thread (replicate_scheduler n) ≡ map new_system (nothing_on n)
unfolding run_thread replicate_scheduler new_system create_all
idle_threads zero = refl
idle_threads (suc n) = ap (◌∷◌ (run_thread new_scheduler)) (idle_threads n)

length-idle : (n : ℕ) → length (map new_system (nothing_on n)) ≡ n
length-idle zero = refl
length-idle (suc n) = ap suc (length-idle n)

run_all-listening :
    (accept_task m : ℕ)
    → run_all (record {
      schedulers = (create accept_task new_scheduler).1 ∷ replicate_scheduler m;
      rr_index = 0;
    })
      ≡ listening accept_task m
unfolding run_all run_thread new_threads new_system create_all
run_all-listening accept_task m =
    ap
      (λ rest. record {
        systems = new_system (accept_task ∷ []) ∷ rest;
        in_flight = [];
        rr_index = 0;
      })
      (idle_threads m)

listen_and_run_lem :
    (accept_task connect_handler m : ℕ) (calls : SocketCalls)
    → listen_and_run accept_task connect_handler calls (new_multi (suc m))
      ≡ (if all_succeed calls then some (listening accept_task m) else none)
unfolding listen_and_run new_multi replicate_scheduler listen start init_socket create_accept
    on_connect
listen_and_run_lem accept_task connect_handler m calls =
    ground (arith, run_all-listening accept_task m)

num_threads_pos : (hardware : ℕ) → num_threads hardware ≡ suc (num_threads hardware - 1)
unfolding num_threads to_int32
num_threads_pos hardware = ground arith

-- `main` gets to its threads exactly if `socket`, `bind` and `listen` succeed, and then there is at
-- least one thread, the accept loop is the only coroutine, on the first, and no task has been
-- dealt.
pub main-listening :
    (hardware accept_task connect_handler : ℕ) (calls : SocketCalls)
    → main hardware accept_task connect_handler calls ≡ (
        if all_succeed calls then some (listening accept_task (num_threads hardware - 1)) else none)
unfolding main
main-listening hardware accept_task connect_handler calls =
    ap (λ n. listen_and_run accept_task connect_handler calls (new_multi n))
      (num_threads_pos hardware)
    ∙ listen_and_run_lem accept_task connect_handler (num_threads hardware - 1) calls

listening-InRange : (accept_task others : ℕ) → InRange (suc others) 0 (listening accept_task others)
unfolding new_threads
listening-InRange accept_task others = record {
  size = ap suc (length-idle others);
  parcels = tt;
  index = refl;
}

module _ (ops : HeapOps) where
  -- Whatever number of threads the machine reports, whatever the threads do from the start of
  -- `main` on, and however they interleave: while fewer than 2^31 connections have been dealt, the
  -- next `MultiScheduler::post` takes no remainder by zero and no scheduler outside the vector, and
  -- each task in flight reaches its scheduler.
  pub main_deals_safely :
      (hardware accept_task connect_handler : ℕ) (calls : SocketCalls) (s t : Threads)
      (run : Onward ops s t)
      → main hardware accept_task connect_handler calls ≡ some s
      → drawn ops run < 2 ^ 31
      → ((task : ℕ) → (u : Threads) × (draw task t ≡ some u))
        × ((k : ℕ) → (length t.in_flight ≤ k) ⊎ ((u : Threads) × (deliver ops k t ≡ some u)))
  main_deals_safely hardware accept_task connect_handler calls s t run begun small =
      let others = num_threads hardware - 1 in
      let same : listening accept_task others ≡ s =
        ground (arith, main-listening hardware accept_task connect_handler calls, begun) in
      dealing_defined ops (suc others) s t run
        (subst (InRange (suc others) 0) same (listening-InRange accept_task others)) (omega arith)
        small
