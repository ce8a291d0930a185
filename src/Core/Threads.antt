-- ===== src/Core/Threads.antt =====
-- `MultiScheduler::run` of core/coroutine.cpp: one thread for each scheduler. The threads share
-- only `post`, by which any of them deals a task to one of the schedulers; the moves of the threads
-- and the two halves of every `post` happen in any order.
pub mod Runs
pub mod Ledger
pub mod Stopped
pub mod Posts
pub mod Dealing
use coroutine_http.Prelude.{
  ℕ, zero, suc, ◌+◌, ◌%◌, ◌^◌, Option, none, some, List, [], ◌∷◌, ◌++◌, length, ◌==◌, map,
  if◌then◌else◌, ℤ, pos, negsuc, to_int32, ◌≡◌,
}
use coroutine_http.Core.Timer.{HeapOps}
use coroutine_http.Core.System.{System, Move, creates, posts, calls, posted, new_system, step}
use coroutine_http.Core.System.Tasks.{handed}
use coroutine_http.Core.Multi.{rem}

-- A task for which `fetch_add` has been done, with the index of its scheduler: its thread has not
-- called `Scheduler::post` yet.
pub record Parcel : Type 0 where
  pub index : ℕ
  pub task : ℕ

pub record Threads : Type 0 where
  pub systems : List System
  pub in_flight : List Parcel
  pub rr_index : ℕ

-- Each scheduler with the coroutines that have been created on it before `run`.
unfoldable pub new_threads : List (List ℕ) → Threads
new_threads fss = record { systems = map new_system fss; in_flight = []; rr_index = 0 }

-- One thread moves, a thread calls `MultiScheduler::post`, or one of these calls reaches its
-- scheduler.
pub data ThreadMove : Type 0 where
  moves : ℕ → Move → ThreadMove
  draws : ℕ → ThreadMove
  delivers : ℕ → ThreadMove

-- `fetch_add` and `%`. `none` is undefined behaviour: no scheduler, or an index that is negative.
unfoldable pub draw : ℕ → Threads → Option Threads
unfolding rem
draw task t =
    let n = length t.systems in
    if n == 0 then none else elim (rem (to_int32 t.rr_index) n) [
      | pos index ↦ some (record t {
        in_flight = t.in_flight ++ record { index = index; task = task } ∷ [];
        rr_index = (t.rr_index + 1) % 2 ^ 32;
      })
      | negsuc index ↦ none
    ]

-- The parcel at a place, and the others.
unfoldable pub pick : ℕ → List Parcel → Option (Parcel × List Parcel)
pick k [] = none
pick zero (p ∷ ps) = some (p, ps)
pick (suc k) (p ∷ ps) = elim (pick k ps) [ none ↦ none | some (q, qs) ↦ some (q, p ∷ qs) ]

module _ (ops : HeapOps) where
  unfoldable pub step_nth : ℕ → Move → List System → Option (List System)
  step_nth i m [] = none
  step_nth zero m (s ∷ ss) = elim (step ops m s) [ none ↦ none | some t ↦ some (t ∷ ss) ]
  step_nth (suc i) m (s ∷ ss) = elim (step_nth i m ss) [ none ↦ none | some ts ↦ some (s ∷ ts) ]

  unfoldable pub move_thread : ℕ → Move → Threads → Option Threads
  unfolding step_nth
  move_thread i m t = elim (step_nth i m t.systems) [
    | none ↦ none
    | some ss ↦ some (record t { systems = ss })
  ]

  -- `schedulers_[idx]->post(f)`
  unfoldable pub deliver : ℕ → Threads → Option Threads
  unfolding pick move_thread
  deliver k t = elim (pick k t.in_flight) [
    | none ↦ none
    | some (p, ps) ↦ move_thread p.index (posted p.task) (record t { in_flight = ps })
  ]

  unfoldable pub thread_step : ThreadMove → Threads → Option Threads
  unfolding draw deliver move_thread
  thread_step (moves i m) t = move_thread i m t
  thread_step (draws task) t = draw task t
  thread_step (delivers k) t = deliver k t

-- The functions that a move gives to the whole program: a delivery gives none that was not drawn.
abbrev pub given : ThreadMove → List ℕ
given (moves i m) = handed m
given (draws task) = task ∷ []
given (delivers k) = []

abbrev pub all_of : List (List ℕ) → List ℕ
all_of [] = []
all_of (fs ∷ fss) = fs ++ all_of fss

-- The states that the threads reach together, with the functions that they have been given.
pub data Interleaves (ops : HeapOps) : List ℕ → Threads → Type 0 where
  start : (fss : List (List ℕ)) → Interleaves ops (all_of fss) (new_threads fss)
  later :
      {fs : List ℕ} {t u : Threads} (m : ThreadMove)
      → Interleaves ops fs t
      → thread_step ops m t ≡ some u
      → Interleaves ops (given m ++ fs) u

-- The states that the threads reach from a given one.
pub data Onward (ops : HeapOps) (t : Threads) : Threads → Type 0 where
  here : Onward ops t t
  next :
      {u v : Threads} (m : ThreadMove)
      → Onward ops t u
      → thread_step ops m u ≡ some v
      → Onward ops t v
