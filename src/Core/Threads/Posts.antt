-- ===== src/Core/Threads/Posts.antt =====
-- `MultiScheduler::post` of core/coroutine.cpp, in its two halves and at once.
use coroutine_http.Prelude.{
  ℕ, zero, suc, ◌+◌, ◌%◌, ◌^◌, ◌≡◌, refl, ap, inl, inr, Option, none, some, List, [], ◌∷◌, map,
  length, ◌==◌, Option-cases, Bool-cases, ℤ, pos, negsuc, to_int32,
}
use coroutine_http.Core.Timer.{HeapOps}
use coroutine_http.Core.Scheduler.{Scheduler}
use coroutine_http.Core.System.{System, posted, step}
use coroutine_http.Core.Multi
use coroutine_http.Core.Multi.{MultiScheduler, rem, post_at, post_index}
use coroutine_http.Core.Threads.{Threads, draw, pick, step_nth, move_thread, deliver}

abbrev pub sched_of : System → Scheduler
sched_of s = s.linked.sched

-- The schedulers without their threads.
abbrev pub multi_of : Threads → MultiScheduler
multi_of t = record { schedulers = map sched_of t.systems; rr_index = t.rr_index }

abbrev scheds : Option (List System) → Option (List Scheduler)
scheds none = none
scheds (some ss) = some (map sched_of ss)

length-map : (ss : List System) → length (map sched_of ss) ≡ length ss
length-map [] = refl
length-map (s ∷ ss) = ap suc (length-map ss)

module _ (ops : HeapOps) where
  -- The delivery of the first task in flight, behind a draw.
  abbrev pub then_deliver : Option Threads → Option MultiScheduler
  then_deliver none = none
  then_deliver (some t) = elim (deliver ops 0 t) [ none ↦ none | some u ↦ some (multi_of u) ]

  step_nth-post_at :
      (f i : ℕ) (ss : List System)
      → post_at f i (map sched_of ss) ≡ scheds (step_nth ops i (posted f) ss)
  unfolding step_nth post_at step
  step_nth-post_at f i [] = refl
  step_nth-post_at f zero (s ∷ ss) = refl
  step_nth-post_at f (suc i) (s ∷ ss) = elim (Option-cases (step_nth ops i (posted f) ss)) [
    | inl missing ↦ rw (step_nth-post_at f i ss, missing) refl
    | inr (ts, moved) ↦ rw (step_nth-post_at f i ss, moved) refl
  ]

  delivered :
      (f i rr : ℕ) (ss : List System)
      → then_deliver (
          some (record {
            systems = ss;
            in_flight = record { index = i; task = f } ∷ [];
            rr_index = rr;
          }))
        ≡ (elim (post_at f i (map sched_of ss)) [
          | none ↦ none
          | some ts ↦ some (record { schedulers = ts; rr_index = rr })
        ])
  unfolding deliver pick move_thread
  delivered f i rr ss = elim (Option-cases (step_nth ops i (posted f) ss)) [
    | inl missing ↦
        rw (step_nth-post_at f i ss, missing)
          (rw (missing, then_deliver, deliver, move_thread) refl)
    | inr (ts, moved) ↦
        rw (step_nth-post_at f i ss, moved) (rw (moved, then_deliver, deliver, move_thread) refl)
  ]

  -- The two halves of a `post` with nothing between them, where nothing is in flight, are the
  -- `post` of `MultiScheduler` in one step, also where that is undefined.
  pub draw-deliver-post :
      (f rr : ℕ) (ss : List System)
      → then_deliver (draw f (record { systems = ss; in_flight = []; rr_index = rr }))
        ≡ Multi.post f (record { schedulers = map sched_of ss; rr_index = rr })
  unfolding draw Multi.post post_index
  draw-deliver-post f rr ss = elim (Bool-cases (length ss == 0)) [
    | inl nobody ↦ rw (length-map ss, nobody) refl
    | inr some_thread ↦ rw (length-map ss, some_thread) (index (rem (to_int32 rr) (length ss)))
  ]
    where
      index :
          (r : ℤ)
          → then_deliver (elim r [
            | pos i ↦ some (record {
              systems = ss;
              in_flight = record { index = i; task = f } ∷ [];
              rr_index = (rr + 1) % 2 ^ 32;
            })
            | negsuc i ↦ none
          ])
            ≡ (elim (post_index f r (map sched_of ss)) [
              | none ↦ none
              | some ts ↦ some (record { schedulers = ts; rr_index = (rr + 1) % 2 ^ 32 })
            ])
      index (pos i) = delivered f i ((rr + 1) % 2 ^ 32) ss
      index (negsuc i) = refl
