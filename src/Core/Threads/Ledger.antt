-- ===== src/Core/Threads/Ledger.antt =====
-- Where the functions are that `MultiScheduler::run` (core/coroutine.cpp) has been given.
use coroutine_http.Prelude.{
  ℕ, zero, suc, ◌+◌, ◌≡◌, refl, sym, inl, inr, some, List, [], ◌∷◌, ◌++◌, ◌==◌, map, All,
  Option-cases, arith, occurrences, count_if-append, nat_eq,
}
use mathlib.Core.Path.{subst}
use coroutine_http.Core.Timer.{HeapOps}
use coroutine_http.Core.System.{System, Move, posted, new_system, step}
use coroutine_http.Core.System.Ledger.{held, IsFresh, new_system-Ledger, step-Ledger}
use coroutine_http.Core.System.Tasks.{handed, book}
use coroutine_http.Core.Threads.{
  Parcel, Threads, new_threads, ThreadMove, moves, draws, delivers, pick, step_nth, thread_step,
  given, all_of, Interleaves, start, later,
}
use coroutine_http.Core.Threads.Runs.{draw-some, move_thread-some, deliver-some}

abbrev pub tasks : List Parcel → List ℕ
tasks [] = []
tasks (p ∷ ps) = p.task ∷ tasks ps

abbrev pub held_by : ℕ → List System → ℕ
held_by f [] = 0
held_by f (s ∷ ss) = held f (book s.linked.sched) + held_by f ss

abbrev AllFresh : List System → Type 0
AllFresh = All (λ (s : System). IsFresh (book s.linked.sched))

pick-tasks :
    (g k : ℕ) (ps qs : List Parcel) (p : Parcel)
    → pick k ps ≡ some (p, qs)
    → occurrences g (tasks ps) ≡ occurrences g (p.task ∷ []) + occurrences g (tasks qs)
unfolding pick
pick-tasks g k [] qs p h = absurd (ground arith)
pick-tasks g zero (q ∷ ps) qs p h = ground arith
pick-tasks g (suc k) (q ∷ ps) qs p h = elim (Option-cases (pick k ps)) [
  | inl missing ↦ absurd (ground arith)
  | inr ((r, rs), picked) ↦ ground (arith, pick-tasks g k ps rs r picked)
]

tasks-append :
    (g : ℕ) (ps : List Parcel) (p : Parcel)
    → occurrences g (tasks (ps ++ p ∷ [])) ≡ occurrences g (tasks ps) + occurrences g (p.task ∷ [])
tasks-append g [] p = omega arith
tasks-append g (q ∷ ps) p = omega (arith, tasks-append g ps p)

-- The books of all schedulers are in order, and with the tasks in flight they hold function `g` as
-- often as it was given.
record Accounts (g : ℕ) (fs : List ℕ) (t : Threads) : Type 0 where
  fresh : AllFresh t.systems
  sum : held_by g t.systems + occurrences g (tasks t.in_flight) ≡ occurrences g fs

new_threads-Accounts :
    (g : ℕ) (fss : List (List ℕ))
    → AllFresh (map new_system fss) × (held_by g (map new_system fss) ≡ occurrences g (all_of fss))
new_threads-Accounts g [] = (tt, refl)
new_threads-Accounts g (fs ∷ fss) =
    let l = new_system-Ledger g fs in
    let (fresh, sum) = new_threads-Accounts g fss in
    ((l.fresh, fresh), omega (arith, l.sum, sum, count_if-append (λ x. x == g) fs (all_of fss)))

module _ (ops : HeapOps) where
  step_nth-held_by :
      (i : ℕ) (m : Move) (g : ℕ) (ss ts : List System)
      → step_nth ops i m ss ≡ some ts
      → AllFresh ss
      → AllFresh ts × (held_by g ts ≡ occurrences g (handed m) + held_by g ss)
  unfolding step_nth
  step_nth-held_by i m g [] ts h all = absurd (ground arith)
  step_nth-held_by zero m g (s ∷ ss) ts h all = elim (Option-cases (step ops m s)) [
    | inl stuck ↦ absurd (ground arith)
    | inr (t, moved) ↦
        let l = step-Ledger ops m g s t moved all.0 in
        let here : t ∷ ss ≡ ts = ground arith in
        subst (λ us. AllFresh us × (held_by g us ≡ occurrences g (handed m) + held_by g (s ∷ ss)))
          here ((l.fresh, all.1), omega (arith, l.sum))
  ]
  step_nth-held_by (suc i) m g (s ∷ ss) ts h all = elim (Option-cases (step_nth ops i m ss)) [
    | inl stuck ↦ absurd (ground arith)
    | inr (vs, moved) ↦
        let (fresh, sum) = step_nth-held_by i m g ss vs moved all.1 in
        let here : s ∷ vs ≡ ts = ground arith in
        subst (λ us. AllFresh us × (held_by g us ≡ occurrences g (handed m) + held_by g (s ∷ ss)))
          here ((all.0, fresh), omega (arith, sum))
  ]

  thread_step-Accounts :
      (m : ThreadMove) (g : ℕ) (fs : List ℕ) (t u : Threads)
      → thread_step ops m t ≡ some u
      → Accounts g fs t
      → Accounts g (given m ++ fs) u
  unfolding thread_step
  thread_step-Accounts (moves i m) g fs t u h a =
      let (ss, moved, e) = move_thread-some ops i m t u h in
      let (fresh, sum) = step_nth-held_by i m g t.systems ss moved a.fresh in
      subst (Accounts g (handed m ++ fs)) (sym e) (record {
        fresh = fresh;
        sum = omega (arith, sum, a.sum, count_if-append (λ x. x == g) (handed m) fs);
      })
  thread_step-Accounts (draws task) g fs t u h a =
      let (index, chosen, e) = draw-some task t u h in
      subst (Accounts g (task ∷ fs)) (sym e) (record {
        fresh = a.fresh;
        sum =
            omega
              (arith, a.sum, tasks-append g t.in_flight (record { index = index; task = task }));
      })
  thread_step-Accounts (delivers k) g fs t u h a =
      let (p, ps, ss, picked, moved, e) = deliver-some ops k t u h in
      let (fresh, sum) = step_nth-held_by p.index (posted p.task) g t.systems ss moved a.fresh in
      subst (Accounts g fs) (sym e) (record {
        fresh = fresh;
        sum = omega (arith, sum, a.sum, pick-tasks g k t.in_flight ps p picked);
      })

  threads-Accounts : {fs : List ℕ} {t : Threads} (g : ℕ) → Interleaves ops fs t → Accounts g fs t
  unfolding new_threads
  threads-Accounts g (start fss) =
      let (fresh, sum) = new_threads-Accounts g fss in
      record { fresh = fresh; sum = omega (arith, sum) }
  threads-Accounts g (later m before h) =
      thread_step-Accounts m g _ _ _ h (threads-Accounts g before)

  -- No function is lost and none is doubled, in any interleaving of the threads, their schedulers'
  -- moves and the two halves of each `MultiScheduler::post`: as often as a function was given,
  -- whether created, posted or dealt, so often it is a coroutine of one of the schedulers, waits at
  -- one of them, or is in flight.
  pub threads_conserve :
      {fs : List ℕ} {t : Threads} (f : ℕ)
      → Interleaves ops fs t
      → held_by f t.systems + occurrences f (tasks t.in_flight) ≡ occurrences f fs
  threads_conserve f run = (threads-Accounts f run).sum
