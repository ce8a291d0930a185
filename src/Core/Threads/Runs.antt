-- ===== src/Core/Threads/Runs.antt =====
-- Every thread of `MultiScheduler::run` (core/coroutine.cpp) seen alone.
use coroutine_http.Prelude.{
  ℕ, zero, suc, ◌+◌, ◌%◌, ◌^◌, ◌≡◌, refl, sym, inl, inr, some, List, [], ◌∷◌, ◌++◌, length, ◌==◌,
  map, All, Option-cases, Bool-cases, arith, ℤ, pos, negsuc, to_int32,
}
use mathlib.Core.Path.{subst}
use coroutine_http.Core.Timer.{HeapOps}
use coroutine_http.Core.System.{System, Move, posted, new_system, step}
use coroutine_http.Core.System.Conserved.{Reach, start, later}
use coroutine_http.Core.Multi.{rem}
use coroutine_http.Core.Threads.{
  Parcel, Threads, new_threads, ThreadMove, moves, draws, delivers, draw, pick, step_nth,
  move_thread, deliver, thread_step, Interleaves,
}
use coroutine_http.Core.Threads

-- What a draw that is defined does.
pub draw-some :
    (task : ℕ) (t u : Threads)
    → draw task t ≡ some u
    → (index : ℕ) × (rem (to_int32 t.rr_index) (length t.systems) ≡ pos index)
      × (u ≡ record {
        systems = t.systems;
        in_flight = t.in_flight ++ record { index = index; task = task } ∷ [];
        rr_index = (t.rr_index + 1) % 2 ^ 32;
      })
unfolding draw
draw-some task t u h = elim (Bool-cases (length t.systems == 0)) [
  | inl nobody ↦ absurd (ground arith)
  | inr some_thread ↦ drawn (rem (to_int32 t.rr_index) (length t.systems)) refl
]
  where
    drawn :
        (r : ℤ)
        → rem (to_int32 t.rr_index) (length t.systems) ≡ r
        → (index : ℕ) × (rem (to_int32 t.rr_index) (length t.systems) ≡ pos index)
          × (u ≡ record {
            systems = t.systems;
            in_flight = t.in_flight ++ record { index = index; task = task } ∷ [];
            rr_index = (t.rr_index + 1) % 2 ^ 32;
          })
    drawn (pos i) e = (i, e, ground arith)
    drawn (negsuc i) e = absurd (ground arith)

module _ (ops : HeapOps) where
  -- What every possible move of one scheduler keeps, all keep.
  pub step_nth-All :
      (P : System → Type 0) (m : Move)
      → ((s t : System) → step ops m s ≡ some t → P s → P t)
      → (i : ℕ) (ss ts : List System) → step_nth ops i m ss ≡ some ts
      → All P ss
      → All P ts
  unfolding step_nth
  step_nth-All P m keeps i [] ts h all = absurd (ground arith)
  step_nth-All P m keeps zero (s ∷ ss) ts h all = elim (Option-cases (step ops m s)) [
    | inl stuck ↦ absurd (ground arith)
    | inr (t, moved) ↦
        let here : t ∷ ss ≡ ts = ground arith in subst (All P) here (keeps s t moved all.0, all.1)
  ]
  step_nth-All P m keeps (suc i) (s ∷ ss) ts h all = elim (Option-cases (step_nth ops i m ss)) [
    | inl stuck ↦ absurd (ground arith)
    | inr (us, moved) ↦
        let here : s ∷ us ≡ ts = ground arith in
        subst (All P) here (all.0, step_nth-All P m keeps i ss us moved all.1)
  ]

  pub move_thread-some :
      (i : ℕ) (m : Move) (t u : Threads)
      → move_thread ops i m t ≡ some u
      → (ss : List System) × (step_nth ops i m t.systems ≡ some ss)
        × (u ≡ record { systems = ss; in_flight = t.in_flight; rr_index = t.rr_index })
  unfolding move_thread
  move_thread-some i m t u h = elim (Option-cases (step_nth ops i m t.systems)) [
    | inl stuck ↦ absurd (ground arith)
    | inr (ss, moved) ↦ (ss, moved, ground arith)
  ]

  pub deliver-some :
      (k : ℕ) (t u : Threads)
      → deliver ops k t ≡ some u
      → (p : Parcel) × (ps : List Parcel) × (ss : List System) × (pick k t.in_flight ≡ some (p, ps))
        × (step_nth ops p.index (posted p.task) t.systems ≡ some ss)
        × (u ≡ record { systems = ss; in_flight = ps; rr_index = t.rr_index })
  unfolding deliver
  deliver-some k t u h = elim (Option-cases (pick k t.in_flight)) [
    | inl missing ↦ absurd (ground arith)
    | inr ((p, ps), picked) ↦
        let (ss, moved, e) =
          move_thread-some p.index (posted p.task) (record t { in_flight = ps }) u (ground arith) in
        (p, ps, ss, picked, moved, e)
  ]

  -- Some run of one scheduler ends here.
  abbrev pub IsRun : System → Type 0
  IsRun s = (lost : List ℕ) × Reach ops lost s

  step-IsRun : (m : Move) (s t : System) → step ops m s ≡ some t → IsRun s → IsRun t
  step-IsRun m s t h (lost, run) = (_, later m run h)

  new_threads-IsRun : (fss : List (List ℕ)) → All IsRun (map new_system fss)
  new_threads-IsRun [] = tt
  new_threads-IsRun (fs ∷ fss) = (([], start fs), new_threads-IsRun fss)

  thread_step-IsRun :
      (m : ThreadMove) (t u : Threads)
      → thread_step ops m t ≡ some u
      → All IsRun t.systems
      → All IsRun u.systems
  unfolding thread_step
  thread_step-IsRun (moves i m) t u h runs =
      let (ss, moved, e) = move_thread-some i m t u h in
      subst (λ (v : Threads). All IsRun v.systems) (sym e)
        (step_nth-All IsRun m (step-IsRun m) i t.systems ss moved runs)
  thread_step-IsRun (draws task) t u h runs =
      subst (λ (v : Threads). All IsRun v.systems) (sym (draw-some task t u h).2) runs
  thread_step-IsRun (delivers k) t u h runs =
      let (p, ps, ss, picked, moved, e) = deliver-some k t u h in
      subst (λ (v : Threads). All IsRun v.systems) (sym e)
        (step_nth-All IsRun (posted p.task) (step-IsRun (posted p.task)) p.index t.systems ss moved
          runs)

  -- However the threads and the deliveries between them interleave, each scheduler does what it
  -- does alone: its state ends a run of `Scheduler::run` by itself, in which the tasks that the
  -- others deal to it are posts.
  pub threads-IsRun : {fs : List ℕ} {t : Threads} → Interleaves ops fs t → All IsRun t.systems
  unfolding new_threads
  threads-IsRun (Threads.start fss) = new_threads-IsRun fss
  threads-IsRun (Threads.later m before h) = thread_step-IsRun m _ _ h (threads-IsRun before)
