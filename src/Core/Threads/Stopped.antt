-- ===== src/Core/Threads/Stopped.antt =====
-- What becomes of a scheduler whose `run` has returned, since `epoll_wait` failed, while the other
-- threads of `MultiScheduler::run` (core/coroutine.cpp) go on.
use coroutine_http.Prelude.{
  ℕ, zero, suc, ◌≡◌, refl, sym, ap, ◌∙◌, ◌⊎◌, ◌≢◌, inl, inr, some, List, [], ◌∷◌, ◌++◌, append-nil,
  append_assoc, get_elem?, Option-cases, arith, Option, none, ◌==◌, if◌then◌else◌, true, false,
}
use mathlib.Core.Path.{subst}
use mathlib.Core.Option.{some-injective}
use coroutine_http.Core.Timer.{HeapOps}
use coroutine_http.Core.Scheduler.{post}
use coroutine_http.Core.System.{System, stopped, Move, posted, phase_step, step}
use coroutine_http.Core.Threads.{
  Onward, here, next, Parcel, Threads, ThreadMove, moves, draws, delivers, pick, step_nth,
  thread_step,
}
use coroutine_http.Core.Threads.Runs.{draw-some, move_thread-some, deliver-some}

-- The task that a move brings to the scheduler at place `j`, if it brings one there: a post from
-- outside, or the delivery of a parcel with that index.
abbrev pub posted_in : Move → List ℕ
posted_in m = elim m [ posted f ↦ f ∷ [] | _ ↦ [] ]

abbrev pub parcel_to : ℕ → Option Parcel → List ℕ
parcel_to j none = []
parcel_to j (some p) = if p.index == j then p.task ∷ [] else []

abbrev pub brought : ℕ → ThreadMove → Threads → List ℕ
brought j (moves i m) t = if i == j then posted_in m else []
brought j (draws task) t = []
brought j (delivers k) t = parcel_to j (get_elem? t.in_flight k)

-- All the tasks that a run brings there, in their order.
abbrev pub brought_along : (ops : HeapOps) (j : ℕ) (t u : Threads) → Onward ops t u → List ℕ
brought_along ops j t u here = []
brought_along ops j t u (next {u = v} m before h) = brought_along ops j t v before ++ brought j m v

-- The later state of a scheduler that has stopped: all that has changed are the tasks `more` behind
-- those that waited.
pub record Stalled (more : List ℕ) (s t : System) : Type 0 where
  pub phase : t.phase ≡ stopped
  pub ready : t.linked.sched.ready_queue ≡ s.linked.sched.ready_queue
  pub started : t.linked.sched.funcs ≡ s.linked.sched.funcs
  pub waiting : t.linked.sched.post_queue ≡ s.linked.sched.post_queue ++ more

Stalled-refl : (s : System) → s.phase ≡ stopped → Stalled [] s s
Stalled-refl s h = record { phase = h; ready = refl; started = refl; waiting = sym (append-nil _) }

Stalled-trans :
    (ms ns : List ℕ) (s t u : System) → Stalled ms s t → Stalled ns t u → Stalled (ms ++ ns) s u
Stalled-trans ms ns s t u a b = record {
  phase = b.phase;
  ready = b.ready ∙ a.ready;
  started = b.started ∙ a.started;
  waiting = b.waiting ∙ ap (λ q. q ++ ns) a.waiting ∙ append_assoc s.linked.sched.post_queue ms ns;
}

-- A parcel that is picked is the one at that place.
get_elem?-pick :
    (k : ℕ) (ps qs : List Parcel) (p : Parcel) → pick k ps ≡ some (p, qs) → get_elem? ps k ≡ some p
unfolding pick
get_elem?-pick k [] qs p h = ground arith
get_elem?-pick zero (q ∷ ps) qs p h = ap (λ r. some r.0) (some-injective _ _ h)
get_elem?-pick (suc k) (q ∷ ps) qs p h = elim (Option-cases (pick k ps)) [
  | inl missing ↦ absurd (ground arith)
  | inr ((r, rs), found) ↦
      let same : r ≡ p = ground arith in get_elem?-pick k ps rs r found ∙ ap some same
]

module _ (ops : HeapOps) where
  stopped_stuck :
      (m : Move) (s t : System) → phase_step ops s.phase m s.linked ≡ some t → s.phase ≢ stopped
  unfolding phase_step
  stopped_stuck m s t h e = ground arith

  stopped-Stalled :
      (m : Move) (s t : System)
      → step ops m s ≡ some t
      → s.phase ≡ stopped
      → Stalled (posted_in m) s t
  unfolding step
  stopped-Stalled (posted f) s t h e = subst (Stalled (f ∷ []) s) (some-injective _ _ h) (record {
    phase = e;
    ready = unfold post in refl;
    started = unfold post in refl;
    waiting = unfold post in refl;
  })
  stopped-Stalled m s t h e = absurd (stopped_stuck m s t h e)

  -- A move of one of the schedulers, seen from the scheduler at place `j`.
  step_nth-get_elem? :
      (i j : ℕ) (m : Move) (s : System) (ss ts : List System)
      → step_nth ops i m ss ≡ some ts
      → get_elem? ss j ≡ some s
      → (t : System) × (get_elem? ts j ≡ some t)
        × ((((i == j) ≡ false) × (t ≡ s)) ⊎ (((i == j) ≡ true) × (step ops m s ≡ some t)))
  unfolding step_nth
  step_nth-get_elem? i j m s [] ts h e = absurd (ground arith)
  step_nth-get_elem? zero zero m s (r ∷ ss) ts h e = elim (Option-cases (step ops m r)) [
    | inl stuck ↦ absurd (ground arith)
    | inr (t, moved) ↦ (
      t,
      ground arith,
      inr (refl, subst (λ q. step ops m q ≡ some t) (some-injective _ _ e) moved),
    )
  ]
  step_nth-get_elem? zero (suc j) m s (r ∷ ss) ts h e = elim (Option-cases (step ops m r)) [
    | inl stuck ↦ absurd (ground arith)
    | inr (t, moved) ↦
        (s, ap (λ us. get_elem? us (suc j)) (sym (here t moved)) ∙ e, inl (ground arith, refl))
  ]
    where
      here : (t : System) → step ops m r ≡ some t → t ∷ ss ≡ ts
      here t moved = ground arith
  step_nth-get_elem? (suc i) zero m s (r ∷ ss) ts h e = elim (Option-cases (step_nth ops i m ss)) [
    | inl stuck ↦ absurd (ground arith)
    | inr (us, moved) ↦
        let same : r ∷ us ≡ ts = ground arith in
        (s, ap (λ vs. get_elem? vs 0) (sym same) ∙ e, inl (ground arith, refl))
  ]
  step_nth-get_elem? (suc i) (suc j) m s (r ∷ ss) ts h e =
      elim (Option-cases (step_nth ops i m ss)) [
        | inl stuck ↦ absurd (ground arith)
        | inr (us, moved) ↦
            let same : r ∷ us ≡ ts = ground arith in
            let (t, there, p) = step_nth-get_elem? i j m s ss us moved e in
            let next_place : (suc i == suc j) ≡ (i == j) = ground arith in
            (
              t,
              ap (λ vs. get_elem? vs (suc j)) (sym same) ∙ there,
              elim p [
                | inl (elsewhere, still) ↦ inl (next_place ∙ elsewhere, still)
                | inr (this, stepped) ↦ inr (next_place ∙ this, stepped)
              ],
            )
      ]

  moved-Stalled :
      (i j : ℕ) (m : Move) (s : System) (ss ts : List System)
      → step_nth ops i m ss ≡ some ts
      → get_elem? ss j ≡ some s
      → s.phase ≡ stopped
      → (t : System) × (get_elem? ts j ≡ some t) × Stalled (if i == j then posted_in m else []) s t
  moved-Stalled i j m s ss ts h e p =
      let (t, there, c) = step_nth-get_elem? i j m s ss ts h e in
      (
        t,
        there,
        elim c [
          | inl (elsewhere, same) ↦
              rw elsewhere (subst (Stalled [] s) (sym same) (Stalled-refl s p))
          | inr (this, moved) ↦ rw this (stopped-Stalled m s t moved p)
        ],
      )

  thread_step-Stalled :
      (m : ThreadMove) (j : ℕ) (s : System) (t u : Threads)
      → thread_step ops m t ≡ some u
      → get_elem? t.systems j ≡ some s
      → s.phase ≡ stopped
      → (v : System) × (get_elem? u.systems j ≡ some v) × Stalled (brought j m t) s v
  unfolding thread_step
  thread_step-Stalled (moves i m) j s t u h e p =
      let (ss, moved, same) = move_thread-some ops i m t u h in
      let (v, there, k) = moved-Stalled i j m s t.systems ss moved e p in
      (v, ap (λ (w : Threads). get_elem? w.systems j) same ∙ there, k)
  thread_step-Stalled (draws task) j s t u h e p = (
    s,
    ap (λ (w : Threads). get_elem? w.systems j) (draw-some task t u h).2 ∙ e,
    Stalled-refl s p,
  )
  thread_step-Stalled (delivers k) j s t u h e p =
      let (parcel, ps, ss, picked, moved, same) = deliver-some ops k t u h in
      let (v, there, l) =
        moved-Stalled parcel.index j (posted parcel.task) s t.systems ss moved e p in
      (
        v,
        ap (λ (w : Threads). get_elem? w.systems j) same ∙ there,
        subst (λ o. Stalled (parcel_to j o) s v)
            (sym (get_elem?-pick k t.in_flight ps parcel picked)) l,
      )

  -- Where `run` of one scheduler has returned, it stays so whatever the other threads do, and none
  -- of the tasks that wait there or are dealt to it later is ever started: its ready queue and its
  -- coroutines stay the same, and behind the tasks that waited stand just the tasks that have been
  -- brought to it, from outside or by the calls of `MultiScheduler::post` with its index, each once
  -- and in their order.
  pub stopped_strands :
      (j : ℕ) (s : System) (t u : Threads) (run : Onward ops t u)
      → get_elem? t.systems j ≡ some s
      → s.phase ≡ stopped
      → (v : System) × (get_elem? u.systems j ≡ some v) × Stalled (brought_along ops j t u run) s v
  stopped_strands j s t u here e p = (s, e, Stalled-refl s p)
  stopped_strands j s t u (next {u = w} m before h) e p =
      let (v, there, k) = stopped_strands j s t w before e p in
      let (x, found, l) = thread_step-Stalled m j v w u h there k.phase in
      (x, found, Stalled-trans (brought_along ops j t w before) (brought j m w) s v x k l)
