-- ===== src/Main/Sessions/Waiting.antt =====
-- Which session of main.cpp blocks a thread in a call of ws/chat_room.h.
use coroutine_http.Prelude.{
  ℕ, ◌≡◌, ◌≢◌, ◌⊎◌, sym, ap, ◌∙◌, inl, inr, true, false, Option, none, some, ◌==◌, Bool-cases,
  Option-cases, arith, nat_eq,
}
use coroutine_http.Main.Sessions.{
  Stage, arrived, telling, Sessions, wants_mutex, locked, set_at, no_sessions, after_telling,
  on_received, CanRun, SessionStep, arrives, locks_shortly, locks, sends, unlocks, receives, waits,
  closes, SessionSteps, here, next,
}

module _ (thread_of : ℕ → ℕ) where
  -- A thread is blocked only by a session of its own, which is before a call of the room.
  abbrev Waiting : (ℕ → Option ℕ) → (ℕ → Stage) → Type 0
  Waiting blocked stages =
      (thread j : ℕ)
      → blocked thread ≡ some j
      → (thread_of j ≡ thread) × (wants_mutex (stages j) ≡ true)

  -- A session that is before no such call moves on.
  staged-Waiting :
      (i : ℕ) (stage : Stage) (s : Sessions)
      → wants_mutex (s.stages i) ≡ false
      → Waiting s.blocked s.stages
      → Waiting s.blocked (set_at i stage s.stages)
  staged-Waiting i stage s idle waiting thread j h =
      let (own, wants) = waiting thread j h in
      let apart : (i == j) ≡ false = elim (Bool-cases (i == j)) [
        | inl it ↦
            let this : i ≡ j = ground arith in
            absurd (ground (arith, idle, ap (λ k. wants_mutex (s.stages k)) this, wants))
        | inr another ↦ another
      ] in
      (own, ground arith)

  -- The session that had blocked its thread has the mutex.
  unblock-Waiting :
      (i : ℕ) (stage : Stage) (s : Sessions)
      → Waiting s.blocked s.stages
      → Waiting (set_at (thread_of i) none s.blocked) (set_at i stage s.stages)
  unblock-Waiting i stage s waiting thread j h = elim (Bool-cases (thread_of i == thread)) [
    | inl mine ↦ absurd (ground arith)
    | inr other ↦
        let (own, wants) = waiting thread j (ground arith) in
        let apart : (i == j) ≡ false = elim (Bool-cases (i == j)) [
          | inl it ↦
              let this : i ≡ j = ground arith in
              absurd (ground (arith, other, own, ap thread_of this))
          | inr another ↦ another
        ] in
        (own, ground arith)
  ]

  step-Waiting :
      (s t : Sessions)
      → SessionStep thread_of s t
      → Waiting s.blocked s.stages
      → Waiting t.blocked t.stages
  step-Waiting s t (arrives i nick e run) w = staged-Waiting i (arrived nick) s (ap wants_mutex e) w
  step-Waiting s t (locks_shortly i short run free) w =
      unblock-Waiting i (locked i (s.stages i) s.members).1 s w
  step-Waiting s t (locks i g nick msg e run free) w = unblock-Waiting i (telling g nick) s w
  step-Waiting s t (sends b c cs held e run) w = w
  step-Waiting s t (unlocks b g nick held e stage run) w =
      staged-Waiting b.by (after_telling g nick) s (ap wants_mutex stage) w
  step-Waiting s t (receives i nick frame e run) w =
      staged-Waiting i (on_received nick frame) s (ap wants_mutex e) w
  step-Waiting s t (waits i b wants free held) w = λ thread j h.
      elim (Bool-cases (thread_of i == thread)) [
        | inl mine ↦
            let this : i ≡ j = ground arith in
            (
              ground (arith, ap thread_of this),
              ap (λ k. wants_mutex (s.stages k)) (sym this) ∙ wants,
            )
        | inr other ↦ w thread j (ground arith)
      ]
  step-Waiting s t (closes i) w = w

  steps-Waiting : {t : Sessions} → SessionSteps thread_of no_sessions t → Waiting t.blocked t.stages
  steps-Waiting here = λ thread j h. absurd (ground arith)
  steps-Waiting (next before step) = step-Waiting _ _ step (steps-Waiting before)

  -- Session `j` has blocked the thread of session `i`.
  abbrev pub BlockedBy : ℕ → ℕ → Sessions → Type 0
  BlockedBy j i s =
      (j ≢ i)
      × (thread_of j ≡ thread_of i)
      × (s.blocked (thread_of i) ≡ some j)
      × (wants_mutex (s.stages j) ≡ true)

  -- A session that cannot run is blocked by another one of its thread.
  pub run_or_blocked :
      (i : ℕ) (s : Sessions)
      → SessionSteps thread_of no_sessions s
      → CanRun thread_of i s ⊎ ((j : ℕ) × BlockedBy j i s)
  run_or_blocked i s reached = elim (Option-cases (s.blocked (thread_of i))) [
    | inl free ↦ inl (inl free)
    | inr (j, held) ↦ elim (Bool-cases (j == i)) [
      | inl own ↦ let this : j ≡ i = ground arith in inl (inr (held ∙ ap some this))
      | inr another ↦
          let (same, wants) = steps-Waiting reached (thread_of i) j held in
          inr (j, ((λ e. ground (arith, another)), same, held, wants))
    ]
  ]
