-- ===== src/Main/Sessions/Blocking.antt =====
-- What the mutex of ws/chat_room.h does to the threads on which the sessions of main.cpp run.
use coroutine_http.Prelude.{
  true, ℕ, suc, ◌+◌, ◌≡◌, ◌≢◌, refl, sym, ap, ◌∙◌, ◌⊎◌, inl, inr, false, none, some, List, [], ◌∷◌,
  ◌++◌, append-nil, length, ◌==◌, Bytes, Bool-cases, arith, nat_eq,
}
use mathlib.Core.Path.{subst}
use mathlib.Core.Option.{some-injective}
use coroutine_http.Ws.ChatRoom.{Client}
use coroutine_http.Main.Sessions.{
  Goal, telling, Sending, Sessions, no_sessions, after_telling, on_stage, tell_one, CanRun,
  SessionStep, arrives, locks_shortly, locks, sends, unlocks, receives, waits, closes, SessionSteps,
  here, next,
}
use coroutine_http.Main.Sessions.Atomic.{copies, tell_one-copies}
use coroutine_http.Main.Sessions.Waiting.{BlockedBy, run_or_blocked}
use coroutine_http.Main.Sessions.Members.{steps-Inv}

module _ (thread_of : ℕ → ℕ) where
  -- The thread of the holder is blocked in the `lock` of another session.
  record IsStuck (b : Sending) (j : ℕ) (s : Sessions) : Type 0 where
    held : s.mutex ≡ some b
    blocked : s.blocked (thread_of b.by) ≡ some j
    another : j ≢ b.by

  cannot_run : (b : Sending) (j : ℕ) (s : Sessions) → IsStuck b j s → ¬ CanRun thread_of b.by s
  cannot_run b j s stuck (inl free) = ground (arith, stuck.blocked)
  cannot_run b j s stuck (inr own) = stuck.another (some-injective _ _ (sym stuck.blocked ∙ own))

  step-IsStuck :
      (b : Sending) (j : ℕ) (s t : Sessions)
      → SessionStep thread_of s t
      → IsStuck b j s
      → IsStuck b j t × (t.members ≡ s.members) × (t.inbox ≡ s.inbox)
  step-IsStuck b j s t (arrives i nick e run) stuck =
      (record { held = stuck.held; blocked = stuck.blocked; another = stuck.another }, refl, refl)
  step-IsStuck b j s t (locks_shortly i short run free) stuck = absurd (ground (arith, stuck.held))
  step-IsStuck b j s t (locks i g nick msg e run free) stuck = absurd (ground (arith, stuck.held))
  step-IsStuck b j s t (sends d c cs held e run) stuck = absurd (
      cannot_run b j s stuck (
        subst (λ (x : Sending). CanRun thread_of x.by s)
          (some-injective _ _ (sym held ∙ stuck.held)) run))
  step-IsStuck b j s t (unlocks d g nick held e stage run) stuck = absurd (
      cannot_run b j s stuck (
        subst (λ (x : Sending). CanRun thread_of x.by s)
          (some-injective _ _ (sym held ∙ stuck.held)) run))
  step-IsStuck b j s t (receives i nick frame e run) stuck =
      (record { held = stuck.held; blocked = stuck.blocked; another = stuck.another }, refl, refl)
  step-IsStuck b j s t (waits i d wants free held) stuck =
      elim (Bool-cases (thread_of i == thread_of b.by)) [
        | inl same ↦
            let thread : thread_of i ≡ thread_of b.by = ground arith in
            absurd (ground (arith, sym free ∙ ap s.blocked thread ∙ stuck.blocked))
        | inr apart ↦ (
          record {
            held = stuck.held;
            blocked = ground (arith, stuck.blocked);
            another = stuck.another;
          },
          refl,
          refl,
        )
      ]
  step-IsStuck b j s t (closes i) stuck =
      (record { held = stuck.held; blocked = stuck.blocked; another = stuck.another }, refl, refl)

  -- A `broadcast` whose thread is blocked, while a send has switched away, in a call of the room by
  -- another of its sessions, never ends: whatever happens later, the mutex stays held, nobody joins
  -- or leaves, and no message of the room is written any more.
  pub blocked_for_ever :
      (b : Sending) (j : ℕ) (s t : Sessions)
      → SessionSteps thread_of s t
      → s.mutex ≡ some b
      → s.blocked (thread_of b.by) ≡ some j
      → j ≢ b.by
      → (t.mutex ≡ some b) × (t.members ≡ s.members) × (t.inbox ≡ s.inbox)
  blocked_for_ever b j s t run held blocked another = (p.0.held, p.1, p.2)
    where
      stays :
          {u : Sessions}
          → SessionSteps thread_of s u
          → IsStuck b j u × (u.members ≡ s.members) × (u.inbox ≡ s.inbox)
      stays here = (record { held = held; blocked = blocked; another = another }, refl, refl)
      stays (next before step) =
          let (stuck, members, inbox) = stays before in
          let (after, same, written) = step-IsStuck b j _ _ step stuck in
          (after, same ∙ members, written ∙ inbox)

      p : IsStuck b j t × (t.members ≡ s.members) × (t.inbox ≡ s.inbox)
      p = stays run

  abbrev pub step_count : {s t : Sessions} → SessionSteps thread_of s t → ℕ
  step_count here = 0
  step_count (next before step) = suc (step_count before)

  -- The loop of `broadcast` from a state on, up to the end of its clients.
  sends_all :
      (cs : List Client) (b : Sending) (g : Goal) (nick : Bytes) (s t : Sessions)
      (run : SessionSteps thread_of s t)
      → t.mutex ≡ some b
      → b.rest ≡ cs
      → t.stages b.by ≡ telling g nick
      → CanRun thread_of b.by t
      → (u : Sessions) × (on : SessionSteps thread_of s u) × (u.mutex ≡ none)
        × (u.stages b.by ≡ after_telling g nick)
        × (step_count on ≡ step_count run + suc (length cs))
        × ((i : ℕ) → t.closed i ≡ false → u.inbox i ≡ t.inbox i ++ copies i b.msg cs)
  sends_all [] b g nick s t run held rest stage free = (
    record (on_stage b.by (after_telling g nick) t) { mutex = none },
    next run (unlocks b g nick held rest stage free),
    refl,
    ground arith,
    omega arith,
    λ i alive. sym (append-nil (t.inbox i)),
  )
  sends_all (c ∷ cs) b g nick s t run held rest stage free =
      let after = record t { mutex = some (record b { rest = cs }); inbox = tell_one c b.msg t } in
      let (u, on, over, goes_on, count, told) =
        sends_all cs (record b { rest = cs }) g nick s after
          (next run (sends b c cs held rest free)) refl refl stage free in
      (
        u,
        on,
        over,
        goes_on,
        omega (arith, count),
        λ i alive. told i alive ∙ tell_one-copies i b c cs t alive,
      )

  -- The `broadcast` under way ends by steps of its own session, one for each client and one for the
  -- mutex: the mutex is then free, the session goes on as the code does behind the call, and each
  -- session whose socket is open has been written the message as often as it stood among the
  -- clients.
  abbrev pub CanEnd : Sending → Sessions → Type 0
  CanEnd b s =
      (g : Goal) × (nick : Bytes) × (t : Sessions) × (run : SessionSteps thread_of s t) × (s.stages
          b.by
        ≡ telling g nick)
      × (t.mutex ≡ none)
      × (t.stages b.by ≡ after_telling g nick)
      × (step_count run ≡ suc (length b.rest))
      × ((i : ℕ) → (s.closed i ≡ true) ⊎ (t.inbox i ≡ s.inbox i ++ copies i b.msg b.rest))

  free-CanEnd :
      (b : Sending) (s : Sessions)
      → SessionSteps thread_of no_sessions s
      → s.mutex ≡ some b
      → CanRun thread_of b.by s
      → CanEnd b s
  free-CanEnd b s reached held free =
      let (g, nick, stage) = (steps-Inv thread_of reached).holder b held in
      let (t, run, over, goes_on, count, told) =
        sends_all b.rest b g nick s s here held refl stage free in
      (
        g,
        nick,
        t,
        run,
        stage,
        over,
        goes_on,
        omega (arith, count),
        λ i. elim (Bool-cases (s.closed i)) [
          | inl shut ↦ inl shut
          | inr alive ↦ inr (told i alive)
        ],
      )

  -- In every reachable state a `broadcast` under way either ends by steps of its own session, one
  -- for each client and one for the mutex, if each write returns, and then has written the message
  -- to each open socket as often as it had still to, freed the mutex and gone on; or another
  -- session of the same thread has blocked that thread in a call of the room. So each ends where no
  -- two sessions share a thread.
  pub broadcast_ends :
      (b : Sending) (s : Sessions)
      → SessionSteps thread_of no_sessions s
      → s.mutex ≡ some b
      → CanEnd b s ⊎ ((j : ℕ) × BlockedBy thread_of j b.by s)
  broadcast_ends b s reached held = elim (run_or_blocked thread_of b.by s reached) [
    | inl free ↦ inl (free-CanEnd b s reached held free)
    | inr blocked ↦ inr blocked
  ]
