-- ===== src/Core/Threads/Dealing.antt =====
-- When `MultiScheduler::post` (core/coroutine.cpp) is defined, with all threads at work.
use coroutine_http.Prelude.{
  ℕ, zero, suc, ◌+◌, ◌%◌, ◌^◌, ◌<◌, ◌≤◌, ◌≡◌, ◌⊎◌, refl, sym, ap, ◌∙◌, inl, inr, false, some, List,
  [], ◌∷◌, ◌++◌, length, All, All-append, ◌==◌, Option-cases, Bool-cases, ltb, ltb→lt, arith, pos,
  to_int32,
}
use mathlib.Core.Path.{subst}
use mathlib.Core.Option.{some-injective}
use coroutine_http.Core.Timer.{HeapOps}
use coroutine_http.Core.System.{System, Move, posted, step}
use coroutine_http.Core.Multi.{rem}
use coroutine_http.Core.Threads.{
  Parcel, Threads, ThreadMove, moves, draws, delivers, draw, pick, step_nth, move_thread, deliver,
  thread_step, Onward, here, next,
}
use coroutine_http.Core.Threads.Runs.{draw-some, move_thread-some, deliver-some}

-- `n` schedulers, after `d` tasks have been dealt.
pub record InRange (n d : ℕ) (t : Threads) : Type 0 where
  pub size : length t.systems ≡ n
  pub parcels : All (λ (p : Parcel). p.index < n) t.in_flight
  pub index : t.rr_index ≡ d

rem_small : (rr n : ℕ) → rr < 2 ^ 31 → rem (to_int32 rr) n ≡ pos (rr % n)
unfolding rem
rem_small rr n small =
    let same : to_int32 rr ≡ pos rr = unfold to_int32 in ground arith in ap (λ i. rem i n) same

mod_lt : (a n : ℕ) → 0 < n → a % n < n
mod_lt a n h = grind arith

rest_lt : (a m n i : ℕ) → m ≡ n → a % m ≡ i → 0 < n → i < n
rest_lt a m n i size same positive =
    subst (λ x. x < n) same (subst (λ x. a % m < x) size (mod_lt a m (omega arith)))

draw_defined :
    (n d task : ℕ) (t : Threads)
    → 0 < n
    → d < 2 ^ 31
    → InRange n d t
    → (u : Threads) × (draw task t ≡ some u)
unfolding draw
draw_defined n d task t some_thread small r =
    let size : (length t.systems == 0) ≡ false = ground (arith, r.size) in
    let rr : t.rr_index < 2 ^ 31 = omega (arith, r.index) in
    (
      record t {
        in_flight =
            t.in_flight ++ record { index = t.rr_index % length t.systems; task = task } ∷ [];
        rr_index = (t.rr_index + 1) % 2 ^ 32;
      },
      rw (size, rem_small t.rr_index (length t.systems) rr) refl,
    )

pick-All :
    (n k : ℕ) (ps qs : List Parcel) (p : Parcel)
    → All (λ (q : Parcel). q.index < n) ps
    → pick k ps ≡ some (p, qs)
    → (p.index < n) × All (λ (q : Parcel). q.index < n) qs
unfolding pick
pick-All n k [] qs p all h = absurd (ground arith)
pick-All n zero (q ∷ ps) qs p all h =
    let pair : (q, ps) ≡ (p, qs) = some-injective _ _ h in
    subst (λ (r : Parcel × List Parcel). (r.0.index < n) × All (λ (x : Parcel). x.index < n) r.1)
      pair all
pick-All n (suc k) (q ∷ ps) qs p all h = elim (Option-cases (pick k ps)) [
  | inl missing ↦ absurd (ground arith)
  | inr ((r, rs), picked) ↦
      let (small, others) = pick-All n k ps rs r all.1 picked in
      let pair : (r, q ∷ rs) ≡ (p, qs) = ground arith in
      subst (λ (x : Parcel × List Parcel). (x.0.index < n) × All (λ (y : Parcel). y.index < n) x.1)
        pair (small, (all.0, others))
]

pick_defined :
    (k : ℕ) (ps : List Parcel) → k < length ps → (r : Parcel × List Parcel) × (pick k ps ≡ some r)
unfolding pick
pick_defined k [] h = absurd (omega arith)
pick_defined zero (p ∷ ps) h = ((p, ps), refl)
pick_defined (suc k) (p ∷ ps) h =
    let (r, e) = pick_defined k ps (omega arith) in ((r.0, p ∷ r.1), rw e refl)

module _ (ops : HeapOps) where
  step_nth-length :
      (i : ℕ) (m : Move) (ss ts : List System)
      → step_nth ops i m ss ≡ some ts
      → length ts ≡ length ss
  unfolding step_nth
  step_nth-length i m [] ts h = absurd (ground arith)
  step_nth-length zero m (s ∷ ss) ts h = ground arith
  step_nth-length (suc i) m (s ∷ ss) ts h = elim (Option-cases (step_nth ops i m ss)) [
    | inl stuck ↦ absurd (ground arith)
    | inr (us, moved) ↦ ground (arith, step_nth-length i m ss us moved)
  ]

  post_defined :
      (f i : ℕ) (ss : List System)
      → i < length ss
      → (ts : List System) × (step_nth ops i (posted f) ss ≡ some ts)
  unfolding step_nth step
  post_defined f i [] h = absurd (omega arith)
  post_defined f zero (s ∷ ss) h = (_, refl)
  post_defined f (suc i) (s ∷ ss) h =
      let (ts, e) = post_defined f i ss (omega arith) in (s ∷ ts, rw e refl)

  deliver_lem :
      (k : ℕ) (t : Threads) (p : Parcel) (ps : List Parcel) (ss : List System)
      → pick k t.in_flight ≡ some (p, ps)
      → step_nth ops p.index (posted p.task) t.systems ≡ some ss
      → deliver ops k t ≡ some (record t { systems = ss; in_flight = ps })
  unfolding deliver move_thread
  deliver_lem k t p ps ss picked moved = rw (picked, deliver) (rw (moved, move_thread) refl)

  deliver_defined :
      (n d k : ℕ) (t : Threads)
      → k < length t.in_flight
      → InRange n d t
      → (u : Threads) × (deliver ops k t ≡ some u)
  deliver_defined n d k t h r =
      let ((p, ps), picked) = pick_defined k t.in_flight h in
      let small = (pick-All n k t.in_flight ps p r.parcels picked).0 in
      let (ss, moved) = post_defined p.task p.index t.systems (omega (arith, r.size)) in
      (record t { systems = ss; in_flight = ps }, deliver_lem k t p ps ss picked moved)

  -- How many tasks the moves have dealt.
  abbrev pub drawn_by : ThreadMove → ℕ
  drawn_by (draws task) = 1
  drawn_by m = 0

  abbrev pub drawn : {s t : Threads} → Onward ops s t → ℕ
  drawn here = 0
  drawn (next m before h) = drawn_by m + drawn before

  thread_step-InRange :
      (m : ThreadMove) (n d : ℕ) (t u : Threads)
      → thread_step ops m t ≡ some u
      → 0 < n
      → drawn_by m + d ≤ 2 ^ 31
      → InRange n d t
      → InRange n (drawn_by m + d) u
  unfolding thread_step
  thread_step-InRange (moves i m) n d t u h some_thread small r =
      let (ss, moved, e) = move_thread-some ops i m t u h in
      subst (InRange n (0 + d)) (sym e) (record {
        size = step_nth-length i m t.systems ss moved ∙ r.size;
        parcels = r.parcels;
        index = omega (arith, r.index);
      })
  thread_step-InRange (draws task) n d t u h some_thread small r =
      let (index, chosen, e) = draw-some task t u h in
      let here : pos (t.rr_index % length t.systems) ≡ pos index =
        sym (rem_small t.rr_index (length t.systems) (omega (arith, r.index))) ∙ chosen in
      let same : t.rr_index % length t.systems ≡ index = ground arith in
      let inside : index < n =
        rest_lt t.rr_index (length t.systems) n index r.size same some_thread in
      subst (InRange n (1 + d)) (sym e) (record {
        size = r.size;
        parcels = All-append (λ (p : Parcel). p.index < n) t.in_flight _ r.parcels (inside, tt);
        index = omega (arith, r.index);
      })
  thread_step-InRange (delivers k) n d t u h some_thread small r =
      let (p, ps, ss, picked, moved, e) = deliver-some ops k t u h in
      subst (InRange n (0 + d)) (sym e) (record {
        size = step_nth-length p.index (posted p.task) t.systems ss moved ∙ r.size;
        parcels = (pick-All n k t.in_flight ps p r.parcels picked).1;
        index = omega (arith, r.index);
      })

  onward-InRange :
      (n : ℕ) (s t : Threads) (run : Onward ops s t)
      → 0 < n
      → drawn run ≤ 2 ^ 31
      → InRange n 0 s
      → InRange n (drawn run) t
  onward-InRange n s t here some_thread small r = r
  onward-InRange n s t (next m before h) some_thread small r =
      thread_step-InRange m n (drawn before) _ t h some_thread small
        (onward-InRange n s _ before some_thread (omega arith) r)

  -- From a state in which there is a scheduler, no task has been dealt and none is in flight: while
  -- fewer than 2^31 tasks have been dealt, whatever the threads do, the next `post` is defined, and
  -- so is the delivery of each task in flight.
  pub dealing_defined :
      (n : ℕ) (s t : Threads) (run : Onward ops s t)
      → InRange n 0 s
      → 0 < n
      → drawn run < 2 ^ 31
      → ((task : ℕ) → (u : Threads) × (draw task t ≡ some u))
        × ((k : ℕ) → (length t.in_flight ≤ k) ⊎ ((u : Threads) × (deliver ops k t ≡ some u)))
  dealing_defined n s t run r some_thread small =
      let after = onward-InRange n s t run some_thread (omega arith) r in
      (
        λ task. draw_defined n (drawn run) task t some_thread small after,
        λ k. elim (Bool-cases (ltb k (length t.in_flight))) [
          | inl inside ↦ inr (deliver_defined n (drawn run) k t (ltb→lt _ _ inside) after)
          | inr behind ↦ inl (ground arith)
        ],
      )
