-- ===== src/Core/Multi/Rounds.antt =====
-- How `MultiScheduler::post` (core/coroutine.cpp) deals out tasks.
use coroutine_http.Prelude.{
  ℕ, zero, suc, ◌+◌, ◌-◌, ◌*◌, ◌%◌, ◌^◌, ◌≤◌, ◌<◌, ◌≡◌, ◌≢◌, refl, sym, ap, ◌∙◌, inl, inr, false,
  none, some, List, [], ◌∷◌, length, length-append, ltb, ◌==◌, arith, Bool-cases, ltb→lt, pos,
  negsuc, to_int32,
}
use coroutine_http.Core.Scheduler
use coroutine_http.Core.Scheduler.{Scheduler, new_scheduler}
use coroutine_http.Core.Multi.{
  MultiScheduler, replicate_scheduler, new_multi, rem, post_at, post_index, post, post_all,
  low_half, high_half, join_halves,
}

-- The pointer that `co_entry` uses is the one that the constructor of the coroutine has split.
pub join_halves-split : (ptr : ℕ) → ptr < 2 ^ 64 → join_halves (low_half ptr) (high_half ptr) ≡ ptr
unfolding join_halves low_half high_half
join_halves-split ptr h = omega arith

-- How many tasks have been posted to each scheduler and not yet taken.
abbrev pub loads : List Scheduler → List ℕ
loads [] = []
loads (s ∷ ss) = length s.post_queue ∷ loads ss

-- The loads after `q` whole rounds and `r` tasks of the next: the first `r` schedulers have one more.
abbrev pub dealt : ℕ → ℕ → ℕ → List ℕ
dealt zero q r = []
dealt (suc n) q zero = q ∷ dealt n q zero
dealt (suc n) q (suc r) = suc q ∷ dealt n q r

length-loads : (ss : List Scheduler) → length (loads ss) ≡ length ss
length-loads [] = refl
length-loads (s ∷ ss) = ap suc (length-loads ss)

length-dealt : (n q r : ℕ) → length (dealt n q r) ≡ n
length-dealt zero q r = refl
length-dealt (suc n) q zero = ap suc (length-dealt n q zero)
length-dealt (suc n) q (suc r) = ap suc (length-dealt n q r)

dealt_full : (n q : ℕ) → dealt n q n ≡ dealt n (suc q) 0
dealt_full zero q = refl
dealt_full (suc n) q = ap (◌∷◌ (suc q)) (dealt_full n q)

post_at-dealt :
    (f n q r : ℕ) (ss : List Scheduler)
    → loads ss ≡ dealt n q r
    → r < n
    → (ts : List Scheduler) × (post_at f r ss ≡ some ts) × (loads ts ≡ dealt n q (suc r))
unfolding post_at
post_at-dealt f zero q r ss h lt = absurd (omega arith)
post_at-dealt f (suc n) q zero [] h lt = absurd (ground arith)
post_at-dealt f (suc n) q (suc r) [] h lt = absurd (ground arith)
post_at-dealt f (suc n) q zero (s ∷ ss) h lt = (
  Scheduler.post f s ∷ ss,
  refl,
  unfold Scheduler.post in ground (arith, length-append s.post_queue (f ∷ [])),
)
post_at-dealt f (suc n) q (suc r) (s ∷ ss) h lt =
    let (ts, e, k) = post_at-dealt f n q r ss (ground arith) (omega arith) in
    (s ∷ ts, rw (e, post_at) refl, ground arith)

-- After `q` whole rounds and `r` tasks of the next.
record Dealt (n q r : ℕ) (ms : MultiScheduler) : Type 0 where
  shares : loads ms.schedulers ≡ dealt n q r
  index : ms.rr_index ≡ q * n + r
  inside : r < n

Dealt-length : {n q r : ℕ} {ms : MultiScheduler} → Dealt n q r ms → length ms.schedulers ≡ n
Dealt-length {n} {q} {r} {ms} d =
    sym (length-loads ms.schedulers) ∙ ap length d.shares ∙ length-dealt n q r

mod_of_round : (n q r : ℕ) → r < n → (q * n + r) % n ≡ r
mod_of_round n q r h = grind arith

positive_index :
    (f n rr : ℕ) (ss : List Scheduler)
    → rr < 2 ^ 31
    → post_index f (rem (to_int32 rr) n) ss ≡ post_at f (rr % n) ss
unfolding post_index rem
positive_index f n rr ss small =
    let same : to_int32 rr ≡ pos rr = unfold to_int32 in ground arith in
    ap (λ i. post_index f (rem i n) ss) same

negative_index :
    (f n rr : ℕ) (ss : List Scheduler)
    → 2 ^ 31 ≤ rr
    → rr < 2 ^ 32
    → (2 ^ 32 - rr) % n ≢ 0
    → post_index f (rem (to_int32 rr) n) ss ≡ none
unfolding post_index rem
negative_index f n rr ss lo hi odd =
    let same : to_int32 rr ≡ negsuc (2 ^ 32 - 1 - rr) = unfold to_int32 in ground arith in
    let next : suc (2 ^ 32 - 1 - rr) ≡ 2 ^ 32 - rr = omega arith in
    let some_left : suc (2 ^ 32 - 1 - rr) % n ≢ 0 = λ e. odd (ap (λ x. x % n) (sym next) ∙ e) in
    ap (λ i. post_index f (rem i n) ss) same ∙ ground arith

post-some :
    (f : ℕ) (ms : MultiScheduler) (ts : List Scheduler)
    → (length ms.schedulers == 0) ≡ false
    → post_index f (rem (to_int32 ms.rr_index) (length ms.schedulers)) ms.schedulers ≡ some ts
    → post f ms ≡ some (record { schedulers = ts; rr_index = (ms.rr_index + 1) % 2 ^ 32 })
unfolding post
post-some f ms ts size e = ground arith

post-none :
    (f : ℕ) (ms : MultiScheduler)
    → post_index f (rem (to_int32 ms.rr_index) (length ms.schedulers)) ms.schedulers ≡ none
    → post f ms ≡ none
unfolding post
post-none f ms e = ground arith

post-Dealt :
    (f n q r : ℕ) (ms : MultiScheduler)
    → Dealt n q r ms
    → ms.rr_index < 2 ^ 31
    → (ns : MultiScheduler) × (post f ms ≡ some ns)
      × (loads ns.schedulers ≡ dealt n q (suc r))
      × (ns.rr_index ≡ q * n + suc r)
post-Dealt f n q r ms d small =
    let (ts, e, k) = post_at-dealt f n q r ms.schedulers d.shares d.inside in
    let size = Dealt-length d in
    let here : ms.rr_index % length ms.schedulers ≡ r =
      ap (λ x. ms.rr_index % x) size ∙ ap (λ x. x % n) d.index ∙ mod_of_round n q r d.inside in
    (
      record { schedulers = ts; rr_index = (ms.rr_index + 1) % 2 ^ 32 },
      post-some f ms ts (ground (arith, size, d.inside)) (
          positive_index f (length ms.schedulers) ms.rr_index ms.schedulers small
          ∙ ap (λ i. post_at f i ms.schedulers) here
          ∙ e),
      k,
      omega (arith, d.index),
    )

round_full : (n q r : ℕ) → suc r ≡ n → q * n + suc r ≡ suc q * n + 0
round_full n q r e = grind arith

post_all-Dealt :
    (fs : List ℕ) (n q r : ℕ) (ms : MultiScheduler)
    → Dealt n q r ms
    → ms.rr_index + length fs ≤ 2 ^ 31
    → (ns : MultiScheduler) × (a : ℕ) × (b : ℕ) × (post_all fs ms ≡ some ns)
      × Dealt n a b ns
      × (ns.rr_index ≡ ms.rr_index + length fs)
unfolding post_all
post_all-Dealt [] n q r ms d small = (ms, q, r, refl, d, omega arith)
post_all-Dealt (f ∷ fs) n q r ms d small =
    let (ns, e, shares, index) = post-Dealt f n q r ms d (omega arith) in
    elim (Bool-cases (ltb (suc r) n)) [
      | inl more ↦
          let (os, a, b, k, d', i) =
            post_all-Dealt fs n q (suc r) ns
              (record { shares = shares; index = index; inside = ltb→lt _ _ more })
              (omega (arith, index, d.index)) in
          (os, a, b, rw (e, post_all) k, d', omega (arith, i, index, d.index))
      | inr last ↦
          let whole : suc r ≡ n = ground (arith, d.inside) in
          let (os, a, b, k, d', i) =
            post_all-Dealt fs n (suc q) 0 ns
              (record {
                shares = shares ∙ ap (dealt n q) whole ∙ dealt_full n q;
                index = index ∙ round_full n q r whole;
                inside = omega (arith, d.inside);
              })
              (omega (arith, index, d.index)) in
          (os, a, b, rw (e, post_all) k, d', omega (arith, i, index, d.index))
    ]

dealt_nothing : (n : ℕ) → loads (replicate_scheduler n) ≡ dealt n 0 0
unfolding replicate_scheduler
dealt_nothing zero = refl
dealt_nothing (suc n) = ap (◌∷◌ 0) (dealt_nothing n)

-- The first 2^31 tasks are dealt out evenly: on `n` schedulers, at least one, after any number of
-- tasks, that is `q` whole rounds and `r` more, the first `r` schedulers have been given `q + 1`
-- tasks and the others `q`.
pub post_all_even :
    (fs : List ℕ) (n : ℕ)
    → 0 < n
    → length fs ≤ 2 ^ 31
    → (ms : MultiScheduler) × (q : ℕ) × (r : ℕ) × (post_all fs (new_multi n) ≡ some ms)
      × (length fs ≡ q * n + r)
      × (r < n)
      × (loads ms.schedulers ≡ dealt n q r)
unfolding new_multi
post_all_even fs n h small =
    let (ms, q, r, e, d, i) =
      post_all-Dealt fs n 0 0 (new_multi n)
        (record { shares = dealt_nothing n; index = omega arith; inside = h }) (omega arith) in
    (ms, q, r, e, omega (arith, d.index, i), d.inside, d.shares)

-- Then the `int` wraps: with the sign bit of the counter set, and a number of schedulers that does
-- not divide its distance from 2^32, the index is negative, and `post` reads outside the vector.
pub post_wraps :
    (f : ℕ) (ms : MultiScheduler)
    → 2 ^ 31 ≤ ms.rr_index
    → ms.rr_index < 2 ^ 32
    → (2 ^ 32 - ms.rr_index) % length ms.schedulers ≢ 0
    → post f ms ≡ none
post_wraps f ms lo hi odd =
    post-none f ms (negative_index f (length ms.schedulers) ms.rr_index ms.schedulers lo hi odd)
