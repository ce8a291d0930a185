-- ===== src/Core/Scheduler/Timers.antt =====
-- `fire_timers` of core/coroutine.cpp.
use coroutine_http.Prelude.{
  ℕ, zero, suc, ◌+◌, ◌≤◌, ◌≡◌, refl, sym, ap, ◌∙◌, true, false, some, inl, inr, List, [], ◌∷◌, ◌++◌,
  append_assoc, append-nil, map, length, get_elem?, count_if, count_if-append, ltb, leb, All, arith,
  Bool-cases, leb→le,
}
use coroutine_http.Core.Timer.{TimerEntry, IsHeap, SameEntries, HeapOps}
use coroutine_http.Core.Timer.Front.{front_le}
use coroutine_http.Core.Scheduler.{
  Scheduler, split_back, is_due, pop_timer, make_ready, fire_loop, fire_timers,
}

-- No entry expires before `n`.
abbrev pub NoneBefore : ℕ → List TimerEntry → Type 0
NoneBefore n l = count_if (λ e. ltb e.expire_ms n) l ≡ 0

NoneBefore-at :
    (n : ℕ) (l : List TimerEntry)
    → ((i : ℕ) (e : TimerEntry) → get_elem? l i ≡ some e → n ≤ e.expire_ms)
    → NoneBefore n l
NoneBefore-at n [] h = refl
NoneBefore-at n (e ∷ l) h = ground (arith, h 0 e refl, NoneBefore-at n l (λ i f k. h (suc i) f k))

pub front-NoneBefore :
    (e : TimerEntry) (l : List TimerEntry) → IsHeap (e ∷ l) → NoneBefore e.expire_ms (e ∷ l)
front-NoneBefore e l h = NoneBefore-at e.expire_ms (e ∷ l) (λ i f k. front_le i e f l h k)

NoneBefore-mono : (m n : ℕ) (l : List TimerEntry) → m ≤ n → NoneBefore n l → NoneBefore m l
NoneBefore-mono m n [] h k = refl
NoneBefore-mono m n (e ∷ l) h k = ground (arith, NoneBefore-mono m n l h)

abbrev pub From : ℕ → List TimerEntry → Type 0
From n l = All (λ (e : TimerEntry). n ≤ e.expire_ms) l

NoneBefore-From : (n : ℕ) (l : List TimerEntry) → NoneBefore n l → From n l
NoneBefore-From n [] h = tt
NoneBefore-From n (e ∷ l) h = ground (arith, NoneBefore-From n l)

-- In the order in which they expire.
abbrev pub IsOrdered : List TimerEntry → Type 0
IsOrdered [] = Unit {0}
IsOrdered (e ∷ l) = From e.expire_ms l × IsOrdered l

abbrev pub Due : ℕ → List TimerEntry → Type 0
Due now l = All (λ (e : TimerEntry). e.expire_ms ≤ now) l

-- Firing timers touches neither the waiting coroutines nor what other threads have posted.
abbrev pub OnlyTimers : Scheduler → Scheduler → Type 0
OnlyTimers s t =
    (t.waiting_map ≡ s.waiting_map)
    × (t.running_coro ≡ s.running_coro)
    × (t.post_queue ≡ s.post_queue)
    × (t.interest ≡ s.interest)
    × (t.next_id ≡ s.next_id)
    × (t.deleted ≡ s.deleted)

-- The entries `fired` have gone from the timer heap of `s` into the ready queue of `t`.
pub record Fires (now : ℕ) (fired : List TimerEntry) (s t : Scheduler) : Type 0 where
  pub woken : t.ready_queue ≡ s.ready_queue ++ map (λ (e : TimerEntry). e.co) fired
  pub due : Due now fired
  pub ordered : IsOrdered fired
  pub none_left : NoneBefore (suc now) t.timer_heap
  pub conserved : SameEntries (fired ++ t.timer_heap) s.timer_heap
  pub heap : IsHeap t.timer_heap
  pub kept : OnlyTimers s t

split_back-append : (m : List TimerEntry) (e : TimerEntry) → split_back (m ++ e ∷ []) ≡ some (e, m)
unfolding split_back
split_back-append [] e = refl
split_back-append (f ∷ m) e = ground (arith, split_back-append m e)

length-count_if : (l : List TimerEntry) → length l ≡ count_if (λ e. true) l
length-count_if [] = refl
length-count_if (e ∷ l) = omega (arith, length-count_if l)

module _ (ops : HeapOps) where
  pub pop_timer_lem :
      (s : Scheduler) (e : TimerEntry) (l : List TimerEntry)
      → s.timer_heap ≡ e ∷ l
      → IsHeap (e ∷ l)
      → (m : List TimerEntry) × (pop_timer ops s ≡ some (e, record s { timer_heap = m }))
        × IsHeap m
        × SameEntries m l
  unfolding pop_timer
  pop_timer_lem s e l h heap =
      let (m, same, mheap, entries) = ops.pop_heap_lem e l heap in
      (m, ground (arith, same, h, split_back-append m e), mheap, entries)

  -- The entry that a round has fired comes first.
  Fires-cons :
      (now : ℕ) (fired : List TimerEntry) (s t : Scheduler) (e : TimerEntry) (l m : List TimerEntry)
      → s.timer_heap ≡ e ∷ l
      → IsHeap (e ∷ l)
      → SameEntries m l
      → e.expire_ms ≤ now
      → Fires now fired (make_ready e.co (record s { timer_heap = m })) t
      → Fires now (e ∷ fired) s t
  unfolding make_ready
  Fires-cons now fired s t e l m h heap same due f = record {
    woken = f.woken ∙ append_assoc s.ready_queue (e.co ∷ []) _;
    due = (due, f.due);
    ordered = (NoneBefore-From e.expire_ms fired first, f.ordered);
    none_left = f.none_left;
    conserved = λ test. rw h (omega (arith, f.conserved test, same test));
    heap = f.heap;
    kept = f.kept;
  }
    where
      later : NoneBefore e.expire_ms (fired ++ t.timer_heap)
      later =
          f.conserved (λ d. ltb d.expire_ms e.expire_ms)
          ∙ same (λ d. ltb d.expire_ms e.expire_ms)
          ∙ ground (arith, front-NoneBefore e l heap)

      first : NoneBefore e.expire_ms fired
      first =
          omega
            (arith, later, count_if-append (λ d. ltb d.expire_ms e.expire_ms) fired t.timer_heap)

  nothing_due :
      (now : ℕ) (l : List TimerEntry) → IsHeap l → is_due now l ≡ false → NoneBefore (suc now) l
  nothing_due now [] heap h = refl
  nothing_due now (e ∷ l) heap h =
      NoneBefore-mono (suc now) e.expire_ms (e ∷ l) (ground arith) (front-NoneBefore e l heap)

  Fires-nil :
      (now : ℕ) (s : Scheduler)
      → IsHeap s.timer_heap
      → is_due now s.timer_heap ≡ false
      → Fires now [] s s
  Fires-nil now s heap h = record {
    woken = sym (append-nil s.ready_queue);
    due = tt;
    ordered = tt;
    none_left = nothing_due now s.timer_heap heap h;
    conserved = λ test. refl;
    heap = heap;
    kept = (refl, refl, refl, refl, refl, refl);
  }

  abbrev Fired : ℕ → ℕ → Scheduler → ℕ × Scheduler → Type 0
  Fired now count s r =
      (fired : List TimerEntry) × (r.0 ≡ count + length fired) × Fires now fired s r.1

  fire_loop_done :
      (fuel now count : ℕ) (s : Scheduler)
      → IsHeap s.timer_heap
      → is_due now s.timer_heap ≡ false
      → Fired now count s (fire_loop ops fuel now count s)
  unfolding fire_loop
  fire_loop_done zero now count s heap h = ([], omega arith, Fires-nil now s heap h)
  fire_loop_done (suc fuel) now count s heap h =
      rw (h, fire_loop) ([], omega arith, Fires-nil now s heap h)

  fire_loop_step :
      (fuel now count : ℕ) (s u : Scheduler) (e : TimerEntry)
      → is_due now s.timer_heap ≡ true
      → pop_timer ops s ≡ some (e, u)
      → fire_loop ops (suc fuel) now count s
        ≡ fire_loop ops fuel now (suc count) (make_ready e.co u)
  unfolding fire_loop
  fire_loop_step fuel now count s u e h k = rw (h, fire_loop) (rw (k, fire_loop) refl)

  Fired-cons :
      (now count : ℕ) (s : Scheduler) (e : TimerEntry) (l m : List TimerEntry) (r : ℕ × Scheduler)
      → s.timer_heap ≡ e ∷ l
      → IsHeap (e ∷ l)
      → SameEntries m l
      → e.expire_ms ≤ now
      → Fired now (suc count) (make_ready e.co (record s { timer_heap = m })) r
      → Fired now count s r
  Fired-cons now count s e l m r h heap same due (fired, n, f) =
      (e ∷ fired, omega arith, Fires-cons now fired s r.1 e l m h heap same due f)

  fire_loop-Fired :
      (fuel now count : ℕ) (s : Scheduler)
      → length s.timer_heap ≤ fuel
      → IsHeap s.timer_heap
      → Fired now count s (fire_loop ops fuel now count s)
  unfolding make_ready
  fire_loop-Fired zero now count s small heap =
      fire_loop_done zero now count s heap (empty s.timer_heap small)
    where
      empty : (l : List TimerEntry) → length l ≤ 0 → is_due now l ≡ false
      empty [] h = refl
      empty (e ∷ l) h = absurd (omega arith)
  fire_loop-Fired (suc fuel) now count s small heap =
      round s.timer_heap refl (λ u short uheap. fire_loop-Fired fuel now (suc count) u short uheap)
    where
      round :
          (l : List TimerEntry)
          → s.timer_heap ≡ l
          → ((u : Scheduler)
              → length u.timer_heap ≤ fuel
              → IsHeap u.timer_heap
              → Fired now (suc count) u (fire_loop ops fuel now (suc count) u))
          → Fired now count s (fire_loop ops (suc fuel) now count s)
      round [] h next = fire_loop_done (suc fuel) now count s heap (rw h refl)
      round (e ∷ l) h next = elim (Bool-cases (leb e.expire_ms now)) [
        | inr early ↦ fire_loop_done (suc fuel) now count s heap (rw h early)
        | inl due ↦
            let lheap : IsHeap (e ∷ l) = rw h at heap in
            let (m, popped, mheap, same) = pop_timer_lem s e l h lheap in
            let size : length m ≡ length l =
              length-count_if m ∙ same (λ d. true) ∙ sym (length-count_if l) in
            let rest =
              next (make_ready e.co (record s { timer_heap = m })) (omega (arith, ap length h))
                mheap in
            rw (fire_loop_step fuel now count s (record s { timer_heap = m }) e (rw h due) popped)
              (Fired-cons now count s e l m _ h lheap same (leb→le _ _ due) rest)
      ]

  -- At any time and in any state whose timers form a heap: `fire_timers` moves coroutines from the
  -- timers to the back of the ready queue, as many as it reports, in the order in which they
  -- expire; each of them is due, none that is due is left, no entry is lost or made up, what is
  -- left is a heap, and nothing else of the scheduler's queues changes.
  pub fire_timers-Fires :
      (now : ℕ) (s : Scheduler)
      → IsHeap s.timer_heap
      → (fired : List TimerEntry) × ((fire_timers ops now s).0 ≡ length fired)
        × Fires now fired s (fire_timers ops now s).1
  unfolding fire_timers
  fire_timers-Fires now s heap =
      let (fired, n, f) = fire_loop-Fired (length s.timer_heap) now 0 s (omega arith) heap in
      (fired, omega arith, f)
