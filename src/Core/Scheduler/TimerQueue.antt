-- ===== src/Core/Scheduler/TimerQueue.antt =====
-- The timers of a scheduler (core/coroutine.cpp) without the order of the heap's vector: a bag of
-- entries, as the quotient of the vectors by the order.
use mathlib.Core.Quot
use mathlib.Core.Quot.{Quot, Quot-set}
use coroutine_http.Prelude.{
  ℕ, suc, ◌≡◌, ◌⊎◌, inl, inr, refl, sym, ap, ◌∙◌, Bool, not, ◌&&◌, some, List, [], ◌∷◌, ◌++◌,
  count_if, count_if-append, ltb, leb, if◌then◌else◌, arith,
}
use coroutine_http.Core.Timer.{TimerEntry, IsHeap, SameEntries, HeapOps}
use coroutine_http.Core.Scheduler.{Scheduler, push_timer, pop_timer, fire_timers}
use coroutine_http.Core.Scheduler.Timers.{
  NoneBefore, Due, front-NoneBefore, pop_timer_lem, fire_timers-Fires,
}

abbrev pub Timers : Type 0
Timers = Quot SameEntries

abbrev pub of_entries : List TimerEntry → Timers
of_entries = Quot.mk

abbrev pub timers_of : Scheduler → Timers
timers_of s = of_entries s.timer_heap

-- How many entries pass a test.
pub count_of : (TimerEntry → Bool) → Timers → ℕ
count_of test = Quot.lift (hlevel) (count_if test) λ l m h. h test

pub add : TimerEntry → Timers → Timers
add e =
    Quot.lift Quot-set (λ l. of_entries (e ∷ l)) λ l m h. Quot.sound λ test. omega (arith, h test)

abbrev keep : (TimerEntry → Bool) → List TimerEntry → List TimerEntry
keep p [] = []
keep p (e ∷ l) = if p e then e ∷ keep p l else keep p l

count_if-keep :
    (test p : TimerEntry → Bool) (l : List TimerEntry)
    → count_if test (keep p l) ≡ count_if (λ e. test e && p e) l
count_if-keep test p [] = refl
count_if-keep test p (e ∷ l) = ground (arith, count_if-keep test p l)

abbrev late : ℕ → TimerEntry → Bool
late now e = not (leb e.expire_ms now)

-- The entries that are not due.
pub not_due : ℕ → Timers → Timers
not_due now =
    Quot.lift Quot-set (λ l. of_entries (keep (late now) l))
      λ l m h. Quot.sound λ test.
        count_if-keep test (late now) l
        ∙ h (λ e. test e && late now e)
        ∙ sym (count_if-keep test (late now) m)

none_late :
    (now : ℕ) (test : TimerEntry → Bool) (l : List TimerEntry)
    → Due now l
    → count_if (λ e. test e && late now e) l ≡ 0
none_late now test [] h = refl
none_late now test (e ∷ l) h = ground (arith, none_late now test l h.1)

all_late :
    (now : ℕ) (test : TimerEntry → Bool) (l : List TimerEntry)
    → NoneBefore (suc now) l
    → count_if (λ e. test e && late now e) l ≡ count_if test l
all_late now test [] h = refl
all_late now test (e ∷ l) h = ground (arith, all_late now test l)

module _ (ops : HeapOps) (s : Scheduler) (heap : IsHeap s.timer_heap) where
  pushed : (e : TimerEntry) → timers_of (push_timer ops e s) ≡ add e (timers_of s)
  unfolding push_timer add
  pushed e = Quot.sound λ test. omega (
    arith,
    ops.push_heap-same (s.timer_heap ++ e ∷ []) test,
    count_if-append test s.timer_heap (e ∷ []),
  )

  -- Some entry is taken, none expires before it, and the others are left, as a heap.
  abbrev pub Popped : Type 0
  Popped =
      (e : TimerEntry) × (t : Scheduler) × (pop_timer ops s ≡ some (e, t))
      × (timers_of s ≡ add e (timers_of t))
      × (count_of (λ d. ltb d.expire_ms e.expire_ms) (timers_of s) ≡ 0)
      × IsHeap t.timer_heap

  popped : (timers_of s ≡ of_entries []) ⊎ Popped
  unfolding add count_of
  popped = front s.timer_heap refl
    where
      front : (l : List TimerEntry) → s.timer_heap ≡ l → (timers_of s ≡ of_entries []) ⊎ Popped
      front [] e = inl (ap of_entries e)
      front (e ∷ l) h =
          let lheap : IsHeap (e ∷ l) = rw h at heap in
          let (m, here, mheap, same) = pop_timer_lem ops s e l h lheap in
          inr (
            e,
            record s { timer_heap = m },
            here,
            ap of_entries h ∙ Quot.sound (λ test. omega (arith, same test)),
            rw h (front-NoneBefore e l lheap),
            mheap,
          )

  fired : (now : ℕ) → timers_of (fire_timers ops now s).1 ≡ not_due now (timers_of s)
  unfolding not_due
  fired now =
      let (fs, n, f) = fire_timers-Fires ops now s heap in
      Quot.sound λ test.
        let left = all_late now test (fire_timers ops now s).1.timer_heap f.none_left in
        let gone = none_late now test fs f.due in
        let sum =
          count_if-append (λ e. test e && late now e) fs (fire_timers ops now s).1.timer_heap in
        let whole = f.conserved (λ e. test e && late now e) in
        omega (arith, left, gone, sum, whole, count_if-keep test (late now) s.timer_heap)

  -- Whatever the order of its vector, the timer heap is a bag from which the earliest entry is
  -- taken: `push_timer` adds its entry; where the bag is not empty, `pop_timer` takes out an entry
  -- before which none expires, and leaves a heap of the others; `fire_timers` leaves just the
  -- entries that are not due.
  pub timers_refine_bag :
      ((e : TimerEntry)
        → (timers_of (push_timer ops e s) ≡ add e (timers_of s))
          × IsHeap (push_timer ops e s).timer_heap)
      × ((timers_of s ≡ of_entries []) ⊎ Popped)
      × ((now : ℕ) → timers_of (fire_timers ops now s).1 ≡ not_due now (timers_of s))
  unfolding push_timer
  timers_refine_bag = (λ e. (pushed e, ops.push_heap-IsHeap s.timer_heap e heap), popped, fired)
