-- ===== src/Core/Timer.antt =====
-- The timer heap of core/coroutine.h and core/coroutine.cpp: `TimerEntry`, and what the source uses of
-- `std::push_heap` and `std::pop_heap`.
pub mod Front
pub mod Sorted
use coroutine_http.Prelude.{
  ℕ, ◌-◌, ◌/◌, ◌≤◌, ◌<◌, ◌≡◌, Bool, some, List, [], ◌∷◌, ◌++◌, get_elem?, count_if,
}

-- `co` points to the coroutine that sleeps.
pub record TimerEntry : Type 0 where
  pub expire_ms : ℕ
  pub co : ℕ

-- `std::is_heap` under `a.expire_ms > b.expire_ms`: no entry expires before its parent.
abbrev pub IsHeap : List TimerEntry → Type 0
IsHeap l =
    (i : ℕ) (p e : TimerEntry)
    → 0 < i
    → get_elem? l ((i - 1) / 2) ≡ some p
    → get_elem? l i ≡ some e
    → p.expire_ms ≤ e.expire_ms

-- The same entries, each as often.
abbrev pub SameEntries : List TimerEntry → List TimerEntry → Type 0
SameEntries l m = (test : TimerEntry → Bool) → count_if test l ≡ count_if test m

-- The algorithms of the standard library, over the whole vector, with what they promise: each
-- permutes it; `push_heap` takes the last entry into the heap before it; `pop_heap` moves the first
-- entry of a heap to the end, behind a heap of the others.
pub record HeapOps : Type 0 where
  pub push_heap : List TimerEntry → List TimerEntry
  pub pop_heap : List TimerEntry → List TimerEntry
  pub push_heap-IsHeap :
      (l : List TimerEntry) (e : TimerEntry) → IsHeap l → IsHeap (push_heap (l ++ e ∷ []))
  pub push_heap-same : (l : List TimerEntry) → SameEntries (push_heap l) l
  pub pop_heap_lem :
      (e : TimerEntry) (l : List TimerEntry)
      → IsHeap (e ∷ l)
      → (m : List TimerEntry) × (pop_heap (e ∷ l) ≡ m ++ e ∷ []) × IsHeap m × SameEntries m l
