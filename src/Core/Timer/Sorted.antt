-- ===== src/Core/Timer/Sorted.antt =====
-- Heap algorithms that keep the vector sorted: they meet the promises of `HeapOps`, and run in tests.
use coroutine_http.Prelude.{
  ℕ, zero, suc, ◌-◌, ◌/◌, ◌≤◌, ◌<◌, ◌≡◌, refl, some, inl, inr, List, [], ◌∷◌, ◌++◌, get_elem?,
  count_if, leb, if◌then◌else◌, All, arith, Bool-cases,
}
use coroutine_http.Core.Timer.{TimerEntry, IsHeap, SameEntries, HeapOps}

abbrev insert_entry : TimerEntry → List TimerEntry → List TimerEntry
insert_entry e [] = e ∷ []
insert_entry e (f ∷ l) = if leb e.expire_ms f.expire_ms then e ∷ f ∷ l else f ∷ insert_entry e l

abbrev sort_entries : List TimerEntry → List TimerEntry
sort_entries [] = []
sort_entries (e ∷ l) = insert_entry e (sort_entries l)

abbrev pop_sorted : List TimerEntry → List TimerEntry
pop_sorted [] = []
pop_sorted (e ∷ l) = sort_entries l ++ e ∷ []

-- The first entry is a lower bound of the rest, and so on.
abbrev FromMin : ℕ → List TimerEntry → Type 0
FromMin n l = All (λ (e : TimerEntry). n ≤ e.expire_ms) l

abbrev IsSorted : List TimerEntry → Type 0
IsSorted [] = Unit {0}
IsSorted (e ∷ l) = FromMin e.expire_ms l × IsSorted l

insert_entry-FromMin :
    (n : ℕ) (e : TimerEntry) (l : List TimerEntry)
    → n ≤ e.expire_ms
    → FromMin n l
    → FromMin n (insert_entry e l)
insert_entry-FromMin n e [] h k = (h, tt)
insert_entry-FromMin n e (f ∷ l) h k = ground (arith, insert_entry-FromMin n e l h k.1)

FromMin-mono : {m n : ℕ} (l : List TimerEntry) → m ≤ n → FromMin n l → FromMin m l
FromMin-mono [] h k = tt
FromMin-mono (e ∷ l) h k = (omega arith, FromMin-mono l h k.1)

insert_entry-IsSorted :
    (e : TimerEntry) (l : List TimerEntry) → IsSorted l → IsSorted (insert_entry e l)
insert_entry-IsSorted e [] s = (tt, tt)
insert_entry-IsSorted e (f ∷ l) s = elim (Bool-cases (leb e.expire_ms f.expire_ms)) [
  | inl first ↦ rw first ((ground arith, FromMin-mono l (ground arith) s.0), s)
  | inr later ↦
      rw later
        (insert_entry-FromMin f.expire_ms e l (ground arith) s.0, insert_entry-IsSorted e l s.1)
]

sort_entries-IsSorted : (l : List TimerEntry) → IsSorted (sort_entries l)
sort_entries-IsSorted [] = tt
sort_entries-IsSorted (e ∷ l) = insert_entry-IsSorted e (sort_entries l) (sort_entries-IsSorted l)

pub sort_entries-same : (l : List TimerEntry) → SameEntries (sort_entries l) l
sort_entries-same [] test = refl
sort_entries-same (e ∷ l) test = insert_entry-same (sort_entries l) (sort_entries-same l test)
  where
    insert_entry-count :
        (m : List TimerEntry) → count_if test (insert_entry e m) ≡ count_if test (e ∷ m)
    insert_entry-count [] = refl
    insert_entry-count (f ∷ m) = ground (arith, insert_entry-count m)

    insert_entry-same :
        (m : List TimerEntry)
        → count_if test m ≡ count_if test l
        → count_if test (insert_entry e m) ≡ count_if test (e ∷ l)
    insert_entry-same m h = omega (arith, insert_entry-count m)

FromMin-at :
    (n : ℕ) (l : List TimerEntry) (i : ℕ) (e : TimerEntry)
    → FromMin n l
    → get_elem? l i ≡ some e
    → n ≤ e.expire_ms
FromMin-at n [] i e h k = ground arith
FromMin-at n (f ∷ l) zero e h k = let same : f ≡ e = ground arith in ground arith
FromMin-at n (f ∷ l) (suc i) e h k = FromMin-at n l i e h.1 k

sorted_at :
    (l : List TimerEntry) (j i : ℕ) (p e : TimerEntry)
    → IsSorted l
    → j < i
    → get_elem? l j ≡ some p
    → get_elem? l i ≡ some e
    → p.expire_ms ≤ e.expire_ms
sorted_at [] j i p e s lt hp he = ground arith
sorted_at (f ∷ l) j zero p e s lt hp he = absurd (omega arith)
sorted_at (f ∷ l) zero (suc i) p e s lt hp he =
    let same : f ≡ p = ground arith in let le = FromMin-at f.expire_ms l i e s.0 he in ground arith
sorted_at (f ∷ l) (suc j) (suc i) p e s lt hp he = sorted_at l j i p e s.1 (omega arith) hp he

sorted-IsHeap : (l : List TimerEntry) → IsSorted l → IsHeap l
sorted-IsHeap l s i p e positive hp he = sorted_at l ((i - 1) / 2) i p e s (omega arith) hp he

pub sort_entries-IsHeap :
    (l : List TimerEntry) (e : TimerEntry) → IsHeap l → IsHeap (sort_entries (l ++ e ∷ []))
sort_entries-IsHeap l e h = sorted-IsHeap _ (sort_entries-IsSorted (l ++ e ∷ []))

pub pop_sorted_lem :
    (e : TimerEntry) (l : List TimerEntry)
    → IsHeap (e ∷ l)
    → (m : List TimerEntry) × (pop_sorted (e ∷ l) ≡ m ++ e ∷ []) × IsHeap m × SameEntries m l
pop_sorted_lem e l h =
    (sort_entries l, refl, sorted-IsHeap _ (sort_entries-IsSorted l), sort_entries-same l)

abbrev pub sorted_heap : HeapOps
sorted_heap = record {
  push_heap = sort_entries;
  pop_heap = pop_sorted;
  push_heap-IsHeap = sort_entries-IsHeap;
  push_heap-same = sort_entries-same;
  pop_heap_lem = pop_sorted_lem;
}
