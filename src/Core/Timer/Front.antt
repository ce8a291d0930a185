-- ===== src/Core/Timer/Front.antt =====
-- The front of the timer heap is an entry that expires first.
use coroutine_http.Prelude.{
  ℕ, zero, suc, ◌-◌, ◌/◌, ◌≤◌, ◌<◌, ◌≡◌, refl, some, List, [], ◌∷◌, get_elem?, length, arith,
}
use coroutine_http.Core.Timer.{TimerEntry, IsHeap}

get_elem?_lt {ℓ} : {A : Type ℓ} (l : List A) (i : ℕ) {e : A} → get_elem? l i ≡ some e → i < length l
get_elem?_lt [] i h = ground arith
get_elem?_lt (x ∷ l) zero h = omega arith
get_elem?_lt (x ∷ l) (suc i) h = omega (arith, get_elem?_lt l i h)

get_elem?-some {ℓ} :
    {A : Type ℓ} (l : List A) (i : ℕ) → i < length l → (e : A) × (get_elem? l i ≡ some e)
get_elem?-some [] i h = absurd (omega arith)
get_elem?-some (x ∷ l) zero h = (x, refl)
get_elem?-some (x ∷ l) (suc i) h = get_elem?-some l i (omega arith)

-- By induction along the parents, whose indices fall.
front_le_at :
    (fuel i : ℕ) (f e : TimerEntry) (l : List TimerEntry)
    → i < fuel
    → IsHeap (f ∷ l)
    → get_elem? (f ∷ l) i ≡ some e
    → f.expire_ms ≤ e.expire_ms
front_le_at zero i f e l small heap h = absurd (omega arith)
front_le_at (suc fuel) zero f e l small heap h = let same : f ≡ e = ground arith in ground arith
front_le_at (suc fuel) (suc i) f e l small heap h =
    let inside = get_elem?_lt (f ∷ l) (suc i) h in
    let (p, hp) = get_elem?-some (f ∷ l) ((suc i - 1) / 2) (omega arith) in
    let below = front_le_at fuel ((suc i - 1) / 2) f p l (omega arith) heap hp in
    omega (arith, heap (suc i) p e (omega arith) hp h)

pub front_le :
    (i : ℕ) (f e : TimerEntry) (l : List TimerEntry)
    → IsHeap (f ∷ l)
    → get_elem? (f ∷ l) i ≡ some e
    → f.expire_ms ≤ e.expire_ms
front_le i f e l heap h = front_le_at (suc i) i f e l (omega arith) heap h
