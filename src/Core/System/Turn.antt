-- ===== src/Core/System/Turn.antt =====
-- Every ready coroutine of `Scheduler::run` (core/coroutine.cpp) gets its turn.
use coroutine_http.Prelude.{
  ℕ, suc, ◌+◌, ◌≤◌, ◌≡◌, refl, sym, ap, ◌∙◌, inl, inr, some, List, [], ◌∷◌, ◌++◌, append_assoc,
  length, drop, count_if, if◌then◌else◌, Option-cases, arith,
}
use Prim.Native.Nat.add
use mathlib.Core.Path.{ap₂}
use coroutine_http.Core.Timer.{HeapOps}
use coroutine_http.Core.System.{
  System, Move, resumes, calls, posted, goes_idle, polled, interrupted, failed, step,
}
use coroutine_http.Core.System.Fifo.{Grows, by, Queues, step-Queues, run, is_resume}

abbrev pub ready_of : System → List ℕ
ready_of s = s.linked.sched.ready_queue

-- How many of the moves resume a coroutine.
abbrev pub resumes_in : List Move → ℕ
resumes_in ms = count_if is_resume ms

-- Coroutine `c` stands in the queue of `s` behind `xs`, and then `n` of these are gone.
abbrev Advanced : ℕ → List ℕ → ℕ → System → Type 0
Advanced n xs c t = (zs : List ℕ) × (ready_of t ≡ drop n xs ++ c ∷ zs)

Grows-behind :
    {q r : List ℕ} (xs ys : List ℕ) (c : ℕ)
    → Grows q r
    → q ≡ xs ++ c ∷ ys
    → (zs : List ℕ) × (r ≡ xs ++ c ∷ zs)
Grows-behind xs ys c (by new e) h =
    (ys ++ new, e ∙ ap (λ x. x ++ new) h ∙ append_assoc xs (c ∷ ys) new)

front_gone :
    (d c : ℕ) (q xs ys : List ℕ)
    → 1 ≤ length xs
    → d ∷ q ≡ xs ++ c ∷ ys
    → (x : ℕ) × (rest : List ℕ) × (xs ≡ x ∷ rest) × (q ≡ rest ++ c ∷ ys)
front_gone d c q [] ys h e = absurd (omega arith)
front_gone d c q (x ∷ xs) ys h e = (x, xs, refl, ground arith)

module _ (ops : HeapOps) where
  run-Advanced :
      (ms : List Move) (s t : System) (xs ys : List ℕ) (c : ℕ)
      → run ops ms s ≡ some t
      → ready_of s ≡ xs ++ c ∷ ys
      → resumes_in ms ≤ length xs
      → Advanced (resumes_in ms) xs c t
  unfolding run
  run-Advanced [] s t xs ys c h q n = (ys, ground arith)
  run-Advanced (m ∷ ms) s t xs ys c h q n = elim (Option-cases (step ops m s)) [
    | inl stuck ↦ absurd (ground arith)
    | inr (u, e) ↦
        moved u m (step-Queues ops m s u e) n
          (λ us vs k small. run-Advanced ms u t us vs c (ground arith) k small)
  ]
    where
      Next : System → Type 0
      Next u =
          (us vs : List ℕ)
          → ready_of u ≡ us ++ c ∷ vs
          → resumes_in ms ≤ length us
          → Advanced (resumes_in ms) us c t

      stays :
          (u : System)
          → Grows (ready_of s) (ready_of u)
          → 0 + resumes_in ms ≤ length xs
          → Next u
          → Advanced (0 + resumes_in ms) xs c t
      stays u g small next =
          let (zs, k) = Grows-behind xs ys c g q in
          rw (add.zero (resumes_in ms)) (next xs zs k (omega arith))

      moved :
          (u : System) (k : Move)
          → Queues k s u
          → (if is_resume k then 1 else 0) + resumes_in ms ≤ length xs
          → Next u
          → Advanced ((if is_resume k then 1 else 0) + resumes_in ms) xs c t
      moved u resumes (d, p, runs) small next =
          let (x, rest, e, k) = front_gone d c _ xs ys (omega arith) (sym p ∙ q) in
          let one : 1 + resumes_in ms ≡ suc (resumes_in ms) = omega arith in
          let (zs, r) = next rest ys k (omega (arith, ap length e)) in
          (zs, r ∙ ap (λ l. l ++ c ∷ zs) (sym (ap₂ drop one e)))
      moved u (calls k) p small next = stays u p small next
      moved u (posted f) p small next = stays u p small next
      moved u (goes_idle now) p small next = stays u p small next
      moved u (polled evs now) p small next = stays u p small next
      moved u interrupted p small next = stays u p small next
      moved u failed p small next = stays u p small next

  -- The ready queue is first in, first out, and nobody is passed over: in any sequence of moves
  -- that starts where `c` stands in the ready queue behind the coroutines `xs`, and that resumes as
  -- many coroutines as there are in `xs`, `c` has come to the front; so a further move that resumes
  -- a coroutine resumes `c`.
  pub run_reaches_turn :
      (ms : List Move) (s t u : System) (xs ys : List ℕ) (c : ℕ)
      → run ops ms s ≡ some t
      → s.linked.sched.ready_queue ≡ xs ++ c ∷ ys
      → count_if is_resume ms ≡ length xs
      → step ops resumes t ≡ some u
      → u.linked.sched.running_coro ≡ some c
  run_reaches_turn ms s t u xs ys c h q n e =
      let (zs, front) = run-Advanced ms s t xs ys c h q (omega arith) in
      let (d, next, runs) = step-Queues ops resumes t u e in
      let first : ready_of t ≡ c ∷ zs =
        front ∙ ap (λ l. l ++ c ∷ zs) (ap (λ k. drop k xs) n ∙ drop-length xs) in
      runs ∙ ground (arith, sym next ∙ first)
    where
      drop-length : (l : List ℕ) → drop (length l) l ≡ []
      drop-length [] = refl
      drop-length (x ∷ l) = drop-length l
