-- ===== src/Core/Lifetime/Stacks.antt =====
-- The stacks of the coroutines (core/coroutine.cpp): `Coroutine` with a `getcontext` that may fail,
-- and the exception that `Scheduler::create` then passes on.
use coroutine_http.Prelude.{
  ℕ, zero, suc, ◌+◌, ◌≡◌, refl, ap, ◌∙◌, Bool, true, false, List, [], ◌∷◌, length, length-append,
  append-nil, arith,
}
use coroutine_http.Core.Scheduler.{Scheduler, new_scheduler, create, destroy, make_ready}

-- How many stacks `new` has made and `delete` has freed.
pub record Stacks : Type 0 where
  pub made : ℕ
  pub freed : ℕ

abbrev pub no_stacks : Stacks
no_stacks = record { made = 0; freed = 0 }

-- `Coroutine(f, id)`; the argument is whether `getcontext` succeeds, and `false` is the exception.
unfoldable pub init_coroutine : Bool → Stacks → Bool × Stacks
init_coroutine true st = (true, record st { made = suc st.made })
init_coroutine false st = (false, record { made = suc st.made; freed = suc st.freed })

-- `~Coroutine()`
abbrev pub free_coroutine : Stacks → Stacks
free_coroutine st = record st { freed = suc st.freed }

-- `Scheduler::create`, whose `next_id++` has happened when the constructor throws.
unfoldable pub try_create : Bool → ℕ → Scheduler × Stacks → Scheduler × Stacks
unfolding init_coroutine create
try_create ok f (s, st) =
    let made = init_coroutine ok st in
    (elim made.0 [ true ↦ (create f s).1 | false ↦ record s { next_id = suc s.next_id } ], made.1)

-- Functions for which coroutines are to be created, each with what `getcontext` does.
unfoldable pub try_creates : List (Bool × ℕ) → Scheduler × Stacks → Scheduler × Stacks
unfolding try_create
try_creates [] r = r
try_creates ((ok, f) ∷ fs) r = try_creates fs (try_create ok f r)

-- The destructors of as many coroutines.
abbrev pub free_all : ℕ → Stacks → Stacks
free_all zero st = st
free_all (suc n) st = free_all n (free_coroutine st)

free_all-freed : (n : ℕ) (st : Stacks) → (free_all n st).freed ≡ n + st.freed
free_all-freed zero st = omega arith
free_all-freed (suc n) st = omega (arith, free_all-freed n (free_coroutine st))

-- A scheduler that has not run, each of whose coroutines has a stack, and no other stack is left.
record IsFresh (r : Scheduler × Stacks) : Type 0 where
  owned : r.1.made ≡ r.1.freed + length r.0.ready_queue
  timers : r.0.timer_heap ≡ []
  waiting : r.0.waiting_map ≡ []
  deleted : r.0.deleted ≡ []

try_creates-IsFresh :
    (fs : List (Bool × ℕ)) (r : Scheduler × Stacks) → IsFresh r → IsFresh (try_creates fs r)
unfolding try_creates try_create init_coroutine create make_ready
try_creates-IsFresh [] r h = h
try_creates-IsFresh ((true, f) ∷ fs) (s, st) h =
    try_creates-IsFresh fs (try_create true f (s, st)) (record {
      owned = omega (arith, h.owned, length-append s.ready_queue (s.next_id ∷ []));
      timers = h.timers;
      waiting = h.waiting;
      deleted = h.deleted;
    })
try_creates-IsFresh ((false, f) ∷ fs) (s, st) h =
    try_creates-IsFresh fs (try_create false f (s, st)) (record {
      owned = omega (arith, h.owned);
      timers = h.timers;
      waiting = h.waiting;
      deleted = h.deleted;
    })

-- Whatever `getcontext` does in each of the calls of `create` on a new scheduler: once the
-- scheduler is destroyed, and with it the coroutines that its destructor deletes, every stack has
-- been freed.
pub try_creates-destroy :
    (fs : List (Bool × ℕ))
    → (free_all
        (length (destroy (try_creates fs (new_scheduler, no_stacks)).0).deleted)
        (try_creates fs (new_scheduler, no_stacks)).1).freed
      ≡ (try_creates fs (new_scheduler, no_stacks)).1.made
unfolding destroy
try_creates-destroy fs =
    let r = try_creates fs (new_scheduler, no_stacks) in
    let h : IsFresh r =
      try_creates-IsFresh fs (new_scheduler, no_stacks)
        (record { owned = refl; timers = refl; waiting = refl; deleted = refl }) in
    let size : length (destroy r.0).deleted ≡ length r.0.ready_queue =
      rw (h.timers, h.waiting, h.deleted) (ap length (append-nil r.0.ready_queue)) in
    free_all-freed (length (destroy r.0).deleted) r.1 ∙ omega (arith, h.owned, size)
