-- ===== src/Core/Multi.antt =====
-- `MultiScheduler` of core/coroutine.cpp: one scheduler for each thread, and tasks dealt out in turn;
-- and how `makecontext` hands a pointer to `co_entry`. `run` starts one thread for each scheduler and
-- waits for all; each thread is `Core.System`.
pub mod Rounds
use coroutine_http.Prelude.{
  ℕ, zero, suc, ◌+◌, ◌-◌, ◌*◌, ◌/◌, ◌%◌, ◌^◌, Option, none, some, List, [], ◌∷◌, ◌++◌, length, ◌==◌,
  if◌then◌else◌, ℤ, pos, negsuc, to_int32,
}
use coroutine_http.Core.Scheduler
use coroutine_http.Core.Scheduler.{Scheduler, new_scheduler}

-- `rr_index` is the 32-bit pattern of the atomic `int`.
pub record MultiScheduler : Type 0 where
  pub schedulers : List Scheduler
  pub rr_index : ℕ

unfoldable pub replicate_scheduler : ℕ → List Scheduler
replicate_scheduler zero = []
replicate_scheduler (suc n) = new_scheduler ∷ replicate_scheduler n

-- `MultiScheduler(int num_threads)`
unfoldable pub new_multi : ℕ → MultiScheduler
unfolding replicate_scheduler
new_multi num_threads = record { schedulers = replicate_scheduler num_threads; rr_index = 0 }

-- `%` of C++, which cuts towards zero.
unfoldable pub rem : ℤ → ℕ → ℤ
rem (pos n) d = pos (n % d)
rem (negsuc n) d = let r = suc n % d in if r == 0 then pos 0 else negsuc (r - 1)

-- `schedulers_[i]->post(f)`; an index behind the end reads a scheduler that is not there.
unfoldable pub post_at : ℕ → ℕ → List Scheduler → Option (List Scheduler)
post_at f i [] = none
post_at f zero (s ∷ ss) = some (Scheduler.post f s ∷ ss)
post_at f (suc i) (s ∷ ss) = elim (post_at f i ss) [ none ↦ none | some ts ↦ some (s ∷ ts) ]

-- A negative `int` as an index of a vector is a huge number, far behind its end.
unfoldable pub post_index : ℕ → ℤ → List Scheduler → Option (List Scheduler)
unfolding post_at
post_index f (pos i) ss = post_at f i ss
post_index f (negsuc i) ss = none

-- `fetch_add` returns the old value, and wraps round. `none` is undefined behaviour: a remainder by
-- zero, or an access outside the vector.
unfoldable pub post : ℕ → MultiScheduler → Option MultiScheduler
unfolding rem post_index
post f ms =
    let n = length ms.schedulers in
    let dealt = post_index f (rem (to_int32 ms.rr_index) n) ms.schedulers in
    if n == 0 then none else elim dealt [
      | none ↦ none
      | some ss ↦ some (record { schedulers = ss; rr_index = (ms.rr_index + 1) % 2 ^ 32 })
    ]

unfoldable pub post_all : List ℕ → MultiScheduler → Option MultiScheduler
unfolding post
post_all [] ms = some ms
post_all (f ∷ fs) ms = elim (post f ms) [ none ↦ none | some ns ↦ post_all fs ns ]

-- The two `uint32_t` arguments of `makecontext`, and the pointer that `co_entry` puts together; the
-- halves have no bit in common, so `|` is a sum.
unfoldable pub low_half : ℕ → ℕ
low_half ptr = ptr % 2 ^ 32

unfoldable pub high_half : ℕ → ℕ
high_half ptr = ptr / 2 ^ 32 % 2 ^ 32

unfoldable pub join_halves : ℕ → ℕ → ℕ
join_halves low high = low + high * 2 ^ 32 % 2 ^ 64
