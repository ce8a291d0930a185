-- ===== src/Core/System/Ledger.antt =====
-- How often a scheduler (core/coroutine.cpp) holds a function that it has been given.
use coroutine_http.Prelude.{
  ℕ, suc, ◌+◌, ◌<◌, ◌≡◌, refl, sym, false, some, List, [], ◌∷◌, ◌==◌, All, arith, occurrences,
  count_if-append, nat_eq,
}
use mathlib.Core.Path.{subst}
use coroutine_http.Prelude.Dict.{Dict, insert}
use coroutine_http.Core.Timer.{HeapOps}
use coroutine_http.Core.Scheduler.{Event, pipe_in, fd_ready, new_scheduler}
use coroutine_http.Core.System.{
  System, Move, calls, posted, polled, creates, posts, new_system, step,
}
use coroutine_http.Core.System.Tasks.{
  Book, book, enter, enter_all, append, admit, admit_at, entry, handed, create_all-book,
  step_refines,
}

abbrev pub functions : Dict ℕ ℕ → List ℕ
functions [] = []
functions ((c, f) ∷ d) = f ∷ functions d

-- How often a scheduler holds function `f`: as a coroutine, whatever has become of it, or as a task
-- that waits.
abbrev pub held : ℕ → Book → ℕ
held f b = occurrences f (functions b.started) + occurrences f b.waiting

-- The identifiers that are in use are below the next.
abbrev pub IsFresh : Book → Type 0
IsFresh b = All (λ (e : ℕ × ℕ). e.0 < b.next_id) b.started

insert-fresh :
    (n f g : ℕ) (d : Dict ℕ ℕ)
    → All (λ (e : ℕ × ℕ). e.0 < n) d
    → (occurrences g (functions (insert n f d))
        ≡ occurrences g (functions d) + occurrences g (f ∷ []))
      × All (λ (e : ℕ × ℕ). e.0 < suc n) (insert n f d)
unfolding insert
insert-fresh n f g [] fresh = (omega arith, (omega arith, tt))
insert-fresh n f g ((c, h) ∷ d) (small, fresh) =
    let other : (c == n) ≡ false = ground (arith, small) in
    let (sum, below) = insert-fresh n f g d fresh in
    rw (other, insert) (omega (arith, sum), (omega arith, below))

-- A book in order, with `count` times the function `g`.
pub record Ledger (g count : ℕ) (b : Book) : Type 0 where
  pub fresh : IsFresh b
  pub sum : held g b ≡ count

same-Ledger : (g count : ℕ) (b : Book) → Ledger g count b → Ledger g (0 + count) b
same-Ledger g count b l = record { fresh = l.fresh; sum = omega (arith, l.sum) }

enter-Ledger :
    (f g count : ℕ) (b : Book)
    → Ledger g count b
    → Ledger g (occurrences g (f ∷ []) + count) (enter f b)
enter-Ledger f g count b l =
    let (sum, below) = insert-fresh b.next_id f g b.started l.fresh in
    record { fresh = below; sum = omega (arith, sum, l.sum) }

enter_all-Ledger :
    (fs : List ℕ) (g count : ℕ) (b : Book)
    → Ledger g count b
    → Ledger g (occurrences g fs + count) (enter_all fs b)
enter_all-Ledger [] g count b l = same-Ledger g count b l
enter_all-Ledger (f ∷ fs) g count b l =
    let p =
      enter_all-Ledger fs g (occurrences g (f ∷ []) + count) (enter f b)
        (enter-Ledger f g count b l) in
    record { fresh = p.fresh; sum = omega (arith, p.sum) }

append-Ledger :
    (f g count : ℕ) (b : Book)
    → Ledger g count b
    → Ledger g (occurrences g (f ∷ []) + count) (append f b)
append-Ledger f g count b l = record {
  fresh = l.fresh;
  sum = omega (arith, l.sum, count_if-append (λ x. x == g) b.waiting (f ∷ []));
}

admit-Ledger : (g count : ℕ) (b : Book) → Ledger g count b → Ledger g count (admit b)
admit-Ledger g count b l =
    let emptied : Ledger g (occurrences g (functions b.started)) (record b { waiting = [] }) =
      record { fresh = l.fresh; sum = omega arith } in
    let p = enter_all-Ledger b.waiting g _ (record b { waiting = [] }) emptied in
    record { fresh = p.fresh; sum = omega (arith, p.sum, l.sum) }

admit_at-Ledger :
    (evs : List Event) (g count : ℕ) (b : Book) → Ledger g count b → Ledger g count (admit_at evs b)
admit_at-Ledger [] g count b l = l
admit_at-Ledger (pipe_in ∷ evs) g count b l =
    admit_at-Ledger evs g count (admit b) (admit-Ledger g count b l)
admit_at-Ledger (fd_ready fd ∷ evs) g count b l = admit_at-Ledger evs g count b l

entry-Ledger :
    (m : Move) (g count : ℕ) (b : Book)
    → Ledger g count b
    → Ledger g (occurrences g (handed m) + count) (entry m b)
entry-Ledger (calls (creates f)) g count b l = enter-Ledger f g count b l
entry-Ledger (calls (posts f)) g count b l = append-Ledger f g count b l
entry-Ledger (posted f) g count b l = append-Ledger f g count b l
entry-Ledger (polled evs now) g count b l =
    same-Ledger g count (admit_at evs b) (admit_at-Ledger evs g count b l)
entry-Ledger m g count b l = same-Ledger g count b l

pub new_system-Ledger :
    (g : ℕ) (fs : List ℕ) → Ledger g (occurrences g fs) (book (new_system fs).linked.sched)
unfolding new_system
new_system-Ledger g fs =
    let empty : Ledger g 0 (book new_scheduler) = record { fresh = tt; sum = omega arith } in
    let p =
      subst (Ledger g _) (sym (create_all-book fs new_scheduler))
        (enter_all-Ledger fs g 0 (book new_scheduler) empty) in
    record { fresh = p.fresh; sum = omega (arith, p.sum) }

module _ (ops : HeapOps) where
  pub step-Ledger :
      (m : Move) (g : ℕ) (s t : System)
      → step ops m s ≡ some t
      → IsFresh (book s.linked.sched)
      → Ledger g (occurrences g (handed m) + held g (book s.linked.sched)) (book t.linked.sched)
  step-Ledger m g s t h fresh =
      subst (Ledger g _) (sym (step_refines ops m s t h))
        (entry-Ledger m g _ (book s.linked.sched) (record { fresh = fresh; sum = refl }))
