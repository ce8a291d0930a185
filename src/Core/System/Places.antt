-- ===== src/Core/System/Places.antt =====
-- Where the coroutines of a scheduler are (core/coroutine.cpp), one operation at a time.
use coroutine_http.Prelude.{
  ℕ, suc, ◌+◌, ◌≤◌, ◌≡◌, refl, ap, ◌∙◌, ◌&&◌, Option, none, some, List, [], ◌∷◌, ◌++◌, map,
  count_if, count_if-append, occurrences, ltb, leb, ◌==◌, if◌then◌else◌, nat_eq, arith, inl, inr,
  Option-cases,
}
use coroutine_http.Prelude.Dict.{Dict, lookup, insert, erase, lookup-insert_self}
use coroutine_http.Core.Timer.{TimerEntry, IsHeap, HeapOps}
use coroutine_http.Core.Scheduler.{
  finished, Scheduler, Event, pipe_in, fd_ready, make_ready, create, create_all, drain_post_queue,
  yield_from, wait_from, push_timer, sleep_from, resume, finish, switched_back, fire_timers,
  handle_event, handle_events, disarm,
}
use coroutine_http.Core.Scheduler.Timers.{fire_timers-Fires}
use coroutine_http.Core.Channel.{park}

-- 1 if the value is there and is `c`.
abbrev pub at : ℕ → Option ℕ → ℕ
at c none = 0
at c (some d) = if d == c then 1 else 0

abbrev pub values {ℓ κ} : {K : Type ℓ} {V : Type κ} → Dict K V → List V
values m = map (λ p. p.1) m

occurrences-insert :
    (c k v : ℕ) (m : Dict ℕ ℕ)
    → occurrences c (values (insert k v m)) + at c (lookup k m)
      ≡ occurrences c (values m) + at c (some v)
unfolding insert lookup
occurrences-insert c k v [] = omega arith
occurrences-insert c k v ((j, w) ∷ m) = ground (arith, occurrences-insert c k v m)

occurrences-erase :
    (c k : ℕ) (m : Dict ℕ ℕ)
    → occurrences c (values (erase k m)) + at c (lookup k m) ≡ occurrences c (values m)
unfolding erase lookup
occurrences-erase c k [] = omega arith
occurrences-erase c k ((j, w) ∷ m) = ground (arith, occurrences-erase c k m)

-- In how many places of the scheduler coroutine `c` is: ready, waiting for a descriptor, asleep,
-- running, or deleted.
abbrev pub spots : ℕ → Scheduler → ℕ
spots c s =
    occurrences c s.ready_queue
    + occurrences c (values s.waiting_map)
    + count_if (λ e. e.co == c) s.timer_heap
    + at c s.running_coro
    + occurrences c s.deleted

-- 1 if the coroutine has been created.
abbrev pub born : ℕ → ℕ → ℕ
born next_id c = if leb 1 c && ltb c next_id then 1 else 0

module _ (c : ℕ) where
  pub spots-make_ready :
      (co : ℕ) (s : Scheduler) → spots c (make_ready co s) ≡ spots c s + at c (some co)
  unfolding make_ready
  spots-make_ready co s = omega (arith, count_if-append (λ x. x == c) s.ready_queue (co ∷ []))

  pub spots-yield_from :
      (cur : ℕ) (s : Scheduler) → s.running_coro ≡ some cur → spots c (yield_from cur s) ≡ spots c s
  unfolding yield_from make_ready
  spots-yield_from cur s h =
      omega (arith, count_if-append (λ x. x == c) s.ready_queue (cur ∷ []), ap (at c) h)

  pub spots-park :
      (cur : ℕ) (s : Scheduler)
      → s.running_coro ≡ some cur
      → spots c (park cur s) + at c (some cur) ≡ spots c s
  unfolding park
  spots-park cur s h = omega (arith, ap (at c) h)

  pub spots-wait_from :
      (fd events cur : ℕ) (s : Scheduler)
      → s.running_coro ≡ some cur
      → spots c (wait_from fd events cur s) + at c (lookup fd s.waiting_map) ≡ spots c s
  unfolding wait_from
  spots-wait_from fd events cur s h =
      omega (arith, occurrences-insert c fd cur s.waiting_map, ap (at c) h)

  pub spots-sleep_from :
      (ops : HeapOps) (now ms cur : ℕ) (s : Scheduler)
      → s.running_coro ≡ some cur
      → spots c (sleep_from ops now ms cur s) ≡ spots c s
  unfolding sleep_from push_timer
  spots-sleep_from ops now ms cur s h =
      let entry : TimerEntry = record { expire_ms = now + ms; co = cur } in
      omega (
        arith,
        ops.push_heap-same (s.timer_heap ++ entry ∷ []) (λ e. e.co == c),
        count_if-append (λ e. e.co == c) s.timer_heap (entry ∷ []),
        ap (at c) h,
      )

  pub spots-create :
      (f : ℕ) (s : Scheduler)
      → 1 ≤ s.next_id
      → spots c (create f s).1 + born s.next_id c ≡ spots c s + born (create f s).1.next_id c
  unfolding create make_ready
  spots-create f s h = ground (arith, count_if-append (λ x. x == c) s.ready_queue (s.next_id ∷ []))

  pub spots-resume :
      (s t : Scheduler)
      → s.running_coro ≡ none
      → resume s ≡ some t
      → (spots c t ≡ spots c s) × (t.next_id ≡ s.next_id) × (t.timer_heap ≡ s.timer_heap)
  unfolding resume
  spots-resume s t h e = front s.ready_queue refl
    where
      front :
          (q : List ℕ)
          → s.ready_queue ≡ q
          → (spots c t ≡ spots c s) × (t.next_id ≡ s.next_id) × (t.timer_heap ≡ s.timer_heap)
      front [] k = ground arith
      front (co ∷ q) k = ground (arith, ap (occurrences c) k, ap (at c) h)

  pub spots-finish :
      (cur : ℕ) (s : Scheduler)
      → s.running_coro ≡ some cur
      → spots c (switched_back (finish s)) ≡ spots c s
  unfolding finish switched_back
  spots-finish cur s h = ground (arith, lookup-insert_self cur finished s.states)

  pub spots-create_all :
      (fs : List ℕ) (s : Scheduler)
      → 1 ≤ s.next_id
      → (spots c (create_all fs s) + born s.next_id c
          ≡ spots c s + born (create_all fs s).next_id c)
        × (1 ≤ (create_all fs s).next_id)
        × ((create_all fs s).timer_heap ≡ s.timer_heap)
        × ((create_all fs s).running_coro ≡ s.running_coro)
  unfolding create_all
  spots-create_all [] s h = (refl, h, refl, refl)
  spots-create_all (f ∷ fs) s h =
      let next = create_next f s in
      let (sum, positive, heap, running) =
        spots-create_all fs (create f s).1 (omega (arith, next.0)) in
      (omega (arith, sum, spots-create f s h), positive, heap ∙ next.1, running ∙ next.2)
    where
      create_next :
          (f : ℕ) (s : Scheduler)
          → ((create f s).1.next_id ≡ suc s.next_id)
            × ((create f s).1.timer_heap ≡ s.timer_heap)
            × ((create f s).1.running_coro ≡ s.running_coro)
      create_next f s = unfold create make_ready in (refl, refl, refl)

  abbrev Handles : Scheduler → Scheduler → Type 0
  Handles s t =
      (spots c t + born s.next_id c ≡ spots c s + born t.next_id c)
      × (1 ≤ t.next_id)
      × (t.timer_heap ≡ s.timer_heap)
      × (t.running_coro ≡ s.running_coro)

  handle_event-spots : (ev : Event) (s : Scheduler) → 1 ≤ s.next_id → Handles s (handle_event ev s)
  unfolding handle_event drain_post_queue make_ready disarm
  handle_event-spots pipe_in s h =
      spots-create_all s.post_queue (record s { pipe = 0; post_queue = [] }) h
  handle_event-spots (fd_ready fd) s h = elim (Option-cases (lookup fd s.waiting_map)) [
    | inl missing ↦ ground (arith, missing)
    | inr (co, found) ↦
        rw (found, handle_event)
          (
            omega (
              arith,
              occurrences-erase c fd s.waiting_map,
              ap (at c) found,
              count_if-append (λ x. x == c) s.ready_queue (co ∷ []),
            ),
            h,
            refl,
            refl,
          )
  ]

  pub handle_events-spots :
      (evs : List Event) (s : Scheduler) → 1 ≤ s.next_id → Handles s (handle_events evs s)
  unfolding handle_events
  handle_events-spots [] s h = (refl, h, refl, refl)
  handle_events-spots (ev ∷ evs) s h =
      let p = handle_event-spots ev s h in
      let q = handle_events-spots evs (handle_event ev s) p.1 in
      (omega (arith, p.0, q.0), q.1, q.2 ∙ p.2, q.3 ∙ p.3)

  pub occurrences-cos :
      (l : List TimerEntry)
      → occurrences c (map (λ (e : TimerEntry). e.co) l) ≡ count_if (λ e. e.co == c) l
  occurrences-cos [] = refl
  occurrences-cos (e ∷ l) = omega (arith, occurrences-cos l)

  pub spots-fire_timers :
      (ops : HeapOps) (now : ℕ) (s : Scheduler)
      → IsHeap s.timer_heap
      → (spots c (fire_timers ops now s).1 ≡ spots c s)
        × ((fire_timers ops now s).1.next_id ≡ s.next_id)
        × ((fire_timers ops now s).1.running_coro ≡ s.running_coro)
        × IsHeap (fire_timers ops now s).1.timer_heap
  spots-fire_timers ops now s heap =
      let (fired, n, f) = fire_timers-Fires ops now s heap in
      let t = (fire_timers ops now s).1 in
      let (waits, runs, posts, watched, ids, gone) = f.kept in
      (
        omega (
          arith,
          ap (occurrences c) f.woken,
          count_if-append (λ x. x == c) s.ready_queue (map (λ (e : TimerEntry). e.co) fired),
          occurrences-cos fired,
          f.conserved (λ e. e.co == c),
          count_if-append (λ e. e.co == c) fired t.timer_heap,
          ap (λ m. occurrences c (values m)) waits,
          ap (at c) runs,
          ap (occurrences c) gone,
        ),
        ids,
        runs,
        f.heap,
      )
