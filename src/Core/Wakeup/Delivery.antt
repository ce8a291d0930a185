-- ===== src/Core/Wakeup/Delivery.antt =====
-- Tasks that are posted across threads (core/coroutine.cpp) are not lost, and wake the scheduler.
use coroutine_http.Prelude.{
  ℕ, ◌<◌, ◌≡◌, refl, sym, ap, ◌∙◌, ◌⊎◌, inl, inr, [], ◌∷◌, ◌++◌, append-nil, append_assoc, arith,
}
use coroutine_http.Core.Scheduler.{wake_byte}
use coroutine_http.Core.Wakeup.{
  blocked, reading, draining, Mailbox, Step, append_task, write_byte, enter_wait, pipe_readable,
  other_event, read_bytes, read_nothing, drain, Reach, start, later,
}

-- Someone will see the queue: a byte is in the pipe or about to be written, or the scheduler is on
-- its way to the queue.
abbrev pub Noticed : Mailbox → Type 0
Noticed m = (0 < m.pipe) ⊎ ((0 < m.writers) ⊎ ((m.consumer ≡ reading) ⊎ (m.consumer ≡ draining)))

record Inv (m : Mailbox) : Type 0 where
  noticed : (m.post_queue ≡ []) ⊎ Noticed m
  in_order : m.posted ≡ m.taken ++ m.post_queue

wake_byte_pos : (p : ℕ) → 0 < wake_byte p
unfolding wake_byte
wake_byte_pos p = ground arith

Step-Inv : {m n : Mailbox} → Step m n → Inv m → Inv n
Step-Inv {m} (append_task f) v = record {
  noticed = inr (inr (inl (omega arith)));
  in_order = ap (λ l. l ++ f ∷ []) v.in_order ∙ append_assoc m.taken m.post_queue (f ∷ []);
}
Step-Inv {m} (write_byte k e) v = record {
  noticed = inr (inl (wake_byte_pos m.pipe));
  in_order = v.in_order;
}
Step-Inv (enter_wait e) v = record { noticed = ground (arith, v.noticed); in_order = v.in_order }
Step-Inv (pipe_readable e h) v = record { noticed = ground arith; in_order = v.in_order }
Step-Inv (other_event e) v = record { noticed = ground (arith, v.noticed); in_order = v.in_order }
Step-Inv (read_bytes e h) v = record { noticed = ground arith; in_order = v.in_order }
Step-Inv (read_nothing e h) v = record { noticed = ground arith; in_order = v.in_order }
Step-Inv {m} (drain e) v = record {
  noticed = inl refl;
  in_order = v.in_order ∙ sym (append-nil (m.taken ++ m.post_queue));
}

Reach-Inv : {m : Mailbox} → Reach m → Inv m
Reach-Inv start = record { noticed = inl refl; in_order = refl }
Reach-Inv (later r s) = Step-Inv s (Reach-Inv r)

-- In every interleaving: the tasks that have been turned into coroutines, followed by those in the
-- queue, are the tasks that were posted, each once and in the order of the appends. And no
-- wake-up is lost: where the queue holds a task and the scheduler's thread is in `epoll_wait`, the
-- pipe holds a byte, so that `epoll_wait` returns, or a thread is about to write one.
pub post_delivers :
    {m : Mailbox}
    → Reach m
    → (m.posted ≡ m.taken ++ m.post_queue)
      × (m.consumer ≡ blocked → (m.post_queue ≡ []) ⊎ ((0 < m.pipe) ⊎ (0 < m.writers)))
post_delivers r = let v = Reach-Inv r in (v.in_order, λ e. ground (arith, v.noticed))
