-- ===== src/Tests/Threads.antt =====
-- core/: a channel, a posted task, and three schedulers.
use coroutine_http.Prelude.{◌^◌, ◌<◌, ◌≡◌, refl, none, [], ◌∷◌, ◌++◌, arith, ◌⊎◌}
use coroutine_http.Core.Scheduler.{new_scheduler}
use coroutine_http.Core.Channel.{new_channel, Linked}
use coroutine_http.Core.Channel.Rendezvous.{SenderFirst, ReceiverFirst, send-recv_meet}
use coroutine_http.Core.Wakeup
use coroutine_http.Core.Scheduler.{wake_byte}
use coroutine_http.Core.Wakeup.{Mailbox, start, later, append_task, write_byte, enter_wait, blocked}
use coroutine_http.Core.Wakeup.Delivery.{post_delivers}
use coroutine_http.Core.Multi
use coroutine_http.Core.Multi.{
  MultiScheduler, new_multi, post_all, low_half, high_half, join_halves,
}
use coroutine_http.Core.Multi.Rounds.{post_wraps}

-- Nobody uses the channel.
abbrev unused : Linked
unused = record { sched = new_scheduler; chan = new_channel; results = [] }

send-recv_meet_example : SenderFirst 1 2 42 unused × ReceiverFirst 1 2 42 unused
send-recv_meet_example = send-recv_meet 1 2 42 unused (refl, refl)

-- A task is posted while the scheduler waits.
abbrev posted_to : Mailbox
posted_to = record {
  post_queue = 5 ∷ [];
  pipe = 1;
  writers = 0;
  consumer = blocked;
  posted = 5 ∷ [];
  taken = [];
}

posted_to-Reach : Wakeup.Reach posted_to
unfolding wake_byte
posted_to-Reach = later (later (later start (append_task 5)) (write_byte 0 refl)) (enter_wait refl)

post_delivers_example :
    (posted_to.posted ≡ posted_to.taken ++ posted_to.post_queue)
    × (posted_to.consumer ≡ blocked
        → (posted_to.post_queue ≡ []) ⊎ ((0 < posted_to.pipe) ⊎ (0 < posted_to.writers)))
post_delivers_example = post_delivers posted_to-Reach

-- The counter after 2^31 tasks.
abbrev wrapped : MultiScheduler
wrapped = record {
  schedulers = new_scheduler ∷ new_scheduler ∷ new_scheduler ∷ [];
  rr_index = 2 ^ 31;
}

post_wraps_example : Multi.post 5 wrapped ≡ none
post_wraps_example = post_wraps 5 wrapped (omega arith) (omega arith) (λ e. omega arith)
