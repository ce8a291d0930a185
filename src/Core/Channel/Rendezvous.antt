-- ===== src/Core/Channel/Rendezvous.antt =====
-- How a message passes through a `Channel` of core/coroutine.h.
use coroutine_http.Prelude.{ℕ, ◌≡◌, none, some, [], ◌∷◌, ◌++◌, append_assoc, nat_eq, arith}
use coroutine_http.Prelude.Dict.{insert, lookup-insert_self}
use coroutine_http.Core.Scheduler.{Scheduler}
use coroutine_http.Core.Channel.{Channel, Linked, send, recv, recv_resumed}

-- Nobody waits on the channel.
abbrev pub IsIdle : Channel → Type 0
IsIdle c = (c.send_waiter ≡ none) × (c.recv_waiter ≡ none)

-- A sender waits, and the next `recv`, of any coroutine, returns its value at once, puts it at the
-- back of the ready queue, and leaves the channel idle.
abbrev pub SenderFirst : ℕ → ℕ → ℕ → Linked → Type 0
SenderFirst self other val l =
    let sent = send self val l in
    (sent.sched.running_coro ≡ none)
    × (sent.sched.ready_queue ≡ l.sched.ready_queue)
    × ((s : Scheduler)
        → let got = recv other (record sent { sched = s }) in
          (got.0 ≡ some val)
          × IsIdle got.1.chan
          × (got.1.sched.ready_queue ≡ s.ready_queue ++ self ∷ [])
          × (got.1.sched.running_coro ≡ s.running_coro))

-- A receiver waits, and the next `send`, of any coroutine, hands it the value, puts it and behind
-- it the sender at the back of the ready queue, and leaves the channel idle.
abbrev pub ReceiverFirst : ℕ → ℕ → ℕ → Linked → Type 0
ReceiverFirst self other val l =
    let waiting = recv self l in
    (waiting.0 ≡ none)
    × (waiting.1.sched.running_coro ≡ none)
    × (waiting.1.sched.ready_queue ≡ l.sched.ready_queue)
    × ((s : Scheduler)
        → let sent = send other val (record waiting.1 { sched = s }) in
          (recv_resumed self sent ≡ some val)
          × IsIdle sent.chan
          × (sent.sched.ready_queue ≡ s.ready_queue ++ self ∷ other ∷ [])
          × (sent.sched.running_coro ≡ none))

sender_first : (self other val : ℕ) (l : Linked) → IsIdle l.chan → SenderFirst self other val l
unfolding send recv
sender_first self other val l idle = (ground arith, ground arith, λ s. ground arith)

receiver_first : (self other val : ℕ) (l : Linked) → IsIdle l.chan → ReceiverFirst self other val l
unfolding send recv recv_resumed
receiver_first self other val l idle = (
  ground arith,
  ground arith,
  ground arith,
  λ s. ground (
    arith,
    lookup-insert_self self val (insert self 0 l.results),
    append_assoc s.ready_queue (self ∷ []) (other ∷ []),
  ),
)

-- On an idle channel the two sides meet in either order. Where the sender comes first, it waits,
-- and the next `recv`, of any coroutine and in whatever state the scheduler then is, returns its
-- value at once, puts it at the back of the ready queue and leaves the channel idle. Where the
-- receiver comes first, it waits, and the next `send` hands it the value, puts it and behind it the
-- sender at the back of the ready queue and leaves the channel idle.
pub send-recv_meet :
    (self other val : ℕ) (l : Linked)
    → IsIdle l.chan
    → SenderFirst self other val l × ReceiverFirst self other val l
send-recv_meet self other val l idle =
    (sender_first self other val l idle, receiver_first self other val l idle)

-- A second sender is not queued behind the first: its value overwrites the value of the first, the
-- next `recv` returns only that and wakes only the second sender, and the channel is idle with the
-- first sender in neither of its places.
pub send-send_overwrites :
    (first second other val val' : ℕ) (l : Linked) (s s' : Scheduler)
    → IsIdle l.chan
    → let sent = send second val' (record (send first val l) { sched = s }) in
      let got = recv other (record sent { sched = s' }) in
      (got.0 ≡ some val')
      × IsIdle got.1.chan
      × (got.1.sched.ready_queue ≡ s'.ready_queue ++ second ∷ [])
unfolding send recv
send-send_overwrites first second other val val' l s s' idle = ground arith
