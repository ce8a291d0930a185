-- ===== src/Net/Connection/Shared.antt =====
-- Several coroutines that write to one connection (net/connection.cpp): `write` cut at each `send`
-- and at each wait for EPOLLOUT, between which the others go on. That a second waiter takes the
-- place of the first in the scheduler is left to Core: here a writer that waits may be woken, or
-- never.
pub mod Pieces
pub mod Merging
pub mod Mixing
pub mod Solo
use coroutine_http.Prelude.{
  ℕ, zero, suc, ◌+◌, ◌<◌, ◌≡◌, refl, Bool, true, false, ◌||◌, List, [], ◌∷◌, ◌++◌, length, take,
  drop, ltb, ◌==◌, if◌then◌else◌, Bytes, is_empty,
}
use coroutine_http.Net.Connection.{
  Connection, SendEvent, accepted, send_again, send_failed, Written, count, failure,
}
use coroutine_http.Net.Connection.Writing.{sent_of}

-- Where a coroutine stands: outside `write`, in its loop, or in `wait_event`; `sent` bytes are out.
pub data Stage : Type 0 where
  idle : Stage
  sending waiting : Bytes → ℕ → Stage

-- What a coroutine has written, each time with the result of `write`, and where it stands.
pub record Writer : Type 0 where
  pub results : List (Bytes × Written)
  pub stage : Stage

pub record Shared : Type 0 where
  pub conn : Connection
  pub writers : ℕ → Writer

abbrev pub new_writer : Writer
new_writer = record { results = []; stage = idle }

abbrev pub shared : Connection → Shared
shared conn = record { conn = conn; writers = λ i. new_writer }

abbrev pub set_writer : ℕ → Writer → (ℕ → Writer) → ℕ → Writer
set_writer i w writers j = if j == i then w else writers j

-- `write` returns.
abbrev pub returns_with : Bytes → Written → Writer → Writer
returns_with bs r w = record { results = w.results ++ (bs, r) ∷ []; stage = idle }

-- The call of `write`, up to the first test of its loop.
unfoldable pub begin_write : Bytes → Connection → Writer → Writer
begin_write bs conn w =
    if conn.closed || is_empty bs
    then returns_with bs (count 0) w
    else record w { stage = sending bs 0 }

-- One `send` and what the loop does with its result, up to the next test of the loop.
unfoldable pub send_round : SendEvent → Bytes → ℕ → Connection → Writer → Connection × Writer
send_round (accepted n) bs sent conn w =
    if ltb 0 n
    then (
      record conn { wire = conn.wire ++ take n (drop sent bs) },
      if ltb (sent + n) (length bs)
          then record w { stage = sending bs (sent + n) }
          else returns_with bs (count (sent + n)) w,
    )
    else (
      record conn { closed = true },
      returns_with bs (if ltb 0 sent then count sent else failure) w,
    )
send_round (send_again gone) bs sent conn w = (conn, record w { stage = waiting bs sent })
send_round send_failed bs sent conn w =
    (record conn { closed = true }, returns_with bs (if ltb 0 sent then count sent else failure) w)

-- Behind `wait_event`.
unfoldable pub wake_round : Bytes → ℕ → Connection → Writer → Writer
wake_round bs sent conn w =
    if conn.closed then returns_with bs (count sent) w else record w { stage = sending bs sent }

-- A coroutine calls `write`, its next `send` gives a result, or it comes back from `wait_event`; or
-- the connection is marked as closed by whoever reads from it.
pub data WriteMove : Type 0 where
  begins : ℕ → Bytes → WriteMove
  sends : ℕ → SendEvent → WriteMove
  wakes : ℕ → WriteMove
  shuts : WriteMove

abbrev pub begin_in : ℕ → Bytes → Shared → Stage → Shared
begin_in i bs s idle = record s {
  writers = set_writer i (begin_write bs s.conn (s.writers i)) s.writers;
}
begin_in i bs s (sending cs sent) = s
begin_in i bs s (waiting cs sent) = s

abbrev pub send_in : ℕ → SendEvent → Shared → Stage → Shared
send_in i ev s (sending bs sent) =
    let r = send_round ev bs sent s.conn (s.writers i) in
    record { conn = r.0; writers = set_writer i r.1 s.writers }
send_in i ev s idle = s
send_in i ev s (waiting bs sent) = s

abbrev pub wake_in : ℕ → Shared → Stage → Shared
wake_in i s (waiting bs sent) = record s {
  writers = set_writer i (wake_round bs sent s.conn (s.writers i)) s.writers;
}
wake_in i s idle = s
wake_in i s (sending bs sent) = s

-- A move of a coroutine that stands elsewhere does nothing.
unfoldable pub write_move : WriteMove → Shared → Shared
write_move (begins i bs) s = begin_in i bs s (s.writers i).stage
write_move (sends i ev) s = send_in i ev s (s.writers i).stage
write_move (wakes i) s = wake_in i s (s.writers i).stage
write_move shuts s = record s { conn = record s.conn { closed = true } }

unfoldable pub write_moves : List WriteMove → Shared → Shared
unfolding write_move
write_moves [] s = s
write_moves (m ∷ ms) s = write_moves ms (write_move m s)
