-- ===== src/Net/Connection.antt =====
-- net/connection.h and net/connection.cpp. The kernel's side of the socket stands in the record as
-- the results of the coming `recv` and `send` calls, in order; each result of `recv` already
-- respects the size asked for (every caller reads at most 4096 bytes at a time).
pub mod Stream
pub mod Reading
pub mod Live
pub mod Writing
pub mod Shared
pub mod Closing
use coroutine_http.Prelude.{
  ℕ, zero, suc, ◌+◌, ◌-◌, Bool, true, false, ◌||◌, not, Option, none, some, List, [], ◌∷◌, ◌++◌,
  length, take, drop, ltb, leb, if◌then◌else◌, Bytes, find, is_empty,
}
use coroutine_http.Net.Run.{Run, done, suspended, out_of_fuel, ◌>>=◌}

-- What one `recv` does: it returns the bytes (none of them is the end of the stream), fails with
-- EAGAIN, or fails otherwise. After EAGAIN the coroutine waits; the flag says that another
-- coroutine, which wrote to this connection meanwhile, has set `closed_`.
pub data RecvEvent : Type 0 where
  received : Bytes → RecvEvent
  recv_again : Bool → RecvEvent
  recv_failed : RecvEvent

-- What one `send` does: it returns a count, fails with EAGAIN, or fails otherwise.
pub data SendEvent : Type 0 where
  accepted : ℕ → SendEvent
  send_again : Bool → SendEvent
  send_failed : SendEvent

pub record Connection : Type 0 where
  pub fd : Option ℕ
  pub closed : Bool
  pub read_buf : Bytes
  pub incoming : List RecvEvent
  pub outgoing : List SendEvent
  pub wire : Bytes
  pub released : List ℕ

-- `Connection(int fd, Scheduler&)` over a socket whose calls will go as the events say.
unfoldable pub connect : ℕ → List RecvEvent → List SendEvent → Connection
connect fd incoming outgoing = record {
  fd = some fd;
  closed = false;
  read_buf = [];
  incoming = incoming;
  outgoing = outgoing;
  wire = [];
  released = [];
}

-- `close`; `none` is the descriptor -1.
unfoldable pub close : Connection → Connection
close c = elim c.fd [
  | none ↦ c
  | some fd ↦
      if c.closed then c else record c { fd = none; closed = true; released = fd ∷ c.released }
]

-- The move constructor: the new object, and what is left of the other.
unfoldable pub move : Connection → Connection × Connection
move other = (other, record other { fd = none; closed = true; read_buf = [] })

-- The move assignment of `other` to another object: the object, with the socket of `other`, and
-- what is left of `other`. What the object had was closed first.
unfoldable pub move_assign : Connection → Connection → Connection × Connection
unfolding close
move_assign this other = (
  record other { released = (close this).released ++ other.released },
  record other { fd = none; closed = true; read_buf = []; released = [] },
)

-- The loop of `read`, one round for each result of `recv`.
unfoldable pub read_loop : Connection → List RecvEvent → Run (Bytes × Connection)
read_loop c [] = suspended
read_loop c (received bs ∷ es) =
    if ltb 0 (length bs)
    then done (bs, record c { incoming = es })
    else done ([], record c { closed = true; incoming = es })
read_loop c (recv_again gone ∷ es) =
    let retry = read_loop c es in
    if gone then done ([], record c { closed = true; incoming = es }) else retry
read_loop c (recv_failed ∷ es) = done ([], record c { closed = true; incoming = es })

unfoldable pub read : Connection → Run (Bytes × Connection)
read c = if c.closed then done ([], c) else read_loop c c.incoming

-- `std::string rest; rest.swap(read_buf_); return rest;`
unfoldable pub take_rest : Connection → Bytes × Connection
take_rest c = (c.read_buf, record c { read_buf = [] })

-- The first `n` bytes of the buffer, which are erased from it.
unfoldable pub take_front : ℕ → Connection → Bytes × Connection
take_front n c = (take n c.read_buf, record c { read_buf = drop n c.read_buf })

-- The loop of `read_until`.
unfoldable pub read_until_loop : ℕ → Bytes → Connection → Run (Bytes × Connection)
read_until_loop zero delim c = out_of_fuel
read_until_loop (suc fuel) delim c = elim (find delim c.read_buf) [
  | some pos ↦ done (take_front (pos + length delim) c)
  | none ↦ read c >>= λ r.
      let again = read_until_loop fuel delim (record r.1 { read_buf = r.1.read_buf ++ r.0 }) in
      if is_empty r.0 then done (take_rest r.1) else again
]

-- Each round but the last takes one result of `recv`, so their number is fuel enough.
unfoldable pub read_until : Bytes → Connection → Run (Bytes × Connection)
read_until delim c = read_until_loop (suc (length c.incoming)) delim c

-- The `while` of `read_exact`.
unfoldable pub fill_loop : ℕ → ℕ → Connection → Run Connection
fill_loop zero n c = out_of_fuel
fill_loop (suc fuel) n c =
    let more = read c >>= λ r.
    let again = fill_loop fuel n (record r.1 { read_buf = r.1.read_buf ++ r.0 }) in
    if is_empty r.0 then done r.1 else again in
    if ltb (length c.read_buf) n then more else done c

unfoldable pub read_exact : ℕ → Connection → Run (Bytes × Connection)
read_exact n c = fill_loop (suc (length c.incoming)) n c >>= λ c'.
    if leb n (length c'.read_buf) then done (take_front n c') else done (take_rest c')

-- The result of `write`: a count, or -1.
pub data Written : Type 0 where
  count : ℕ → Written
  failure : Written

-- The loop of `write`: one round for each result of `send`. A count puts that many of the bytes
-- that are left on the wire.
unfoldable pub write_loop : Bytes → ℕ → Connection → List SendEvent → Run (Written × Connection)
write_loop bs sent c [] =
    if ltb sent (length bs) then suspended else done (count sent, record c { outgoing = [] })
write_loop bs sent c (accepted n ∷ es) =
    let more = write_loop bs (sent + n) (record c { wire = c.wire ++ take n (drop sent bs) }) es in
    if ltb sent (length bs)
    then (if ltb 0 n
        then more
        else done
            (if ltb 0 sent then count sent else failure, record c { closed = true; outgoing = es }))
    else done (count sent, record c { outgoing = accepted n ∷ es })
write_loop bs sent c (send_again gone ∷ es) =
    let retry = write_loop bs sent c es in
    if ltb sent (length bs)
    then (if gone then done (count sent, record c { closed = true; outgoing = es }) else retry)
    else done (count sent, record c { outgoing = send_again gone ∷ es })
write_loop bs sent c (send_failed ∷ es) =
    if ltb sent (length bs)
    then done
        (if ltb 0 sent then count sent else failure, record c { closed = true; outgoing = es })
    else done (count sent, record c { outgoing = send_failed ∷ es })

unfoldable pub write : Bytes → Connection → Run (Written × Connection)
write bs c = if c.closed || is_empty bs then done (count 0, c) else write_loop bs 0 c c.outgoing
