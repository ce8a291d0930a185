-- ===== src/Net/Connection/Closing.antt =====
-- Who releases the descriptor: `close`, the destructor (which calls it) and the move constructor
-- of net/connection.cpp.
use coroutine_http.Prelude.{ℕ, ◌≡◌, refl, true, false, some, [], ◌∷◌, arith}
use coroutine_http.Net.Run.{done, Ends-done}
use coroutine_http.Net.Connection.{Connection, close, move, move_assign, read}
use coroutine_http.Net.Connection.Stream.{read-Reads}

-- After a move the new object answers for the descriptor as the old one did, and destroying the
-- old one releases nothing: an open connection's descriptor is released once, whichever of the two
-- is destroyed first, and a second `close` of the new one changes nothing.
pub close-move :
    (c : Connection) (fd : ℕ)
    → c.fd ≡ some fd
    → c.closed ≡ false
    → ((close (move c).0).released ≡ fd ∷ c.released)
      × ((close (move c).1).released ≡ c.released)
      × (close (close (move c).0) ≡ close (move c).0)
unfolding close move
close-move c fd e live = ground arith

-- A move assignment between two open connections, after which both objects are destroyed in
-- either order, releases each of the two descriptors once.
pub close-move_assign :
    (this other : Connection) (fd fd' : ℕ)
    → this.fd ≡ some fd
    → this.closed ≡ false
    → this.released ≡ []
    → other.fd ≡ some fd'
    → other.closed ≡ false
    → other.released ≡ []
    → ((close (move_assign this other).0).released ≡ fd' ∷ fd ∷ [])
      × ((close (move_assign this other).1).released ≡ [])
unfolding close move_assign
close-move_assign this other fd fd' e live r e' live' r' = ground arith

-- Where `read` finds the end of the stream or an error, it marks the connection as closed with
-- the descriptor still open; `close`, hence the destructor, then does nothing, and the descriptor
-- is never released.
pub read-close_leaks :
    (c d : Connection)
    → c.closed ≡ false
    → read c ≡ done ([], d)
    → (close d ≡ d) × (d.fd ≡ c.fd) × (d.released ≡ c.released)
unfolding close
read-close_leaks c d live e =
    let p = Ends-done (read-Reads c) e in
    let shut : d.closed ≡ true = (p.ended refl).0 in (ground arith, p.kept.0, p.kept.3)
