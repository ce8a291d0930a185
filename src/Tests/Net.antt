-- ===== src/Tests/Net.antt =====
-- net/: a connection that receives "ab" in two pieces, and one that is closed by its peer.
use coroutine_http.Prelude.{
  ℕ, refl, List, All, arith, ◌<◌, ◌≡◌, true, false, none, [], ◌∷◌, length, bytes, find,
}
use coroutine_http.Net.Run.{Ends}
use coroutine_http.Net.Connection.{
  Connection, received, recv_again, accepted, send_again, count, connect, read_until, read_exact,
  write,
}
use coroutine_http.Net.Connection.Stream.{stream, is_live}
use coroutine_http.Net.Connection.Reading.{
  ExactRead, UntilRead, read_exact_correct, read_until_correct,
}
use coroutine_http.Net.Connection.Writing.{Writes, write_correct, room}
use coroutine_http.Net.Connection.Shared.{
  shared, WriteMove, begins, sends, wakes, shuts, write_moves,
}
use coroutine_http.Net.Connection.Shared.Pieces.{told, Merge, Finished}
use coroutine_http.Net.Connection.Shared.Merging.{write_moves-merge}
use coroutine_http.Net.Connection.Shared.Mixing.{mixing, write_moves-mixing}

abbrev in_pieces : Connection
unfolding connect
in_pieces =
    connect 5 (received (bytes "a") ∷ recv_again false ∷ received (bytes "b;c") ∷ [])
      (accepted 1 ∷ send_again false ∷ accepted 2 ∷ [])

read_exact_correct_example :
    Ends
      ((is_live in_pieces ≡ true) × (length (stream in_pieces) < 2))
      (λ r. ExactRead 2 in_pieces r.0 r.1)
      (read_exact 2 in_pieces)
read_exact_correct_example = read_exact_correct 2 in_pieces

read_until_correct_example :
    Ends
      ((is_live in_pieces ≡ true) × (find (bytes ";") (stream in_pieces) ≡ none))
      (λ r. UntilRead (bytes ";") in_pieces r.0 r.1)
      (read_until (bytes ";") in_pieces)
read_until_correct_example = read_until_correct (bytes ";") in_pieces

write_correct_example :
    Ends
      ((in_pieces.closed ≡ false) × (room in_pieces.outgoing < length (bytes "xyz")))
      (λ r. Writes (bytes "xyz") in_pieces r.0 r.1)
      (write (bytes "xyz") in_pieces)
write_correct_example = write_correct (bytes "xyz") in_pieces

-- A broadcast that waits in the middle, an answer by the session, and the end of the connection.
abbrev crossing : List WriteMove
crossing =
    begins 0 (bytes "abc")
    ∷ sends 0 (accepted 1)
    ∷ sends 0 (send_again false)
    ∷ begins 1 (bytes "xy")
    ∷ sends 1 (accepted 2)
    ∷ shuts
    ∷ wakes 0
    ∷ []

abbrev fresh : Connection
unfolding connect
fresh = connect 5 [] []

write_moves-merge_example :
    Merge
      (λ i. told ((write_moves crossing (shared fresh)).writers i))
      (write_moves crossing (shared fresh)).conn.wire
    × ((i : ℕ)
        → All
            (Finished (write_moves crossing (shared fresh)).conn.closed)
            ((write_moves crossing (shared fresh)).writers i).results)
unfolding fresh
write_moves-merge_example = write_moves-merge crossing fresh refl

write_moves-mixing_example :
    ((write_moves (mixing (bytes "abc") (bytes "xy") 1) (shared fresh)).conn.wire ≡ bytes "axybc")
    × (((write_moves (mixing (bytes "abc") (bytes "xy") 1) (shared fresh)).writers 0).results
        ≡ (bytes "abc", count 3) ∷ [])
    × (((write_moves (mixing (bytes "abc") (bytes "xy") 1) (shared fresh)).writers 1).results
        ≡ (bytes "xy", count 2) ∷ [])
unfolding fresh
write_moves-mixing_example =
    write_moves-mixing (bytes "abc") (bytes "xy") 1 fresh refl (omega arith) (omega arith)
      (omega arith)
