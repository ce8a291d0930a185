-- ===== src/Net/Connection/Shared/Solo.antt =====
-- One writer by itself: the steps of Net.Connection.Shared against `write` as one call.
use coroutine_http.Prelude.{
  ℕ, ◌+◌, ◌<◌, ◌≤◌, ◌≡◌, refl, ap, ◌∙◌, inl, inr, true, false, ◌||◌, List, [], ◌∷◌, ◌++◌, length,
  ltb, ltb→lt, if◌then◌else◌, Bool-cases, Bytes, arith,
}
use coroutine_http.Net.Run.{done, Ends, returns, waits, Ends-map, Ends-if}
use coroutine_http.Net.Connection.Shared.Mixing.{
  longer, begin_write_open, send_round_more, send_round_last, wake_round_open,
}
use coroutine_http.Net.Connection.{
  Connection, SendEvent, accepted, send_again, send_failed, Written, count, failure, write_loop,
  write,
}
use coroutine_http.Net.Connection.Shared.{
  sending, waiting, Writer, new_writer, Shared, shared, set_writer, returns_with, send_round,
  wake_round, WriteMove, begins, sends, wakes, shuts, write_move, write_moves,
}

-- The moves of one writer for the results of its calls of `send`.
abbrev pub solo : List SendEvent → List WriteMove
solo [] = []
solo (accepted n ∷ es) = sends 0 (accepted n) ∷ solo es
solo (send_again true ∷ es) = sends 0 (send_again true) ∷ shuts ∷ wakes 0 ∷ solo es
solo (send_again false ∷ es) = sends 0 (send_again false) ∷ wakes 0 ∷ solo es
solo (send_failed ∷ es) = sends 0 send_failed ∷ solo es

-- The steps from `s` on come to the end that `write` returns.
pub record Agrees (bs : Bytes) (es : List SendEvent) (s : Shared) (w : Written) (d : Connection)
    : Type 0 where
  pub used : List SendEvent
  pub parts : es ≡ used ++ d.outgoing
  pub results :
      ((write_moves (solo used) s).writers 0).results ≡ (s.writers 0).results ++ (bs, w) ∷ []
  pub wire : (write_moves (solo used) s).conn.wire ≡ d.wire
  pub closed : (write_moves (solo used) s).conn.closed ≡ d.closed

-- A writer that is in the loop.
abbrev in_loop : Bytes → ℕ → Connection → List (Bytes × Written) → (ℕ → Writer) → Shared
in_loop bs sent conn rs others = record {
  conn = conn;
  writers = set_writer 0 (record { results = rs; stage = sending bs sent }) others;
}

Agrees-cons :
    (bs : Bytes) (ev : SendEvent) (es : List SendEvent) (s t : Shared) (w : Written)
    (d : Connection)
    → ((used : List SendEvent) → write_moves (solo (ev ∷ used)) s ≡ write_moves (solo used) t)
    → (t.writers 0).results ≡ (s.writers 0).results
    → Agrees bs es t w d
    → Agrees bs (ev ∷ es) s w d
Agrees-cons bs ev es s t w d step same h = record {
  used = ev ∷ h.used;
  parts = ap (◌∷◌ ev) h.parts;
  results =
      ap (λ x. (x.writers 0).results) (step h.used)
      ∙ h.results
      ∙ ap (λ rs. rs ++ (bs, w) ∷ []) same;
  wire = ap (λ x. x.conn.wire) (step h.used) ∙ h.wire;
  closed = ap (λ x. x.conn.closed) (step h.used) ∙ h.closed;
}

-- Behind the last byte the loop ends.
write_loop_end :
    (bs : Bytes) (sent : ℕ) (c : Connection) (es : List SendEvent)
    → ltb sent (length bs) ≡ false
    → write_loop bs sent c es ≡ done (count sent, record c { outgoing = es })
unfolding write_loop
write_loop_end bs sent c [] e = rw (write_loop, e) refl
write_loop_end bs sent c (accepted n ∷ es) e = rw (write_loop, e) refl
write_loop_end bs sent c (send_again gone ∷ es) e = rw (write_loop, e) refl
write_loop_end bs sent c (send_failed ∷ es) e = rw (write_loop, e) refl

send_round_none :
    (n sent : ℕ) (bs : Bytes) (conn : Connection) (w : Writer)
    → ltb 0 n ≡ false
    → send_round (accepted n) bs sent conn w ≡ (
      record conn { closed = true },
      returns_with bs (if ltb 0 sent then count sent else failure) w,
    )
unfolding send_round
send_round_none n sent bs conn w e = rw (send_round, e) refl

-- The round in which the last bytes go out, and one in which none does.
module _ (bs : Bytes) (n sent : ℕ) (c : Connection) (es : List SendEvent)
    (rs : List (Bytes × Written)) (others : ℕ → Writer) where
  abbrev looping : Writer
  looping = record { results = rs; stage = sending bs sent }

  last_round :
      0 < n
      → length bs ≤ sent + n
      → Agrees bs
          (accepted n ∷ es)
          (in_loop bs sent c rs others)
          (count (sent + n))
          (record (longer bs sent n c) { outgoing = es })
  unfolding write_moves write_move
  last_round some_sent last =
      let round = send_round_last n sent bs c looping some_sent last in
      record {
        used = accepted n ∷ [];
        parts = refl;
        results = ap (λ p. p.1.results) round;
        wire = ap (λ p. p.0.wire) round;
        closed = ap (λ p. p.0.closed) round;
      }

  none_round :
      ltb 0 n ≡ false
      → Agrees bs
          (accepted n ∷ es)
          (in_loop bs sent c rs others)
          (if ltb 0 sent then count sent else failure)
          (record c { closed = true; outgoing = es })
  unfolding write_moves write_move
  none_round none_sent =
      let round = send_round_none n sent bs c looping none_sent in
      record {
        used = accepted n ∷ [];
        parts = refl;
        results = ap (λ p. p.1.results) round;
        wire = ap (λ p. p.0.wire) round;
        closed = ap (λ p. p.0.closed) round;
      }

Agrees-write_loop :
    (bs : Bytes) (sent : ℕ) (c : Connection) (es : List SendEvent) (rs : List (Bytes × Written))
    (others : ℕ → Writer)
    → c.closed ≡ false
    → sent < length bs
    → Ends
        (Unit {0})
        (λ r. Agrees bs es (in_loop bs sent c rs others) r.0 r.1)
        (write_loop bs sent c es)
unfolding write_loop write_moves write_move send_round wake_round
Agrees-write_loop bs sent c [] rs others alive left =
    Ends-if (ltb sent (length bs)) (λ e. waits tt) (λ e. absurd (ground (arith, left, e)))
Agrees-write_loop bs sent c (send_failed ∷ es) rs others alive left =
    Ends-if (ltb sent (length bs))
      (λ e. returns (record {
        used = send_failed ∷ [];
        parts = refl;
        results = refl;
        wire = refl;
        closed = refl;
      }))
      (λ e. absurd (ground (arith, left, e)))
Agrees-write_loop bs sent c (send_again true ∷ es) rs others alive left =
    Ends-if (ltb sent (length bs))
      (λ e. returns (record {
        used = send_again true ∷ [];
        parts = refl;
        results = refl;
        wire = refl;
        closed = refl;
      }))
      (λ e. absurd (ground (arith, left, e)))
Agrees-write_loop bs sent c (send_again false ∷ es) rs others alive left =
    Ends-if (ltb sent (length bs))
      (λ e.
        Ends-map
          (Agrees-write_loop bs sent c es rs
            (set_writer 0 (record { results = rs; stage = waiting bs sent })
              (in_loop bs sent c rs others).writers)
            alive left)
          (λ w. w)
          (λ r h.
            Agrees-cons bs (send_again false) es (in_loop bs sent c rs others) _ r.0 r.1
              (λ used.
                ap
                  (λ w. write_moves (solo used) (record {
                    conn = c;
                    writers = set_writer 0 w (
                        set_writer 0 (record { results = rs; stage = waiting bs sent })
                          (in_loop bs sent c rs others).writers);
                  }))
                  (wake_round_open bs sent c (record { results = rs; stage = waiting bs sent })
                    alive))
              refl h))
      (λ e. absurd (ground (arith, left, e)))
Agrees-write_loop bs sent c (accepted n ∷ es) rs others alive left =
    Ends-if (ltb sent (length bs))
      (λ e.
        Ends-if (ltb 0 n)
          (λ some_sent. elim (Bool-cases (ltb (sent + n) (length bs))) [
            | inl more ↦
                Ends-map
                  (Agrees-write_loop bs (sent + n) (longer bs sent n c) es rs
                    (in_loop bs sent c rs others).writers alive
                    (ltb→lt (sent + n) (length bs) more))
                  (λ w. w)
                  (λ r h.
                    Agrees-cons bs (accepted n) es (in_loop bs sent c rs others) _ r.0 r.1
                      (λ used.
                        ap
                          (λ p. write_moves (solo used) (record {
                            conn = p.0;
                            writers = set_writer 0 p.1 (in_loop bs sent c rs others).writers;
                          }))
                          (send_round_more n sent bs c
                            (record { results = rs; stage = sending bs sent })
                            (ltb→lt 0 n some_sent) (ltb→lt (sent + n) (length bs) more)))
                      refl h)
            | inr last ↦ rw (write_loop_end bs (sent + n) (longer bs sent n c) es last) (
                returns (
                  last_round bs n sent c es rs others (ltb→lt 0 n some_sent)
                    (ground (arith, last))))
          ])
          (λ none_sent. returns (none_round bs n sent c es rs others none_sent)))
      (λ e. absurd (ground (arith, left, e)))

-- On an open connection, with some data: where `write` returns, so does the writer that takes the
-- same results of `send` step by step, with the same result, wire and mark of closing.
pub Agrees-write :
    (bs : Bytes) (conn : Connection)
    → conn.closed ≡ false
    → 0 < length bs
    → Ends
        (Unit {0})
        (λ r. Agrees bs conn.outgoing (write_move (begins 0 bs) (shared conn)) r.0 r.1)
        (write bs conn)
unfolding write write_move
Agrees-write [] conn alive some_data = absurd (omega (arith, some_data))
Agrees-write (b ∷ bs) conn alive some_data =
    let goes_on : (conn.closed || false) ≡ false = ground arith in
    rw (begin_write_open (b ∷ bs) conn new_writer alive some_data, write, goes_on)
      (Agrees-write_loop (b ∷ bs) 0 conn conn.outgoing [] (λ i. new_writer) alive some_data)
