-- ===== src/Net/Connection/Writing.antt =====
-- What `write` of net/connection.cpp puts on the wire, over every pattern of partial writes.
use coroutine_http.Prelude.{
  ℕ, zero, suc, ◌+◌, ◌≤◌, ◌<◌, ◌≡◌, refl, sym, ap, ◌∙◌, ◌⊎◌, inl, inr, true, false, ◌||◌, List, [],
  ◌∷◌, ◌++◌, append-nil, append_assoc, length, take, drop, ltb, if◌then◌else◌, Bytes, is_empty,
  take-append-take-drop, arith,
}
use coroutine_http.Net.Run.{Ends, returns, waits, Ends-map, Ends-if}
use coroutine_http.Net.Connection.{
  Connection, SendEvent, accepted, send_again, send_failed, Written, count, failure, write_loop,
  write,
}

-- The bytes that the coming calls of `send` take.
abbrev pub room : List SendEvent → ℕ
room [] = 0
room (accepted n ∷ es) = n + room es
room (send_again gone ∷ es) = room es
room (send_failed ∷ es) = room es

abbrev pub sent_of : Written → ℕ
sent_of (count n) = n
sent_of failure = 0

-- What `write bs` does to a connection.
pub record Writes (bs : Bytes) (c : Connection) (w : Written) (d : Connection) : Type 0 where
  pub wire : d.wire ≡ c.wire ++ take (sent_of w) bs
  pub outcome :
      ((length bs ≤ sent_of w) × (d.closed ≡ c.closed))
      ⊎ ((sent_of w < length bs) × (d.closed ≡ true))
  pub kept :
      (d.fd ≡ c.fd)
      × (d.read_buf ≡ c.read_buf)
      × (d.incoming ≡ c.incoming)
      × (d.released ≡ c.released)

-- The loop, entered with `sent` bytes already on the wire behind `w0`.
module _ (bs w0 : Bytes) where
  abbrev Continues : Connection → Written × Connection → Type 0
  Continues c r = Writes bs (record c { wire = w0 }) r.0 r.1

  -- A real error after `sent` bytes.
  failed-Writes :
      (sent : ℕ) (c : Connection) (es : List SendEvent)
      → c.wire ≡ w0 ++ take sent bs
      → ltb sent (length bs) ≡ true
      → Continues c
          (if ltb 0 sent then count sent else failure, record c { closed = true; outgoing = es })
  failed-Writes zero c es h e = ground arith
  failed-Writes (suc sent) c es h e = ground arith

  write_loop-Writes :
      (sent : ℕ) (c : Connection) (es : List SendEvent)
      → c.wire ≡ w0 ++ take sent bs
      → Ends (sent + room es < length bs) (Continues c) (write_loop bs sent c es)
  unfolding write_loop
  write_loop-Writes sent c [] h =
      Ends-if (ltb sent (length bs)) (λ e. waits (ground arith)) (λ e. returns (ground arith))
  write_loop-Writes sent c (accepted n ∷ es) h =
      Ends-if (ltb sent (length bs))
        (λ e.
          Ends-if (ltb 0 n)
            (λ some_sent.
              Ends-map
                (write_loop-Writes (sent + n) (record c { wire = c.wire ++ take n (drop sent bs) })
                  es
                  (ap (λ s. s ++ take n (drop sent bs)) h
                    ∙ append_assoc w0 (take sent bs) (take n (drop sent bs))
                    ∙ ap (λ s. w0 ++ s) (take-append-take-drop sent n bs)))
                (λ w. omega arith)
                (λ r p. record { wire = p.wire; outcome = p.outcome; kept = p.kept }))
            (λ none_sent. returns (failed-Writes sent c es h e)))
        (λ e. returns (ground arith))
  write_loop-Writes sent c (send_again gone ∷ es) h =
      Ends-if (ltb sent (length bs))
        (λ e. Ends-if gone (λ g. returns (ground arith)) (λ g. write_loop-Writes sent c es h))
        (λ e. returns (ground arith))
  write_loop-Writes sent c (send_failed ∷ es) h =
      Ends-if (ltb sent (length bs)) (λ e. returns (failed-Writes sent c es h e))
        (λ e. returns (ground arith))

-- For every connection and every pattern of partial writes: `write` puts on the wire exactly the
-- prefix of the data that its result counts, in order and once. Either that is all of the data,
-- and the connection is as open as before, or the connection is closed. On an open connection it
-- waits for ever only if the socket never takes all the data.
pub write_correct :
    (bs : Bytes) (c : Connection)
    → Ends
        ((c.closed ≡ false) × (room c.outgoing < length bs))
        (λ r. Writes bs c r.0 r.1)
        (write bs c)
unfolding write
write_correct bs c =
    Ends-if (c.closed || is_empty bs) (λ nothing. returns (nothing_to_do bs nothing))
      (λ e.
        Ends-map (write_loop-Writes bs c.wire 0 c c.outgoing (sym (append-nil c.wire)))
          (λ w. (ground arith, omega arith)) (λ r p. p))
  where
    nothing_to_do : (bs : Bytes) → (c.closed || is_empty bs) ≡ true → Writes bs c (count 0) c
    nothing_to_do [] e = record {
      wire = sym (append-nil c.wire);
      outcome = inl (omega arith, refl);
      kept = (refl, refl, refl, refl);
    }
    nothing_to_do (b ∷ bs) e = record {
      wire = sym (append-nil c.wire);
      outcome = inr (omega arith, ground arith);
      kept = (refl, refl, refl, refl);
    }
