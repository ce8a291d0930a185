-- ===== src/Net/Connection/Reading.antt =====
-- What `read`, `read_until` and `read_exact` of net/connection.cpp do with the byte stream of the
-- peer, however the network cuts it into pieces.
use coroutine_http.Prelude.{
  append-nil, ℕ, zero, suc, ◌+◌, ◌≤◌, ◌<◌, ◌≡◌, refl, sym, ap, ◌∙◌, ◌⊎◌, inl, inr, true, false,
  none, some, [], ◌++◌, append_assoc, length, take, drop, ltb, leb, Option-cases, Bytes, find,
  is_empty, find-take, find-le, length-append, take-append-drop, length-take, arith,
}
use coroutine_http.Net.Run.{Ends, returns, Ends-bind, Ends-map, Ends-if}
use coroutine_http.Net.Connection.{
  Connection, take_rest, take_front, read_until_loop, read_until, fill_loop, read_exact,
}
use coroutine_http.Net.Connection.Stream.{payload, stream, is_live, Kept, Reads, read-Reads}

-- The buffer after a round of either loop.
abbrev grown : Connection → Bytes → Connection
grown d bs = record d { read_buf = d.read_buf ++ bs }

module _ {c d : Connection} {bs : Bytes} (p : Reads c c.incoming bs d) where
  stream-grown : stream (grown d bs) ≡ stream c
  stream-grown = cc (p.buffer, p.conserved, append_assoc d.read_buf bs (payload d.incoming))

  stream_of_end : is_empty bs ≡ true → stream d ≡ stream c
  stream_of_end e = let none_read : bs ≡ [] = ground arith in cc (p.buffer, p.conserved, none_read)

-- The `while` of `read_exact` ends with enough bytes in the buffer, or at the end of the stream.
record Fills (n : ℕ) (c d : Connection) : Type 0 where
  conserved : stream d ≡ stream c
  kept : Kept c d
  outcome :
      ((n ≤ length d.read_buf) × (is_live d ≡ is_live c))
      ⊎ ((length d.read_buf < n) × (d.closed ≡ true) × (is_live c ≡ false))

-- A wait without end: the connection lives, and the peer has not sent `n` bytes.
abbrev Starves : ℕ → Connection → Type 0
Starves n c = (is_live c ≡ true) × (length (stream c) < n)

module _ {c d : Connection} {bs : Bytes} (p : Reads c c.incoming bs d)
    (e : is_empty bs ≡ false) where
  Starves-grown : (n : ℕ) → Starves n (grown d bs) → Starves n c
  Starves-grown n w = (ground (arith, p.live e, w.0), rw (stream-grown p) at w.1)

  Fills-grown : (n : ℕ) {d' : Connection} → Fills n (grown d bs) d' → Fills n c d'
  Fills-grown n q = record {
    conserved = q.conserved ∙ stream-grown p;
    kept = ground (arith, p.kept, q.kept);
    outcome = ground (arith, q.outcome, p.live e);
  }

fill_loop-Fills :
    (fuel n : ℕ) (c : Connection)
    → length c.incoming < fuel
    → Ends (Starves n c) (Fills n c) (fill_loop fuel n c)
unfolding fill_loop
fill_loop-Fills zero n c h = absurd (omega arith)
fill_loop-Fills (suc fuel) n c h =
    Ends-if (ltb (length c.read_buf) n)
      (λ short.
        Ends-bind (read-Reads c)
          (λ w. (
            ground (arith, w.0, w.1.0),
            ground (arith, length-append c.read_buf (payload c.incoming), ap length w.1.1),
          ))
          λ r p.
            Ends-if (is_empty r.0)
              (λ e. returns (record {
                conserved = stream_of_end p e;
                kept = p.kept;
                outcome = inr (ground (arith, p.buffer), (p.ended e).0, (p.ended e).1);
              }))
              (λ e.
                Ends-map (fill_loop-Fills fuel n (grown r.1 r.0) (omega (arith, p.fewer e)))
                  (Starves-grown p e n) (λ d q. Fills-grown p e n q)))
      (λ full. returns (record {
        conserved = refl;
        kept = (refl, refl, refl, refl);
        outcome = inl (ground arith, refl);
      }))

-- What `read_exact` returns.
pub record ExactRead (n : ℕ) (c : Connection) (r : Bytes) (d : Connection) : Type 0 where
  pub conserved : stream c ≡ r ++ stream d
  pub kept : Kept c d
  pub outcome :
      ((length r ≡ n) × (is_live d ≡ is_live c))
      ⊎ ((length r < n) × (d.closed ≡ true) × (is_live c ≡ false) × (d.read_buf ≡ []))

take_front-conserved :
    (n : ℕ) (c : Connection) → stream c ≡ (take_front n c).0 ++ stream (take_front n c).1
unfolding take_front
take_front-conserved n c =
    ap (λ s. s ++ payload c.incoming) (sym (take-append-drop n c.read_buf))
    ∙ append_assoc (take n c.read_buf) (drop n c.read_buf) (payload c.incoming)

-- For every connection and every schedule of its socket, `read_exact n` returns the first `n`
-- bytes of the stream and leaves the rest, or, after the end of the stream, returns the fewer
-- bytes that there were, with the connection closed and the buffer empty. It waits for ever only
-- if the connection lives and its stream holds fewer than `n` bytes; the fuel never runs out.
pub read_exact_correct :
    (n : ℕ) (c : Connection)
    → Ends
        ((is_live c ≡ true) × (length (stream c) < n))
        (λ r. ExactRead n c r.0 r.1)
        (read_exact n c)
unfolding read_exact take_front take_rest
read_exact_correct n c =
    Ends-bind (fill_loop-Fills (suc (length c.incoming)) n c (omega arith)) (λ w. w)
      λ d q.
        Ends-if (leb n (length d.read_buf))
          (λ enough. returns (record {
            conserved = sym q.conserved ∙ take_front-conserved n d;
            kept = q.kept;
            outcome = inl (ground (arith, length-take n d.read_buf), ground (arith, q.outcome));
          }))
          (λ short. returns (record {
            conserved = sym q.conserved;
            kept = q.kept;
            outcome =
                inr (ground arith, ground (arith, q.outcome), ground (arith, q.outcome), refl);
          }))

-- What `read_until` returns: up to and with the first delimiter, or all that was left.
pub record UntilRead (delim : Bytes) (c : Connection) (r : Bytes) (d : Connection) : Type 0 where
  pub conserved : stream c ≡ r ++ stream d
  pub kept : Kept c d
  pub outcome :
      ((pos : ℕ) × (find delim r ≡ some pos)
        × (length r ≡ pos + length delim)
        × (is_live d ≡ is_live c))
      ⊎ ((find delim r ≡ none) × (d.closed ≡ true) × (is_live c ≡ false) × (d.read_buf ≡ []))

UntilRead-grown :
    {delim : Bytes} {c d : Connection} {bs : Bytes}
    → Reads c c.incoming bs d
    → is_empty bs ≡ false
    → (r : Bytes × Connection) → UntilRead delim (grown d bs) r.0 r.1
    → UntilRead delim c r.0 r.1
UntilRead-grown p e r q = record {
  conserved = sym (stream-grown p) ∙ q.conserved;
  kept = ground (arith, p.kept, q.kept);
  outcome = ground (arith, q.outcome, p.live e);
}

-- A wait without end: the connection lives, and the peer has not sent the delimiter.
abbrev Seeks : Bytes → Connection → Type 0
Seeks delim c = (is_live c ≡ true) × (find delim (stream c) ≡ none)

Seeks-grown :
    (delim : Bytes) {c d : Connection} {bs : Bytes}
    → Reads c c.incoming bs d
    → is_empty bs ≡ false
    → Seeks delim (grown d bs)
    → Seeks delim c
Seeks-grown delim p e w = (ground (arith, p.live e, w.0), rw (stream-grown p) at w.1)

read_until_loop-UntilRead :
    (fuel : ℕ) (delim : Bytes) (c : Connection)
    → length c.incoming < fuel
    → Ends (Seeks delim c) (λ r. UntilRead delim c r.0 r.1) (read_until_loop fuel delim c)
unfolding read_until_loop take_front take_rest
read_until_loop-UntilRead zero delim c h = absurd (omega arith)
read_until_loop-UntilRead (suc fuel) delim c h = elim (Option-cases (find delim c.read_buf)) [
  | inr (pos, found) ↦
      rw (found, read_until_loop)
        (returns (record {
          conserved = take_front-conserved (pos + length delim) c;
          kept = (refl, refl, refl, refl);
          outcome = inl (
            pos,
            find-take delim c.read_buf pos found,
            omega (
              arith,
              length-take (pos + length delim) c.read_buf,
              find-le delim c.read_buf pos found,
            ),
            refl,
          );
        }))
  | inl missing ↦
      rw (missing, read_until_loop)
        (Ends-bind (read-Reads c)
          (λ w. (ground (arith, w.0, w.1.0), rw (w.1.1, append-nil c.read_buf) missing))
          λ r p.
            Ends-if (is_empty r.0)
              (λ e. returns (record {
                conserved = sym (stream_of_end p e);
                kept = p.kept;
                outcome = inr (rw p.buffer missing, (p.ended e).0, (p.ended e).1, refl);
              }))
              (λ e.
                Ends-map
                  (read_until_loop-UntilRead fuel delim (grown r.1 r.0) (omega (arith, p.fewer e)))
                  (Seeks-grown delim p e) (λ s q. UntilRead-grown p e s q)))
]

-- For every delimiter, connection and schedule of its socket, `read_until` returns the stream up
-- to the end of the first delimiter and leaves the rest, or, after the end of a stream without
-- one, all that was left, with the connection closed. It waits for ever only if the connection
-- lives and its stream holds no delimiter; the fuel never runs out.
pub read_until_correct :
    (delim : Bytes) (c : Connection)
    → Ends
        ((is_live c ≡ true) × (find delim (stream c) ≡ none))
        (λ r. UntilRead delim c r.0 r.1)
        (read_until delim c)
unfolding read_until
read_until_correct delim c =
    read_until_loop-UntilRead (suc (length c.incoming)) delim c (omega arith)
