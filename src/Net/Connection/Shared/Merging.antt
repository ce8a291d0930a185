-- ===== src/Net/Connection/Shared/Merging.antt =====
-- What several writers put on one wire (net/connection.cpp), whatever the order of their moves.
use mathlib.Core.Path.{subst}
use coroutine_http.Prelude.{
  ℕ, zero, suc, ◌+◌, ◌<◌, ◌≤◌, ◌≡◌, refl, sym, ap, ◌∙◌, inl, inr, ◌⊎◌, Bool, true, false, ◌||◌,
  List, [], ◌∷◌, ◌++◌, append_assoc, append-nil, length, take, drop, take-append-take-drop, ltb,
  ltb→lt, if◌then◌else◌, Bool-cases, Bytes, is_empty, All, All-append, All-map, arith,
}
use coroutine_http.Net.Connection.{
  Connection, SendEvent, accepted, send_again, send_failed, Written, count, failure,
}
use coroutine_http.Net.Connection.Writing.{sent_of}
use coroutine_http.Net.Connection.Shared.{
  Stage, idle, sending, waiting, Writer, Shared, shared, set_writer, returns_with, begin_write,
  send_round, wake_round, WriteMove, begins, sends, wakes, shuts, begin_in, send_in, wake_in,
  write_move, write_moves,
}
use coroutine_http.Net.Connection.Shared.Pieces.{
  prefixes, under_way, told, Merge, nothing, Finished, IsLeft, Merged, told-returns_with,
  Merged-set_writer,
}

failed_count :
    (bs : Bytes) (sent : ℕ)
    → take (sent_of (if ltb 0 sent then count sent else failure)) bs ≡ take sent bs
failed_count bs zero = refl
failed_count bs (suc sent) =
    let positive : ltb 0 (suc sent) ≡ true = ground arith in rw positive refl

-- The results of a write that returns.
Finished-returns_with :
    (closed : Bool) (bs : Bytes) (r : Written) (w : Writer)
    → All (Finished closed) w.results
    → Finished closed (bs, r)
    → All (Finished closed) (returns_with bs r w).results
Finished-returns_with closed bs r w h k =
    All-append (Finished closed) w.results ((bs, r) ∷ []) h (k, tt)

module _ (i : ℕ) (s : Shared) (h : Merged s) where
  begin-Merged : (bs : Bytes) → (s.writers i).stage ≡ idle → Merged (begin_in i bs s idle)
  unfolding begin_write
  begin-Merged bs e = elim (Bool-cases (s.conn.closed || is_empty bs)) [
    | inl at_once ↦
        rw (at_once, begin_write)
          (Merged-set_writer i (returns_with bs (count 0) (s.writers i)) s s.conn [] h
            (told-returns_with bs (count 0) (s.writers i)
              ∙ sym (append-nil _ ∙ ap (λ g. prefixes (s.writers i).results ++ under_way g) e))
            (sym (append-nil s.conn.wire)) (λ c. c)
            (Finished-returns_with s.conn.closed bs (count 0) (s.writers i) (h.finished i)
              (nothing_left bs at_once))
            tt)
    | inr begun ↦
        rw (begun, begin_write)
          (Merged-set_writer i (record (s.writers i) { stage = sending bs 0 }) s s.conn [] h
            (sym (append-nil _ ∙ ap (λ g. prefixes (s.writers i).results ++ under_way g) e))
            (sym (append-nil s.conn.wire)) (λ c. c) (h.finished i) (some_left bs begun))
  ]
    where
      nothing_left :
          (bs : Bytes)
          → (s.conn.closed || is_empty bs) ≡ true
          → (length bs ≤ 0) ⊎ (s.conn.closed ≡ true)
      nothing_left [] e = inl (omega arith)
      nothing_left (b ∷ bs) e = inr (ground arith)

      some_left : (bs : Bytes) → (s.conn.closed || is_empty bs) ≡ false → 0 < length bs
      some_left [] e = ground arith
      some_left (b ∷ bs) e = omega arith

  -- A move in which the write under way puts nothing on the wire and does not return.
  module _ (bs : Bytes) (sent : ℕ) (g : Stage) (e : (s.writers i).stage ≡ g)
      (out : under_way g ≡ take sent bs) (left : sent < length bs) where
    stays-Merged :
        (k : Stage)
        → under_way k ≡ take sent bs
        → IsLeft k
        → Merged
            (record s { writers = set_writer i (record (s.writers i) { stage = k }) s.writers })
    stays-Merged k still more =
        Merged-set_writer i (record (s.writers i) { stage = k }) s s.conn [] h
          (ap (◌++◌ (prefixes (s.writers i).results)) (still ∙ sym (ap under_way e ∙ out))
            ∙ sym (append-nil _))
          (sym (append-nil s.conn.wire)) (λ c. c) (h.finished i) more

    -- The write returns, and what it counts is on the wire.
    returns-Merged :
        (conn : Connection) (r : Written) (more : Bytes)
        → take (sent_of r) bs ≡ take sent bs ++ more
        → conn.wire ≡ s.conn.wire ++ more
        → (s.conn.closed ≡ true → conn.closed ≡ true)
        → Finished conn.closed (bs, r)
        → Merged (record {
          conn = conn;
          writers = set_writer i (returns_with bs r (s.writers i)) s.writers;
        })
    returns-Merged conn r more counted longer shut done =
        let w = s.writers i in
        Merged-set_writer i (returns_with bs r w) s conn more h
          (told-returns_with bs r w
            ∙ ap (◌++◌ (prefixes w.results))
                (counted ∙ ap (λ x. x ++ more) (sym (ap under_way e ∙ out)))
            ∙ sym (append_assoc (prefixes w.results) (under_way w.stage) more))
          longer shut
          (Finished-returns_with conn.closed bs r w
            (All-map (Finished s.conn.closed) (Finished conn.closed)
              (λ p f. elim f [ inl whole ↦ inl whole | inr c ↦ inr (shut c) ]) w.results
              (h.finished i))
            done)
          tt

  -- `send` fails.
  failed-Merged :
      (bs : Bytes) (sent : ℕ)
      → (s.writers i).stage ≡ sending bs sent
      → Merged (record {
        conn = record s.conn { closed = true };
        writers =
            set_writer i
              (returns_with bs (if ltb 0 sent then count sent else failure) (s.writers i))
              s.writers;
      })
  failed-Merged bs sent e =
      returns-Merged bs sent (sending bs sent) e refl (subst IsLeft e (h.left i))
        (record s.conn { closed = true }) (if ltb 0 sent then count sent else failure) []
        (failed_count bs sent ∙ sym (append-nil (take sent bs))) (sym (append-nil s.conn.wire))
        (λ c. refl) (inr refl)

  send-Merged : (ev : SendEvent) (g : Stage) → (s.writers i).stage ≡ g → Merged (send_in i ev s g)
  unfolding send_round
  send-Merged ev idle e = h
  send-Merged ev (waiting bs sent) e = h
  send-Merged (send_again gone) (sending bs sent) e =
      let left = subst IsLeft e (h.left i) in
      stays-Merged bs sent (sending bs sent) e refl left (waiting bs sent) refl left
  send-Merged send_failed (sending bs sent) e = failed-Merged bs sent e
  send-Merged (accepted n) (sending bs sent) e = elim (Bool-cases (ltb 0 n)) [
    | inr none_sent ↦ rw (none_sent, send_round) (failed-Merged bs sent e)
    | inl some_sent ↦ elim (Bool-cases (ltb (sent + n) (length bs))) [
      | inl more ↦
          rw (some_sent, send_round, more)
            (Merged-set_writer i (record (s.writers i) { stage = sending bs (sent + n) }) s
              (record s.conn { wire = s.conn.wire ++ take n (drop sent bs) })
              (take n (drop sent bs)) h
              (ap (◌++◌ (prefixes (s.writers i).results)) (sym (take-append-take-drop sent n bs))
                ∙ sym (append_assoc (prefixes (s.writers i).results) (take sent bs) _)
                ∙ ap (λ g. (prefixes (s.writers i).results ++ under_way g) ++ take n (drop sent bs))
                    (sym e))
              refl (λ c. c) (h.finished i) (ltb→lt (sent + n) (length bs) more))
      | inr whole ↦
          rw (some_sent, send_round, whole)
            (returns-Merged bs sent (sending bs sent) e refl (subst IsLeft e (h.left i))
              (record s.conn { wire = s.conn.wire ++ take n (drop sent bs) }) (count (sent + n))
              (take n (drop sent bs)) (sym (take-append-take-drop sent n bs)) refl (λ c. c)
              (inl (ground arith)))
    ]
  ]

  wake-Merged : (g : Stage) → (s.writers i).stage ≡ g → Merged (wake_in i s g)
  unfolding wake_round
  wake-Merged idle e = h
  wake-Merged (sending bs sent) e = h
  wake-Merged (waiting bs sent) e =
      let left = subst IsLeft e (h.left i) in
      elim (Bool-cases s.conn.closed) [
        | inl shut ↦
            simp (shut, wake_round)
              (returns-Merged bs sent (waiting bs sent) e refl left s.conn (count sent) []
                (sym (append-nil (take sent bs))) (sym (append-nil s.conn.wire)) (λ c. c)
                (inr shut))
        | inr alive ↦
            simp (alive, wake_round)
              (stays-Merged bs sent (waiting bs sent) e refl left (sending bs sent) refl left)
      ]

shut-Merged : (s : Shared) → Merged s → Merged (record s { conn = record s.conn { closed = true } })
shut-Merged s h = record {
  merge = h.merge;
  finished = λ i.
      All-map (Finished s.conn.closed) (Finished true) (λ p f. inr refl) (s.writers i).results
        (h.finished i);
  left = h.left;
}

write_move-Merged : (m : WriteMove) (s : Shared) → Merged s → Merged (write_move m s)
unfolding write_move
write_move-Merged (begins i bs) s h = begins_at (s.writers i).stage refl
  where
    begins_at : (g : Stage) → (s.writers i).stage ≡ g → Merged (begin_in i bs s g)
    begins_at idle e = begin-Merged i s h bs e
    begins_at (sending cs sent) e = h
    begins_at (waiting cs sent) e = h
write_move-Merged (sends i ev) s h = send-Merged i s h ev (s.writers i).stage refl
write_move-Merged (wakes i) s h = wake-Merged i s h (s.writers i).stage refl
write_move-Merged shuts s h = shut-Merged s h

write_moves-Merged : (ms : List WriteMove) (s : Shared) → Merged s → Merged (write_moves ms s)
unfolding write_moves
write_moves-Merged [] s h = h
write_moves-Merged (m ∷ ms) s h = write_moves-Merged ms (write_move m s) (write_move-Merged m s h)

-- However the calls of `send` and the waits of several writers of one connection interleave, with
-- whatever results, partial ones and errors included: the wire is cut into pieces of which each
-- writer's, in their order, are just the prefixes that the results of its writes count and the
-- prefix that its write under way has sent, no byte twice and none left out; and a write that has
-- returned has sent all its data, or the connection is closed.
pub write_moves-merge :
    (ms : List WriteMove) (conn : Connection)
    → conn.wire ≡ []
    → Merge
        (λ i. told ((write_moves ms (shared conn)).writers i))
        (write_moves ms (shared conn)).conn.wire
      × ((i : ℕ)
          → All
              (Finished (write_moves ms (shared conn)).conn.closed)
              ((write_moves ms (shared conn)).writers i).results)
write_moves-merge ms conn e =
    let kept = write_moves-Merged ms (shared conn) (record {
      merge = subst (Merge (λ i. [])) (sym e) (nothing (λ i. refl));
      finished = λ i. tt;
      left = λ i. tt;
    }) in
    (kept.merge, kept.finished)
