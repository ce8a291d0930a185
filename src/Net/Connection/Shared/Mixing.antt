-- ===== src/Net/Connection/Shared/Mixing.antt =====
-- Two writers of one connection (net/connection.cpp) whose data mix.
use mathlib.Core.Path.{ap₂}
use coroutine_http.Prelude.{
  ℕ, ◌+◌, ◌-◌, ◌<◌, ◌≤◌, ◌≡◌, refl, ap, ◌∙◌, true, false, ◌||◌, List, [], ◌∷◌, ◌++◌, append_assoc,
  length, take, drop, take_all, length-drop, ltb, Bytes, arith,
}
use coroutine_http.Net.Connection.{Connection, accepted, send_again, count}
use coroutine_http.Net.Connection.Shared.{
  Stage, sending, waiting, Writer, new_writer, shared, set_writer, returns_with, begin_write,
  send_round, wake_round, WriteMove, begins, sends, wakes, write_move, write_moves,
}

-- The first writer waits behind the first bytes of its data, and the second sends all of its own.
abbrev pub mixing : Bytes → Bytes → ℕ → List WriteMove
mixing a b k =
    begins 0 a
    ∷ sends 0 (accepted k)
    ∷ sends 0 (send_again false)
    ∷ begins 1 b
    ∷ sends 1 (accepted (length b))
    ∷ wakes 0
    ∷ sends 0 (accepted (length a - k))
    ∷ []

pub begin_write_open :
    (bs : Bytes) (conn : Connection) (w : Writer)
    → conn.closed ≡ false
    → 0 < length bs
    → begin_write bs conn w ≡ record w { stage = sending bs 0 }
unfolding begin_write
begin_write_open [] conn w alive some_data = absurd (omega (arith, some_data))
begin_write_open (c ∷ bs) conn w alive some_data =
    let goes_on : (conn.closed || false) ≡ false = ground arith in rw (begin_write, goes_on) refl

-- The connection behind `n` bytes more.
abbrev pub longer : Bytes → ℕ → ℕ → Connection → Connection
longer bs sent n conn = record conn { wire = conn.wire ++ take n (drop sent bs) }

pub send_round_more :
    (n sent : ℕ) (bs : Bytes) (conn : Connection) (w : Writer)
    → 0 < n
    → sent + n < length bs
    → send_round (accepted n) bs sent conn w
      ≡ (longer bs sent n conn, record w { stage = sending bs (sent + n) })
unfolding send_round
send_round_more n sent bs conn w some_sent more =
    let e : ltb 0 n ≡ true = ground (arith, some_sent) in
    let f : ltb (sent + n) (length bs) ≡ true = ground (arith, more) in rw (send_round, e, f) refl

pub send_round_last :
    (n sent : ℕ) (bs : Bytes) (conn : Connection) (w : Writer)
    → 0 < n
    → length bs ≤ sent + n
    → send_round (accepted n) bs sent conn w
      ≡ (longer bs sent n conn, returns_with bs (count (sent + n)) w)
unfolding send_round
send_round_last n sent bs conn w some_sent last =
    let e : ltb 0 n ≡ true = ground (arith, some_sent) in
    let f : ltb (sent + n) (length bs) ≡ false = ground (arith, last) in rw (send_round, e, f) refl

pub wake_round_open :
    (bs : Bytes) (sent : ℕ) (conn : Connection) (w : Writer)
    → conn.closed ≡ false
    → wake_round bs sent conn w ≡ record w { stage = sending bs sent }
unfolding wake_round
wake_round_open bs sent conn w alive = rw (wake_round, alive) refl

module _ (a b : Bytes) (k : ℕ) (conn : Connection) (alive : conn.closed ≡ false) (some_out : 0 < k)
    (some_left : k < length a) (some_data : 0 < length b) where
  abbrev at_stage : Stage → Writer
  at_stage g = record new_writer { stage = g }

  abbrev behind_first : Connection
  behind_first = longer a 0 k conn

  abbrev behind_second : Connection
  behind_second = longer b 0 (length b) behind_first

  -- The first writer waits.
  abbrev held_up : ℕ → Writer
  held_up = set_writer 0 (at_stage (waiting a (0 + k))) (
      set_writer 0 (at_stage (sending a (0 + k)))
        (set_writer 0 (at_stage (sending a 0)) (λ i. new_writer)))

  first_waits :
      write_moves
        (begins 0 a ∷ sends 0 (accepted k) ∷ sends 0 (send_again false) ∷ [])
        (shared conn)
      ≡ record { conn = behind_first; writers = held_up }
  unfolding write_moves write_move send_round
  first_waits =
      ap
        (λ w.
          write_moves (sends 0 (accepted k) ∷ sends 0 (send_again false) ∷ [])
            (record { conn = conn; writers = set_writer 0 w (λ i. new_writer) }))
        (begin_write_open a conn new_writer alive (omega (arith, some_left)))
      ∙ ap
          (λ r. write_moves (sends 0 (send_again false) ∷ []) (record {
            conn = r.0;
            writers = set_writer 0 r.1 (set_writer 0 (at_stage (sending a 0)) (λ i. new_writer));
          }))
          (send_round_more k 0 a conn (at_stage (sending a 0)) some_out (omega (arith, some_left)))

  -- The second goes on to its end.
  second_returns :
      write_moves
        (begins 1 b ∷ sends 1 (accepted (length b)) ∷ [])
        (record { conn = behind_first; writers = held_up })
      ≡ record {
        conn = behind_second;
        writers =
            set_writer 1
              (returns_with b (count (0 + length b)) (at_stage (sending b 0)))
              (set_writer 1 (at_stage (sending b 0)) held_up);
      }
  unfolding write_moves write_move
  second_returns =
      ap
        (λ w.
          write_moves (sends 1 (accepted (length b)) ∷ [])
            (record { conn = behind_first; writers = set_writer 1 w held_up }))
        (begin_write_open b behind_first new_writer alive some_data)
      ∙ ap
          (λ r. record {
            conn = r.0;
            writers = set_writer 1 r.1 (set_writer 1 (at_stage (sending b 0)) held_up);
          })
          (send_round_last (length b) 0 b behind_first (at_stage (sending b 0)) some_data
            (omega arith))

  abbrev behind_both : Connection
  behind_both = longer a (0 + k) (length a - k) behind_second

  abbrev second_done : ℕ → Writer
  second_done =
      set_writer 1 (returns_with b (count (0 + length b)) (at_stage (sending b 0)))
        (set_writer 1 (at_stage (sending b 0)) held_up)

  abbrev woken : ℕ → Writer
  woken = set_writer 0 (at_stage (sending a (0 + k))) second_done

  abbrev both_done : ℕ → Writer
  both_done =
      set_writer 0 (returns_with a (count (0 + k + (length a - k))) (at_stage (sending a (0 + k))))
        woken

  first_returns :
      write_moves
        (wakes 0 ∷ sends 0 (accepted (length a - k)) ∷ [])
        (record { conn = behind_second; writers = second_done })
      ≡ record { conn = behind_both; writers = both_done }
  unfolding write_moves write_move
  first_returns =
      ap
        (λ w.
          write_moves (sends 0 (accepted (length a - k)) ∷ [])
            (record { conn = behind_second; writers = set_writer 0 w second_done }))
        (wake_round_open a (0 + k) behind_second (at_stage (waiting a (0 + k))) alive)
      ∙ ap (λ r. record { conn = r.0; writers = set_writer 0 r.1 woken })
          (send_round_last (length a - k) (0 + k) a behind_second (at_stage (sending a (0 + k)))
            (omega (arith, some_left)) (omega (arith, some_left)))

  all_moves :
      write_moves (mixing a b k) (shared conn) ≡ record { conn = behind_both; writers = both_done }
  unfolding write_moves
  all_moves =
      ap
        (λ s.
          write_moves
            (begins 1 b
              ∷ sends 1 (accepted (length b))
              ∷ wakes 0
              ∷ sends 0 (accepted (length a - k))
              ∷ [])
            s)
        first_waits
      ∙ ap (λ s. write_moves (wakes 0 ∷ sends 0 (accepted (length a - k)) ∷ []) s) second_returns
      ∙ first_returns

  -- Two writes on one open connection mix: wherever the first waits with `k` bytes of its data out
  -- and some left, and the second then sends all its own, the second's data stand in the middle of
  -- the first's on the wire, while both writes return that they have sent all.
  pub write_moves-mixing :
      ((write_moves (mixing a b k) (shared conn)).conn.wire
        ≡ conn.wire ++ (take k a ++ (b ++ drop k a)))
      × (((write_moves (mixing a b k) (shared conn)).writers 0).results
          ≡ (a, count (length a)) ∷ [])
      × (((write_moves (mixing a b k) (shared conn)).writers 1).results
          ≡ (b, count (length b)) ∷ [])
  write_moves-mixing =
      let none_out : 0 + k ≡ k = omega arith in
      let rest : take (length a - k) (drop k a) ≡ drop k a =
        take_all (length a - k) (drop k a) (omega (arith, length-drop k a)) in
      let whole : take (length b) b ≡ b = take_all (length b) b (omega arith) in
      (
        ap (λ s. s.conn.wire) all_moves
            ∙ ap
                (λ n.
                  ((conn.wire ++ take k a) ++ take (length b) b) ++ take (length a - k) (drop n a))
                none_out
            ∙ ap₂ (λ u v. ((conn.wire ++ take k a) ++ u) ++ v) whole rest
            ∙ append_assoc (conn.wire ++ take k a) b (drop k a)
            ∙ append_assoc conn.wire (take k a) (b ++ drop k a),
        ap (λ s. (s.writers 0).results) all_moves
            ∙ ap (λ n. (a, count n) ∷ []) (omega (arith, some_left)),
        ap (λ s. (s.writers 1).results) all_moves ∙ ap (λ n. (b, count n) ∷ []) (omega arith),
      )
