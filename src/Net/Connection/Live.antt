-- ===== src/Net/Connection/Live.antt =====
-- `read_until` and `read_exact` (net/connection.cpp) on a live connection that delivers what they
-- ask for.
use coroutine_http.Prelude.{
  find-append, ℕ, ◌+◌, ◌≤◌, ◌≡◌, sym, ap, ◌∙◌, inl, inr, true, some, ◌++◌, length, take, drop,
  Bytes, find, length-append, take-append_self, drop-append_self, arith,
}
use mathlib.Core.Path.{ap₂}
use coroutine_http.Net.Run.{done, Ends-returns}
use coroutine_http.Net.Connection.{Connection, read_until, read_exact}
use coroutine_http.Net.Connection.Stream.{stream, is_live, Kept}
use coroutine_http.Net.Connection.Reading.{
  ExactRead, read_exact_correct, UntilRead, read_until_correct,
}

-- On a live connection whose stream holds `n` bytes, `read_exact n` returns exactly those.
pub read_exact_live :
    (n : ℕ) (c : Connection)
    → is_live c ≡ true
    → n ≤ length (stream c)
    → (d : Connection) × (read_exact n c ≡ done (take n (stream c), d))
      × (stream d ≡ drop n (stream c))
      × (is_live d ≡ true)
      × Kept c d
read_exact_live n c live h =
    let ((r, d), same, q) = Ends-returns (read_exact_correct n c) (λ w. omega arith) in
    let size : length r ≡ n = ground (arith, q.outcome) in
    (
      d,
      same ∙ ap (λ x. done (x, d)) (front r d q size),
      back r d q size,
      ground (arith, q.outcome),
      q.kept,
    )
  where
    front : (r : Bytes) (d : Connection) → ExactRead n c r d → length r ≡ n → r ≡ take n (stream c)
    front r d q size = rw (q.conserved, ← size) (sym (take-append_self r (stream d)))

    back :
        (r : Bytes) (d : Connection)
        → ExactRead n c r d
        → length r ≡ n
        → stream d ≡ drop n (stream c)
    back r d q size = rw (q.conserved, ← size) (sym (drop-append_self r (stream d)))

-- `d` is `c` after some reading, alive, with the bytes `ys` still to come.
pub record Delivered (ys : Bytes) (c d : Connection) : Type 0 where
  pub rest : stream d ≡ ys
  pub live : is_live d ≡ true
  pub kept : Kept c d

pub Delivered-trans :
    {ys zs : Bytes} {c d e : Connection} → Delivered ys c d → Delivered zs d e → Delivered zs c e
Delivered-trans p q = record { rest = q.rest; live = q.live; kept = ground (arith, p.kept, q.kept) }

-- The same, for a stream that is given in two parts.
pub read_exact_append :
    (n : ℕ) (xs ys : Bytes) (c : Connection)
    → is_live c ≡ true
    → stream c ≡ xs ++ ys
    → n ≡ length xs
    → (d : Connection) × (read_exact n c ≡ done (xs, d)) × Delivered ys c d
read_exact_append n xs ys c live h e =
    let (d, same, rest, live', kept) =
      read_exact_live n c live (omega (arith, ap length h, length-append xs ys)) in
    (
      d,
      same
          ∙ ap (λ x. done (x, d))
              (ap (λ k. take k (stream c)) e ∙ ap (take (length xs)) h ∙ take-append_self xs ys),
      record {
        rest =
            rest ∙ ap (λ k. drop k (stream c)) e ∙ ap (drop (length xs)) h ∙ drop-append_self xs ys;
        live = live';
        kept = kept;
      },
    )

-- On a live connection whose stream begins with a part that ends at its first delimiter,
-- `read_until` returns that part.
pub read_until_append :
    (delim xs ys : Bytes) (pos : ℕ) (c : Connection)
    → is_live c ≡ true
    → stream c ≡ xs ++ ys
    → find delim xs ≡ some pos
    → length xs ≡ pos + length delim
    → (d : Connection) × (read_until delim c ≡ done (xs, d)) × Delivered ys c d
read_until_append delim xs ys pos c live h found size =
    let whole : find delim (stream c) ≡ some pos = rw h (find-append delim xs ys pos found) in
    let ((r, d), same, q) = Ends-returns (read_until_correct delim c) (λ w. ground (arith, w.1)) in
    let n : length r ≡ length xs = width r d q whole in
    let front : r ≡ xs =
      sym (take-append_self r (stream d))
      ∙ ap₂ take n (sym q.conserved ∙ h)
      ∙ take-append_self xs ys in
    let back : stream d ≡ ys =
      sym (drop-append_self r (stream d))
      ∙ ap₂ drop n (sym q.conserved ∙ h)
      ∙ drop-append_self xs ys in
    (
      d,
      same ∙ ap (λ x. done (x, d)) front,
      record { rest = back; live = ground (arith, q.outcome); kept = q.kept },
    )
  where
    width :
        (r : Bytes) (d : Connection)
        → UntilRead delim c r d
        → find delim (stream c) ≡ some pos
        → length r ≡ length xs
    width r d q whole = elim q.outcome [
      | inl (k, e, n, _) ↦
          let other : find delim (stream c) ≡ some k =
            rw q.conserved (find-append delim r (stream d) k e) in
          ground arith
      | inr (_, _, dead, _) ↦ absurd (ground arith)
    ]
