-- ===== src/Net/Connection/Stream.antt =====
-- The byte stream that the peer of a connection sends (net/connection.cpp), and one `read` of it.
use coroutine_http.Prelude.{
  sym, ap, ◌∙◌, append_assoc, ◌<◌, ◌≡◌, refl, Bool, true, false, ◌&&◌, not, List, [], ◌∷◌, ◌++◌,
  length, ltb, Bytes, is_empty, arith,
}
use coroutine_http.Net.Run.{Ends, returns, waits, Ends-map, Ends-if}
use coroutine_http.Net.Connection.{
  Connection, RecvEvent, received, recv_again, recv_failed, read_loop, read,
}

-- The bytes that the coming calls of `recv` return.
abbrev pub payload : List RecvEvent → Bytes
payload [] = []
payload (received bs ∷ es) = bs ++ payload es
payload (recv_again gone ∷ es) = payload es
payload (recv_failed ∷ es) = payload es

-- What the peer has sent and the program has not yet consumed.
abbrev pub stream : Connection → Bytes
stream c = c.read_buf ++ payload c.incoming

-- No event ends the stream: no end of file, no failure, no close during a wait.
abbrev pub never_ends : List RecvEvent → Bool
never_ends [] = true
never_ends (received bs ∷ es) = ltb 0 (length bs) && never_ends es
never_ends (recv_again gone ∷ es) = not gone && never_ends es
never_ends (recv_failed ∷ es) = false

abbrev pub is_live : Connection → Bool
is_live c = not c.closed && never_ends c.incoming

-- Reading touches neither the descriptor nor the sending side.
abbrev pub Kept : Connection → Connection → Type 0
Kept c d = (d.fd ≡ c.fd) × (d.outgoing ≡ c.outgoing) × (d.wire ≡ c.wire) × (d.released ≡ c.released)

-- One `read` on a connection whose events are `es`.
pub record Reads (c : Connection) (es : List RecvEvent) (bs : Bytes) (d : Connection) : Type 0 where
  pub buffer : d.read_buf ≡ c.read_buf
  pub conserved : payload es ≡ bs ++ payload d.incoming
  pub ended : is_empty bs ≡ true → (d.closed ≡ true) × ((not c.closed && never_ends es) ≡ false)
  pub fewer : is_empty bs ≡ false → length d.incoming < length es
  pub live : is_empty bs ≡ false → is_live d ≡ (not c.closed && never_ends es)
  pub kept : Kept c d

abbrev pub Stalled : Connection → List RecvEvent → Type 0
Stalled c es = (never_ends es ≡ true) × (payload es ≡ [])

read_loop-Reads :
    (c : Connection) (es : List RecvEvent)
    → c.closed ≡ false
    → Ends (Stalled c es) (λ r. Reads c es r.0 r.1) (read_loop c es)
unfolding read_loop
read_loop-Reads c [] h = waits (refl, refl)
read_loop-Reads c (received [] ∷ es) h = returns (ground arith)
read_loop-Reads c (received (b ∷ bs) ∷ es) h =
    Ends-if (ltb 0 (length (b ∷ bs))) (λ e. returns (ground arith)) (λ e. absurd (ground arith))
read_loop-Reads c (recv_again true ∷ es) h = returns (ground arith)
read_loop-Reads c (recv_again false ∷ es) h =
    Ends-map (read_loop-Reads c es h) (λ w. w)
      (λ r p. record {
        buffer = p.buffer;
        conserved = p.conserved;
        ended = p.ended;
        fewer = λ e. omega (arith, p.fewer e);
        live = p.live;
        kept = p.kept;
      })
read_loop-Reads c (recv_failed ∷ es) h = returns (ground arith)

pub read-Reads :
    (c : Connection)
    → Ends ((c.closed ≡ false) × Stalled c c.incoming) (λ r. Reads c c.incoming r.0 r.1) (read c)
unfolding read
read-Reads c =
    Ends-if c.closed (λ shut. returns (ground arith))
      λ live. Ends-map (read_loop-Reads c c.incoming live) (λ w. (live, w)) (λ r p. p)

-- `d` is `c` after `used` has been read.
pub record Used (c d : Connection) : Type 0 where
  pub used : Bytes
  pub conserved : stream c ≡ used ++ stream d
  pub kept : Kept c d

pub Used-refl : (c : Connection) → Used c c
Used-refl c = record { used = []; conserved = refl; kept = (refl, refl, refl, refl) }

pub Used-trans : {c d e : Connection} → Used c d → Used d e → Used c e
Used-trans p q = record {
  used = p.used ++ q.used;
  conserved = p.conserved ∙ ap (λ s. p.used ++ s) q.conserved ∙ sym (append_assoc p.used q.used _);
  kept = ground (arith, p.kept, q.kept);
}
