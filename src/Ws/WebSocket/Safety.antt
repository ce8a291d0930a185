-- ===== src/Ws/WebSocket/Safety.antt =====
-- What `recv_frame` of ws/websocket.cpp does on any input whatever: truncated, malformed or
-- hostile.
use coroutine_http.Prelude.{
  ℕ, ◌≤◌, ◌<◌, ◌≡◌, refl, sym, ap, length-append, ◌∙◌, Bool, true, false, Option, none, some,
  length, ltb, ◌==◌, if◌then◌else◌, Bytes, arith,
}
use mathlib.Core.Path.{subst}
use mathlib.Core.Option.{some-injective}
use coroutine_http.Net.Run.{Run, done, ◌>>=◌, Ends, returns, Ends-bind, Ends-map, Ends-if}
use coroutine_http.Net.Connection.{Connection, read_exact}
use coroutine_http.Net.Connection.Stream.{stream, is_live, Used, Used-refl, Used-trans}
use coroutine_http.Net.Connection.Reading.{read_exact_correct}
use coroutine_http.Ws.WebSocket.{
  WsOpcode, WsFrame, max_payload, recv_length, recv_mask, unmask, recv_payload, recv_body,
  recv_frame,
}
use coroutine_http.Ws.WebSocket.Frames.{length-unmask}

-- A step of the receiver: it reads, and if it yields a value then that satisfies `P`, and the
-- connection is as alive as before.
record Step {ℓ} {A : Type ℓ} (P : A → Type 0) (c : Connection) (o : Option A) (d : Connection)
    : Type ℓ where
  reads : Used c d
  value : (a : A) → o ≡ some a → P a × (is_live d ≡ is_live c)

abbrev Steps {ℓ} : {A : Type ℓ} → (A → Type 0) → Connection → Run (Option A × Connection) → Type ℓ
Steps P c = Ends (is_live c ≡ true) (λ r. Step P c r.0 r.1)

Step-none {ℓ} : {A : Type ℓ} {P : A → Type 0} {c d : Connection} → Used c d → Step P c none d
Step-none u = record { reads = u; value = λ a e. absurd (ground arith) }

-- One `read_exact`, whose result is taken apart by `f` if it is not short.
module _ {ℓ} {A : Type ℓ} {P : A → Type 0} (n : ℕ) (c : Connection) where
  exact-Step :
      (f : Bytes × Connection → Run (Option A × Connection))
      → ((r : Bytes × Connection)
          → Used c r.1
          → length r.0 ≡ n
          → is_live r.1 ≡ is_live c
          → Steps P c (f r))
      → Steps P c (read_exact n c >>= λ r. if ltb (length r.0) n then done (none, r.1) else f r)
  exact-Step f k =
      Ends-bind (read_exact_correct n c) (λ w. w.0)
        λ r p.
          let u : Used c r.1 = record { used = r.0; conserved = p.conserved; kept = p.kept } in
          Ends-if (ltb (length r.0) n) (λ short. returns (Step-none u))
            (λ full. k r u (ground (arith, p.outcome)) (ground (arith, p.outcome)))

Steps-after {ℓ} :
    {A : Type ℓ} {P : A → Type 0} {c d : Connection} {m : Run (Option A × Connection)}
    → Used c d
    → is_live d ≡ is_live c
    → Steps P d m
    → Steps P c m
Steps-after u live s =
    Ends-map s (λ w. sym live ∙ w)
      λ r p. record {
        reads = Used-trans u p.reads;
        value = λ a e. ((p.value a e).0, (p.value a e).1 ∙ live);
      }

module _ {ℓ κ} {A : Type ℓ} {B : Type κ} {P : A → Type 0} {Q : B → Type 0} {c : Connection} where
  chosen :
      (o : Option A) (d : Connection) (f : A → Connection → Run (Option B × Connection))
      → Step P c o d
      → ((a : A) → P a → Steps Q d (f a d))
      → Steps Q c (elim o [ none ↦ done (none, d) | some a ↦ f a d ])
  chosen none d f s k = returns (Step-none s.reads)
  chosen (some a) d f s k = Steps-after s.reads (s.value a refl).1 (k a (s.value a refl).0)

  Steps-bind :
      (m : Run (Option A × Connection)) (f : A → Connection → Run (Option B × Connection))
      → Steps P c m
      → ((a : A) (d : Connection) → P a → Steps Q d (f a d))
      → Steps Q c (m >>= λ r. elim r.0 [ none ↦ done (none, r.1) | some a ↦ f a r.1 ])
  Steps-bind m f s k = Ends-bind s (λ w. w) (λ r p. chosen r.0 r.1 f p (λ a q. k a r.1 q))

Step-some {ℓ} :
    {A : Type ℓ} {P : A → Type 0} {c d : Connection} {a : A}
    → Used c d
    → is_live d ≡ is_live c
    → P a
    → Step P c (some a) d
Step-some {P} {a} u live p = record {
  reads = u;
  value = λ b e. (subst P (some-injective _ _ e) p, live);
}

abbrev Any {ℓ} : {A : Type ℓ} → A → Type 0
Any a = Unit {0}

recv_length-Step : (n : ℕ) (c : Connection) → Steps Any c (recv_length n c)
unfolding recv_length
recv_length-Step n c =
    Ends-if (n == 126) (λ _. exact-Step 2 c _ (λ r u e live. returns (Step-some u live tt)))
      (λ _.
        Ends-if (n == 127) (λ _. exact-Step 8 c _ (λ r u e live. returns (Step-some u live tt)))
          (λ _. returns (Step-some (Used-refl c) refl tt)))

recv_mask-Step : (masked : Bool) (c : Connection) → Steps Any c (recv_mask masked c)
unfolding recv_mask
recv_mask-Step masked c =
    Ends-if masked (λ _. exact-Step 4 c _ (λ r u e live. returns (Step-some u live tt)))
      (λ _. returns (Step-some (Used-refl c) refl tt))

abbrev IsBounded : WsFrame → Type 0
IsBounded f = length f.payload ≤ max_payload

recv_payload-Step :
    (fin : Bool) (opcode : WsOpcode) (masked : Bool) (n : ℕ) (mask : Bytes) (c : Connection)
    → n ≤ max_payload
    → Steps IsBounded c (recv_payload fin opcode masked n mask c)
unfolding recv_payload
recv_payload-Step fin opcode masked n mask c h =
    exact-Step n c _ λ r u e live. returns (Step-some u live (bounded masked r.0 e))
  where
    bounded :
        (m : Bool) (s : Bytes)
        → length s ≡ n
        → length (if m then unmask mask 0 s else s) ≤ max_payload
    bounded true s e = omega (arith, length-unmask mask 0 s)
    bounded false s e = omega arith

recv_body-Step :
    (fin : Bool) (opcode : WsOpcode) (masked : Bool) (n : ℕ) (c : Connection)
    → Steps IsBounded c (recv_body fin opcode masked n c)
unfolding recv_body
recv_body-Step fin opcode masked n c =
    Steps-bind (recv_length n c) _ (recv_length-Step n c) λ len d _.
      Ends-if (ltb max_payload len) (λ _. returns (Step-none (Used-refl d)))
        (λ fits.
          Steps-bind (recv_mask masked d) _ (recv_mask-Step masked d)
            λ mask e _. recv_payload-Step fin opcode masked len mask e (ground arith))

-- On any connection and any input, `recv_frame` returns, unless the connection lives and its input
-- stops short. It only takes bytes off the front of the stream and leaves the sending side alone.
-- A frame that it returns has at most 10 MB of payload, and the connection is as alive as before.
pub recv_frame_safe :
    (c : Connection)
    → Ends
        (is_live c ≡ true)
        (λ r.
          Used c r.1
          × ((f : WsFrame)
              → r.0 ≡ some f
              → (length f.payload ≤ max_payload) × (is_live r.1 ≡ is_live c)))
        (recv_frame c)
unfolding recv_frame
recv_frame_safe c =
    Ends-map
      (Ends-if c.closed (λ _. returns (Step-none (Used-refl c)))
        (λ _. exact-Step 2 c _ λ r u e live. Steps-after u live (recv_body-Step _ _ _ _ r.1)))
      (λ w. w) (λ r (p : Step IsBounded c r.0 r.1). (p.reads, p.value))

-- `recv_frame` puts nothing back into the stream, and a frame that it returns has taken at least its
-- first two bytes.
pub recv_frame-shrinks :
    (c : Connection)
    → Ends
        (Unit {0})
        (λ r.
          (length (stream r.1) ≤ length (stream c))
          × ((f : WsFrame) → r.0 ≡ some f → length (stream r.1) < length (stream c)))
        (recv_frame c)
unfolding recv_frame
recv_frame-shrinks c =
    Ends-if c.closed (λ _. returns (omega arith, λ f e. absurd (ground arith)))
      λ _.
        Ends-bind (read_exact_correct 2 c) (λ w. tt)
          λ r p.
            let taken = ap length p.conserved ∙ length-append r.0 (stream r.1) in
            Ends-if (ltb (length r.0) 2)
              (λ short. returns (omega (arith, taken), λ f e. absurd (ground arith)))
              (λ full.
                let two : 2 ≤ length r.0 = ground arith in
                Ends-map (recv_body-Step _ _ _ _ r.1) (λ w. tt)
                  (λ q t.
                    let rest =
                      ap length t.reads.conserved ∙ length-append t.reads.used (stream q.1) in
                    (omega (arith, taken, rest), λ f e. omega (arith, taken, rest))))
