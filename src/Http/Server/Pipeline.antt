-- ===== src/Http/Server/Pipeline.antt =====
-- `handle_connection` of http/http_server.cpp on a client that sends several requests one behind the
-- other.
use mathlib.Core.Path.{subst}
use coroutine_http.Prelude.{
  ℕ, zero, suc, ◌+◌, ◌≤◌, ◌≡◌, refl, sym, ap, ◌∙◌, true, false, some, List, [], ◌∷◌, ◌++◌, length,
  length-append, Bytes, find, arith,
}
use coroutine_http.Net.Run.{done}
use coroutine_http.Net.Connection.{Connection, SendEvent, close}
use coroutine_http.Net.Connection.Stream.{stream, is_live}
use coroutine_http.Http.Request.{HttpRequest, new_request, content_length, keep_alive}
use coroutine_http.Http.Parser.{header_end, parse_head, max_body, parse}
use coroutine_http.Http.Parser.Framing.{body_length, parse_frames}
use coroutine_http.Http.Server.{
  Exchange, HttpServer, serve, handle_request, handle_loop, handle_connection,
}

-- The bytes of one request: a block up to its first empty line, whose head reads as `r`, and the body
-- that the head announces.
pub record IsRequest (block body : Bytes) (r : HttpRequest) : Type 0 where
  pub at : ℕ
  pub found : find header_end block ≡ some at
  pub size : length block ≡ at + 4
  pub head : parse_head block new_request ≡ some r
  pub announced : length body ≡ body_length (content_length r)
  pub small : length body ≤ max_body

-- A stream that begins with the requests `rs`, of which the last and no other ends the connection.
pub data Pipelined : List HttpRequest → Bytes → Type 0 where
  last :
      (block body ys : Bytes) (r : HttpRequest)
      → IsRequest block body r
      → keep_alive (record r { body = body }) ≡ false
      → {bs : Bytes} → bs ≡ block ++ (body ++ ys)
      → Pipelined (record r { body = body } ∷ []) bs
  next :
      (block body ys : Bytes) (r : HttpRequest)
      → IsRequest block body r
      → keep_alive (record r { body = body }) ≡ true
      → {rs : List HttpRequest} {bs : Bytes} → bs ≡ block ++ (body ++ ys)
      → Pipelined rs ys
      → Pipelined (record r { body = body } ∷ rs) bs

-- The server answers: on an open connection whose socket is in a state that lets it take `n` + 1
-- answers, the middlewares and the handler of a request return, and leave the socket in a state for
-- `n` answers; they leave alone what the client has sent behind the request, the connection's being
-- open, and what the request says of keeping it open.
abbrev pub Answers : (ℕ → List SendEvent → Type 0) → HttpServer → Type 0
Answers Takes s =
    (n : ℕ) (req : HttpRequest) (conn : Connection)
    → is_live conn ≡ true
    → Takes (suc n) conn.outgoing
    → (x : Exchange) × (serve s req conn ≡ done x)
      × (keep_alive x.req ≡ keep_alive req)
      × (is_live x.conn ≡ true)
      × (stream x.conn ≡ stream conn)
      × Takes n x.conn.outgoing

-- Each request has at least the four bytes of its empty line.
length-Pipelined : (rs : List HttpRequest) (bs : Bytes) → Pipelined rs bs → length rs ≤ length bs
length-Pipelined _ bs (last block body ys r q e cut) =
    omega (arith, q.size, ap length cut, length-append block (body ++ ys))
length-Pipelined _ bs (next block body ys r q e {rs} cut p) = omega (
  arith,
  q.size,
  ap length cut,
  length-append block (body ++ ys),
  length-append body ys,
  length-Pipelined rs ys p,
)

module _ (s : HttpServer) where
  last_round :
      (fuel : ℕ) (c d : Connection) (req : HttpRequest) (x : Exchange)
      → c.closed ≡ false
      → parse c new_request ≡ done (some req, d)
      → serve s req d ≡ done x
      → keep_alive x.req ≡ false
      → handle_loop (suc fuel) s c ≡ done (req ∷ [], x.conn)
  unfolding handle_loop handle_request
  last_round fuel c d req x unshut parsed served ends = rw (parsed, served, ends, unshut) refl

  next_round :
      (fuel : ℕ) (c d e : Connection) (req : HttpRequest) (rs : List HttpRequest) (x : Exchange)
      → c.closed ≡ false
      → parse c new_request ≡ done (some req, d)
      → serve s req d ≡ done x
      → keep_alive x.req ≡ true
      → handle_loop fuel s x.conn ≡ done (rs, e)
      → handle_loop (suc fuel) s c ≡ done (req ∷ rs, e)
  unfolding handle_loop handle_request
  next_round fuel c d e req rs x unshut parsed served goes_on more =
      rw (parsed, served, goes_on, more, unshut) refl

module _ (Takes : ℕ → List SendEvent → Type 0) (s : HttpServer) (answers : Answers Takes s) where
  handle_loop-Pipelined :
      (fuel : ℕ) (c : Connection) (rs : List HttpRequest) (bs : Bytes)
      → Pipelined rs bs
      → stream c ≡ bs
      → is_live c ≡ true
      → Takes (length rs) c.outgoing
      → length rs ≤ fuel
      → (d : Connection) × (handle_loop fuel s c ≡ done (rs, d))
  handle_loop-Pipelined zero c _ bs (last block body ys r q e cut) same live takes enough =
      absurd (omega arith)
  handle_loop-Pipelined zero c _ bs (next block body ys r q e cut p) same live takes enough =
      absurd (omega arith)
  handle_loop-Pipelined (suc fuel) c _ bs (last block body ys r q e cut) same live takes enough =
      let (d, parsed, left) =
        parse_frames block body ys q.at r c q.found q.size q.head q.announced q.small live
          (same ∙ cut) in
      let outgoing = sym left.kept.1 in
      let (x, served, kept, alive, rest, left_takes) =
        answers 0 (record r { body = body }) d left.live (subst (Takes (suc 0)) outgoing takes) in
      let unshut : c.closed ≡ false = ground arith in
      (x.conn, last_round s fuel c d (record r { body = body }) x unshut parsed served (kept ∙ e))
  handle_loop-Pipelined (suc fuel) c _ bs (next block body ys r q e {rs} cut p) same live takes
        enough =
      let (d, parsed, left) =
        parse_frames block body ys q.at r c q.found q.size q.head q.announced q.small live
          (same ∙ cut) in
      let outgoing = sym left.kept.1 in
      let (x, served, kept, alive, rest, left_takes) =
        answers (length rs) (record r { body = body }) d left.live
          (subst (Takes (suc (length rs))) outgoing takes) in
      let unshut : c.closed ≡ false = ground arith in
      let (f, more) =
        handle_loop-Pipelined fuel x.conn rs ys p (rest ∙ left.rest) alive left_takes
          (omega arith) in
      (
        f,
        next_round s fuel c d f (record r { body = body }) rs x unshut parsed served (kept ∙ e)
            more,
      )

  -- Where the stream of an open connection begins with requests of which the last and no other asks
  -- for its end, the server answers, and the socket takes that many answers, `handle_connection` serves
  -- exactly these requests, in their order and with their bodies, returns, and has closed the
  -- connection.
  pub handle_connection-Pipelined :
      (c : Connection) (rs : List HttpRequest)
      → Pipelined rs (stream c)
      → is_live c ≡ true
      → Takes (length rs) c.outgoing
      → (d : Connection) × (handle_connection s c ≡ done (rs, close d))
  unfolding handle_connection
  handle_connection-Pipelined c rs p live takes =
      let (d, e) =
        handle_loop-Pipelined (suc (length (stream c))) c rs (stream c) p refl live takes
          (omega (arith, length-Pipelined rs (stream c) p)) in
      (d, rw e refl)
