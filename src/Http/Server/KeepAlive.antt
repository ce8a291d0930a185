-- ===== src/Http/Server/KeepAlive.antt =====
-- The loop over the requests of one connection (`handle_connection` of http/http_server.cpp) ends.
use coroutine_http.Prelude.{
  ℕ, zero, suc, ◌+◌, ◌≤◌, ◌<◌, ◌≡◌, refl, ap, ◌∙◌, Bool, true, false, not, Option, none, some, List,
  [], ◌∷◌, Bytes, length, length-append, is_empty, All, arith,
}
use coroutine_http.Net.Run.{Run, Ends, returns, Ends-bind, Ends-map, Ends-if}
use coroutine_http.Net.Connection.{Connection, write, close}
use coroutine_http.Net.Connection.Stream.{stream, Used}
use coroutine_http.Net.Connection.Writing.{write_correct}
use coroutine_http.Http.Request.{HttpRequest, new_request, keep_alive}
use coroutine_http.Http.Response.{json, flush}
use coroutine_http.Net.Connection.Stream.{Used-refl}
use coroutine_http.Net.Connection.Reading.{read_until_correct}
use coroutine_http.Http.Parser.{header_end, parse_head, parse}
use coroutine_http.Http.Parser.Stages.{after_head, parse_head-Headed}
use coroutine_http.Http.Server.{
  Exchange, Outcome, returned, threw, HttpHandler, Middleware, Route, HttpServer, match, send_error,
  answer_error, catch_error, dispatch_loop, dispatch, run_middlewares, serve, handle_request,
  handle_loop, handle_connection,
}

-- The bytes that the connection still has to give.
abbrev pub left : Connection → ℕ
left c = length (stream c)

abbrev pub exchange_of : Outcome → Exchange
exchange_of (returned x) = x
exchange_of (threw x) = x

-- A handler and a middleware give control back, or wait for ever, and take bytes off the stream of
-- the connection but put none back.
abbrev pub IsTame : HttpHandler → Type 0
IsTame h = (x : Exchange) → Ends (Unit {0}) (λ o. left (exchange_of o).conn ≤ left x.conn) (h x)

abbrev pub IsTameMiddleware : Middleware → Type 0
IsTameMiddleware mw = (x : Exchange) → Ends (Unit {0}) (λ r. left r.1.conn ≤ left x.conn) (mw x)

abbrev pub IsTameServer : HttpServer → Type 0
IsTameServer s = All (λ r. IsTame r.handler) s.routes × All IsTameMiddleware s.middlewares

abbrev Shrinks : Connection → Connection → Type 0
Shrinks c d = left d ≤ left c

write-Shrinks : (bs : Bytes) (c : Connection) → Ends (Unit {0}) (λ r. Shrinks c r.1) (write bs c)
write-Shrinks bs c =
    Ends-map (write_correct bs c) (λ w. tt)
      λ r p.
        let same : stream r.1 ≡ stream c = ground (arith, p.kept) in omega (arith, ap length same)

send_error-Shrinks :
    (c : Connection) (code : ℕ) (msg : Bytes) → Ends (Unit {0}) (Shrinks c) (send_error c code msg)
unfolding send_error json flush
send_error-Shrinks c code msg =
    Ends-bind (Ends-bind (write-Shrinks _ c) (λ w. w) (λ r p. returns p)) (λ w. w)
      (λ r p. returns p)

left-Used : {c d : Connection} → Used c d → left d ≤ left c
left-Used u = omega (arith, ap length u.conserved, length-append u.used _)

-- A request that is accepted has taken at least one byte.
abbrev Advances : Connection → Option HttpRequest × Connection → Type 0
Advances c r = (left r.1 ≤ left c) × ((q : HttpRequest) → r.0 ≡ some q → left r.1 < left c)

parse-Advances : (c : Connection) → Ends (Unit {0}) (Advances c) (parse c new_request)
unfolding parse
parse-Advances c =
    Ends-bind (read_until_correct header_end c) (λ w. tt)
      λ r p.
        let size : left c ≡ length r.0 + left r.1 =
          ap length p.conserved ∙ length-append r.0 (stream r.1) in
        Ends-if (is_empty r.0) (λ _. returns (omega arith, λ q e. absurd (ground arith)))
          (λ some_bytes.
            let taken : 0 < length r.0 = nonempty r.0 some_bytes in
            Ends-map
              (after_head (parse_head r.0 new_request) new_request r.1 r.1
                (parse_head-Headed r.0 new_request) (omega arith) (Used-refl r.1))
              (λ w. tt)
              (λ s q. (omega (arith, left-Used q.0), λ t e. omega (arith, left-Used q.0))))
  where
    nonempty : (s : Bytes) → is_empty s ≡ false → 0 < length s
    nonempty [] h = ground arith
    nonempty (b ∷ s) h = omega arith

abbrev ShrinksTo : Connection → Exchange → Type 0
ShrinksTo c x = left x.conn ≤ left c

answer_error-Shrinks :
    (x : Exchange) (code : ℕ) (msg : Bytes)
    → Ends (Unit {0}) (ShrinksTo x.conn) (answer_error x code msg)
unfolding answer_error
answer_error-Shrinks x code msg =
    Ends-bind (send_error-Shrinks x.conn code msg) (λ w. w) (λ c p. returns p)

catch_error-Shrinks :
    (o : Outcome) → Ends (Unit {0}) (ShrinksTo (exchange_of o).conn) (catch_error o)
unfolding catch_error
catch_error-Shrinks (returned x) = returns (omega arith)
catch_error-Shrinks (threw x) =
    Ends-if x.conn.closed (λ _. returns (omega arith)) (λ _. answer_error-Shrinks x _ _)

dispatch_loop-Shrinks :
    (rs : List Route) (known : Bool) (x : Exchange)
    → All (λ r. IsTame r.handler) rs
    → Ends (Unit {0}) (ShrinksTo x.conn) (dispatch_loop rs known x)
unfolding dispatch_loop
dispatch_loop-Shrinks [] known x h =
    Ends-if known (λ _. answer_error-Shrinks x _ _) (λ _. answer_error-Shrinks x _ _)
dispatch_loop-Shrinks (r ∷ rs) known x h =
    Ends-if (not (match r x.req.path []).0) (λ _. dispatch_loop-Shrinks rs known x h.1)
      (λ _.
        Ends-if _ (λ _. dispatch_loop-Shrinks rs true x h.1)
          (λ _.
            Ends-bind (h.0 (record x { req = record x.req { params = (match r x.req.path []).1 } }))
              (λ w. w) (λ o p. Ends-map (catch_error-Shrinks o) (λ w. w) (λ y q. omega arith))))

run_middlewares-Shrinks :
    (mws : List Middleware) (x : Exchange)
    → All IsTameMiddleware mws
    → Ends (Unit {0}) (λ r. left r.1.conn ≤ left x.conn) (run_middlewares mws x)
unfolding run_middlewares
run_middlewares-Shrinks [] x h = returns (omega arith)
run_middlewares-Shrinks (mw ∷ mws) x h =
    Ends-bind (h.0 x) (λ w. w)
      λ r p.
        Ends-if r.0
          (λ _. Ends-map (run_middlewares-Shrinks mws r.1 h.1) (λ w. w) (λ s q. omega arith))
          (λ _. returns p)

serve-Shrinks :
    (s : HttpServer) (req : HttpRequest) (c : Connection)
    → IsTameServer s
    → Ends (Unit {0}) (ShrinksTo c) (serve s req c)
unfolding serve dispatch
serve-Shrinks s req c h =
    Ends-bind (run_middlewares-Shrinks s.middlewares _ h.1) (λ w. w)
      λ r p.
        Ends-if r.0
          (λ _.
            Ends-map (dispatch_loop-Shrinks s.routes false r.1 h.0) (λ w. w) (λ y q. omega arith))
          (λ _. returns p)

handle_request-Ends :
    (s : HttpServer) (next : Connection → Run (List HttpRequest × Connection)) (n : ℕ)
    (o : Option HttpRequest) (d : Connection)
    → IsTameServer s
    → ((e : Connection) → left e < n → Ends (Unit {0}) (λ r. Unit {0}) (next e))
    → ((q : HttpRequest) → o ≡ some q → left d < n)
    → Ends (Unit {0}) (λ r. Unit {0}) (handle_request s next o d)
unfolding handle_request
handle_request-Ends s next n none d h go less =
    Ends-if d.closed (λ _. returns tt)
      (λ _. Ends-bind (send_error-Shrinks d _ _) (λ w. w) (λ c p. returns tt))
handle_request-Ends s next n (some req) d h go less =
    Ends-bind (serve-Shrinks s req d h) (λ w. w)
      λ x p.
        Ends-if (keep_alive x.req)
          (λ _. Ends-bind (go x.conn (omega (arith, less req refl))) (λ w. w) (λ r q. returns tt))
          (λ _. returns tt)

handle_loop-Ends :
    (fuel : ℕ) (s : HttpServer) (c : Connection)
    → IsTameServer s
    → left c < fuel
    → Ends (Unit {0}) (λ r. Unit {0}) (handle_loop fuel s c)
unfolding handle_loop
handle_loop-Ends zero s c h n = absurd (omega arith)
handle_loop-Ends (suc fuel) s c h n =
    Ends-if c.closed (λ _. returns tt)
      (λ _.
        Ends-bind (parse-Advances c) (λ w. w)
          λ p a.
            handle_request-Ends s (handle_loop fuel s) fuel p.0 p.1 h
              (λ e less. handle_loop-Ends fuel s e h less) (λ q e. omega (arith, a.1 q e)))

-- Whatever a client sends, the loop over its requests comes to an end after finitely many rounds,
-- or waits for the client in one of them: for every server whose handlers and middlewares give
-- control back and put nothing back into the stream, `handle_connection` does not run out of
-- rounds. Where it returns, the connection is closed, so that closing it once more changes nothing.
pub handle_connection-Ends :
    (s : HttpServer) (c : Connection)
    → IsTameServer s
    → Ends (Unit {0}) (λ r. close r.1 ≡ r.1) (handle_connection s c)
unfolding handle_connection
handle_connection-Ends s c h =
    Ends-bind (handle_loop-Ends (suc (left c)) s c h (omega arith)) (λ w. w)
      (λ r p. returns (close_twice r.1))
  where
    close_twice : (d : Connection) → close (close d) ≡ close d
    close_twice d = unfold close in ground arith
