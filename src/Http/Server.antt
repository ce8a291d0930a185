-- ===== src/Http/Server.antt =====
-- http/http_server.h and http/http_server.cpp: routes, middleware and the loop over the requests of
-- one connection. A handler or a middleware is a parameter: a function of the request, the response
-- and the connection that returns what it leaves of the three. Log lines are not modelled.
pub mod Routes
pub mod Dispatch
pub mod Captures
pub mod KeepAlive
pub mod Pipeline
use coroutine_http.Prelude.{
  ℕ, zero, suc, length, Bool, true, false, ◌&&◌, ◌||◌, not, List, [], ◌∷◌, ◌++◌, Option, none, some,
  drop, ◌==◌, if◌then◌else◌, Bytes, bytes, bytes_eq, bytes_beq, is_empty, starts_with,
}
use coroutine_http.Prelude.Dict.{Dict, insert}
use coroutine_http.Net.Run.{Run, done, out_of_fuel, ◌>>=◌}
use coroutine_http.Net.Connection.{Connection, close}
use coroutine_http.Net.Connection.Stream.{stream}
use coroutine_http.Core.Scheduler.{Scheduler}
use coroutine_http.Net.TcpServer.{
  TcpServer, SocketCalls, Started, new_tcp_server, on_connect, start,
}
use coroutine_http.Http.Text.{split, to_string}
use coroutine_http.Http.Request.{HttpRequest, new_request, keep_alive}
use coroutine_http.Http.Response.{HttpResponse, new_response, status, header, json}
use coroutine_http.Http.Parser.{parse}

-- The objects that a handler works on, all by reference.
pub record Exchange : Type 0 where
  pub req : HttpRequest
  pub res : HttpResponse
  pub conn : Connection

-- A call returns or throws, and has changed its arguments either way.
pub data Outcome : Type 0 where
  returned threw : Exchange → Outcome

abbrev pub HttpHandler : Type 0
HttpHandler = Exchange → Run Outcome

-- The result of a middleware, with what it leaves of its arguments. A middleware throws nothing
-- here; main installs none.
abbrev pub Middleware : Type 0
Middleware = Exchange → Run (Bool × Exchange)

pub record Route : Type 0 where
  pub method : Bytes
  pub pattern : Bytes
  pub handler : HttpHandler

-- The rest of the path, joined by slashes.
unfoldable pub join : List Bytes → Bytes
join [] = []
join (r ∷ []) = r
join (r ∷ s ∷ rs) = r ++ (b'/' ∷ join (s ∷ rs))

-- The `while` of `match`, and the test behind it.
unfoldable pub match_loop : List Bytes → List Bytes → Dict Bytes Bytes → Bool × Dict Bytes Bytes
match_loop [] [] params = (true, params)
match_loop [] (r ∷ rs) params = (false, params)
match_loop (seg ∷ segs) [] params = (false, params)
match_loop (seg ∷ segs) (r ∷ rs) params =
    let named = match_loop segs rs (insert (drop 1 seg) r params) in
    let next = match_loop segs rs params in
    if bytes_beq seg (bytes "*")
    then (true, insert (bytes "*") (join (r ∷ rs)) params)
    else (if starts_with (bytes ":") seg
        then named
        else (if bytes_beq seg r then next else (false, params)))

-- `Route::match`, with the parameters that it has extracted.
unfoldable pub match : Route → Bytes → Dict Bytes Bytes → Bool × Dict Bytes Bytes
match route path params = match_loop (split route.pattern) (split path) params

pub record HttpServer : Type 0 where
  pub routes : List Route
  pub middlewares : List Middleware

unfoldable pub route : Bytes → Bytes → HttpHandler → HttpServer → HttpServer
route method path handler server = record server {
  routes = server.routes ++ record { method = method; pattern = path; handler = handler } ∷ [];
}

unfoldable pub get : Bytes → HttpHandler → HttpServer → HttpServer
get path handler server = route (bytes "GET") path handler server

unfoldable pub post : Bytes → HttpHandler → HttpServer → HttpServer
post path handler server = route (bytes "POST") path handler server

unfoldable pub put : Bytes → HttpHandler → HttpServer → HttpServer
put path handler server = route (bytes "PUT") path handler server

unfoldable pub del : Bytes → HttpHandler → HttpServer → HttpServer
del path handler server = route (bytes "DELETE") path handler server

-- `HttpServer::use`
unfoldable pub add_middleware : Middleware → HttpServer → HttpServer
add_middleware mw server = record server { middlewares = server.middlewares ++ mw ∷ [] }

-- `"{\"error\":\"" + msg + "\",\"code\":" + std::to_string(code) + "}"`
abbrev pub error_body : ℕ → Bytes → Bytes
error_body code msg =
    bytes "{\"error\":\"" ++ (msg ++ (bytes "\",\"code\":" ++ (to_string code ++ bytes "}")))

unfoldable pub send_error : Connection → ℕ → Bytes → Run Connection
send_error conn code msg =
    json (error_body code msg)
      (header (bytes "Connection") (bytes "close") (status code new_response)) conn
    >>= λ r. done r.1

-- An answer of the server's own, put into the exchange.
unfoldable pub answer_error : Exchange → ℕ → Bytes → Run Exchange
answer_error x code msg = send_error x.conn code msg >>= λ conn. done (record x { conn = conn })

-- The `try` round a handler.
unfoldable pub catch_error : Outcome → Run Exchange
catch_error (returned x) = done x
catch_error (threw x) =
    if x.conn.closed then done x else answer_error x 500 (bytes "Internal Server Error")

-- The loop of `dispatch`, and the answers where no route is found.
unfoldable pub dispatch_loop : List Route → Bool → Exchange → Run Exchange
dispatch_loop [] path_matched x =
    if path_matched
    then answer_error x 405 (bytes "Method Not Allowed")
    else answer_error x 404 (bytes "Not Found")
dispatch_loop (r ∷ rs) path_matched x =
    let found = match r x.req.path [] in
    let skipped = dispatch_loop rs path_matched x in
    let wrong_method = dispatch_loop rs true x in
    if not found.0
    then skipped
    else (if not (bytes_beq r.method (bytes "*")) && not (bytes_beq r.method x.req.method)
        then wrong_method
        else (r.handler (record x { req = record x.req { params = found.1 } }) >>= catch_error))

unfoldable pub dispatch : HttpServer → Exchange → Run Exchange
dispatch server x = dispatch_loop server.routes false x

-- The loop over the middlewares: the first that returns `false` ends it.
unfoldable pub run_middlewares : List Middleware → Exchange → Run (Bool × Exchange)
run_middlewares [] x = done (true, x)
run_middlewares (mw ∷ mws) x =
    mw x >>= λ r. let rest = run_middlewares mws r.1 in if r.0 then rest else done (false, r.1)

-- What becomes of one parsed request.
unfoldable pub serve : HttpServer → HttpRequest → Connection → Run Exchange
serve server req conn =
    run_middlewares server.middlewares (record { req = req; res = new_response; conn = conn })
    >>= λ r. if r.0 then dispatch server r.1 else done r.1

-- The rest of a round of the loop in `handle_connection`, behind the call of `parse`; `next` is
-- the next round.
unfoldable pub handle_request :
    HttpServer
    → (Connection → Run (List HttpRequest × Connection))
    → Option HttpRequest
    → Connection
    → Run (List HttpRequest × Connection)
handle_request server next none conn =
    if conn.closed
    then done ([], conn)
    else (send_error conn 400 (bytes "Bad Request") >>= λ c. done ([], c))
handle_request server next (some req) conn = serve server req conn >>= λ x.
    let again = next x.conn >>= λ r. done (req ∷ r.0, r.1) in
    if keep_alive x.req then again else done (req ∷ [], x.conn)

-- The `while` of `handle_connection`, with `fuel` rounds at most; the list holds the requests that
-- were served, as they were parsed. The connection is closed when the object goes out of scope.
unfoldable pub handle_loop : ℕ → HttpServer → Connection → Run (List HttpRequest × Connection)
handle_loop zero server conn = out_of_fuel
handle_loop (suc fuel) server conn =
    let round =
      parse conn new_request >>= λ p. handle_request server (handle_loop fuel server) p.0 p.1 in
    if conn.closed then done ([], conn) else round

-- `handle_connection`. Each round that goes on has taken at least one byte off the stream, so the
-- number of its bytes bounds the rounds.
unfoldable pub handle_connection : HttpServer → Connection → Run (List HttpRequest × Connection)
handle_connection server conn =
    handle_loop (suc (length (stream conn))) server conn >>= λ r. done (r.0, close r.1)

-- `listen` of a server on its scheduler: the TCP server gets the handler that calls
-- `handle_connection`, and starts.
unfoldable pub listen : ℕ → ℕ → ℕ → ℕ → SocketCalls → Scheduler → Started × TcpServer × Scheduler
listen accept_task connect_handler port backlog calls sched =
    start accept_task calls (on_connect connect_handler (new_tcp_server port backlog)) sched
