-- ===== src/Tests/Http.antt =====
-- http/: a request with a body, one that is cut off, a route with a parameter, and a server of two
-- routes.
use coroutine_http.Prelude.{
  ◌≤◌, ◌≡◌, ◌↔◌, true, none, some, [], ◌∷◌, ◌++◌, length, Bytes, bytes, bytes_eq, find, arith,
}
use coroutine_http.Net.Run.{done, Ends, returns}
use coroutine_http.Net.Connection.{Connection, received, connect, close}
use coroutine_http.Net.Connection.Stream.{is_live, Used}
use coroutine_http.Http.Request.{HttpRequest, new_request}
use coroutine_http.Http.Parser.{max_body, parse}
use coroutine_http.Http.Parser.Stages.{parse_safe}
use coroutine_http.Http.Server.{
  returned, HttpHandler, Route, HttpServer, match_loop, handle_connection,
}
use coroutine_http.Http.Server.Routes.{Matches, match_loop_iff}
use coroutine_http.Http.Server.KeepAlive.{IsTameServer, handle_connection-Ends}

abbrev block : Bytes
block = bytes "POST /a HTTP/1.1\r\nContent-Length: 2\r\n\r\n"

abbrev head : HttpRequest
head = record new_request {
  method = bytes "POST";
  path = bytes "/a";
  version = bytes "HTTP/1.1";
  headers = (bytes "content-length", bytes "2") ∷ [];
}

-- The request, its body, and the first byte of the next request.
abbrev posted : Connection
unfolding connect
posted = connect 5 (received (block ++ bytes "hiG") ∷ []) []

parse_safe_example :
    Ends
      (is_live posted ≡ true)
      (λ r.
        Used posted r.1
        × ((q : HttpRequest)
            → r.0 ≡ some q
            → (find (bytes "..") q.path ≡ none) × (length q.body ≤ max_body)))
      (parse posted new_request)
parse_safe_example = parse_safe posted

abbrev cut_off : Bytes
cut_off = bytes "GET / HTTP/1.1\r\nHost: example"

abbrev before_end : Connection
unfolding connect
before_end = connect 5 (received cut_off ∷ received [] ∷ []) []

abbrev after_end : Connection
unfolding before_end
after_end = record before_end { closed = true; incoming = [] }

abbrev cut_request : HttpRequest
cut_request = record new_request {
  method = bytes "GET";
  path = bytes "/";
  version = bytes "HTTP/1.1";
  headers = (bytes "host", bytes "exa") ∷ [];
}

match_loop_iff_example :
    (match_loop (bytes "user" ∷ bytes ":id" ∷ []) (bytes "user" ∷ bytes "7" ∷ []) []
      ≡ (true, (bytes "id", bytes "7") ∷ []))
    ↔ Matches
        (bytes "user" ∷ bytes ":id" ∷ [])
        (bytes "user" ∷ bytes "7" ∷ [])
        []
        ((bytes "id", bytes "7") ∷ [])
match_loop_iff_example =
    match_loop_iff (bytes "user" ∷ bytes ":id" ∷ []) (bytes "user" ∷ bytes "7" ∷ []) []
      ((bytes "id", bytes "7") ∷ [])

-- A handler that changes nothing.
abbrev nothing : HttpHandler
nothing x = done (returned x)

abbrev files : Route
files = record { method = bytes "GET"; pattern = bytes "/static/*"; handler = nothing }

abbrev users : Route
users = record { method = bytes "GET"; pattern = bytes "/user/:id"; handler = nothing }

abbrev server : HttpServer
server = record { routes = files ∷ users ∷ []; middlewares = [] }

server-IsTameServer : IsTameServer server
server-IsTameServer = (((λ x. returns (omega arith)), ((λ x. returns (omega arith)), tt)), tt)

handle_connection-Ends_example :
    Ends (Unit {0}) (λ r. close r.1 ≡ r.1) (handle_connection server posted)
handle_connection-Ends_example = handle_connection-Ends server posted server-IsTameServer
