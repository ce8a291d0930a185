-- ===== src/Http/Server/Dispatch.antt =====
-- Which route `dispatch` of http/http_server.cpp takes, and what it answers where there is none.
use coroutine_http.Prelude.{
  ◌≡◌, ap, ◌∙◌, Bool, true, false, ◌&&◌, ◌||◌, List, [], ◌∷◌, ◌++◌, if◌then◌else◌, bytes, bytes_beq,
  All, arith,
}
use coroutine_http.Net.Run.{◌>>=◌}
use coroutine_http.Http.Server.{
  Exchange, Route, HttpServer, match, answer_error, catch_error, dispatch_loop, dispatch,
}

-- The route's pattern matches the path of the request.
abbrev pub on_path : Exchange → Route → Bool
on_path x r = (match r x.req.path []).0

-- So does its method.
abbrev pub is_eligible : Exchange → Route → Bool
is_eligible x r = on_path x r && (bytes_beq r.method (bytes "*") || bytes_beq r.method x.req.method)

abbrev pub any_on_path : Exchange → List Route → Bool
any_on_path x [] = false
any_on_path x (r ∷ rs) = on_path x r || any_on_path x rs

-- The handler's exchange: the parameters of this route are put into the request.
abbrev pub with_params : Route → Exchange → Exchange
with_params r x = record x { req = record x.req { params = (match r x.req.path []).1 } }

dispatch_loop_first :
    (before : List Route) (r : Route) (after : List Route) (known : Bool) (x : Exchange)
    → All (λ b. is_eligible x b ≡ false) before
    → is_eligible x r ≡ true
    → dispatch_loop (before ++ r ∷ after) known x ≡ (r.handler (with_params r x) >>= catch_error)
unfolding dispatch_loop
dispatch_loop_first [] r after known x h e = ground arith
dispatch_loop_first (b ∷ before) r after known x h e = ground (
  arith,
  dispatch_loop_first before r after known x h.1 e,
  dispatch_loop_first before r after true x h.1 e,
)

-- The first route in the order of registration whose pattern and method match serves the request,
-- whatever is registered behind it; an exception of its handler is caught.
pub dispatch_first :
    (server : HttpServer) (before : List Route) (r : Route) (after : List Route) (x : Exchange)
    → server.routes ≡ before ++ r ∷ after
    → All (λ b. is_eligible x b ≡ false) before
    → is_eligible x r ≡ true
    → dispatch server x ≡ (r.handler (with_params r x) >>= catch_error)
unfolding dispatch
dispatch_first server before r after x routes h e =
    ap (λ rs. dispatch_loop rs false x) routes ∙ dispatch_loop_first before r after false x h e

dispatch_loop_none :
    (rs : List Route) (known : Bool) (x : Exchange)
    → All (λ b. is_eligible x b ≡ false) rs
    → dispatch_loop rs known x ≡ (
        if known || any_on_path x rs
        then answer_error x 405 (bytes "Method Not Allowed")
        else answer_error x 404 (bytes "Not Found"))
unfolding dispatch_loop
dispatch_loop_none [] known x h = ground arith
dispatch_loop_none (r ∷ rs) known x h =
    ground (arith, dispatch_loop_none rs known x h.1, dispatch_loop_none rs true x h.1)

-- Where no route serves the request, the answer is 405 if the pattern of some route matches the
-- path, and 404 otherwise; no handler runs.
pub dispatch_none :
    (server : HttpServer) (x : Exchange)
    → All (λ b. is_eligible x b ≡ false) server.routes
    → dispatch server x ≡ (
        if any_on_path x server.routes
        then answer_error x 405 (bytes "Method Not Allowed")
        else answer_error x 404 (bytes "Not Found"))
unfolding dispatch
dispatch_none server x h = dispatch_loop_none server.routes false x h
