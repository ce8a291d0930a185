-- ===== src/Main/App.antt =====
-- The routes that main.cpp registers, and what `dispatch` makes of them. The handler of `/ws` is an
-- argument, since it works on the whole chat (`serve_ws`).
use coroutine_http.Prelude.{
  ◌≡◌, refl, ◌∙◌, Bool, true, false, ◌&&◌, Option, none, some, List, [], ◌∷◌, if◌then◌else◌, Bytes,
  bytes, bytes_eq, bytes_beq, starts_with, Bool-cases, inl, inr, arith,
}
use coroutine_http.Prelude.Dict.{Dict, insert}
use coroutine_http.Net.Run.{Run, ◌>>=◌}
use coroutine_http.Http.Text.{split}
use coroutine_http.Http.Server.{
  Exchange, HttpHandler, HttpServer, join, match, match_loop, get, route, answer_error, catch_error,
  dispatch_loop, dispatch,
}
use coroutine_http.Main.{redirect, api_ping, serve_static}

-- What each pattern makes of the parts of a path.
abbrev pub on_parts : Bytes → List Bytes → Bool × Dict Bytes Bytes
on_parts pattern parts = match_loop (split pattern) parts []

static-one : (a : Bytes) → (on_parts (bytes "/static/*") (a ∷ [])).0 ≡ false
unfolding match_loop split starts_with
static-one a = ground arith

static-more :
    (a b : Bytes) (rest : List Bytes)
    → (on_parts (bytes "/static/*") (a ∷ b ∷ rest)).0 ≡ bytes_beq (bytes "static") a
unfolding match_loop split starts_with
static-more a b rest = ground arith

static_params :
    (a b : Bytes) (rest : List Bytes)
    → bytes_beq (bytes "static") a ≡ true
    → (on_parts (bytes "/static/*") (a ∷ b ∷ rest)).1 ≡ (bytes "*", join (b ∷ rest)) ∷ []
unfolding match_loop split starts_with insert
static_params a b rest h = rw h refl

ping-one : (a : Bytes) → (on_parts (bytes "/api/ping") (a ∷ [])).0 ≡ false
unfolding match_loop split starts_with
ping-one a = ground arith

ping-two :
    (a b : Bytes)
    → (on_parts (bytes "/api/ping") (a ∷ b ∷ [])).0
      ≡ (bytes_beq (bytes "api") a && bytes_beq (bytes "ping") b)
unfolding match_loop split starts_with
ping-two a b = ground arith

ping_params : (a b : Bytes) → (on_parts (bytes "/api/ping") (a ∷ b ∷ [])).1 ≡ []
unfolding match_loop split starts_with
ping_params a b = ground arith

ping-more :
    (a b c : Bytes) (rest : List Bytes)
    → (on_parts (bytes "/api/ping") (a ∷ b ∷ c ∷ rest)).0 ≡ false
unfolding match_loop split starts_with
ping-more a b c rest = ground arith

ws-one : (a : Bytes) → (on_parts (bytes "/ws") (a ∷ [])).0 ≡ bytes_beq (bytes "ws") a
unfolding match_loop split starts_with
ws-one a = ground arith

ws_params : (a : Bytes) → (on_parts (bytes "/ws") (a ∷ [])).1 ≡ []
unfolding match_loop split starts_with
ws_params a = ground arith

ws-more : (a b : Bytes) (rest : List Bytes) → (on_parts (bytes "/ws") (a ∷ b ∷ rest)).0 ≡ false
unfolding match_loop split starts_with
ws-more a b rest = ground arith

root-more : (a : Bytes) (rest : List Bytes) → (on_parts (bytes "/") (a ∷ rest)).0 ≡ false
unfolding match_loop split
root-more a rest = refl

module _ (files : Bytes → Option Bytes) (ws_handler : HttpHandler) where
  unfoldable pub app : HttpServer
  unfolding get route
  app = get (bytes "/ws") ws_handler (
      get (bytes "/api/ping") api_ping (
        get (bytes "/static/*") (serve_static files)
          (get (bytes "/") redirect (record { routes = []; middlewares = [] }))))

  -- The handler for the parts of a path, with the parameters that it gets.
  abbrev pub handler_for : List Bytes → Option (HttpHandler × List (Bytes × Bytes))
  handler_for [] = some (redirect, [])
  handler_for (a ∷ []) = if bytes_beq (bytes "ws") a then some (ws_handler, []) else none
  handler_for (a ∷ b ∷ []) =
      if bytes_beq (bytes "static") a
      then some (serve_static files, (bytes "*", b) ∷ [])
      else (if bytes_beq (bytes "api") a && bytes_beq (bytes "ping") b
          then some (api_ping, [])
          else none)
  handler_for (a ∷ b ∷ c ∷ rest) =
      if bytes_beq (bytes "static") a
      then some (serve_static files, (bytes "*", join (b ∷ c ∷ rest)) ∷ [])
      else none

  abbrev pub app_answer : Exchange → Option (HttpHandler × List (Bytes × Bytes)) → Run Exchange
  app_answer x none = answer_error x 404 (bytes "Not Found")
  app_answer x (some (h, params)) =
      if bytes_beq (bytes "GET") x.req.method
      then h (record x { req = record x.req { params = params } }) >>= catch_error
      else answer_error x 405 (bytes "Method Not Allowed")

  -- `dispatch` over the results of the four patterns.
  abbrev pub chosen :
      Exchange
      → Bool × Dict Bytes Bytes
      → Bool × Dict Bytes Bytes
      → Bool × Dict Bytes Bytes
      → Bool × Dict Bytes Bytes
      → Run Exchange
  chosen x root static ping ws =
      if root.0
      then app_answer x (some (redirect, root.1))
      else (if static.0
          then app_answer x (some (serve_static files, static.1))
          else (if ping.0
              then app_answer x (some (api_ping, ping.1))
              else (if ws.0 then app_answer x (some (ws_handler, ws.1)) else app_answer x none)))

  pub dispatch-app :
      (x : Exchange) (parts : List Bytes)
      → split x.req.path ≡ parts
      → dispatch app x
        ≡ chosen x
            (on_parts (bytes "/") parts)
            (on_parts (bytes "/static/*") parts)
            (on_parts (bytes "/api/ping") parts)
            (on_parts (bytes "/ws") parts)
  unfolding app dispatch dispatch_loop match
  dispatch-app x parts e = rw e (ground arith)

  chosen-handler_for :
      (x : Exchange) (parts : List Bytes)
      → chosen x
          (on_parts (bytes "/") parts)
          (on_parts (bytes "/static/*") parts)
          (on_parts (bytes "/api/ping") parts)
          (on_parts (bytes "/ws") parts)
        ≡ app_answer x (handler_for parts)
  chosen-handler_for x [] = unfold match_loop split in refl
  chosen-handler_for x (a ∷ []) =
      rw (root-more a [], static-one a, ping-one a, ws-one a, ws_params a) (ground arith)
  chosen-handler_for x (a ∷ b ∷ []) = elim (Bool-cases (bytes_beq (bytes "static") a)) [
    | inl files_here ↦
        rw (root-more a (b ∷ []), static-more a b [], files_here, static_params a b [] files_here)
          (unfold join in refl)
    | inr other ↦
        rw
          (
            root-more a (b ∷ []),
            static-more a b [],
            other,
            ping-two a b,
            ping_params a b,
            ws-more a b [],
          )
          (ground arith)
  ]
  chosen-handler_for x (a ∷ b ∷ c ∷ rest) = elim (Bool-cases (bytes_beq (bytes "static") a)) [
    | inl files_here ↦
        rw
          (
            root-more a (b ∷ c ∷ rest),
            static-more a b (c ∷ rest),
            files_here,
            static_params a b (c ∷ rest) files_here,
          )
          refl
    | inr other ↦
        rw
          (
            root-more a (b ∷ c ∷ rest),
            static-more a b (c ∷ rest),
            other,
            ping-more a b c rest,
            ws-more a b (c ∷ rest),
          )
          refl
  ]

  -- The server of `main` answers every request by this table: a path without parts is redirected,
  -- `static` with at least one further part serves the file that the further parts name, `api/ping`
  -- and `ws` with no further part go to their handlers; any other path is 404, and any other method
  -- than GET on one of these paths is 405. An exception of the handler is caught.
  pub dispatch-handler_for :
      (x : Exchange) → dispatch app x ≡ app_answer x (handler_for (split x.req.path))
  dispatch-handler_for x =
      dispatch-app x (split x.req.path) refl ∙ chosen-handler_for x (split x.req.path)
