-- ===== src/Main/Static.antt =====
-- Which files the server of main.cpp can open for a request.
use coroutine_http.Prelude.{
  ◌≡◌, refl, sym, ap, ◌∙◌, true, none, some, inl, inr, Option, [], ◌++◌, Option-cases, Bytes, bytes,
  bytes_eq, bytes_beq, find, starts_with, starts_with_append, if◌then◌else◌, arith,
}
use coroutine_http.Prelude.Dict.{lookup}
use coroutine_http.Net.Run.{done, ◌>>=◌}
use coroutine_http.Net.Connection.{Connection}
use coroutine_http.Http.Response.{HttpResponse}
use coroutine_http.Http.Request.{param, value_or}
use coroutine_http.Http.Text.{split}
use coroutine_http.Http.Server.{
  Exchange, returned, HttpHandler, Route, match, catch_error, answer_error, dispatch,
}
use coroutine_http.Http.Server.Captures.{match-no_dots}
use coroutine_http.Main.{read_file, send_file, serve_static, redirect, api_ping}
use coroutine_http.Main.App.{app, app_answer, on_parts, dispatch-app}

find-static :
    (v : Bytes) → find (bytes "..") v ≡ none → find (bytes "..") (bytes "static/" ++ v) ≡ none
unfolding find
find-static v h = ground (arith, h)

-- A file is sent by what is read of it.
send_file-read_file :
    (files others : Bytes → Option Bytes) (name : Bytes) (res : HttpResponse) (conn : Connection)
    → files name ≡ others name
    → send_file files name res conn ≡ send_file others name res conn
unfolding send_file read_file
send_file-read_file files others name res conn e = rw (send_file, read_file, e) refl

-- Two file systems with the same files under `static/`, as far as their names hold no "..".
module _ (files others : Bytes → Option Bytes)
    (same : (name : Bytes)
      → starts_with (bytes "static/") name ≡ true
      → find (bytes "..") name ≡ none
      → files name ≡ others name) where
  -- The handler of `/static/*`, whatever the route, on the parameters of a path without "..".
  pub serve_static-match :
      (route : Route) (path : Bytes) (x : Exchange)
      → find (bytes "..") path ≡ none
      → x.req.params ≡ (match route path []).1
      → serve_static files x ≡ serve_static others x
  unfolding serve_static param
  serve_static-match route path x safe e =
      ap (λ r. r >>= λ s. done (returned (record x { res = s.0; conn = s.1 })))
        (send_file-read_file files others
          (bytes "static/" ++ value_or [] (lookup (bytes "*") x.req.params)) x.res x.conn
          (same _ (starts_with_append (bytes "static/") _) (find-static _ no_dots)))
    where
      no_dots : find (bytes "..") (value_or [] (lookup (bytes "*") x.req.params)) ≡ none
      no_dots = elim (Option-cases (lookup (bytes "*") (match route path []).1)) [
        | inl absent ↦ rw (e, absent) (unfold find in refl)
        | inr (v, there) ↦ rw (e, there) (match-no_dots route path (bytes "*") v safe there)
      ]

  -- The branch of the table for `/static/*`.
  files_answer :
      (ws_handler : HttpHandler) (x : Exchange)
      → find (bytes "..") x.req.path ≡ none
      → app_answer files ws_handler x
          (some (serve_static files, (on_parts (bytes "/static/*") (split x.req.path)).1))
        ≡ app_answer others ws_handler x
            (some (serve_static others, (on_parts (bytes "/static/*") (split x.req.path)).1))
  unfolding match
  files_answer ws_handler x safe =
      let params = (on_parts (bytes "/static/*") (split x.req.path)).1 in
      ap
        (λ r.
          if bytes_beq (bytes "GET") x.req.method
          then r >>= catch_error
          else answer_error x 405 (bytes "Method Not Allowed"))
        (serve_static-match
          (record {
            method = bytes "GET";
            pattern = bytes "/static/*";
            handler = serve_static files;
          })
          x.req.path (record x { req = record x.req { params = params } }) safe refl)

  -- What the server of `main` does for a request whose path holds no "..", as in every request that
  -- `parse` accepts, depends on no file but those whose names begin with `static/` and hold no
  -- "..": with two file systems that agree on these, it does the same.
  pub static_path_safe :
      (ws_handler : HttpHandler) (x : Exchange)
      → find (bytes "..") x.req.path ≡ none
      → dispatch (app files ws_handler) x ≡ dispatch (app others ws_handler) x
  static_path_safe ws_handler x safe =
      let parts = split x.req.path in
      let root = on_parts (bytes "/") parts in
      let static = on_parts (bytes "/static/*") parts in
      let ping = on_parts (bytes "/api/ping") parts in
      let ws = on_parts (bytes "/ws") parts in
      let answer = app_answer files ws_handler x in
      dispatch-app files ws_handler x parts refl
      ∙ ap
          (λ served.
            if root.0
            then answer (some (redirect, root.1))
            else (if static.0
                then served
                else (if ping.0
                    then answer (some (api_ping, ping.1))
                    else (if ws.0 then answer (some (ws_handler, ws.1)) else answer none))))
          (files_answer ws_handler x safe)
      ∙ sym (dispatch-app others ws_handler x (split x.req.path) refl)
