-- ===== src/Http/Parser/Framing.antt =====
-- Where one request on a connection ends and the next begins (`parse` of http/http_parser.cpp).
use coroutine_http.Prelude.{
  ℕ, ◌+◌, ◌≤◌, ◌≡◌, refl, sym, true, some, [], ◌∷◌, ◌++◌, length, Bytes, find, arith,
}
use coroutine_http.Net.Run.{done}
use coroutine_http.Net.Connection.{Connection, read_until, read_exact}
use coroutine_http.Net.Connection.Stream.{stream, is_live}
use coroutine_http.Net.Connection.Live.{
  Delivered, Delivered-trans, read_exact_append, read_until_append,
}
use coroutine_http.Prelude.{ℤ, pos, negsuc}
use coroutine_http.Http.Request.{HttpRequest, new_request, content_length}
use coroutine_http.Http.Parser.{parse_head, header_end, max_body, read_body, parse}
use coroutine_http.Http.Parser.Stages.{parse_head-Headed}

-- The length of the body that a value of Content-Length asks for.
abbrev pub body_length : ℤ → ℕ
body_length (pos n) = n
body_length (negsuc n) = 0

read_body_lem :
    (cl : ℤ) (r : HttpRequest) (body ys : Bytes) (conn : Connection)
    → r.body ≡ []
    → length body ≡ body_length cl
    → length body ≤ max_body
    → is_live conn ≡ true
    → stream conn ≡ body ++ ys
    → (d : Connection) × (read_body cl r conn ≡ done (some (record r { body = body }), d))
      × Delivered ys conn d
unfolding read_body
read_body_lem (negsuc n) r [] ys conn e size small live h =
    (conn, ground arith, record { rest = h; live = live; kept = (refl, refl, refl, refl) })
read_body_lem (negsuc n) r (b ∷ body) ys conn e size small live h = absurd (omega arith)
read_body_lem (pos n) r [] ys conn e size small live h =
    (conn, ground arith, record { rest = h; live = live; kept = (refl, refl, refl, refl) })
read_body_lem (pos n) r (b ∷ body) ys conn e size small live h =
    let got = read_exact_append n (b ∷ body) ys conn live h (sym size) in
    (got.0, whole got.0 got.1, got.2)
  where
    whole :
        (d : Connection)
        → read_exact n conn ≡ done (b ∷ body, d)
        → read_body (pos n) r conn ≡ done (some (record r { body = b ∷ body }), d)
    whole d e' = ground arith

-- Requests on one connection are told apart: where the stream of a live connection holds a block
-- up to its first empty line, whose head is accepted, and then the body that the head announces,
-- `parse` returns the head's request with exactly that body, and leaves the stream at the first
-- byte of what follows, with the connection alive.
pub parse_frames :
    (block body ys : Bytes) (at : ℕ) (r : HttpRequest) (conn : Connection)
    → find header_end block ≡ some at
    → length block ≡ at + 4
    → parse_head block new_request ≡ some r
    → length body ≡ body_length (content_length r)
    → length body ≤ max_body
    → is_live conn ≡ true
    → stream conn ≡ block ++ (body ++ ys)
    → (d : Connection) × (parse conn new_request ≡ done (some (record r { body = body }), d))
      × Delivered ys conn d
unfolding parse
parse_frames block body ys at r conn found size head blen small live h =
    let first = read_until_append header_end block (body ++ ys) at conn live h found size in
    let e = (parse_head-Headed block new_request r head).body in
    let last =
      read_body_lem (content_length r) r body ys first.0 e blen small first.2.live first.2.rest in
    (last.0, glued first.0 last.0 first.1 last.1, Delivered-trans first.2 last.2)
  where
    glued :
        (c d : Connection)
        → read_until header_end conn ≡ done (block, c)
        → read_body (content_length r) r c ≡ done (some (record r { body = body }), d)
        → parse conn new_request ≡ done (some (record r { body = body }), d)
    glued c d e k = grind (arith, e, head, k)
