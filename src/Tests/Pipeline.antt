-- ===== src/Tests/Pipeline.antt =====
-- http/: two requests in one piece, to a server that answers every request alike.
use coroutine_http.Prelude.{
  ℕ, zero, suc, ◌≡◌, refl, ap, ◌∙◌, Bool, true, false, List, [], ◌∷◌, length, take, ◌++◌,
  if◌then◌else◌, Bytes, bytes, bytes_eq, arith,
}
use coroutine_http.Net.Run.{Run, done, ◌>>=◌}
use coroutine_http.Net.Connection.{
  Connection, Written, SendEvent, accepted, send_again, send_failed, count, write, write_loop,
}
use coroutine_http.Http.Request.{HttpRequest}
use coroutine_http.Http.Response.{
  HttpResponse, new_response, text, flush, serialize, set_body, take_body, complete,
}
use coroutine_http.Http.Server.{Exchange, Middleware, HttpServer, dispatch, run_middlewares, serve}
use coroutine_http.Http.Server.Pipeline.{Answers}

-- A middleware that answers every request, and ends its handling.
abbrev say_closed : Middleware
say_closed x =
    text (bytes "closed") x.res x.conn >>= λ r. done (false, record x { res = r.0; conn = r.1 })

abbrev pub closed_server : HttpServer
closed_server = record { routes = []; middlewares = say_closed ∷ [] }

-- The answer that it sends.
abbrev pub answer : Bytes
unfolding set_body take_body complete serialize
answer =
    let taken =
      take_body (set_body (bytes "text/plain; charset=utf-8") (bytes "closed") new_response) in
    serialize (complete taken.1) taken.0

-- The socket takes each of `n` answers at once.
abbrev pub TakesWhole : ℕ → List SendEvent → Type 0
TakesWhole zero es = es ≡ []
TakesWhole (suc n) es =
    (fs : List SendEvent) × (es ≡ accepted (length answer) ∷ fs) × TakesWhole n fs

all_sent :
    (bs : Bytes) (c : Connection) (es : List SendEvent)
    → write_loop bs (length bs) c es ≡ done (count (length bs), record c { outgoing = es })
unfolding write_loop
all_sent bs c [] = ground arith
all_sent bs c (accepted n ∷ es) = ground arith
all_sent bs c (send_again gone ∷ es) = ground arith
all_sent bs c (send_failed ∷ es) = ground arith

begun :
    (b : ℕ) (bs : Bytes) (c : Connection)
    → c.closed ≡ false
    → write (b ∷ bs) c ≡ write_loop (b ∷ bs) 0 c c.outgoing
unfolding write
begun b bs c unshut = ground arith

all_at_once :
    (b : ℕ) (bs : Bytes) (c : Connection) (es : List SendEvent)
    → write_loop (b ∷ bs) 0 c (accepted (length (b ∷ bs)) ∷ es)
      ≡ write_loop
          (b ∷ bs)
          (length (b ∷ bs))
          (record c { wire = c.wire ++ take (length (b ∷ bs)) (b ∷ bs) })
          es
unfolding write_loop
all_at_once b bs c es = ground arith

answer_sent :
    (b : ℕ) (bs : Bytes) (c : Connection) (es : List SendEvent)
    → c.closed ≡ false
    → c.outgoing ≡ accepted (length (b ∷ bs)) ∷ es
    → write (b ∷ bs) c
      ≡ done (
        count (length (b ∷ bs)),
        record c { wire = c.wire ++ take (length (b ∷ bs)) (b ∷ bs); outgoing = es },
      )
answer_sent b bs c es unshut takes =
    begun b bs c unshut
    ∙ ap (write_loop (b ∷ bs) 0 c) takes
    ∙ all_at_once b bs c es
    ∙ all_sent (b ∷ bs) (record c { wire = c.wire ++ take (length (b ∷ bs)) (b ∷ bs) }) es

-- The connection behind the answer.
abbrev answered : Connection → List SendEvent → Connection
answered c es = record c { wire = c.wire ++ take (length answer) answer; outgoing = es }

abbrev rest_of : Bytes → Bytes
rest_of [] = []
rest_of (b ∷ bs) = bs

abbrev sent_response : HttpResponse
unfolding set_body take_body complete
sent_response =
    complete
      (take_body (set_body (bytes "text/plain; charset=utf-8") (bytes "closed") new_response)).1

-- What `serve` does behind the call of `write`.
abbrev behind_write : HttpRequest → Run (Written × Connection) → Run Exchange
behind_write req r =
    let flushed : Run (HttpResponse × Connection) = r >>= λ w. done (sent_response, w.1) in
    let refused : Run (Bool × Exchange) =
      flushed >>= λ w. done (false, record { req = req; res = w.0; conn = w.1 }) in
    let passed : Run (Bool × Exchange) =
      refused >>= λ w. if w.0 then done (true, w.1) else done (false, w.1) in
    passed >>= λ w. if w.0 then dispatch closed_server w.1 else done w.1

pub closed_server-Answers : Answers TakesWhole closed_server
unfolding serve run_middlewares text flush answer sent_response
closed_server-Answers n req conn live (fs, e, more) =
    let sent : write answer conn ≡ done (count (length answer), answered conn fs) =
      answer_sent b'H' (rest_of answer) conn fs (ground arith) e in
    (
      record { req = req; res = sent_response; conn = answered conn fs },
      ap (λ r. behind_write req r) sent,
      refl,
      live,
      refl,
      more,
    )
