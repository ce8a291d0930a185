-- ===== src/Tests/Rooms.antt =====
-- main.cpp: two sessions that join one room, and the routes of the server.
use coroutine_http.Prelude.{
  ℕ, ◌%◌, ◌≡◌, refl, inl, ◌⊎◌, All, true, none, some, [], ◌∷◌, Bytes, bytes, arith,
}
use coroutine_http.Net.Run.{done}
use coroutine_http.Net.Connection.{connect}
use coroutine_http.Ws.ChatRoom.{Client, join, size, nicks_json}
use coroutine_http.Ws.ChatRoom.Members.{entries}
use coroutine_http.Http.Response.{new_response}
use coroutine_http.Http.Text.{split}
use coroutine_http.Http.Request.{new_request}
use coroutine_http.Http.Server.{Exchange, HttpHandler, returned, dispatch}
use coroutine_http.Main.{has_joined, notice}
use coroutine_http.Main.App.{app, app_answer, handler_for, dispatch-handler_for}
use coroutine_http.Main.Sessions.{
  Sessions, Sending, entering, locked, set_at, on_stage, arrived, no_sessions, arrives,
  locks_shortly, locks, waits, SessionSteps, here, next,
}
use coroutine_http.Main.Sessions.Members.{once_if, is_in, to_visit, broadcast_only_living}
use coroutine_http.Main.Sessions.Atomic.{act_all, view, events, broadcast_refines}
use coroutine_http.Main.Sessions.Waiting.{BlockedBy}
use coroutine_http.Main.Sessions.Blocking.{CanEnd, blocked_for_ever, broadcast_ends}

-- Sessions with odd numbers share a thread.
abbrev two_threads : ℕ → ℕ
two_threads i = i % 2

-- Ann's first broadcast holds the mutex; Cy's object is there.
abbrev telling_ann : (s : Sessions) × SessionSteps two_threads no_sessions s
unfolding locked join size nicks_json
telling_ann = (
  _,
  next
      (next
        (next
          (next
            (next (next here (arrives 1 (bytes "Ann") refl (inl refl)))
              (arrives 3 (bytes "Cy") refl (inl refl)))
            (locks_shortly 1 refl (inl refl) refl))
          (locks_shortly 1 refl (inl refl) refl))
        (locks_shortly 1 refl (inl refl) refl))
      (locks 1 entering (bytes "Ann") _ refl (inl refl) refl),
)

abbrev ann : Client
ann = record { ws = 1; nick = bytes "Ann" }

abbrev hello : Bytes
unfolding nicks_json
hello = notice (bytes "Ann") has_joined 1 (nicks_json (record { clients = ann ∷ [] }))

-- The state of Ann's broadcast.
abbrev ann_sends : Sending
ann_sends = record { by = 1; msg = hello; rest = ann ∷ [] }

abbrev told_ann : Sessions
told_ann = telling_ann.0

broadcast_only_living_example :
    ((i : ℕ) → entries i told_ann.members.clients ≡ once_if (is_in (told_ann.stages i)))
    × All (λ (c : Client). is_in (told_ann.stages c.ws) ≡ true) (to_visit told_ann.mutex)
broadcast_only_living_example = broadcast_only_living two_threads telling_ann.1

broadcast_refines_example :
    ((view told_ann).members
      ≡ (act_all (events two_threads telling_ann.1) (view no_sessions)).members)
    × ((j : ℕ)
        → (told_ann.closed j ≡ true)
          ⊎ ((view told_ann).heard j
              ≡ (act_all (events two_threads telling_ann.1) (view no_sessions)).heard j))
broadcast_refines_example = broadcast_refines two_threads telling_ann.1

broadcast_ends_example :
    CanEnd two_threads ann_sends told_ann ⊎ ((j : ℕ) × BlockedBy two_threads j 1 told_ann)
unfolding join size telling_ann
broadcast_ends_example = broadcast_ends two_threads ann_sends told_ann telling_ann.1 refl

-- While Ann's send has switched away, Cy calls `join` on the same thread.
abbrev stuck : Sessions
stuck = record told_ann { blocked = set_at 1 (some 3) told_ann.blocked }

-- Di's connection, on the other thread, is accepted.
abbrev and_di : Sessions
and_di = on_stage 2 (arrived (bytes "Di")) stuck

and_di_later : SessionSteps two_threads stuck and_di
unfolding telling_ann
and_di_later = next here (arrives 2 (bytes "Di") refl (inl refl))

stuck_reached : SessionSteps two_threads no_sessions stuck
unfolding join size telling_ann
stuck_reached = next telling_ann.1 (waits 3 ann_sends refl refl refl)

blocked_for_ever_example :
    (and_di.mutex ≡ some ann_sends)
    × (and_di.members ≡ stuck.members)
    × (and_di.inbox ≡ stuck.inbox)
unfolding join size telling_ann
blocked_for_ever_example =
    blocked_for_ever two_threads ann_sends 3 stuck and_di and_di_later refl refl (λ e. ground arith)

-- The handler of `/ws` leaves everything as it is.
abbrev no_handler : HttpHandler
no_handler x = done (returned x)

abbrev request_for_ping : Exchange
request_for_ping = record {
  req = record new_request { method = bytes "GET"; path = bytes "/api/ping" };
  res = new_response;
  conn = connect 3 [] [];
}

dispatch-handler_for_example :
    dispatch (app (λ path. none) no_handler) request_for_ping
    ≡ app_answer
        (λ path. none)
        no_handler
        request_for_ping
        (handler_for (λ path. none) no_handler (split request_for_ping.req.path))
dispatch-handler_for_example = dispatch-handler_for (λ path. none) no_handler request_for_ping
