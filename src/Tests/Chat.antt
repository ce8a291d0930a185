-- ===== src/Tests/Chat.antt =====
-- The chat server: a room of two members, a session, the TCP server, and a static file.
use coroutine_http.Prelude.{
  starts_with, not, ◌&&◌, Option, Bytes, ℕ, ◌+◌, ◌*◌, ◌<◌, ◌≡◌, refl, true, none, some, List, [],
  ◌∷◌, length, ◌==◌, if◌then◌else◌, bytes, find, arith,
}
use coroutine_http.Net.Run.{Ends}
use coroutine_http.Net.Connection.{received, accepted, connect}
use coroutine_http.Net.TcpServer
use coroutine_http.Net.TcpServer.{
  AcceptEvent, accept_again, accept_failed, accept_loop, SocketCalls, start, new_tcp_server,
  on_connect,
}
use coroutine_http.Net.TcpServer.Accept.{clients, post_to, accept_loop_even}
use coroutine_http.Core.Multi.{MultiScheduler, new_multi}
use coroutine_http.Core.Multi.Rounds.{loads, dealt}
use coroutine_http.Ws.WebSocket.{text}
use coroutine_http.Ws.WebSocket.Wire.{rfc_frame}
use coroutine_http.Ws.ChatRoom.{ChatRoom, Sockets, broadcast}
use coroutine_http.Ws.ChatRoom.Broadcast.{Stuck, Reached, broadcast-Reached}
use coroutine_http.Http.Request.{new_request, is_found}
use coroutine_http.Http.Response.{new_response}
use coroutine_http.Main.{redirect}
use coroutine_http.Main.App.{app}
use coroutine_http.Http.Server.{Exchange, dispatch}
use coroutine_http.Main.{Chat, chat_session}
use coroutine_http.Main.Session.{chat_session-Ends}
use coroutine_http.Main.Static.{static_path_safe}

abbrev two_members : ChatRoom
two_members = record {
  clients = record { ws = 1; nick = bytes "Ann" } ∷ record { ws = 2; nick = bytes "Bob" } ∷ [];
}

-- The second member's socket takes nothing; the third sends a message.
abbrev three_sockets : Sockets
unfolding connect
three_sockets ws =
    if ws == 1
    then connect 5 [] (accepted 100 ∷ [])
    else (if ws == 2
        then connect 6 [] []
        else connect 7
            (received (rfc_frame true text (some (1 ∷ 2 ∷ 3 ∷ 4 ∷ [])) (bytes "hi")) ∷ [])
            (accepted 900 ∷ []))

broadcast-Reached_example :
    Ends
      (Stuck (bytes "hi") two_members.clients three_sockets)
      (Reached (bytes "hi") two_members.clients three_sockets)
      (broadcast (bytes "hi") two_members three_sockets)
broadcast-Reached_example =
    broadcast-Reached (bytes "hi") two_members three_sockets (λ ws. ground arith)

abbrev chat : Chat
chat = record { members = two_members; sockets = three_sockets }

chat_session-Ends_example :
    Ends (Unit {0}) (λ next. next.members ≡ two_members) (chat_session 3 (bytes "Cy") chat)
chat_session-Ends_example = chat_session-Ends 3 (bytes "Cy") chat (λ ws. ground arith) refl

-- One server has a secret file beside its static ones, and the other has none.
abbrev static_only : Bytes → Option Bytes
static_only name =
    if starts_with (bytes "static/") name && not (is_found (find (bytes "..") name))
    then some (bytes "hi")
    else none

abbrev with_secret : Bytes → Option Bytes
with_secret name =
    if starts_with (bytes "static/") name && not (is_found (find (bytes "..") name))
    then some (bytes "hi")
    else some (bytes "secret")

abbrev asking : Exchange
asking = record {
  req = record new_request { method = bytes "GET"; path = bytes "/static/a/b.js" };
  res = new_response;
  conn = three_sockets 3;
}

agree :
    (name : Bytes)
    → starts_with (bytes "static/") name ≡ true
    → find (bytes "..") name ≡ none
    → static_only name ≡ with_secret name
agree name inside safe = ground (arith, inside, safe)

static_path_safe_example :
    dispatch (app static_only redirect) asking ≡ dispatch (app with_secret redirect) asking
unfolding find
static_path_safe_example = static_path_safe static_only with_secret agree redirect asking refl

abbrev arrivals : List AcceptEvent
arrivals =
    TcpServer.accepted 10
    ∷ TcpServer.accepted 11
    ∷ accept_again
    ∷ accept_failed
    ∷ TcpServer.accepted 12
    ∷ []

accept_loop_even_example :
    (ms : MultiScheduler) × (q : ℕ) × (r : ℕ) × ((accept_loop
        (some post_to)
        (λ fd o. o)
        arrivals
        (0, some (new_multi 2))).1
      ≡ some ms)
    × (length (clients arrivals) ≡ q * 2 + r)
    × (r < 2)
    × (loads ms.schedulers ≡ dealt 2 q r)
accept_loop_even_example = accept_loop_even (λ fd o. o) arrivals 2 (omega arith) (omega arith)
