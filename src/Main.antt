-- ===== src/Main.antt =====
-- main.cpp: the handlers of the chat server. The file system is a parameter: the bytes of a file, or
-- `none` where it cannot be opened. A chat session is followed by itself here; `Main.Sessions`
-- has all sessions at once.
pub mod Static
pub mod App
pub mod Start
pub mod Session
pub mod Sessions
use coroutine_http.Prelude.{
  ℕ, zero, suc, Bool, true, false, ◌&&◌, not, Option, none, some, List, [], ◌∷◌, ◌++◌, length,
  if◌then◌else◌, Bytes, bytes, find, is_empty,
}
use coroutine_http.Net.Run.{Run, done, out_of_fuel, ◌>>=◌}
use coroutine_http.Net.Connection.{Connection, write}
use coroutine_http.Net.Connection.Stream.{stream}
use coroutine_http.Ws.WebSocket.{
  WsOpcode, continuation, text, binary, close, ping, pong, other, WsFrame, handshake, recv_frame,
  send_text,
}
use coroutine_http.Ws.ChatRoom.{
  ChatRoom, Sockets, set_socket, join, leave, broadcast, size, nicks_json,
}
use coroutine_http.Http.Text.{to_string}
use coroutine_http.Http.Request.{HttpRequest, is_found, param, query_param}
use coroutine_http.Http.Response
use coroutine_http.Http.Response.{HttpResponse, status, json}
use coroutine_http.Http.Server.{Exchange, Outcome, returned, HttpHandler}

-- `rfind` finds the extension anywhere in the path.
unfoldable pub mime_type : Bytes → Bytes
mime_type path =
    if is_found (find (bytes ".html") path)
    then bytes "text/html; charset=utf-8"
    else (if is_found (find (bytes ".css") path)
        then bytes "text/css"
        else (if is_found (find (bytes ".js") path)
            then bytes "application/javascript"
            else bytes "text/plain"))

-- The response that `send_file` writes for a file that is not empty.
abbrev pub file_response : Bytes → Bytes → Bytes
file_response fp body =
    bytes "HTTP/1.1 200 OK\r\nContent-Type: "
    ++ (mime_type fp
        ++ (bytes "\r\nContent-Length: "
            ++ (to_string (length body) ++ (bytes "\r\nConnection: keep-alive\r\n\r\n" ++ body))))

-- The handler of `/`.
unfoldable pub redirect : HttpHandler
redirect x =
    write (bytes "HTTP/1.1 302 Found\r\nLocation: /static/chat.html\r\nContent-Length: 0\r\n\r\n")
      x.conn
    >>= λ r. done (returned (record x { conn = r.1 }))

-- The handler of `/api/ping`.
unfoldable pub api_ping : HttpHandler
api_ping x =
    json (bytes "{\"status\":\"ok\",\"server\":\"coroutine-http-mt\"}") x.res x.conn >>= λ r.
    done (returned (record x { res = r.0; conn = r.1 }))

module _ (files : Bytes → Option Bytes) where
  unfoldable pub read_file : Bytes → Bytes
  read_file path = elim (files path) [ none ↦ [] | some body ↦ body ]

  unfoldable pub send_file : Bytes → HttpResponse → Connection → Run (HttpResponse × Connection)
  unfolding read_file
  send_file fp res conn =
      let body = read_file fp in
      if is_empty body
      then Response.text (bytes "404 Not Found") (status 404 res) conn
      else (write (file_response fp body) conn >>= λ r. done (res, r.1))

  -- The handler of `/static/*`.
  unfoldable pub serve_static : HttpHandler
  serve_static x = send_file (bytes "static/" ++ param x.req (bytes "*") []) x.res x.conn >>= λ r.
      done (returned (record x { res = r.0; conn = r.1 }))

pub record Chat : Type 0 where
  pub members : ChatRoom
  pub sockets : Sockets

unfoldable pub tell_all : Bytes → Chat → Run Chat
tell_all msg chat =
    broadcast msg chat.members chat.sockets >>= λ next. done (record chat { sockets = next })

-- The UTF-8 texts of the source: a nickname, and the ends of two messages.
abbrev pub anonymous : Bytes
anonymous = 229 ∷ 140 ∷ 191 ∷ 229 ∷ 144 ∷ 141 ∷ []

abbrev pub has_joined : Bytes
has_joined =
    32 ∷ 229 ∷ 138 ∷ 160 ∷ 229 ∷ 133 ∷ 165 ∷ 228 ∷ 186 ∷ 134 ∷ 232 ∷ 129 ∷ 138 ∷ 229 ∷ 164 ∷ 169
    ∷ 229 ∷ 174 ∷ 164 ∷ []

abbrev pub has_left : Bytes
has_left =
    32 ∷ 231 ∷ 166 ∷ 187 ∷ 229 ∷ 188 ∷ 128 ∷ 228 ∷ 186 ∷ 134 ∷ 232 ∷ 129 ∷ 138 ∷ 229 ∷ 164 ∷ 169
    ∷ 229 ∷ 174 ∷ 164 ∷ []

-- The message on a new or a lost member, with the number and the list of the members.
unfoldable pub notice : Bytes → Bytes → ℕ → Bytes → Bytes
notice nick what online users =
    bytes "{\"type\":\"system\",\"msg\":\""
    ++ (nick
        ++ (what
            ++ (bytes "\",\"online\":"
                ++ (to_string online ++ (bytes ",\"users\":" ++ (users ++ bytes "}"))))))

unfoldable pub system_message : Bytes → Bytes → ChatRoom → Bytes
system_message nick what members = notice nick what (size members) (nicks_json members)

unfoldable pub chat_message : Bytes → Bytes → Bytes
chat_message nick payload =
    bytes "{\"type\":\"message\",\"nick\":\""
    ++ (nick ++ (bytes "\",\"msg\":\"" ++ (payload ++ bytes "\"}")))

-- What the loop does with one frame: `none` ends it.
unfoldable pub on_frame : ℕ → Bytes → WsFrame → Chat → Option (Run Chat)
on_frame self nick frame chat = elim frame.opcode [
  | close ↦ none
  | ping ↦ some (
      send_text [] (chat.sockets self) >>= λ r.
      done (record chat { sockets = set_socket self r.1 chat.sockets }))
  | text ↦ some (
      if not (is_empty frame.payload)
      then tell_all (chat_message nick frame.payload) chat
      else done chat)
  | continuation ↦ some (done chat)
  | binary ↦ some (done chat)
  | pong ↦ some (done chat)
  | other n ↦ some (done chat)
]

-- The `while`, with `fuel` rounds at most.
unfoldable pub session_loop : ℕ → ℕ → Bytes → Chat → Run Chat
session_loop zero self nick chat = out_of_fuel
session_loop (suc fuel) self nick chat = recv_frame (chat.sockets self) >>= λ r.
    let read = record chat { sockets = set_socket self r.1 chat.sockets } in
    elim r.0 [
      | none ↦ done read
      | some frame ↦ elim (on_frame self nick frame read) [
        | none ↦ done read
        | some served ↦ served >>= session_loop fuel self nick
      ]
    ]

-- The handler of `/ws` behind the handshake. Each round takes a byte off the stream of the session's
-- own connection, so the number of its bytes bounds the rounds.
unfoldable pub chat_session : ℕ → Bytes → Chat → Run Chat
chat_session self nick chat =
    let joined = record chat { members = join self nick chat.members } in
    tell_all (system_message nick has_joined joined.members) joined >>= λ told.
    session_loop (suc (length (stream (told.sockets self)))) self nick told >>= λ over.
    let left = record over { members = leave self over.members } in
    tell_all (system_message nick has_left left.members) left

module _ (sha1 base64 : Bytes → Bytes) where
  -- The handler of `/ws`, on the connection of `self`.
  unfoldable pub serve_ws : ℕ → HttpRequest → Chat → Run Chat
  serve_ws self req chat = handshake sha1 base64 (chat.sockets self) req.headers >>= λ h.
      let answered = record chat { sockets = set_socket self h.1 chat.sockets } in
      let session = chat_session self (query_param req (bytes "nick") anonymous) answered in
      if h.0 then session else done answered
