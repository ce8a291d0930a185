-- ===== src/Ws/ChatRoom.antt =====
-- ws/chat_room.h: the members of the chat room. A `WebSocket*` is a number, and memory is the
-- function from it to the connection of the object there: a `WebSocket` has no other state. Every
-- operation holds `mutex_` from its beginning to its end, so each is one step here; `Main.Sessions`
-- takes the sends of a `broadcast` apart. A `broadcast` that waits for ever in a `write` keeps the
-- mutex for ever.
pub mod Members
pub mod Broadcast
pub mod Nicks
use coroutine_http.Prelude.{
  ℕ, zero, suc, Bool, true, false, List, [], ◌∷◌, ◌++◌, length, ◌==◌, if◌then◌else◌, Bytes, bytes,
}
use coroutine_http.Net.Run.{Run, done, ◌>>=◌}
use coroutine_http.Net.Connection.{Connection}
use coroutine_http.Ws.WebSocket.{send_text}

pub record Client : Type 0 where
  pub ws : ℕ
  pub nick : Bytes

pub record ChatRoom : Type 0 where
  pub clients : List Client

abbrev pub new_room : ChatRoom
new_room = record { clients = [] }

-- The connections of the `WebSocket` objects.
abbrev pub Sockets : Type 0
Sockets = ℕ → Connection

abbrev pub set_socket : ℕ → Connection → Sockets → Sockets
set_socket ws c sockets = λ other. if ws == other then c else sockets other

unfoldable pub join : ℕ → Bytes → ChatRoom → ChatRoom
join ws nick room = record { clients = room.clients ++ record { ws = ws; nick = nick } ∷ [] }

-- `remove_if` and `erase`
unfoldable pub remove_ws : ℕ → List Client → List Client
remove_ws ws [] = []
remove_ws ws (c ∷ cs) = let rest = remove_ws ws cs in if c.ws == ws then rest else c ∷ rest

unfoldable pub leave : ℕ → ChatRoom → ChatRoom
unfolding remove_ws
leave ws room = record { clients = remove_ws ws room.clients }

-- The loop of `broadcast`: one client.
unfoldable pub send_open : Bytes → Client → Sockets → Run Sockets
send_open msg c sockets =
    if (sockets c.ws).closed
    then done sockets
    else (send_text msg (sockets c.ws) >>= λ r. done (set_socket c.ws r.1 sockets))

unfoldable pub broadcast_loop : Bytes → List Client → Sockets → Run Sockets
broadcast_loop msg [] sockets = done sockets
broadcast_loop msg (c ∷ cs) sockets = send_open msg c sockets >>= λ next. broadcast_loop msg cs next

unfoldable pub broadcast : Bytes → ChatRoom → Sockets → Run Sockets
broadcast msg room sockets = broadcast_loop msg room.clients sockets

unfoldable pub size : ChatRoom → ℕ
size room = length room.clients

-- `"\"" + nick + "\""`
unfoldable pub quoted : Client → Bytes
quoted c = b'"' ∷ (c.nick ++ b'"' ∷ [])

-- The loop of `nicks_json` behind the first client.
unfoldable pub nicks_loop : List Client → Bytes
unfolding quoted
nicks_loop [] = []
nicks_loop (c ∷ cs) = b',' ∷ (quoted c ++ nicks_loop cs)

abbrev pub nicks_list : List Client → Bytes
nicks_list [] = []
nicks_list (c ∷ cs) = quoted c ++ nicks_loop cs

unfoldable pub nicks_json : ChatRoom → Bytes
nicks_json room = b'[' ∷ (nicks_list room.clients ++ b']' ∷ [])
