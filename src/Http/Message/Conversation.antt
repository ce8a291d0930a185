-- ===== src/Http/Message/Conversation.antt =====
-- A whole connection: the messages that a client sends one behind the other, and the requests that
-- `handle_connection` of http/http_server.cpp makes of them.
use coroutine_http.Prelude.{◌≡◌, true, false, List, [], ◌∷◌, ◌++◌, Bytes}
use coroutine_http.Net.Connection.{Connection}
use coroutine_http.Http.Request.{keep_alive}
use coroutine_http.Http.Message.{Message, head, request_of, IsSendable}

-- The messages, and what the client sends behind the last one.
abbrev pub sent : Message → List Message → Bytes → Bytes
sent m [] ys = head m ++ (m.body ++ ys)
sent m (n ∷ ms) ys = head m ++ (m.body ++ sent n ms ys)

-- The last message and no other asks for the end of the connection.
abbrev pub IsConversation : Message → List Message → Type 0
IsConversation m [] = IsSendable m × (keep_alive (request_of m) ≡ false)
IsConversation m (n ∷ ms) = IsSendable m × (keep_alive (request_of m) ≡ true) × IsConversation n ms
