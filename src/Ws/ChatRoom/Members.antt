-- ===== src/Ws/ChatRoom/Members.antt =====
-- `join` and `leave` of ws/chat_room.h.
use coroutine_http.Prelude.{
  ℕ, ◌≡◌, refl, List, [], ◌∷◌, ◌++◌, append-nil, count_if, ◌==◌, Bytes, arith,
}
use coroutine_http.Ws.ChatRoom.{Client, ChatRoom, join, remove_ws, leave}

-- How often an object is entered.
abbrev pub entries : ℕ → List Client → ℕ
entries ws cs = count_if (λ (c : Client). c.ws == ws) cs

remove_ws-append :
    (ws : ℕ) (cs ds : List Client) → remove_ws ws (cs ++ ds) ≡ remove_ws ws cs ++ remove_ws ws ds
unfolding remove_ws
remove_ws-append ws [] ds = refl
remove_ws-append ws (c ∷ cs) ds = ground (arith, remove_ws-append ws cs ds)

remove_ws_absent : (ws : ℕ) (cs : List Client) → entries ws cs ≡ 0 → remove_ws ws cs ≡ cs
unfolding remove_ws
remove_ws_absent ws [] h = refl
remove_ws_absent ws (c ∷ cs) h = ground (arith, remove_ws_absent ws cs)

-- `leave` undoes `join` for an object that was not yet a member, whatever its nickname.
pub leave-join :
    (ws : ℕ) (nick : Bytes) (room : ChatRoom)
    → entries ws room.clients ≡ 0
    → leave ws (join ws nick room) ≡ room
unfolding leave join
leave-join ws nick room absent = ground (
  arith,
  remove_ws-append ws room.clients (record { ws = ws; nick = nick } ∷ []),
  remove_ws_absent ws room.clients absent,
  append-nil room.clients,
)
