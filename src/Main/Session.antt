-- ===== src/Main/Session.antt =====
-- The chat session of main.cpp comes to an end, and leaves the room as it has found it.
use coroutine_http.Prelude.{
  ℕ, zero, suc, ◌<◌, ◌≤◌, ◌≡◌, refl, sym, ap, ◌∙◌, inl, inr, Bool, not, Option, none, some, [], ◌∷◌,
  count_if-append, length, ◌==◌, Bytes, is_empty, Bool-cases, arith,
}
use mathlib.Core.Path.{subst}
use coroutine_http.Net.Run.{Run, done, ◌>>=◌, Ends, returns, Ends-bind, Ends-map, Ends-if}
use coroutine_http.Net.Connection.{Connection}
use coroutine_http.Net.Connection.Stream.{stream}
use coroutine_http.Net.Connection.Writing.{write_correct}
use coroutine_http.Ws.WebSocket.{
  WsOpcode, continuation, text, binary, close, ping, pong, other, WsFrame, send_text, send_frame,
}
use coroutine_http.Ws.WebSocket.Safety.{recv_frame-shrinks}
use coroutine_http.Ws.ChatRoom.{ChatRoom, Client, Sockets, set_socket, join, leave}
use coroutine_http.Ws.ChatRoom.Members.{entries, leave-join}
use coroutine_http.Ws.ChatRoom.Broadcast.{Told, Reached, broadcast-Reached}
use coroutine_http.Main.{Chat, tell_all, on_frame, session_loop, chat_session}

-- No object is entered twice.
abbrev pub IsRoom : ChatRoom → Type 0
IsRoom members = (ws : ℕ) → entries ws members.clients ≤ 1

abbrev left : ℕ → Chat → ℕ
left self chat = length (stream (chat.sockets self))

-- The same members, and nothing read from the connection of `self`.
abbrev Same : ℕ → Chat → Chat → Type 0
Same self chat next = (next.members ≡ chat.members) × (left self next ≡ left self chat)

stream-Told : (msg : Bytes) (c d : Connection) → Told msg c d → stream d ≡ stream c
stream-Told msg c d told = elim (Bool-cases c.closed) [
  | inl shut ↦ ap stream (told.closed_kept shut)
  | inr live ↦ let (w, p) = told.open_gets live in ground (arith, p.kept)
]

tell_all-Same :
    (self : ℕ) (msg : Bytes) (chat : Chat)
    → IsRoom chat.members
    → Ends (Unit {0}) (Same self chat) (tell_all msg chat)
unfolding tell_all
tell_all-Same self msg chat once =
    Ends-bind (broadcast-Reached msg chat.members chat.sockets once) (λ w. tt)
      λ next p. returns (refl, ap length (unread next p))
  where
    unread :
        (next : Sockets)
        → Reached msg chat.members.clients chat.sockets next
        → stream (next self) ≡ stream (chat.sockets self)
    unread next p = elim (Bool-cases (entries self chat.members.clients == 0)) [
      | inl outside ↦ ap stream (p.others self (ground arith))
      | inr inside ↦ stream-Told msg _ _ (p.members self (λ e. ground arith))
    ]

answer-Same :
    (self : ℕ) (chat : Chat)
    → Ends (Unit {0}) (Same self chat) (
        send_text [] (chat.sockets self) >>= λ r.
        done (record chat { sockets = set_socket self r.1 chat.sockets }))
unfolding send_text send_frame
answer-Same self chat =
    Ends-bind (write_correct _ (chat.sockets self)) (λ w. tt)
      λ r p.
        let same : stream r.1 ≡ stream (chat.sockets self) = ground (arith, p.kept) in
        let here : set_socket self r.1 chat.sockets self ≡ r.1 = ground arith in
        returns (refl, ap length (ap stream here ∙ same))

abbrev Served : ℕ → Chat → Option (Run Chat) → Type 0
Served self chat o = elim o [ none ↦ Unit | some run ↦ Ends (Unit {0}) (Same self chat) run ]

on_frame-Served :
    (self : ℕ) (nick : Bytes) (fin : Bool) (opcode : WsOpcode) (masked : Bool) (payload : Bytes)
    (chat : Chat)
    → IsRoom chat.members
    → Served self chat (
        on_frame self nick
          (record { fin = fin; opcode = opcode; masked = masked; payload = payload })
          chat)
unfolding on_frame
on_frame-Served self nick fin close masked payload chat once = tt
on_frame-Served self nick fin ping masked payload chat once = answer-Same self chat
on_frame-Served self nick fin text masked payload chat once =
    Ends-if (not (is_empty payload)) (λ _. tell_all-Same self _ chat once)
      (λ _. returns (refl, refl))
on_frame-Served self nick fin continuation masked payload chat once = returns (refl, refl)
on_frame-Served self nick fin binary masked payload chat once = returns (refl, refl)
on_frame-Served self nick fin pong masked payload chat once = returns (refl, refl)
on_frame-Served self nick fin (other n) masked payload chat once = returns (refl, refl)

-- The members are those of `chat`.
abbrev Unmoved : Chat → Chat → Type 0
Unmoved chat next = next.members ≡ chat.members

-- The next round `again` comes to an end on a stream of fewer than `n` bytes.
abbrev Rounds : ℕ → ℕ → (Chat → Run Chat) → Type 0
Rounds self n again =
    (c : Chat) → IsRoom c.members → left self c < n → Ends (Unit {0}) (Unmoved c) (again c)

Served-Ends :
    (self n : ℕ) (again : Chat → Run Chat) (chat : Chat) (o : Option (Run Chat))
    → Rounds self n again
    → IsRoom chat.members
    → left self chat < n
    → Served self chat o
    → Ends (Unit {0}) (Unmoved chat) (elim o [ none ↦ done chat | some served ↦ served >>= again ])
Served-Ends self n again chat none rounds once less s = returns refl
Served-Ends self n again chat (some served) rounds once less s =
    Ends-bind s (λ w. w)
      λ next p.
        let same = sym p.0 in
        Ends-map (rounds next (subst IsRoom same once) (omega (arith, p.1))) (λ w. w)
          (λ over q. q ∙ p.0)

session_loop-Ends :
    (fuel self : ℕ) (nick : Bytes) (chat : Chat)
    → IsRoom chat.members
    → left self chat < fuel
    → Ends (Unit {0}) (Unmoved chat) (session_loop fuel self nick chat)
unfolding session_loop
session_loop-Ends zero self nick chat once less = absurd (omega arith)
session_loop-Ends (suc fuel) self nick chat once less =
    Ends-bind (recv_frame-shrinks (chat.sockets self)) (λ w. w)
      λ r p. round (λ c o l. session_loop-Ends fuel self nick c o l) r.0 r.1 p.1
  where
    round :
        Rounds self fuel (session_loop fuel self nick)
        → (o : Option WsFrame) (d : Connection)
        → ((f : WsFrame) → o ≡ some f → length (stream d) < left self chat)
        → let read = record chat { sockets = set_socket self d chat.sockets } in
          Ends (Unit {0}) (Unmoved chat) (elim o [
            | none ↦ done read
            | some frame ↦ elim (on_frame self nick frame read) [
              | none ↦ done read
              | some served ↦ served >>= session_loop fuel self nick
            ]
          ])
    round rounds none d shrinks = returns refl
    round rounds (some f) d shrinks =
        let read = record chat { sockets = set_socket self d chat.sockets } in
        let here : set_socket self d chat.sockets self ≡ d = ground arith in
        Served-Ends self fuel (session_loop fuel self nick) read (on_frame self nick f read) rounds
          once (omega (arith, ap (λ c. length (stream c)) here, shrinks f refl, less))
          (on_frame-Served self nick f.fin f.opcode f.masked f.payload read once)

-- A session of an object that is not yet a member of the room, in a room in which no object is
-- entered twice, comes to an end, whatever its client sends, or waits for ever in a call on some
-- connection; it does not run out of rounds. Where it ends, the members are those of before.
pub chat_session-Ends :
    (self : ℕ) (nick : Bytes) (chat : Chat)
    → IsRoom chat.members
    → entries self chat.members.clients ≡ 0
    → Ends (Unit {0}) (λ next. next.members ≡ chat.members) (chat_session self nick chat)
unfolding chat_session
chat_session-Ends self nick chat once absent =
    Ends-bind (tell_all-Same self _ joined joined-IsRoom) (λ w. w)
      λ told p.
        Ends-bind
          (session_loop-Ends (suc (left self told)) self nick told
            (subst IsRoom (sym p.0) joined-IsRoom) (omega arith))
          (λ w. w)
          λ over q.
            let back : leave self over.members ≡ chat.members =
              ap (leave self) (q ∙ p.0) ∙ leave-join self nick chat.members absent in
            Ends-map
              (tell_all-Same self _ (record over { members = leave self over.members })
                (subst IsRoom (sym back) once))
              (λ w. w) (λ next s. s.0 ∙ back)
  where
    joined : Chat
    joined = record chat { members = join self nick chat.members }

    joined-IsRoom : IsRoom (join self nick chat.members)
    joined-IsRoom ws =
        unfold join in
        ground (
          arith,
          once ws,
          absent,
          count_if-append (λ (c : Client). c.ws == ws) chat.members.clients
              (record { ws = self; nick = nick } ∷ []),
        )
