-- ===== src/Main/Sessions.antt =====
-- The handlers of `/ws` (main.cpp) of all clients at once, over one `ChatRoom` (ws/chat_room.h)
-- with its mutex. A session is named as its `WebSocket` object is; its coroutine runs on one
-- thread. A critical section of `join`, `leave`, `size` and `nicks_json` is one step, `broadcast`
-- one step for each client, since `send_text` may switch to another coroutine while the mutex is
-- held. `size` and `nicks_json` are called from left to right, an order that C++ leaves open. The
-- log lines, which call `size` too, and the answer to a PING are left out: they change nothing of
-- the room.
pub mod Members
pub mod Atomic
pub mod Waiting
pub mod Blocking
use coroutine_http.Prelude.{
  ℕ, ◌≡◌, ◌⊎◌, Bool, true, false, not, Option, none, some, List, [], ◌∷◌, ◌++◌, ◌==◌, if◌then◌else◌,
  Bytes, is_empty,
}
use coroutine_http.Ws.WebSocket.{WsFrame, continuation, text, binary, close, ping, pong, other}
use coroutine_http.Ws.ChatRoom.{Client, ChatRoom, join, leave, size, nicks_json}
use coroutine_http.Main.{has_joined, has_left, notice, chat_message}

-- The three broadcasts of a session.
pub data Goal : Type 0 where
  entering speaking parting : Goal

-- Where a session stands: before its object is built, before `join`, before `size`, before
-- `nicks_json` with the number that `size` gave, before the mutex of `broadcast`, inside
-- `broadcast`, in `recv_frame`, before `leave`, and behind its end, with the object gone.
pub data Stage : Type 0 where
  absent : Stage
  arrived : Bytes → Stage
  counting : Goal → Bytes → Stage
  listing : Goal → Bytes → ℕ → Stage
  calling : Goal → Bytes → Bytes → Stage
  telling : Goal → Bytes → Stage
  reading : Bytes → Stage
  leaving : Bytes → Stage
  gone : Stage

-- The session that holds the mutex, with what its `broadcast` has still to do: `rest` is taken from
-- the clients when it gets the mutex. The source goes through the vector itself, which only a
-- holder of the mutex changes.
pub record Sending : Type 0 where
  pub by : ℕ
  pub msg : Bytes
  pub rest : List Client

-- `blocked` has the session in whose `lock` a thread is blocked; `inbox` the messages of the room
-- that have been written to a session's socket.
pub record Sessions : Type 0 where
  pub members : ChatRoom
  pub mutex : Option Sending
  pub stages : ℕ → Stage
  pub blocked : ℕ → Option ℕ
  pub closed : ℕ → Bool
  pub inbox : ℕ → List Bytes

abbrev pub set_at {ℓ} : {A : Type ℓ} → ℕ → A → (ℕ → A) → ℕ → A
set_at i a f = λ j. if i == j then a else f j

abbrev pub no_sessions : Sessions
no_sessions = record {
  members = record { clients = [] };
  mutex = none;
  stages = λ i. absent;
  blocked = λ thread. none;
  closed = λ i. false;
  inbox = λ i. [];
}

abbrev pub what_of : Goal → Bytes
what_of parting = has_left
what_of _ = has_joined

-- Behind a `broadcast`.
unfoldable pub after_telling : Goal → Bytes → Stage
after_telling parting nick = gone
after_telling _ nick = reading nick

-- The loop of the handler, with what `recv_frame` returns.
unfoldable pub on_received : Bytes → Option WsFrame → Stage
on_received nick none = leaving nick
on_received nick (some frame) = elim frame.opcode [
  | close ↦ leaving nick
  | text ↦
      if not (is_empty frame.payload)
      then calling speaking nick (chat_message nick frame.payload)
      else reading nick
  | ping ↦ reading nick
  | continuation ↦ reading nick
  | binary ↦ reading nick
  | pong ↦ reading nick
  | other n ↦ reading nick
]

abbrev pub on_stage : ℕ → Stage → Sessions → Sessions
on_stage i stage s = record s { stages = set_at i stage s.stages }

-- `!is_closed()`, and `send_text`.
unfoldable pub tell_one : Client → Bytes → Sessions → ℕ → List Bytes
tell_one c msg s = if s.closed c.ws then s.inbox else set_at c.ws (s.inbox c.ws ++ msg ∷ []) s.inbox

-- The stages before a call of the room.
abbrev pub wants_mutex : Stage → Bool
wants_mutex (arrived nick) = true
wants_mutex (counting g nick) = true
wants_mutex (listing g nick n) = true
wants_mutex (calling g nick msg) = true
wants_mutex (leaving nick) = true
wants_mutex _ = false

-- The room and the stage behind the mutex, for a call that gives it back at once.
unfoldable pub locked : ℕ → Stage → ChatRoom → ChatRoom × Stage
locked i (arrived nick) room = (join i nick room, counting entering nick)
locked i (counting g nick) room = (room, listing g nick (size room))
locked i (listing g nick n) room =
    (room, calling g nick (notice nick (what_of g) n (nicks_json room)))
locked i (leaving nick) room = (leave i room, counting parting nick)
locked i stage room = (room, stage)

-- Whether that call gives the mutex back at once.
abbrev pub is_short : Stage → Bool
is_short (calling g nick msg) = false
is_short stage = wants_mutex stage

module _ (thread_of : ℕ → ℕ) where
  -- The thread of a session is not blocked in the `lock` of another.
  abbrev pub CanRun : ℕ → Sessions → Type 0
  CanRun i s = (s.blocked (thread_of i) ≡ none) ⊎ (s.blocked (thread_of i) ≡ some i)

  abbrev pub unblock : ℕ → Sessions → Sessions
  unblock i s = record s { blocked = set_at (thread_of i) none s.blocked }

  -- One step of session `i`, or a socket that closes.
  pub data SessionStep (s : Sessions) : Sessions → Type 0 where
    arrives :
        (i : ℕ) (nick : Bytes)
        → s.stages i ≡ absent
        → CanRun i s
        → SessionStep s (on_stage i (arrived nick) s)
    locks_shortly :
        (i : ℕ)
        → is_short (s.stages i) ≡ true
        → CanRun i s
        → s.mutex ≡ none
        → SessionStep s (
            unblock i (record (on_stage i (locked i (s.stages i) s.members).1 s) {
              members = (locked i (s.stages i) s.members).0;
            }))
    locks :
        (i : ℕ) (g : Goal) (nick msg : Bytes)
        → s.stages i ≡ calling g nick msg
        → CanRun i s
        → s.mutex ≡ none
        → SessionStep s (
            unblock i (record (on_stage i (telling g nick) s) {
              mutex = some (record { by = i; msg = msg; rest = s.members.clients });
            }))
    sends :
        (b : Sending) (c : Client) (cs : List Client)
        → s.mutex ≡ some b
        → b.rest ≡ c ∷ cs
        → CanRun b.by s
        → SessionStep s
            (record s { mutex = some (record b { rest = cs }); inbox = tell_one c b.msg s })
    unlocks :
        (b : Sending) (g : Goal) (nick : Bytes)
        → s.mutex ≡ some b
        → b.rest ≡ []
        → s.stages b.by ≡ telling g nick
        → CanRun b.by s
        → SessionStep s (record (on_stage b.by (after_telling g nick) s) { mutex = none })
    receives :
        (i : ℕ) (nick : Bytes) (frame : Option WsFrame)
        → s.stages i ≡ reading nick
        → CanRun i s
        → SessionStep s (on_stage i (on_received nick frame) s)
    waits :
        (i : ℕ) (b : Sending)
        → wants_mutex (s.stages i) ≡ true
        → s.blocked (thread_of i) ≡ none
        → s.mutex ≡ some b
        → SessionStep s (record s { blocked = set_at (thread_of i) (some i) s.blocked })
    closes : (i : ℕ) → SessionStep s (record s { closed = set_at i true s.closed })

  pub data SessionSteps (s : Sessions) : Sessions → Type 0 where
    here : SessionSteps s s
    next : {t u : Sessions} → SessionSteps s t → SessionStep t u → SessionSteps s u
