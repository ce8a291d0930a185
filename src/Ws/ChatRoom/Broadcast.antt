-- ===== src/Ws/ChatRoom/Broadcast.antt =====
-- `broadcast` of ws/chat_room.h: who gets the message.
use mathlib.Core.Path.{subst}
use coroutine_http.Prelude.{
  sym, ℕ, ◌<◌, ◌≤◌, ◌≡◌, ◌≢◌, refl, ap, ◌∙◌, true, false, List, [], ◌∷◌, length, ◌==◌, Bytes,
  Bool-cases, inl, inr, arith,
}
use coroutine_http.Net.Run.{Ends, returns, Ends-bind, Ends-map, Ends-if}
use coroutine_http.Net.Connection.{Connection, Written}
use coroutine_http.Net.Connection.Writing.{Writes, write_correct, room}
use coroutine_http.Ws.WebSocket.{text, encode_frame, send_frame, send_text}
use coroutine_http.Ws.ChatRoom.{
  Client, ChatRoom, Sockets, set_socket, send_open, broadcast_loop, broadcast,
}
use coroutine_http.Ws.ChatRoom.Members.{entries}

-- What a broadcast does to the connection `c` of a member: where it is open, it writes the message
-- as one text frame, and where it is closed, nothing.
pub record Told (msg : Bytes) (c d : Connection) : Type 0 where
  pub open_gets : c.closed ≡ false → (w : Written) × Writes (encode_frame text msg) c w d
  pub closed_kept : c.closed ≡ true → d ≡ c

-- Some open client's socket never takes the whole frame.
abbrev pub Stuck : Bytes → List Client → Sockets → Type 0
Stuck msg cs sockets =
    (ws : ℕ) × (entries ws cs ≢ 0)
    × ((sockets ws).closed ≡ false)
    × (room (sockets ws).outgoing < length (encode_frame text msg))

send_open-Told :
    (msg : Bytes) (c : Client) (sockets : Sockets)
    → Ends
        (((sockets c.ws).closed ≡ false)
          × (room (sockets c.ws).outgoing < length (encode_frame text msg)))
        (λ next.
          Told msg (sockets c.ws) (next c.ws)
          × ((ws : ℕ) → (c.ws == ws) ≡ false → next ws ≡ sockets ws))
        (send_open msg c sockets)
unfolding send_open send_text send_frame
send_open-Told msg c sockets =
    Ends-if (sockets c.ws).closed
      (λ shut.
        returns (
          record { open_gets = λ e. absurd (ground arith); closed_kept = λ _. refl },
          λ ws e. refl,
        ))
      (λ live.
        Ends-bind (write_correct (encode_frame text msg) (sockets c.ws)) (λ w. w)
          (λ r p. returns (told live r.0 r.1 p, λ ws e. ground arith)))
  where
    told :
        (sockets c.ws).closed ≡ false
        → (w : Written) (d : Connection) → Writes (encode_frame text msg) (sockets c.ws) w d
        → Told msg (sockets c.ws) (set_socket c.ws d sockets c.ws)
    told live w d p =
        let same : d ≡ set_socket c.ws d sockets c.ws = ground arith in
        subst (Told msg (sockets c.ws)) same
          (record { open_gets = λ _. (w, p); closed_kept = λ shut. absurd (ground arith) })

-- What the loop over `cs` does to every connection: the members' are told, and the others' are as
-- before.
pub record Reached (msg : Bytes) (cs : List Client) (sockets next : Sockets) : Type 0 where
  pub members : (ws : ℕ) → entries ws cs ≢ 0 → Told msg (sockets ws) (next ws)
  pub others : (ws : ℕ) → entries ws cs ≡ 0 → next ws ≡ sockets ws

Reached-cons :
    (msg : Bytes) (c : Client) (cs : List Client) (sockets mid next : Sockets)
    → entries c.ws cs ≡ 0
    → Told msg (sockets c.ws) (mid c.ws)
    → ((ws : ℕ) → (c.ws == ws) ≡ false → mid ws ≡ sockets ws)
    → Reached msg cs mid next
    → Reached msg (c ∷ cs) sockets next
Reached-cons msg c cs sockets mid next absent told kept rest = record {
  members = λ ws h. elim (Bool-cases (c.ws == ws)) [
    | inl first ↦
        let same : c.ws ≡ ws = ground arith in
        let last = sym (rest.others c.ws absent) in
        subst (λ w. Told msg (sockets w) (next w)) same (subst (Told msg (sockets c.ws)) last told)
    | inr later ↦
        subst (λ d. Told msg d (next ws)) (kept ws later) (rest.members ws (λ e. h (ground arith)))
  ];
  others = λ ws h. rest.others ws (ground arith) ∙ kept ws (ground arith);
}

broadcast_loop-Reached :
    (msg : Bytes) (cs : List Client) (sockets : Sockets)
    → ((ws : ℕ) → entries ws cs ≤ 1)
    → Ends (Stuck msg cs sockets) (Reached msg cs sockets) (broadcast_loop msg cs sockets)
unfolding broadcast_loop
broadcast_loop-Reached msg [] sockets once =
    returns (record { members = λ ws h. absurd (h refl); others = λ ws h. refl })
broadcast_loop-Reached msg (c ∷ cs) sockets once =
    Ends-bind (send_open-Told msg c sockets) (λ w. (c.ws, λ e. ground arith, w.0, w.1))
      λ mid p.
        Ends-map (broadcast_loop-Reached msg cs mid (λ ws. ground (arith, once ws)))
          (λ w. still_stuck mid p.1 w)
          (λ next q. Reached-cons msg c cs sockets mid next absent p.0 p.1 q)
  where
    absent : entries c.ws cs ≡ 0
    absent = ground (arith, once c.ws)

    still_stuck :
        (mid : Sockets)
        → ((ws : ℕ) → (c.ws == ws) ≡ false → mid ws ≡ sockets ws)
        → Stuck msg cs mid
        → Stuck msg (c ∷ cs) sockets
    still_stuck mid kept (ws, member, live, little) =
        let same = kept ws (ground (arith, absent, member)) in
        (
          ws,
          λ e. member (ground arith),
          ap (λ (d : Connection). d.closed) (sym same) ∙ live,
          subst (λ (d : Connection). room d.outgoing < length (encode_frame text msg)) same little,
        )

-- In a room in which no object is entered twice: a broadcast puts the message as one text frame on
-- the wire of each member that is open, whole or, where the connection breaks, a prefix that leaves
-- it closed; it leaves the members that are closed and every connection outside the room as they
-- are. It waits for ever only if some open member's socket never takes the whole frame.
pub broadcast-Reached :
    (msg : Bytes) (members : ChatRoom) (sockets : Sockets)
    → ((ws : ℕ) → entries ws members.clients ≤ 1)
    → Ends
        (Stuck msg members.clients sockets)
        (Reached msg members.clients sockets)
        (broadcast msg members sockets)
unfolding broadcast
broadcast-Reached msg members sockets once = broadcast_loop-Reached msg members.clients sockets once
