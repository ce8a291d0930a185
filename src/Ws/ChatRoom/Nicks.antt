-- ===== src/Ws/ChatRoom/Nicks.antt =====
-- `nicks_json` of ws/chat_room.h, against a reader of JSON arrays of strings without escapes.
use coroutine_http.Prelude.{
  ℕ, ◌≡◌, refl, ap, Option, none, some, List, [], ◌∷◌, ◌++◌, append-nil, append_assoc, map, false,
  ◌==◌, if◌then◌else◌, All, Bytes, bytes, arith,
}
use coroutine_http.Ws.ChatRoom.{Client, ChatRoom, quoted, nicks_loop, nicks_list, nicks_json}

-- The state of the reader: in front of an element, in a string that has begun with `cur`, or behind
-- one.
pub data ReaderState : Type 0 where
  before after : ReaderState
  within : Bytes → ReaderState

-- The strings of the rest of an array.
unfoldable pub read_strings : ReaderState → Bytes → Option (List Bytes)
read_strings state [] = none
read_strings before (b ∷ s) =
    let inner = read_strings (within []) s in if b == b'"' then inner else none
read_strings (within cur) (b ∷ s) =
    let closed = read_strings after s in
    let more = read_strings (within (cur ++ b ∷ [])) s in
    if b == b'"' then elim closed [ none ↦ none | some l ↦ some (cur ∷ l) ] else more
read_strings after (b ∷ s) =
    let next = read_strings before s in
    if b == b',' then next else (if b == b']' then some [] else none)

-- An array: it is empty, or its first element follows.
unfoldable pub read_array : Bytes → Option (List Bytes)
unfolding read_strings
read_array [] = none
read_array (first ∷ []) = none
read_array (first ∷ b ∷ s) =
    if first == b'[' then (if b == b']' then some [] else read_strings before (b ∷ s)) else none

-- No quotation mark, and no backslash, which JSON would take for an escape.
abbrev pub IsPlain : Bytes → Type 0
IsPlain nick = All (λ b. ((b == b'"') ≡ false) × ((b == b'\\') ≡ false)) nick

read_strings-within :
    (nick cur s : Bytes)
    → IsPlain nick
    → read_strings (within cur) (nick ++ b'"' ∷ s)
      ≡ elim (read_strings after s) [ none ↦ none | some l ↦ some ((cur ++ nick) ∷ l) ]
unfolding read_strings
read_strings-within [] cur s h = ground (arith, append-nil cur)
read_strings-within (b ∷ nick) cur s h =
    ground (arith, read_strings-within nick (cur ++ b ∷ []) s h.1, append_assoc cur (b ∷ []) nick)

read_strings-nicks :
    (cs : List Client)
    → All (λ (c : Client). IsPlain c.nick) cs
    → read_strings after (nicks_loop cs ++ b']' ∷ []) ≡ some (map (λ (c : Client). c.nick) cs)
unfolding read_strings nicks_loop
read_strings-nicks [] h = refl
read_strings-nicks (c ∷ cs) h = ground (
  arith,
  read_strings-within c.nick [] (nicks_loop cs ++ b']' ∷ []) h.0,
  read_strings-nicks cs h.1,
  append_assoc (c.nick ++ b'"' ∷ []) (nicks_loop cs) (b']' ∷ []),
  append_assoc c.nick (b'"' ∷ []) (nicks_loop cs ++ b']' ∷ []),
)

-- Where no nickname holds a quotation mark or a backslash, a client that reads the list gets the
-- nicknames of the members, in the order in which they joined.
pub read_array-nicks_json :
    (room : ChatRoom)
    → All (λ (c : Client). IsPlain c.nick) room.clients
    → read_array (nicks_json room) ≡ some (map (λ (c : Client). c.nick) room.clients)
unfolding read_array nicks_json quoted read_strings
read_array-nicks_json room h = read room.clients h
  where
    read :
        (cs : List Client)
        → All (λ (c : Client). IsPlain c.nick) cs
        → read_array (b'[' ∷ (nicks_list cs ++ b']' ∷ [])) ≡ some (map (λ (c : Client). c.nick) cs)
    read [] k = refl
    read (c ∷ cs) k = ground (
      arith,
      read_strings-within c.nick [] (nicks_loop cs ++ b']' ∷ []) k.0,
      read_strings-nicks cs k.1,
      append_assoc (c.nick ++ b'"' ∷ []) (nicks_loop cs) (b']' ∷ []),
      append_assoc c.nick (b'"' ∷ []) (nicks_loop cs ++ b']' ∷ []),
    )

-- Nicknames are not escaped: one member whose nickname holds `","` gives the same list as two
-- members with the nicknames on both sides of it.
pub nicks_json_ambiguous :
    (ws ws' ws'' : ℕ) (a b : Bytes)
    → nicks_json (record { clients = record { ws = ws; nick = a ++ (bytes "\",\"" ++ b) } ∷ [] })
      ≡ nicks_json
          (record { clients = record { ws = ws'; nick = a } ∷ record { ws = ws''; nick = b } ∷ [] })
unfolding nicks_json quoted nicks_loop
nicks_json_ambiguous ws ws' ws'' a b = ap (◌∷◌ b'[') (ap (◌∷◌ b'"') (simp append_assoc))
