-- ===== src/Main/Sessions/Members.antt =====
-- Who is a member of the chat room while the sessions of main.cpp run at once.
use coroutine_http.Prelude.{
  ℕ, ◌+◌, ◌≤◌, Option, All, ◌≡◌, ◌≢◌, refl, sym, ap, ◌∙◌, inl, inr, Bool, true, false, not, Option,
  none, some, List, [], ◌∷◌, ◌==◌, if◌then◌else◌, Bytes, Bool-cases, arith, nat_eq, count_if-append,
}
use mathlib.Core.Option.{some-injective}
use coroutine_http.Ws.WebSocket.{WsFrame}
use coroutine_http.Ws.ChatRoom.{Client, ChatRoom, join, leave, remove_ws}
use coroutine_http.Ws.ChatRoom.Members.{entries}
use coroutine_http.Main.Sessions.{
  Goal, parting, Stage, absent, arrived, counting, listing, calling, telling, reading, leaving,
  gone, Sending, Sessions, set_at, no_sessions, after_telling, on_received, on_stage, locked,
  is_short, SessionStep, arrives, locks_shortly, locks, sends, unlocks, receives, waits, closes,
  SessionSteps, here, next,
}

abbrev pub parts : Goal → Bool
parts parting = true
parts _ = false

-- Between the end of `join` and the end of `leave`.
abbrev pub is_in : Stage → Bool
is_in absent = false
is_in (arrived nick) = false
is_in (counting g nick) = not (parts g)
is_in (listing g nick n) = not (parts g)
is_in (calling g nick msg) = not (parts g)
is_in (telling g nick) = not (parts g)
is_in (reading nick) = true
is_in (leaving nick) = true
is_in gone = false

abbrev pub once_if : Bool → ℕ
once_if b = if b then 1 else 0

-- The clients to whom a `broadcast` has still to send.
abbrev pub to_visit : Option Sending → List Client
to_visit none = []
to_visit (some b) = b.rest

entries-join :
    (i j : ℕ) (nick : Bytes) (room : ChatRoom)
    → entries j (join i nick room).clients ≡ entries j room.clients + once_if (i == j)
unfolding join
entries-join i j nick room = omega (
  arith,
  count_if-append (λ (c : Client). c.ws == j) room.clients (record { ws = i; nick = nick } ∷ []),
)

entries-remove_ws :
    (i j : ℕ) (cs : List Client) → entries j (remove_ws i cs) ≡ (if i == j then 0 else entries j cs)
unfolding remove_ws
entries-remove_ws i j [] = ground arith
entries-remove_ws i j (c ∷ cs) = ground (arith, entries-remove_ws i j cs)

-- A short call of the room leaves exactly the sessions in the room that are now between `join` and
-- `leave`.
locked-entries :
    (i j : ℕ) (stage : Stage) (room : ChatRoom)
    → is_short stage ≡ true
    → entries i room.clients ≡ once_if (is_in stage)
    → entries j (locked i stage room).0.clients
      ≡ (if i == j then once_if (is_in (locked i stage room).1) else entries j room.clients)
unfolding locked
locked-entries i j absent room h e = absurd (ground arith)
locked-entries i j (arrived nick) room h e = ground (arith, entries-join i j nick room)
locked-entries i j (counting g nick) room h e = ground arith
locked-entries i j (listing g nick n) room h e = ground arith
locked-entries i j (calling g nick msg) room h e = absurd (ground arith)
locked-entries i j (telling g nick) room h e = absurd (ground arith)
locked-entries i j (reading nick) room h e = absurd (ground arith)
locked-entries i j (leaving nick) room h e =
    unfold leave in ground (arith, entries-remove_ws i j room.clients)
locked-entries i j gone room h e = absurd (ground arith)

on_received-is_in : (nick : Bytes) (frame : Option WsFrame) → is_in (on_received nick frame) ≡ true
unfolding on_received
on_received-is_in nick none = refl
on_received-is_in nick (some frame) = ground arith

after_telling-is_in : (g : Goal) (nick : Bytes) → is_in (after_telling g nick) ≡ not (parts g)
unfolding after_telling
after_telling-is_in parting nick = refl
after_telling-is_in g nick = refl

-- The clients of the room are exactly the sessions between `join` and `leave`, once each; a
-- `broadcast` under way has only members before it, and the session that does it is the one that
-- holds the mutex.
pub record Inv (s : Sessions) : Type 0 where
  pub member : (i : ℕ) → entries i s.members.clients ≡ once_if (is_in (s.stages i))
  pub holder :
      (b : Sending)
      → s.mutex ≡ some b
      → (g : Goal) × (nick : Bytes) × (s.stages b.by ≡ telling g nick)
  pub rest :
      (b : Sending) (i : ℕ) → s.mutex ≡ some b → entries i b.rest ≤ entries i s.members.clients

no_sessions-Inv : Inv no_sessions
no_sessions-Inv = record {
  member = λ i. refl;
  holder = λ b h. absurd (ground arith);
  rest = λ b i h. absurd (ground arith);
}

placed :
    (i j n : ℕ) (stage : Stage) (s : Sessions)
    → n ≡ (if i == j then once_if (is_in stage) else entries j s.members.clients)
    → entries j s.members.clients ≡ once_if (is_in (s.stages j))
    → n ≡ once_if (is_in (set_at i stage s.stages j))
placed i j n stage s e member = ground arith

set_at_self : (i : ℕ) (stage : Stage) (s : Sessions) → set_at i stage s.stages i ≡ stage
set_at_self i stage s = ground arith

module _ (thread_of : ℕ → ℕ) where
  -- A step of session `i` alone, to a stage that is as much in the room, where `i` does not hold
  -- the mutex.
  staged-Inv :
      (i : ℕ) (stage : Stage) (s : Sessions)
      → is_in (s.stages i) ≡ is_in stage
      → ((g : Goal) (nick : Bytes) → s.stages i ≢ telling g nick)
      → Inv s
      → Inv (on_stage i stage s)
  staged-Inv i stage s same outside inv = record {
    member = λ j. elim (Bool-cases (i == j)) [
      | inl it ↦
          let this : i ≡ j = ground arith in
          inv.member j
          ∙ ap (λ k. once_if (is_in (s.stages k))) (sym this)
          ∙ ap once_if same
          ∙ ground arith
      | inr another ↦ inv.member j ∙ ground arith
    ];
    holder = λ b h.
        let (g, nick, e) = inv.holder b h in
        let apart : (i == b.by) ≡ false = elim (Bool-cases (i == b.by)) [
          | inl it ↦
              let this : i ≡ b.by = ground arith in absurd (outside g nick (ap s.stages this ∙ e))
          | inr another ↦ another
        ] in
        (g, nick, ground arith);
    rest = inv.rest;
  }

  step-Inv : (s t : Sessions) → SessionStep thread_of s t → Inv s → Inv t
  step-Inv s t (arrives i nick e run) inv =
      staged-Inv i (arrived nick) s (ground arith) (λ g n h. ground arith) inv
  step-Inv s t (locks_shortly i short run free) inv = record {
    member = λ j.
        placed i j _ (locked i (s.stages i) s.members).1 s
          (locked-entries i j (s.stages i) s.members short (inv.member i)) (inv.member j);
    holder = λ b h. absurd (ground arith);
    rest = λ b j h. absurd (ground arith);
  }
  step-Inv s t (locks i g nick msg e run free) inv = record {
    member = λ j. placed i j _ (telling g nick) s (ground (arith, inv.member i)) (inv.member j);
    holder = λ b h. (
      g,
      nick,
      ap (set_at i (telling g nick) s.stages)
            (sym (ap (λ (d : Sending). d.by) (some-injective _ _ h)))
          ∙ set_at_self i (telling g nick) s,
    );
    rest = λ b j h. omega (arith, ap (λ (d : Sending). entries j d.rest) (some-injective _ _ h));
  }
  step-Inv s t (sends b c cs held e run) inv = record {
    member = inv.member;
    holder = λ d h.
        let (g, nick, stage) = inv.holder b held in
        (g, nick, ap s.stages (sym (ap (λ (x : Sending). x.by) (some-injective _ _ h))) ∙ stage);
    rest = λ d j h. omega (
      arith,
      inv.rest b j held,
      ap (λ (x : Sending). entries j x.rest) (some-injective _ _ h),
      ap (entries j) e,
    );
  }
  step-Inv s t (unlocks b g nick held e stage run) inv = record {
    member = λ j.
        placed b.by j _ (after_telling g nick) s
          (ground (arith, inv.member b.by, after_telling-is_in g nick, ap is_in stage))
          (inv.member j);
    holder = λ d h. absurd (ground arith);
    rest = λ d j h. absurd (ground arith);
  }
  step-Inv s t (receives i nick frame e run) inv =
      staged-Inv i (on_received nick frame) s (ap is_in e ∙ sym (on_received-is_in nick frame))
        (λ g n h. ground arith) inv
  step-Inv s t (waits i b wants free held) inv = record {
    member = inv.member;
    holder = inv.holder;
    rest = inv.rest;
  }
  step-Inv s t (closes i) inv = record { member = inv.member; holder = inv.holder; rest = inv.rest }

  pub steps-Inv : {t : Sessions} → SessionSteps thread_of no_sessions t → Inv t
  steps-Inv here = no_sessions-Inv
  steps-Inv (next before step) = step-Inv _ _ step (steps-Inv before)

  living :
      (s : Sessions) (cs : List Client)
      → Inv s
      → ((i : ℕ) → entries i cs ≤ entries i s.members.clients)
      → All (λ (c : Client). is_in (s.stages c.ws) ≡ true) cs
  living s [] inv few = tt
  living s (c ∷ cs) inv few =
      let first : 1 ≤ entries c.ws (c ∷ cs) = ground arith in
      (
        ground (arith, first, few c.ws, inv.member c.ws),
        living s cs inv (λ i. omega (arith, few i)),
      )

  -- However the sessions interleave, the room holds exactly those between their `join` and their
  -- `leave`, each once, and each client to whom a `broadcast` under way has still to send is a
  -- session between them, so that its object is not gone.
  pub broadcast_only_living :
      {t : Sessions}
      → SessionSteps thread_of no_sessions t
      → ((i : ℕ) → entries i t.members.clients ≡ once_if (is_in (t.stages i)))
        × All (λ (c : Client). is_in (t.stages c.ws) ≡ true) (to_visit t.mutex)
  broadcast_only_living {t} run = (inv.member, visited t.mutex refl)
    where
      inv : Inv t
      inv = steps-Inv run

      visited :
          (m : Option Sending)
          → t.mutex ≡ m
          → All (λ (c : Client). is_in (t.stages c.ws) ≡ true) (to_visit m)
      visited none e = tt
      visited (some b) e = living t b.rest inv (λ i. inv.rest b i e)
