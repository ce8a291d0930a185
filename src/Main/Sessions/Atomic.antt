-- ===== src/Main/Sessions/Atomic.antt =====
-- The chat of main.cpp and ws/chat_room.h as its users see it: a room in which a `broadcast`
-- happens at once.
use coroutine_http.Prelude.{
  ℕ, ◌≡◌, refl, sym, ap, ◌∙◌, ◌⊎◌, inl, inr, Bool, true, false, not, Option, none, some, List, [],
  ◌∷◌, ◌++◌, append-nil, append_assoc, ◌==◌, if◌then◌else◌, Bytes, Bool-cases, arith, nat_eq,
}
use coroutine_http.Ws.ChatRoom.{Client, ChatRoom, join, leave}
use coroutine_http.Ws.ChatRoom.Members.{entries}
use coroutine_http.Main.Sessions.{
  Stage, arrived, leaving, Sending, Sessions, no_sessions, tell_one, locked, SessionStep, arrives,
  locks_shortly, locks, sends, unlocks, receives, waits, closes, SessionSteps, here, next,
}
use coroutine_http.Main.Sessions.Members.{once_if, is_in, Inv, steps-Inv}

-- The members, and what each session has heard of the room.
pub record AtomicRoom : Type 0 where
  pub members : ChatRoom
  pub heard : ℕ → List Bytes

pub data Event : Type 0 where
  quiet : Event
  enters : ℕ → Bytes → Event
  speaks : Bytes → Event
  exits : ℕ → Event

abbrev is_member : ℕ → ChatRoom → Bool
is_member i room = not (entries i room.clients == 0)

abbrev hear : Bool → Bytes → List Bytes → List Bytes
hear present msg heard = if present then heard ++ msg ∷ [] else heard

abbrev pub act : Event → AtomicRoom → AtomicRoom
act quiet a = a
act (enters i nick) a = record a { members = join i nick a.members }
act (exits i) a = record a { members = leave i a.members }
act (speaks msg) a = record a { heard = λ i. hear (is_member i a.members) msg (a.heard i) }

abbrev pub act_all : List Event → AtomicRoom → AtomicRoom
act_all [] a = a
act_all (e ∷ es) a = act_all es (act e a)

act_all-append :
    (es : List Event) (e : Event) (a : AtomicRoom) → act_all (es ++ e ∷ []) a ≡ act e (act_all es a)
act_all-append [] e a = refl
act_all-append (d ∷ es) e a = act_all-append es e (act d a)

-- How often a message has still to be written to session `i`.
abbrev pub copies : ℕ → Bytes → List Client → List Bytes
copies i msg [] = []
copies i msg (c ∷ cs) = if c.ws == i then msg ∷ copies i msg cs else copies i msg cs

abbrev to_come : ℕ → Option Sending → List Bytes
to_come i none = []
to_come i (some b) = copies i b.msg b.rest

-- A message has been heard as soon as its `broadcast` has begun.
abbrev pub view : Sessions → AtomicRoom
view s = record { members = s.members; heard = λ i. s.inbox i ++ to_come i s.mutex }

no_copies : (i : ℕ) (msg : Bytes) (cs : List Client) → entries i cs ≡ 0 → copies i msg cs ≡ []
no_copies i msg [] h = refl
no_copies i msg (c ∷ cs) h = ground (arith, no_copies i msg cs)

one_copy : (i : ℕ) (msg : Bytes) (cs : List Client) → entries i cs ≡ 1 → copies i msg cs ≡ msg ∷ []
one_copy i msg [] h = absurd (omega arith)
one_copy i msg (c ∷ cs) h = ground (arith, no_copies i msg cs, one_copy i msg cs)

heard-copies :
    (i : ℕ) (msg : Bytes) (room : ChatRoom) (heard : List Bytes) (b : Bool)
    → entries i room.clients ≡ once_if b
    → heard ++ copies i msg room.clients ≡ hear (is_member i room) msg heard
heard-copies i msg room heard true e = rw (one_copy i msg room.clients e, e) refl
heard-copies i msg room heard false e = rw (no_copies i msg room.clients e, e) (append-nil heard)

-- What a short call of the room is.
abbrev pub event_of : ℕ → Stage → Event
event_of i (arrived nick) = enters i nick
event_of i (leaving nick) = exits i
event_of i stage = quiet

locked-act :
    (i : ℕ) (stage : Stage) (a : AtomicRoom) (j : ℕ)
    → ((locked i stage a.members).0 ≡ (act (event_of i stage) a).members)
      × ((act (event_of i stage) a).heard j ≡ a.heard j)
unfolding locked
locked-act i (arrived nick) a j = (refl, refl)
locked-act i (leaving nick) a j = (refl, refl)
locked-act i stage a j = (refl, refl)

-- Writing to the next client makes no difference to what an open session has heard.
pub tell_one-copies :
    (i : ℕ) (b : Sending) (c : Client) (cs : List Client) (s : Sessions)
    → s.closed i ≡ false
    → tell_one c b.msg s i ++ copies i b.msg cs ≡ s.inbox i ++ copies i b.msg (c ∷ cs)
unfolding tell_one
tell_one-copies i b c cs s alive = elim (Bool-cases (c.ws == i)) [
  | inl it ↦
      let this : c.ws ≡ i = ground arith in
      let open_here : s.closed c.ws ≡ false = ap s.closed this ∙ alive in
      rw (open_here, it, ap s.inbox this)
        (append_assoc (s.inbox i) (b.msg ∷ []) (copies i b.msg cs))
  | inr another ↦ elim (Bool-cases (s.closed c.ws)) [
    | inl shut ↦ rw (shut, another) refl
    | inr written ↦ rw (written, another) refl
  ]
]

still_to_come :
    (s : Sessions) (b : Sending) (cs : List Client) (j : ℕ)
    → s.mutex ≡ some b
    → b.rest ≡ cs
    → s.inbox j ++ copies j b.msg cs ≡ s.inbox j ++ to_come j s.mutex
still_to_come s b cs j held e =
    ap (λ q. s.inbox j ++ copies j b.msg q) (sym e) ∙ ap (λ m. s.inbox j ++ to_come j m) (sym held)

act-heard :
    (e : Event) (a b : AtomicRoom) (j : ℕ)
    → a.members ≡ b.members
    → ((act e a).members ≡ (act e b).members)
      × (a.heard j ≡ b.heard j → (act e a).heard j ≡ (act e b).heard j)
act-heard quiet a b j m = (m, λ h. h)
act-heard (enters i nick) a b j m = (ap (join i nick) m, λ h. h)
act-heard (exits i) a b j m = (ap (leave i) m, λ h. h)
act-heard (speaks msg) a b j m = (
  m,
  λ h. ap (λ r. hear (is_member j r) msg (a.heard j)) m ∙ ap (hear (is_member j b.members) msg) h,
)

module _ (thread_of : ℕ → ℕ) where
  abbrev pub label : {s t : Sessions} → SessionStep thread_of s t → Event
  label {s} {t} (locks_shortly i short run free) = event_of i (s.stages i)
  label {s} {t} (locks i g nick msg e run free) = speaks msg
  label {s} {t} step = quiet

  abbrev pub events : {s t : Sessions} → SessionSteps thread_of s t → List Event
  events here = []
  events (next before step) = events before ++ label step ∷ []

  step-act :
      (s t : Sessions) (step : SessionStep thread_of s t) (i : ℕ)
      → Inv s
      → ((view t).members ≡ (act (label step) (view s)).members)
        × (t.closed i ≡ false
            → (s.closed i ≡ false) × ((view t).heard i ≡ (act (label step) (view s)).heard i))
  step-act s t (arrives i nick e run) j inv = (refl, λ alive. (alive, refl))
  step-act s t (locks_shortly i short run free) j inv =
      let (same, heard) = locked-act i (s.stages i) (view s) j in
      (same, λ alive. (alive, sym heard))
  step-act s t (locks i g nick msg e run free) j inv =
      let start : s.inbox j ≡ s.inbox j ++ to_come j s.mutex =
        sym (append-nil (s.inbox j)) ∙ ap (λ m. s.inbox j ++ to_come j m) (sym free) in
      (
        refl,
        λ alive. (
          alive,
          heard-copies j msg s.members (s.inbox j) (is_in (s.stages j)) (inv.member j)
              ∙ ap (hear (is_member j s.members) msg) start,
        ),
      )
  step-act s t (sends b c cs held e run) j inv = (
    refl,
    λ alive. (alive, tell_one-copies j b c cs s alive ∙ still_to_come s b (c ∷ cs) j held e),
  )
  step-act s t (unlocks b g nick held e stage run) j inv =
      (refl, λ alive. (alive, still_to_come s b [] j held e))
  step-act s t (receives i nick frame e run) j inv = (refl, λ alive. (alive, refl))
  step-act s t (waits i b wants free held) j inv = (refl, λ alive. (alive, refl))
  step-act s t (closes i) j inv = (refl, λ alive. (ground (arith, alive), refl))

  steps-act :
      {t : Sessions} (j : ℕ) (run : SessionSteps thread_of no_sessions t)
      → ((view t).members ≡ (act_all (events run) (view no_sessions)).members)
        × (t.closed j ≡ false
            → (view t).heard j ≡ (act_all (events run) (view no_sessions)).heard j)
  steps-act j here = (refl, λ alive. refl)
  steps-act {t} j (next {t = s} before step) =
      let (members, heard) = steps-act j before in
      let (same, hears) = step-act s t step j (steps-Inv thread_of before) in
      let spec = act_all (events before) (view no_sessions) in
      let (follows, agrees) = act-heard (label step) (view s) spec j members in
      let last = act_all-append (events before) (label step) (view no_sessions) in
      (
        same ∙ follows ∙ ap (λ (a : AtomicRoom). a.members) (sym last),
        λ alive.
            let (was_alive, e) = hears alive in
            e ∙ agrees (heard was_alive) ∙ ap (λ (a : AtomicRoom). a.heard j) (sym last),
      )

  -- The mutex makes `broadcast` atomic for its hearers. Every run of the sessions, with its sends
  -- one by one and the other sessions between them, is a sequence of joins, leaves and broadcasts,
  -- each at once, in which every member of the moment hears a broadcast once: the members are those
  -- of this sequence, and of each session, unless its socket has closed, what has been written to
  -- it, with what the broadcast under way will still write to it, is what it hears in the sequence,
  -- in the order that is the same for all.
  pub broadcast_refines :
      {t : Sessions} (run : SessionSteps thread_of no_sessions t)
      → ((view t).members ≡ (act_all (events run) (view no_sessions)).members)
        × ((j : ℕ)
            → (t.closed j ≡ true)
              ⊎ ((view t).heard j ≡ (act_all (events run) (view no_sessions)).heard j))
  broadcast_refines {t} run = (
    (steps-act 0 run).0,
    λ j. elim (Bool-cases (t.closed j)) [
      | inl shut ↦ inl shut
      | inr alive ↦ inr ((steps-act j run).1 alive)
    ],
  )
