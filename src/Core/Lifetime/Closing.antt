-- ===== src/Core/Lifetime/Closing.antt =====
-- Which descriptors the constructors and destructors of core/coroutine.cpp close.
use coroutine_http.Prelude.{
  ℕ, ◌+◌, ◌≡◌, refl, ap, ◌∙◌, Bool, true, false, ◌&&◌, Option, none, some, List, [], ◌∷◌, ◌++◌,
  occurrences, arith,
}
use coroutine_http.Core.Lifetime.{
  Handles, Log, new_log, SysCalls, opens, close_fd, init_scheduler, close_scheduler,
  close_schedulers, init_schedulers, new_schedulers,
}

-- Both system calls succeed.
abbrev pub succeeds : SysCalls → Bool
succeeds (none, pipe2) = false
succeeds (some epoll, none) = false
succeeds (some epoll, some ends) = true

abbrev pub all_succeed : List SysCalls → Bool
all_succeed [] = true
all_succeed (c ∷ cs) = succeeds c && all_succeed cs

-- The epoll descriptor of a constructor whose `pipe2` fails, where all before it succeed.
abbrev pub leaked : List SysCalls → List ℕ
leaked [] = []
leaked ((none, pipe2) ∷ cs) = []
leaked ((some epoll, none) ∷ cs) = epoll ∷ []
leaked ((some epoll, some ends) ∷ cs) = leaked cs

abbrev pub is_built : Option (List Handles) → Bool
is_built none = false
is_built (some hs) = true

-- The destructor of a `MultiScheduler` that has been constructed.
abbrev pub destroyed : Option (List Handles) × Log → Log
destroyed (none, log) = log
destroyed (some hs, log) = close_schedulers hs log

abbrev held_in : ℕ → Option ℕ → ℕ
held_in fd none = 0
held_in fd (some other) = occurrences fd (other ∷ [])

-- How often a descriptor is held.
abbrev held : ℕ → List Handles → ℕ
held fd [] = 0
held fd (h ∷ hs) =
    held_in fd h.epoll_fd + held_in fd h.pipe_read_fd + held_in fd h.pipe_write_fd + held fd hs

held-append : (fd : ℕ) (hs ks : List Handles) → held fd (hs ++ ks) ≡ held fd hs + held fd ks
held-append fd [] ks = omega arith
held-append fd (h ∷ hs) ks = omega (arith, held-append fd hs ks)

closed-close_fd :
    (fd : ℕ) (o : Option ℕ) (log : Log)
    → ((close_fd o log).opened ≡ log.opened)
      × (occurrences fd (close_fd o log).closed ≡ held_in fd o + occurrences fd log.closed)
closed-close_fd fd none log = (refl, omega arith)
closed-close_fd fd (some other) log = (refl, ground arith)

-- What a list of schedulers holds is closed, once for each time.
closed-close_schedulers :
    (fd : ℕ) (hs : List Handles) (log : Log)
    → ((close_schedulers hs log).opened ≡ log.opened)
      × (occurrences fd (close_schedulers hs log).closed ≡ held fd hs + occurrences fd log.closed)
unfolding close_schedulers close_scheduler
closed-close_schedulers fd [] log = (refl, omega arith)
closed-close_schedulers fd (h ∷ hs) log =
    let a = closed-close_fd fd h.pipe_read_fd log in
    let b = closed-close_fd fd h.pipe_write_fd (close_fd h.pipe_read_fd log) in
    let c =
      closed-close_fd fd h.epoll_fd (close_fd h.pipe_write_fd (close_fd h.pipe_read_fd log)) in
    let more = closed-close_schedulers fd hs (close_scheduler h log).1 in
    (more.0 ∙ c.0 ∙ b.0 ∙ a.0, omega (arith, a.1, b.1, c.1, more.1))

-- All that was opened is closed or held.
abbrev IsLedger : ℕ → List Handles → Log → Type 0
IsLedger fd hs log = occurrences fd log.opened ≡ occurrences fd log.closed + held fd hs

ledger-close_schedulers :
    (fd : ℕ) (hs : List Handles) (log : Log) (n : ℕ)
    → occurrences fd log.opened ≡ occurrences fd log.closed + held fd hs + n
    → occurrences fd (close_schedulers hs log).opened
      ≡ occurrences fd (close_schedulers hs log).closed + n
ledger-close_schedulers fd hs log n h =
    let k = closed-close_schedulers fd hs log in omega (arith, ap (occurrences fd) k.0, k.1, h)

destroyed-init_schedulers :
    (fd : ℕ) (cs : List SysCalls) (hs : List Handles) (log : Log)
    → IsLedger fd hs log
    → (occurrences fd (destroyed (init_schedulers cs hs log)).opened
        ≡ occurrences fd (destroyed (init_schedulers cs hs log)).closed
          + occurrences fd (leaked cs))
      × (is_built (init_schedulers cs hs log).0 ≡ all_succeed cs)
unfolding init_schedulers init_scheduler
destroyed-init_schedulers fd [] hs log h =
    (ledger-close_schedulers fd hs log 0 (omega (arith, h)), refl)
destroyed-init_schedulers fd ((none, pipe2) ∷ cs) hs log h =
    (ledger-close_schedulers fd hs log 0 (omega (arith, h)), refl)
destroyed-init_schedulers fd ((some epoll, none) ∷ cs) hs log h = (
  ledger-close_schedulers fd hs (opens epoll log) (occurrences fd (epoll ∷ [])) (ground (arith, h)),
  refl,
)
destroyed-init_schedulers fd ((some epoll, some (read_end, write_end)) ∷ cs) hs log h =
    let r = init_scheduler (some epoll, some (read_end, write_end)) log in
    destroyed-init_schedulers fd cs _ r.1 (
      omega (
        arith,
        h,
        held-append fd hs (
            record {
              epoll_fd = some epoll;
              pipe_read_fd = some read_end;
              pipe_write_fd = some write_end;
            }
            ∷ []),
      ))

-- For every outcome of the system calls and every descriptor: once a `MultiScheduler` that has been
-- constructed is destroyed, or the exception of its constructor has destroyed what was there, the
-- descriptor has been closed as often as a call returned it, except that the epoll descriptor of
-- the scheduler whose `pipe2` failed is never closed. The constructor succeeds just if all calls
-- do.
pub destroyed-new_schedulers :
    (fd : ℕ) (calls : List SysCalls)
    → (occurrences fd (destroyed (new_schedulers calls)).opened
        ≡ occurrences fd (destroyed (new_schedulers calls)).closed + occurrences fd (leaked calls))
      × (is_built (new_schedulers calls).0 ≡ all_succeed calls)
destroyed-new_schedulers fd calls = destroyed-init_schedulers fd calls [] new_log refl
