-- ===== src/Core/Lifetime.antt =====
-- The descriptors of the schedulers (core/coroutine.cpp): `Scheduler` and `MultiScheduler` from
-- their constructors, with system calls that may fail, to their destructors.
pub mod Closing
pub mod Stacks
use coroutine_http.Prelude.{
  ℕ, suc, ◌+◌, ◌≡◌, refl, sym, ap, ◌∙◌, inl, inr, Option, none, some, List, [], ◌∷◌, ◌++◌,
  append_assoc, append-nil, if◌then◌else◌, ◌==◌, occurrences, count_if, Option-cases, arith,
}

-- The three descriptors of a scheduler; `none` is -1.
pub record Handles : Type 0 where
  pub epoll_fd : Option ℕ
  pub pipe_read_fd : Option ℕ
  pub pipe_write_fd : Option ℕ

-- The descriptors that system calls have returned, and those that have been closed, with the last
-- first.
pub record Log : Type 0 where
  pub opened : List ℕ
  pub closed : List ℕ

abbrev pub new_log : Log
new_log = record { opened = []; closed = [] }

-- What `epoll_create1` and `pipe2` are to return in one constructor; `none` is a failure.
abbrev pub SysCalls : Type 0
SysCalls = Option ℕ × Option (ℕ × ℕ)

abbrev pub opens : ℕ → Log → Log
opens fd log = record log { opened = fd ∷ log.opened }

-- `if (fd >= 0) { close(fd); fd = -1; }`
abbrev pub close_fd : Option ℕ → Log → Log
close_fd none log = log
close_fd (some fd) log = record log { closed = fd ∷ log.closed }

-- `Scheduler(int id)`; `none` is an exception, whose object has no destructor call.
unfoldable pub init_scheduler : SysCalls → Log → Option Handles × Log
init_scheduler (none, pipe2) log = (none, log)
init_scheduler (some epoll, none) log = (none, opens epoll log)
init_scheduler (some epoll, some (read_end, write_end)) log = (
  some (record {
    epoll_fd = some epoll;
    pipe_read_fd = some read_end;
    pipe_write_fd = some write_end;
  }),
  opens write_end (opens read_end (opens epoll log)),
)

-- The end of `~Scheduler()`.
unfoldable pub close_scheduler : Handles → Log → Handles × Log
close_scheduler h log = (
  record { epoll_fd = none; pipe_read_fd = none; pipe_write_fd = none },
  close_fd h.epoll_fd (close_fd h.pipe_write_fd (close_fd h.pipe_read_fd log)),
)

-- The `unique_ptr`s of `schedulers_` go.
unfoldable pub close_schedulers : List Handles → Log → Log
unfolding close_scheduler
close_schedulers [] log = log
close_schedulers (h ∷ hs) log = close_schedulers hs (close_scheduler h log).1

-- The loop of `MultiScheduler(int num_threads)`, with a member of `calls` for each thread, and the
-- schedulers that are there. An exception destroys them with the vector.
unfoldable pub init_schedulers : List SysCalls → List Handles → Log → Option (List Handles) × Log
unfolding init_scheduler close_schedulers
init_schedulers [] built log = (some built, log)
init_schedulers (c ∷ cs) built log =
    let r = init_scheduler c log in
    elim r.0 [
      | none ↦ (none, close_schedulers built r.1)
      | some h ↦ init_schedulers cs (built ++ h ∷ []) r.1
    ]

abbrev pub new_schedulers : List SysCalls → Option (List Handles) × Log
new_schedulers calls = init_schedulers calls [] new_log
