-- ===== src/Net/TcpServer.antt =====
-- net/tcp_server.h and net/tcp_server.cpp. The results of the system calls are arguments. The task
-- that opens a connection for `client_fd` and calls the handler captures nothing else of its own, so it
-- is named by `client_fd`; `set_nonblocking` and `set_reuseaddr` change only the kernel's flags.
pub mod Start
pub mod Accept
use coroutine_http.Prelude.{
  ℕ, ◌+◌, suc, Bool, true, false, not, Option, none, some, List, [], ◌∷◌, if◌then◌else◌,
}
use coroutine_http.Core.Scheduler
use coroutine_http.Core.Scheduler.{Scheduler}

-- A handler is a number, as every `std::function`; `released` lists the descriptors closed.
pub record TcpServer : Type 0 where
  pub port : ℕ
  pub backlog : ℕ
  pub listen_fd : Option ℕ
  pub handler : Option ℕ
  pub released : List ℕ

-- The constructor; `listen_fd_` is -1.
abbrev pub new_tcp_server : ℕ → ℕ → TcpServer
new_tcp_server port backlog = record {
  port = port;
  backlog = backlog;
  listen_fd = none;
  handler = none;
  released = [];
}

-- `~TcpServer()`
unfoldable pub destroy : TcpServer → TcpServer
destroy server = elim server.listen_fd [
  | none ↦ server
  | some fd ↦ record server { listen_fd = none; released = fd ∷ server.released }
]

unfoldable pub on_connect : ℕ → TcpServer → TcpServer
on_connect handler server = record server { handler = some handler }

-- What `socket` returns, and whether `bind` and `listen` succeed.
pub record SocketCalls : Type 0 where
  pub socket : Option ℕ
  pub bind : Bool
  pub listen : Bool

-- `start` returns, or throws one of four errors.
pub data Started : Type 0 where
  started no_handler socket_failed bind_failed listen_failed : Started

unfoldable pub init_socket : SocketCalls → TcpServer → Started × TcpServer
init_socket calls server = elim calls.socket [
  | none ↦ (socket_failed, record server { listen_fd = none })
  | some fd ↦ (
    if not calls.bind then bind_failed else (if not calls.listen then listen_failed else started),
    record server { listen_fd = some fd },
  )
]

-- `accept_sched_.create` where `init_socket` has not thrown; `accept_task` is the lambda that calls
-- `accept_loop`.
unfoldable pub create_accept : ℕ → Started → Scheduler → Scheduler
create_accept accept_task started sched = (Scheduler.create accept_task sched).1
create_accept accept_task no_handler sched = sched
create_accept accept_task socket_failed sched = sched
create_accept accept_task bind_failed sched = sched
create_accept accept_task listen_failed sched = sched

unfoldable pub start : ℕ → SocketCalls → TcpServer → Scheduler → Started × TcpServer × Scheduler
unfolding init_socket create_accept
start accept_task calls server sched = elim server.handler [
  | none ↦ (no_handler, server, sched)
  | some h ↦ let r = init_socket calls server in (r.0, r.1, create_accept accept_task r.0 sched)
]

-- What one `accept` does: it returns a descriptor, or fails with EAGAIN or another error.
pub data AcceptEvent : Type 0 where
  accepted : ℕ → AcceptEvent
  accept_again accept_failed : AcceptEvent

-- Where the tasks go: the state `W` behind the dispatcher, if there is one, and behind `create` of the
-- scheduler of the accept loop.
module _ {ℓ} {W : Type ℓ} (dispatcher : Option (ℕ → W → W)) (create : ℕ → W → W) where
  unfoldable pub deliver : ℕ → W → W
  deliver client_fd w = elim dispatcher [ none ↦ create client_fd w | some give ↦ give client_fd w ]

  -- `accept_loop` over the results of its coming `accept` calls, with the number of times that it
  -- has been in `wait_event`: a failure ends the inner loop, and the outer one waits again.
  unfoldable pub accept_loop : List AcceptEvent → ℕ × W → ℕ × W
  accept_loop [] s = s
  accept_loop (accepted client_fd ∷ es) (waits, w) = accept_loop es (waits, deliver client_fd w)
  accept_loop (accept_again ∷ es) (waits, w) = accept_loop es (suc waits, w)
  accept_loop (accept_failed ∷ es) (waits, w) = accept_loop es (suc waits, w)
