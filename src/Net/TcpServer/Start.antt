-- ===== src/Net/TcpServer/Start.antt =====
-- `start` of net/tcp_server.cpp: what each failure leaves behind.
use coroutine_http.Prelude.{
  ℕ, ◌≡◌, Bool, false, ◌&&◌, Option, none, some, List, [], ◌∷◌, if◌then◌else◌, arith,
}
use coroutine_http.Core.Scheduler
use coroutine_http.Core.Scheduler.{Scheduler}
use coroutine_http.Net.TcpServer.{TcpServer, SocketCalls, destroy, start}

abbrev pub opened : Option ℕ → List ℕ
opened none = []
opened (some fd) = fd ∷ []

-- All three calls succeed.
abbrev pub all_succeed : SocketCalls → Bool
all_succeed calls = elim calls.socket [ none ↦ false | some fd ↦ calls.bind && calls.listen ]

-- `start` on a server that has a handler and no descriptor: the accept coroutine is created exactly
-- if `socket`, `bind` and `listen` all succeed, and whether they do or not, the destructor then
-- releases the descriptor that `socket` returned, once, and no other.
pub start-destroy :
    (accept_task h : ℕ) (calls : SocketCalls) (server : TcpServer) (sched : Scheduler)
    → server.handler ≡ some h
    → server.released ≡ []
    → let r = start accept_task calls server sched in
      (r.2 ≡ (if all_succeed calls then (Scheduler.create accept_task sched).1 else sched))
      × ((destroy r.1).released ≡ opened calls.socket)
unfolding start destroy
start-destroy accept_task h calls server sched has none_yet = ground arith
