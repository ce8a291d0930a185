-- ===== src/Core/Channel.antt =====
-- `Channel<T>` of core/coroutine.h, between coroutines of one scheduler. A value is a number; the
-- default value `T{}` is 0. `results` holds the local variable `result` of each coroutine in `recv`,
-- to which `recv_slot` points by the coroutine's name.
pub mod Rendezvous
use coroutine_http.Prelude.{ℕ, Option, none, some, ◌++◌, [], ◌∷◌, nat_eq}
use coroutine_http.Prelude.Dict.{Dict, lookup, insert}
use coroutine_http.Core.Scheduler.{Scheduler, State, waiting, set_state, make_ready, yield_from}

pub record Channel : Type 0 where
  pub send_waiter : Option ℕ
  pub send_val : ℕ
  pub recv_waiter : Option ℕ
  pub recv_slot : Option ℕ

abbrev pub new_channel : Channel
new_channel = record { send_waiter = none; send_val = 0; recv_waiter = none; recv_slot = none }

-- The scheduler, a channel over it, and the receivers' local variables.
pub record Linked : Type 0 where
  pub sched : Scheduler
  pub chan : Channel
  pub results : Dict ℕ ℕ

-- `self->state = State::WAITING; sched_.running_coro = nullptr;`
unfoldable pub park : ℕ → Scheduler → Scheduler
unfolding set_state
park self s = record (set_state self waiting s) { running_coro = none }

-- `*recv_slot_ = val`
unfoldable pub fill_slot : Option ℕ → ℕ → Dict ℕ ℕ → Dict ℕ ℕ
fill_slot none val results = results
fill_slot (some co) val results = insert co val results

-- `send` of the running coroutine `self`, up to the switch that ends both branches.
unfoldable pub send : ℕ → ℕ → Linked → Linked
unfolding park make_ready yield_from fill_slot
send self val l = elim l.chan.recv_waiter [
  | some r ↦ record {
    sched = yield_from self (make_ready r l.sched);
    chan = record l.chan { recv_waiter = none; recv_slot = none };
    results = fill_slot l.chan.recv_slot val l.results;
  }
  | none ↦ record l {
    sched = park self l.sched;
    chan = record l.chan { send_waiter = some self; send_val = val };
  }
]

-- `recv` of the running coroutine `self`: the value that it returns at once, or `none` where it
-- switches away first.
unfoldable pub recv : ℕ → Linked → Option ℕ × Linked
unfolding park make_ready
recv self l = elim l.chan.send_waiter [
  | some s ↦ (
    some l.chan.send_val,
    record l { sched = make_ready s l.sched; chan = record l.chan { send_waiter = none } },
  )
  | none ↦ (
    none,
    record {
      sched = park self l.sched;
      chan = record l.chan { recv_waiter = some self; recv_slot = some self };
      results = insert self 0 l.results;
    },
  )
]

-- What `recv` returns when its coroutine runs again.
unfoldable pub recv_resumed : ℕ → Linked → Option ℕ
recv_resumed self l = lookup self l.results
