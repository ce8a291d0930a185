-- ===== src/Core/Wakeup.antt =====
-- `Scheduler::post` and the scheduler's side of it (core/coroutine.cpp), with the threads interleaved
-- at each step that the others can see: the append to `post_queue_` and the swap of
-- `drain_post_queue`, both under `post_mutex_`, and the single calls of `write` and `read` on the
-- pipe. Any number of threads post.
pub mod Delivery
use coroutine_http.Prelude.{ℕ, zero, suc, ◌+◌, ◌-◌, ◌<◌, ◌≡◌, List, [], ◌∷◌, ◌++◌}
use coroutine_http.Core.Scheduler.{wake_byte}

-- Where the scheduler's thread is: outside the handling of the pipe, in `epoll_wait`, in the loop
-- that empties the pipe, or behind that loop.
pub data Consumer : Type 0 where
  away blocked reading draining : Consumer

-- `writers` threads have appended their task and not yet written their byte. `posted` and `taken` are
-- the tasks that were ever appended and that were ever turned into coroutines, in order.
pub record Mailbox : Type 0 where
  pub post_queue : List ℕ
  pub pipe : ℕ
  pub writers : ℕ
  pub consumer : Consumer
  pub posted : List ℕ
  pub taken : List ℕ

abbrev pub new_mailbox : Mailbox
new_mailbox = record {
  post_queue = [];
  pipe = 0;
  writers = 0;
  consumer = away;
  posted = [];
  taken = [];
}

-- The pipe is registered for EPOLLIN without EPOLLET, so `epoll_wait` reports it as long as it holds
-- a byte. It may also return for something else. A `read` takes at most 64 bytes.
pub data Step (m : Mailbox) : Mailbox → Type 0 where
  append_task :
      (f : ℕ)
      → Step m (record m {
        post_queue = m.post_queue ++ f ∷ [];
        writers = suc m.writers;
        posted = m.posted ++ f ∷ [];
      })
  write_byte :
      (k : ℕ) → m.writers ≡ suc k → Step m (record m { pipe = wake_byte m.pipe; writers = k })
  enter_wait : m.consumer ≡ away → Step m (record m { consumer = blocked })
  pipe_readable : m.consumer ≡ blocked → 0 < m.pipe → Step m (record m { consumer = reading })
  other_event : m.consumer ≡ blocked → Step m (record m { consumer = away })
  read_bytes : m.consumer ≡ reading → 0 < m.pipe → Step m (record m { pipe = m.pipe - 64 })
  read_nothing : m.consumer ≡ reading → m.pipe ≡ 0 → Step m (record m { consumer = draining })
  drain :
      m.consumer ≡ draining
      → Step m (record m { post_queue = []; taken = m.taken ++ m.post_queue; consumer = away })

pub data Reach : Mailbox → Type 0 where
  start : Reach new_mailbox
  later : {m n : Mailbox} → Reach m → Step m n → Reach n
