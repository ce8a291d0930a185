-- ===== src/Net/TcpServer/Accept.antt =====
-- `accept_loop` of net/tcp_server.cpp: which scheduler gets which connection.
use coroutine_http.Prelude.{
  ℕ, suc, ◌+◌, ◌*◌, ◌^◌, ◌≤◌, ◌<◌, ◌≡◌, refl, ◌∙◌, Option, none, some, List, [], ◌∷◌, length,
}
use coroutine_http.Core.Multi
use coroutine_http.Core.Multi.{MultiScheduler, new_multi, post_all}
use coroutine_http.Core.Multi.Rounds.{loads, dealt, post_all_even}
use coroutine_http.Net.TcpServer.{
  AcceptEvent, accepted, accept_again, accept_failed, deliver, accept_loop,
}

-- The clients that are accepted, in order.
abbrev pub clients : List AcceptEvent → List ℕ
clients [] = []
clients (accepted client_fd ∷ es) = client_fd ∷ clients es
clients (accept_again ∷ es) = clients es
clients (accept_failed ∷ es) = clients es

-- The dispatcher of main.cpp: `ms.post`. `none` is undefined behaviour, after which anything may be.
abbrev pub post_to : ℕ → Option MultiScheduler → Option MultiScheduler
post_to client_fd none = none
post_to client_fd (some ms) = Multi.post client_fd ms

module _ (create : ℕ → Option MultiScheduler → Option MultiScheduler) where
  accept_loop-post_all :
      (es : List AcceptEvent) (k : ℕ) (o : Option MultiScheduler)
      → (accept_loop (some post_to) create es (k, o)).1
        ≡ elim o [ none ↦ none | some ms ↦ post_all (clients es) ms ]
  unfolding accept_loop deliver post_all
  accept_loop-post_all [] k none = refl
  accept_loop-post_all [] k (some ms) = refl
  accept_loop-post_all (accepted client_fd ∷ es) k none = accept_loop-post_all es k none
  accept_loop-post_all (accepted client_fd ∷ es) k (some ms) =
      accept_loop-post_all es k (Multi.post client_fd ms)
  accept_loop-post_all (accept_again ∷ es) k o = accept_loop-post_all es (suc k) o
  accept_loop-post_all (accept_failed ∷ es) k o = accept_loop-post_all es (suc k) o

  -- With the dispatcher of `main` and `n` schedulers, at least one, the first 2^31 connections are
  -- spread evenly, however they arrive in bursts and whatever errors `accept` has between them: if
  -- they are `q` whole rounds and `r` more, the first `r` schedulers have been given `q + 1` of them
  -- and the others `q`.
  pub accept_loop_even :
      (es : List AcceptEvent) (n : ℕ)
      → 0 < n
      → length (clients es) ≤ 2 ^ 31
      → (ms : MultiScheduler) × (q : ℕ) × (r : ℕ) × ((accept_loop
            (some post_to)
            create
            es
            (0, some (new_multi n))).1
          ≡ some ms)
        × (length (clients es) ≡ q * n + r)
        × (r < n)
        × (loads ms.schedulers ≡ dealt n q r)
  accept_loop_even es n positive small =
      let (ms, q, r, e, total, less, even) = post_all_even (clients es) n positive small in
      (ms, q, r, accept_loop-post_all es 0 (some (new_multi n)) ∙ e, total, less, even)
