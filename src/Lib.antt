-- ===== src/Lib.antt =====
-- coroutine-http: an HTTP and WebSocket server in C++ on stackful coroutines, one scheduler for
-- each thread, and sockets watched by epoll.
--
-- A scheduler (core/) runs its coroutines one at a time, each up to the call that switches back: a
-- yield, a sleep, a wait for a descriptor, or a channel. A connection (net/) reads and writes a
-- non-blocking socket through those waits. The HTTP server (http/) parses requests from a
-- connection, runs middlewares and the handler of the first route that matches, and sends the
-- response; one of the handlers turns the connection into a WebSocket (ws/).
--
-- The files, and the code that they model:
--   Prelude, Prelude/*            what the parts share: Boolean tests, lists, byte strings, maps, `int`
--   Core/Scheduler                core/coroutine.{h,cpp}: Scheduler, its queues, timers and epoll set
--   Core/Timer, Core/Timer/*      the timer heap, over the heap algorithms of the standard library
--   Core/Scheduler/*              fire_timers, the timers as a bag, the epoll timeout, wait_event
--   Core/Channel, Core/Channel/*  core/coroutine.h: Channel
--   Core/System, Core/System/*    Scheduler::run as a machine, and what its runs keep; Tasks has the book
--                                 of the functions that it has been given
--   Core/Wakeup, Core/Wakeup/*    Scheduler::post against the scheduler's thread, step by step
--   Core/Multi, Core/Multi/*      MultiScheduler::post, and the pointer that makecontext takes in halves
--   Core/Lifetime, .../*          the descriptors of the schedulers and the stacks of the coroutines,
--                                 from constructors that may fail to destructors
--   Core/Threads, Core/Threads/*  MultiScheduler::run: the threads of all schedulers, interleaved
--   Net/Run                       how a call ends: with a value, or waiting for ever
--   Net/Connection, .../*         net/connection.{h,cpp}: read, write, read_until, read_exact, close, moves
--   Net/Connection/Shared, .../*  write of several coroutines on one connection, step by step
--   Net/TcpServer, .../*          net/tcp_server.{h,cpp}
--   Ws/WebSocket, .../*           ws/websocket.{h,cpp}: frames and the handshake; Wire is RFC 6455, and
--                                 Handshake its opening, from the client's request to the answer
--   Ws/ChatRoom, .../*            ws/chat_room.h
--   Http/Text                     the text functions of http/, and stoi, to_string, getline and >>
--   Http/Request                  http/http_request.{h,cpp}
--   Http/Parser, .../*            http/http_parser.{h,cpp}
--   Http/Response, .../*          http/http_response.{h,cpp}; Reply is a client that reads responses
--   Http/Message, .../*           what a client sends: the specification that the parser is checked against
--   Http/Server, .../*            http/http_server.{h,cpp}: routes, middleware, the keep-alive loop
--   Main, Main/App, Main/Start    main.cpp: the handlers, the routes, the start up to the threads
--   Main/Static, Main/Session     static files, and one chat session byte for byte
--   Main/Sessions, .../*          main.cpp and ws/chat_room.h: all chat sessions over the room's mutex
--   Tests, Tests/*                runs at concrete inputs
--
-- State. Objects are records, and a function that changes one returns it. A coroutine is named by
-- its `coro_id`, a `std::function` by a number. The socket of a connection is the list of what its
-- coming `recv` and `send` calls do; when the list has ended, a wait lasts for ever (`suspended`).
-- What the rest of the system chooses (the next call of the running coroutine, a task posted by
-- another thread, the clock, the events that epoll reports) is a move of `Core.System`. Of
-- std::push_heap and std::pop_heap only what the C++ standard promises is used (`HeapOps`); SHA1
-- and Base64 are parameters of the handshake, and the files of the static handler; handlers and
-- middlewares are functions on the request, response and connection.
--
-- Threads. `Core.Threads` puts the machines of all schedulers side by side: any of them moves at
-- any time, and a MultiScheduler::post is two moves, the fetch_add and the call of
-- Scheduler::post, between which anything may happen. In `Main.Sessions` the sessions of all
-- clients move at any time over one room; a broadcast sends to one client in each move, since its
-- write may switch to another coroutine while it holds the mutex, and a call of the room may block
-- a whole thread; the clients that a broadcast has still to reach are those of the vector when it
-- took the mutex, without which nobody changes the vector. In `Net.Connection.Shared` several
-- writers of one connection move at each send and each wait; Solo has one of them alone against
-- `write` as one call. More interleavings are allowed in both than one thread has, since any of
-- them may move wherever the others stand. In a room each write of a frame is taken as one move
-- that returns.
--
-- Fuel. The loops of read_until and read_exact take one event of the socket in each round, that of
-- fire_timers one timer, and those of handle_connection and of a chat session at least one byte of
-- the stream, so the fuel that they are given is the number of those, plus one where the last
-- round takes none. Numbers that a machine type bounds wrap as that type does: the `int` of
-- next_timeout_ms, of stoi and of the round-robin counter, the `uint64_t` of a frame's length, the
-- halves of a pointer, the `int` of the number of threads. The clock and the times at which timers
-- expire are taken to stay below 2^63 ms, as an `int64_t` holds them.
--
-- Not modelled: the stack switch itself (makecontext, swapcontext), log lines, an exception of
-- create in a running scheduler, an exception of a middleware (main installs none; one would leave
-- handle_connection), allocation failure, HttpRequest::dump, the join and the detachment of
-- threads, a write that waits on the scheduler of another thread, the options that are set on
-- sockets, and the browser page.
mod Prelude
mod Tests
pub mod Core
pub mod Net
pub mod Ws
pub mod Http
pub mod Main
