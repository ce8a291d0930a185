-- ===== src/Core.antt =====
-- core/: coroutines, the scheduler of one thread, channels, and the schedulers of all threads.
pub mod Timer
pub mod Scheduler
pub mod Channel
pub mod System
pub mod Wakeup
pub mod Multi
pub mod Threads
pub mod Lifetime
