-- ===== src/MultiThread.antt =====
-- src/multi_thread: the multi-threaded runtime.
pub mod ReadyQueue
pub mod Threads
pub mod Interleaving
pub mod Schedule
pub mod Sleep
pub mod Idle
pub mod TimerWheel
pub mod Driver
pub mod Polling
pub mod BlockOn
pub mod Join
