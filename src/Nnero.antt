-- ===== src/Nnero.antt =====
-- The library in nnero/: the blocking queue, interruptible threads, the thread pool and the timer.
pub mod BlockingQueue
pub mod ThreadPool
pub mod TimeWheel
pub mod Logging
pub mod Nthread
