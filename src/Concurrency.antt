-- ===== src/Concurrency.antt =====
-- src/Utils/Concurrency: the thread pool and the event loops.
pub mod ThreadPool
pub mod AsyncEventLoop
pub mod EventLoopGenerator
