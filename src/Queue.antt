-- ===== src/Queue.antt =====
-- The task queue of pkg/controller/helper/queue.go.
pub mod Task
pub mod Contents
pub mod Drain
pub mod Closing
mod Tests
