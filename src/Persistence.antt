-- ===== src/Persistence.antt =====
-- infra/db: the rows of events, and the writer that takes them off its queue.
pub mod Rows
pub mod Writer
pub mod Drain
mod Tests
