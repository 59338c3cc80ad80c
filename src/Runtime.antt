-- ===== src/Runtime.antt =====
-- runtime.rs: the publication runtime.
pub mod Errors
pub mod Statistics
pub mod Receipts
pub mod Grouping
pub mod Factory
pub mod Worker
pub mod Feeder
pub mod Delivery
mod Tests
