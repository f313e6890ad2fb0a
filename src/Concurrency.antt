-- ===== src/Concurrency.antt =====
-- caikit/core/toolkit/concurrency
pub mod Thread
pub mod States
pub mod Process
pub mod Ends
