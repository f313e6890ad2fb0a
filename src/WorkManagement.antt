-- ===== src/WorkManagement.antt =====
-- caikit/runtime/work_management
pub mod Defs
pub mod Interrupts
pub mod Exits
pub mod Moves
