-- ===== src/Augmentors.antt =====
-- caikit/core/augmentors
pub mod Schemes
pub mod Orders
