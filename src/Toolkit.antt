-- ===== src/Toolkit.antt =====
-- caikit/core/toolkit
pub mod Names
