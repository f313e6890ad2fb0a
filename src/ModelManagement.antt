-- ===== src/ModelManagement.antt =====
-- caikit/core/model_management
pub mod LocalJobs
pub mod Purging
pub mod Finders
pub mod JobIds
pub mod Launching
pub mod SavePaths
