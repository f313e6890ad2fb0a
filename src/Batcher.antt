-- ===== src/Batcher.antt =====
-- caikit/runtime/model_management/batcher.py
pub mod Collate
pub mod Columns
pub mod Lacking
pub mod Invalid
pub mod Deliver
pub mod Removal
pub mod Answers
pub mod Ready
pub mod Results
pub mod Lifecycle
pub mod Stopping
pub mod Defaults
