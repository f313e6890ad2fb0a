-- ===== src/Manager.antt =====
-- caikit/runtime/model_management/model_manager.py
pub mod Defs
pub mod Deploying
pub mod Deployed
pub mod Undeployed
pub mod Gauges
pub mod Loading
pub mod Serving
pub mod Retrieval
pub mod Again
pub mod Emptying
pub mod Syncing
pub mod Synced
