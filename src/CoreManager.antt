-- ===== src/CoreManager.antt =====
-- caikit/core/model_manager.py
pub mod Archives
pub mod Components
pub mod Factories
pub mod Futures
pub mod Loading
