-- ===== src/LoadedModel.antt =====
-- caikit/runtime/model_management/loaded_model.py
pub mod Defs
pub mod Waiting
