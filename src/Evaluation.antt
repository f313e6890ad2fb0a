-- ===== src/Evaluation.antt =====
-- caikit/core/toolkit/quality_evaluation.py
pub mod Defs
pub mod Example
pub mod Counts
pub mod Multilabel
pub mod Totals
pub mod Micro
pub mod Matching
