-- ===== src/Streams.antt =====
-- caikit/core/data_model/streams/data_stream.py
pub mod Defs
pub mod Laws
pub mod Shuffling
pub mod Augmenting
pub mod Columns
pub mod Rows
