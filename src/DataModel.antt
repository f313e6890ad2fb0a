-- ===== src/DataModel.antt =====
-- caikit/core/data_model
pub mod Timestamps
pub mod Attributes
pub mod OneOfs
pub mod Frames
pub mod Constructors
pub mod Forgetting
pub mod Remembering
pub mod Protos
pub mod RoundTrip
pub mod Backends
