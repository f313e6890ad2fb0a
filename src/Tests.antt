-- ===== src/Tests.antt =====
-- Examples: the theorems at concrete inputs.
mod Batcher
mod JsonDict
mod Manager
mod Streams
mod Toolkit
mod Evaluation
mod WorkManagement
mod ModelManagement
mod Concurrency
mod Configuration
mod CoreManager
mod Runtime
mod Augmentors
mod Deploying
mod DataModel
