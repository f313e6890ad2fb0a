-- ===== src/Runtime.antt =====
-- caikit/runtime: what lies between the requests and the models.
pub mod Statuses
pub mod ErrorWays
pub mod JobRpcs
pub mod JobAnswers
pub mod ModelLoader
pub mod Sizers
pub mod Predict
pub mod Requests
pub mod PredictJobs
