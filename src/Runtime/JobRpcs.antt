-- ===== src/Runtime/JobRpcs.antt =====
-- caikit/runtime/servicers/prediction_job_management_servicer.py and training_management_servicer.py: the
-- requests about background jobs.
use caikit.Common.{Option, none, some, List, [], ◌∷◌, Text}
use caikit.ModelManagement.LocalJobs.{JobStatus, queued, running, completed, errored, canceled}
use caikit.Runtime.Statuses.{
  GrpcCode, CoreCode, grpc_internal, core_not_found, caikit_status_code_to_grpc,
}

-- How a call of the core library ends: a `CaikitCoreException` is told from the other exceptions.
pub data Attempt {ℓ} (A : Type ℓ) : Type ℓ where
  returned : A → Attempt A
  core_error : CoreCode → Attempt A
  other_error : Attempt A

-- How a request ends: `crashed` is an exception that is no `CaikitRuntimeException`.
pub data Rpc {ℓ} (A : Type ℓ) : Type ℓ where
  reply : A → Rpc A
  refused : GrpcCode → Rpc A
  crashed : Rpc A

-- `JobInfo`
pub record JobInfo {ℓ} (Error Time : Type ℓ) : Type ℓ where
  pub status : JobStatus
  pub errors : List Error
  pub completion_time : Option Time
  pub submission_time : Option Time

-- `PredictionJobStatusResponse` and `TrainingStatusResponse`
pub record StatusResponse {ℓ} (Time : Type ℓ) : Type ℓ where
  pub job_id : Text
  pub state : JobStatus
  pub reasons : Option (List Text)
  pub submission_timestamp : Option Time
  pub completion_timestamp : Option Time

-- `raise_caikit_runtime_exception`, and the `except` clauses that call it.
unfoldable pub raise_from {ℓ κ} : {A : Type ℓ} {B : Type κ} → (A → Rpc B) → Attempt A → Rpc B
raise_from f (returned x) = f x
raise_from f (core_error c) = refused (caikit_status_code_to_grpc c)
raise_from f other_error = refused grpc_internal

-- The calls of the manager and of the future, which may change the state `W`.
pub record Jobs {ℓ} (Future Result Error Time W : Type ℓ) : Type ℓ where
  pub get_future : Text → W → Attempt Future × W
  pub future_id : Future → Text
  pub get_info : Future → W → Attempt (JobInfo Error Time)
  pub cancel : Future → W → Attempt (Unit {0}) × W
  pub result : Future → W → Attempt Result
  pub message : Error → Text

module _ {ℓ} {Future Result Error Time W : Type ℓ} (jobs : Jobs Future Result Error Time W) where
  unfoldable reasons_of : List Error → List Text
  reasons_of [] = []
  reasons_of (e ∷ es) = jobs.message e ∷ reasons_of es

  -- `_get_prediction_future`, `_get_model_future`, and what the handler then does.
  unfoldable pub with_future {κ} :
      {B : Type κ} → (Future → W → Rpc B × W) → Attempt Future × W → Rpc B × W
  with_future f (returned future, w) = f future w
  with_future f (core_error c, w) = (refused (caikit_status_code_to_grpc c), w)
  with_future f (other_error, w) = (refused grpc_internal, w)

  unfoldable pub status_response : Text → JobInfo Error Time → Rpc (StatusResponse Time)
  unfolding reasons_of
  status_response id info = reply (record {
    job_id = id;
    state = info.status;
    reasons = some (reasons_of info.errors);
    submission_timestamp = info.submission_time;
    completion_timestamp = info.completion_time;
  })

  -- `get_prediction_status`
  unfoldable pub get_prediction_status : Text → W → Rpc (StatusResponse Time) × W
  unfolding with_future status_response raise_from
  get_prediction_status id w =
      with_future (λ future w'. (raise_from (status_response id) (jobs.get_info future w'), w'))
        (jobs.get_future id w)

  -- `get_training_status`
  unfoldable pub get_training_status : Text → W → Rpc (StatusResponse Time) × W
  unfolding with_future status_response raise_from
  get_training_status id w =
      with_future (λ future w'. (raise_from (status_response id) (jobs.get_info future w'), w'))
        (jobs.get_future id w)

  -- What `get_prediction_result` makes of the status: an error for all but a completed job.
  unfoldable pub result_of : Future → W → JobStatus → Rpc Result
  unfolding raise_from
  result_of future w completed = raise_from reply (jobs.result future w)
  result_of future w running = refused (caikit_status_code_to_grpc core_not_found)
  result_of future w canceled = refused (caikit_status_code_to_grpc core_not_found)
  result_of future w errored = refused (caikit_status_code_to_grpc core_not_found)
  result_of future w queued = refused (caikit_status_code_to_grpc core_not_found)

  -- `get_prediction_result`
  unfoldable pub get_prediction_result : Text → W → Rpc Result × W
  unfolding with_future result_of raise_from
  get_prediction_result id w =
      with_future
        (λ future w'.
          (raise_from (λ info. result_of future w' info.status) (jobs.get_info future w'), w'))
        (jobs.get_future id w)

  -- A job that is gone counts as canceled.
  unfoldable pub canceled_response : Text → StatusResponse Time
  canceled_response id = record {
    job_id = id;
    state = canceled;
    reasons = none;
    submission_timestamp = none;
    completion_timestamp = none;
  }

  -- The response after a cancellation has no times.
  unfoldable pub answer :
      Future → Rpc (StatusResponse Time) → Attempt (JobInfo Error Time) → Rpc (StatusResponse Time)
  unfolding reasons_of
  answer future gone (returned info) = reply (record {
    job_id = jobs.future_id future;
    state = info.status;
    reasons = some (reasons_of info.errors);
    submission_timestamp = none;
    completion_timestamp = none;
  })
  answer future gone (core_error core_not_found) = gone
  answer future gone (core_error c) = refused (caikit_status_code_to_grpc c)
  answer future gone other_error = refused grpc_internal

  unfoldable pub after_cancel :
      Future → Rpc (StatusResponse Time) → Attempt (Unit {0}) × W → Rpc (StatusResponse Time) × W
  unfolding answer
  after_cancel future gone (returned u, w) = (answer future gone (jobs.get_info future w), w)
  after_cancel future gone (core_error c, w) = (answer future gone (core_error c), w)
  after_cancel future gone (other_error, w) = (answer future gone other_error, w)

  -- `cancel_training`
  unfoldable pub cancel_training : Text → W → Rpc (StatusResponse Time) × W
  unfolding with_future after_cancel canceled_response
  cancel_training id w =
      with_future
        (λ future w'. after_cancel future (reply (canceled_response id)) (jobs.cancel future w'))
        (jobs.get_future id w)

  -- `cancel_prediction`: the response for a job that is gone is made with a keyword, `inference_id`,
  -- that its type does not have, which is a `TypeError`.
  unfoldable pub cancel_prediction : Text → W → Rpc (StatusResponse Time) × W
  unfolding with_future after_cancel
  cancel_prediction id w =
      with_future (λ future w'. after_cancel future crashed (jobs.cancel future w'))
        (jobs.get_future id w)
