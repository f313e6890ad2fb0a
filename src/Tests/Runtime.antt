-- ===== src/Tests/Runtime.antt =====
-- Examples for caikit/runtime/names.py and the servicers.
use caikit.Common.{
  ℕ, ◌+◌, ◌≡◌, refl, Bool, false, none, some, [], ◌∷◌, codes, text_eq, if◌then◌else◌,
}
use caikit.Common.Dict
use caikit.Common.Dict.{Dict}
use caikit.ModelManagement.LocalJobs.{running}
use caikit.Runtime.Statuses.{grpc_invalid_argument, core_not_found, status_code_eq}
use caikit.Runtime.JobRpcs.{returned, core_error, Jobs}
use caikit.Runtime.Predict.{
  runtime_exception, type_or_value_error, done, raised, Served, Signature, signature_for,
  get_inference_signature, Calls, Rpc, supported, code_of, predict,
}
use caikit.Runtime.Requests.{predict-exception}

-- A job that is deleted when it is canceled: the state says whether it is there.
abbrev jobs : Jobs ℕ ℕ ℕ ℕ Bool
jobs = record {
  get_future = λ id w. if w then (returned 4, w) else (core_error core_not_found, w);
  future_id = λ f. codes "job";
  get_info = λ f w.
      if w
      then returned (record {
        status = running;
        errors = [];
        completion_time = none;
        submission_time = some 1;
      })
      else core_error core_not_found;
  cancel = λ f w. (returned tt, false);
  result = λ f w. returned f;
  message = λ e. codes "error";
}

abbrev sample_signature : Signature
sample_signature = record {
  input_streaming = false;
  output_streaming = false;
  method_name = codes "run";
  context_arg = none;
}

-- The model 2 raises a `ValueError`; the state counts the runs.
abbrev calls : Calls ℕ ℕ ℕ ℕ ℕ ℕ
calls = record {
  notify_backends = λ w. (done tt, w);
  retrieve_model = λ w. (done 2, w);
  tasks = λ m. codes "task" ∷ [];
  signatures = λ m. (codes "task", sample_signature ∷ []) ∷ [];
  rpc_tasks = codes "task" ∷ [];
  build_request = λ r s. done ((codes "x", r) ∷ []);
  run = λ m f kwargs w. (raised type_or_value_error, w + 1);
  build_response = λ r. done r;
}

abbrev good_calls : Calls ℕ ℕ ℕ ℕ ℕ ℕ
good_calls = record calls { run = λ m f kwargs w. (done 10, w + 1) }

abbrev rpc : Rpc
rpc = record { task = codes "task"; input_streaming = false; output_streaming = false }

abbrev start : Served ℕ
start = record { world = 0; counted = [] }

predict-exception_example : predict calls rpc 5 6 start ≡ (
  raised (runtime_exception grpc_invalid_argument),
  record { world = 1; counted = grpc_invalid_argument ∷ grpc_invalid_argument ∷ [] },
)
unfolding code_of supported get_inference_signature signature_for Dict.get
predict-exception_example =
    predict-exception calls rpc 5 6 ((codes "x", 5) ∷ []) 2 sample_signature start
      type_or_value_error 0 0 1 refl refl refl refl refl refl
