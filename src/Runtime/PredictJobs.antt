-- ===== src/Runtime/PredictJobs.antt =====
-- caikit/runtime/servicers/global_predict_servicer.py: a request that starts a background prediction.
use caikit.Common.{◌≡◌, refl, true, false, some, List, ◌∷◌, Text, text_eq}
use caikit.Common.Dict.{Dict}
use caikit.Runtime.Statuses.{GrpcCode, grpc_ok, grpc_unknown, grpc_invalid_argument}
use caikit.Runtime.Predict.{
  runtime_exception, type_or_value_error, Exit, done, raised, Served, and_then, Signature,
  get_inference_signature, handle_predict_exceptions, Calls, Rpc, supported, verify_model_task,
  with_context, signature_or_error, signature_or_refusal, predict,
}

-- The state of the program with the codes for which `JOB_PREDICT_RPC_COUNTER` was incremented.
pub record JobWorld {ℓ} (W : Type ℓ) : Type ℓ where
  pub world : W
  pub job_counted : List GrpcCode

-- How the wrapper of the gRPC server answers, `safe_rpc_call`: it aborts with the code of an exception of
-- the runtime and with `UNKNOWN` for a `ValueError`, and the gRPC library answers `UNKNOWN` for an
-- exception that the wrapper lets through.
pub data Answer {ℓ} (A : Type ℓ) : Type ℓ where
  answered : A → Answer A
  aborted : GrpcCode → Answer A

unfoldable pub safe_rpc_call {ℓ} : {A : Type ℓ} → Exit A → Answer A
safe_rpc_call (done x) = answered x
safe_rpc_call (raised (runtime_exception c)) = aborted c
safe_rpc_call (raised e) = aborted grpc_unknown

-- `start` is `start_prediction_job` of the core library's manager, with the id of the future.
module _ {ℓ} {Model Arg Request Response Reply W : Type ℓ}
    (calls : Calls Model Arg Request Response Reply (JobWorld W))
    (start : Model → Text → Dict Text Arg → W → Exit Text × W) where
  unfoldable start_job :
      Model → Text → Dict Text Arg → Served (JobWorld W) → Exit Text × Served (JobWorld W)
  start_job model method kwargs s =
      let r = start model method kwargs s.world.world in
      (r.0, record s { world = record (s.world) { world = r.1 } })

  unfoldable count_job : Served (JobWorld W) → Served (JobWorld W)
  count_job s = record s {
    world = record (s.world) { job_counted = grpc_ok ∷ s.world.job_counted };
  }

  -- `run_prediction_job`, which looks for a signature without streams, and uses its context argument but
  -- not its name.
  unfoldable pub run_prediction_job :
      Rpc
      → Model
      → Text
      → Arg
      → Dict Text Arg
      → Served (JobWorld W)
      → Exit Text × Served (JobWorld W)
  unfolding start_job count_job
  run_prediction_job rpc model prediction_func_name context kwargs s = handle_predict_exceptions (
      and_then (verify_model_task calls model, s)
        (λ verified s₁.
          and_then
            (
              signature_or_error calls
                  (get_inference_signature (calls.signatures model) false false (some rpc.task)),
              s₁,
            )
            (λ signature s₂.
              and_then
                (start_job model prediction_func_name
                  (with_context calls signature.context_arg context kwargs) s₂)
                (λ id s₃. (done id, count_job s₃)))))

  -- `StartPredictionJob`, which has no handler of its own around its steps.
  unfoldable pub start_prediction_job :
      Rpc → Request → Arg → Served (JobWorld W) → Exit Text × Served (JobWorld W)
  unfolding run_prediction_job
  start_prediction_job rpc request context s =
      and_then
        ((calls.notify_backends s.world).0, record s { world = (calls.notify_backends s.world).1 })
        (λ notified s₁.
          and_then
            (
              (calls.retrieve_model s₁.world).0,
              record s₁ { world = (calls.retrieve_model s₁.world).1 },
            )
            (λ model s₂.
              and_then (verify_model_task calls model, s₂)
                (λ verified s₃.
                  and_then
                    (
                      signature_or_refusal calls (
                          get_inference_signature (calls.signatures model) rpc.input_streaming
                            rpc.output_streaming (some rpc.task)),
                      s₃,
                    )
                    (λ signature s₄.
                      and_then (calls.build_request request signature, s₄)
                        (λ kwargs s₅.
                          run_prediction_job rpc model signature.method_name context kwargs s₅)))))

  -- A `TypeError` or `ValueError` in the unmarshalling of a request is answered with `INVALID_ARGUMENT`
  -- for `Predict`, and with `UNKNOWN` for `StartPredictionJob`.
  pub start_prediction_job-predict :
      (rpc : Rpc) (request : Request) (context : Arg) (model : Model) (signature : Signature)
      (s : Served (JobWorld W)) (w₁ w₂ : JobWorld W)
      → calls.notify_backends s.world ≡ (done tt, w₁)
      → calls.retrieve_model w₁ ≡ (done model, w₂)
      → supported calls model ≡ true
      → get_inference_signature
          (calls.signatures model)
          rpc.input_streaming
          rpc.output_streaming
          (some rpc.task)
        ≡ some signature
      → calls.build_request request signature ≡ raised type_or_value_error
      → (safe_rpc_call (predict calls rpc request context s).0 ≡ aborted grpc_invalid_argument)
        × (safe_rpc_call (start_prediction_job rpc request context s).0 ≡ aborted grpc_unknown)
  unfolding start_prediction_job predict verify_model_task signature_or_refusal and_then
      handle_predict_exceptions safe_rpc_call
  start_prediction_job-predict rpc request context model signature s w₁ w₂ n m v g b =
      (rw (n, m, v, g, b) refl, rw (n, m, v, g, b) refl)
