-- ===== src/Runtime/Predict.antt =====
-- caikit/runtime/servicers/global_predict_servicer.py: a request for an inference, from the look-up of the
-- model to the response.
use caikit.Common.{
  Bool, true, false, ◌&&◌, Option, none, some, List, [], ◌∷◌, any, contains, Text, text_eq,
  if◌then◌else◌,
}
use caikit.Common.Dict
use caikit.Common.Dict.{Dict}
use caikit.Runtime.Statuses.{
  GrpcCode, CoreCode, grpc_ok, grpc_invalid_argument, grpc_internal, caikit_status_code_to_grpc,
}

-- The exceptions that the handlers tell apart.
pub data Exception : Type 0 where
  runtime_exception : GrpcCode → Exception
  core_exception : CoreCode → Exception
  type_or_value_error : Exception
  rpc_error : GrpcCode → Exception
  other_exception : Exception

pub data Exit {ℓ} (A : Type ℓ) : Type ℓ where
  done : A → Exit A
  raised : Exception → Exit A

-- The state `W` of the program, and the codes for which `PREDICT_RPC_COUNTER` was incremented, the
-- latest first.
pub record Served {ℓ} (W : Type ℓ) : Type ℓ where
  pub world : W
  pub counted : List GrpcCode

unfoldable pub and_then {ℓ κ μ} :
    {A : Type ℓ} {B : Type κ} {S : Type μ} → Exit A × S → (A → S → Exit B × S) → Exit B × S
and_then (done x, s) f = f x s
and_then (raised e, s) f = (raised e, s)

-- `CaikitMethodSignature`, with the flavors of streaming for which it is the signature.
pub record Signature : Type 0 where
  pub input_streaming : Bool
  pub output_streaming : Bool
  pub method_name : Text
  pub context_arg : Option Text

same_flag : Bool → Bool → Bool
same_flag true b = b
same_flag false true = false
same_flag false false = true

unfoldable pub signature_for : Bool → Bool → List Signature → Option Signature
unfolding same_flag
signature_for in_streaming out_streaming [] = none
signature_for in_streaming out_streaming (s ∷ signatures) =
    if same_flag s.input_streaming in_streaming && same_flag s.output_streaming out_streaming
    then some s
    else signature_for in_streaming out_streaming signatures

-- The first value of a dict.
abbrev pub first_value {ℓ κ} : {K : Type ℓ} {V : Type κ} → Dict K (List V) → List V
first_value [] = []
first_value ((k, v) ∷ d) = v

-- `ModuleBase.get_inference_signature`, from `_TASK_INFERENCE_SIGNATURES`.
unfoldable pub get_inference_signature :
    Dict Text (List Signature) → Bool → Bool → Option Text → Option Signature
unfolding signature_for
get_inference_signature signatures in_streaming out_streaming none =
    signature_for in_streaming out_streaming (first_value signatures)
get_inference_signature signatures in_streaming out_streaming (some task) =
    signature_for in_streaming out_streaming
      (elim (Dict.get signatures task) [ some l ↦ l | none ↦ first_value signatures ])

-- `_handle_predict_exceptions`: which code an exception ends with, and whether it is counted.
unfoldable pub code_of : Exception → GrpcCode
code_of (runtime_exception c) = c
code_of (core_exception c) = caikit_status_code_to_grpc c
code_of type_or_value_error = grpc_invalid_argument
code_of (rpc_error c) = c
code_of other_exception = grpc_internal

unfoldable pub count {ℓ} : {W : Type ℓ} → GrpcCode → Served W → Served W
count c s = record s { counted = c ∷ s.counted }

unfoldable pub handle_predict_exceptions {ℓ κ} :
    {A : Type ℓ} {W : Type κ} → Exit A × Served W → Exit A × Served W
unfolding count
handle_predict_exceptions (done x, s) = (done x, s)
handle_predict_exceptions (raised (runtime_exception c), s) =
    (raised (runtime_exception c), count c s)
handle_predict_exceptions (raised (core_exception c), s) =
    (raised (runtime_exception (caikit_status_code_to_grpc c)), s)
handle_predict_exceptions (raised type_or_value_error, s) =
    (raised (runtime_exception grpc_invalid_argument), count grpc_invalid_argument s)
handle_predict_exceptions (raised (rpc_error c), s) = (raised (runtime_exception c), s)
handle_predict_exceptions (raised other_exception, s) =
    (raised (runtime_exception grpc_internal), count grpc_internal s)

-- What the servicer calls: the manager, the model and the unmarshalling of the protobuf messages.
pub record Calls {ℓ} (Model Arg Request Response Reply W : Type ℓ) : Type ℓ where
  pub notify_backends : W → Exit (Unit {0}) × W
  pub retrieve_model : W → Exit Model × W
  pub tasks : Model → List Text
  pub signatures : Model → Dict Text (List Signature)
  -- the tasks of the RPCs of the inference service
  pub rpc_tasks : List Text
  pub build_request : Request → Signature → Exit (Dict Text Arg)
  pub run : Model → Text → Dict Text Arg → W → Exit Response × W
  pub build_response : Response → Exit Reply

-- `TaskPredictRPC`
pub record Rpc : Type 0 where
  pub task : Text
  pub input_streaming : Bool
  pub output_streaming : Bool

module _ {ℓ} {Model Arg Request Response Reply W : Type ℓ}
    (calls : Calls Model Arg Request Response Reply W) where
  abbrev in_world : {A : Type ℓ} → (W → Exit A × W) → Served W → Exit A × Served W
  in_world f s = ((f s.world).0, record s { world = (f s.world).1 })

  unfoldable pub supported : Model → Bool
  supported model = any (λ t. contains t (calls.tasks model)) calls.rpc_tasks

  -- `_verify_model_task`
  unfoldable pub verify_model_task : Model → Exit (Unit {0})
  unfolding supported
  verify_model_task model =
      if supported model then done tt else raised (runtime_exception grpc_invalid_argument)

  unfoldable pub with_context : Option Text → Arg → Dict Text Arg → Dict Text Arg
  with_context none context kwargs = kwargs
  with_context (some []) context kwargs = kwargs
  with_context (some (c ∷ cs)) context kwargs = Dict.put kwargs (c ∷ cs) context

  -- A signature that is not there has no `method_name`, which is an `AttributeError`.
  unfoldable pub signature_or_error : Option Signature → Exit Signature
  signature_or_error none = raised other_exception
  signature_or_error (some s) = done s

  -- The call of the model's function, and the count of the success.
  unfoldable pub run_model : Model → Text → Dict Text Arg → Served W → Exit Response × Served W
  unfolding count
  run_model model method kwargs s =
      and_then (in_world (calls.run model method kwargs) s)
        (λ response s'. (done response, count grpc_ok s'))

  -- `predict_model` for a model and for both flavors of streaming, as `Predict` calls it.
  unfoldable pub predict_model :
      Rpc → Model → Arg → Dict Text Arg → Served W → Exit Response × Served W
  unfolding handle_predict_exceptions verify_model_task signature_or_error run_model with_context
  predict_model rpc model context kwargs s = handle_predict_exceptions (
      and_then (verify_model_task model, s)
        (λ verified s₁.
          and_then
            (
              signature_or_error (
                  get_inference_signature (calls.signatures model) rpc.input_streaming
                    rpc.output_streaming (some rpc.task)),
              s₁,
            )
            (λ signature s₂.
              run_model model signature.method_name
                (with_context signature.context_arg context kwargs) s₂)))

  unfoldable pub signature_or_refusal : Option Signature → Exit Signature
  signature_or_refusal none = raised (runtime_exception grpc_invalid_argument)
  signature_or_refusal (some s) = done s

  -- `Predict`
  unfoldable pub predict : Rpc → Request → Arg → Served W → Exit Reply × Served W
  unfolding handle_predict_exceptions verify_model_task signature_or_refusal predict_model
  predict rpc request context s = handle_predict_exceptions (
      and_then
        ((calls.notify_backends s.world).0, record s { world = (calls.notify_backends s.world).1 })
        (λ notified s₁. and_then (in_world calls.retrieve_model s₁) (λ model s₂.
          and_then (verify_model_task model, s₂)
            (λ verified s₃.
              and_then
                (
                  signature_or_refusal (
                      get_inference_signature (calls.signatures model) rpc.input_streaming
                        rpc.output_streaming (some rpc.task)),
                  s₃,
                )
                (λ signature s₄.
                  and_then (calls.build_request request signature, s₄)
                    (λ kwargs s₅.
                      and_then (predict_model rpc model context kwargs s₅)
                        (λ response s₆. (calls.build_response response, s₆))))))))
