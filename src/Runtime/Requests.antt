-- ===== src/Runtime/Requests.antt =====
-- caikit/runtime/servicers/global_predict_servicer.py: how requests end, and how they are counted.
use caikit.Common.{
  ◌≡◌, refl, sym, ap, ◌∙◌, Bool, true, false, some, List, ◌∷◌, Text, text_eq, if◌then◌else◌, arith,
}
use caikit.Common.Dict.{Dict}
use caikit.Runtime.Statuses.{
  GrpcCode, grpc_ok, grpc_invalid_argument, grpc_internal, caikit_status_code_to_grpc,
}
use caikit.Runtime.Predict.{
  Exception, runtime_exception, core_exception, type_or_value_error, rpc_error, other_exception,
  Exit, done, raised, Served, and_then, Signature, get_inference_signature, code_of, count,
  handle_predict_exceptions, Calls, Rpc, supported, verify_model_task, with_context,
  signature_or_error, run_model, predict_model, signature_or_refusal, predict,
}

-- Whether `_handle_predict_exceptions` counts an exception.
abbrev pub is_counted : Exception → Bool
is_counted (runtime_exception c) = true
is_counted (core_exception c) = false
is_counted type_or_value_error = true
is_counted (rpc_error c) = false
is_counted other_exception = true

module _ {ℓ κ} {A : Type ℓ} {W : Type κ} where
  handle-raised :
      (x : Exit A × Served W) (e : Exception)
      → (handle_predict_exceptions x).0 ≡ raised e
      → (c : GrpcCode) × (e ≡ runtime_exception c)
  unfolding handle_predict_exceptions
  handle-raised (done x, s) e h = absurd (ground arith)
  handle-raised (raised (runtime_exception c), s) e h = (c, ground (arith, h))
  handle-raised (raised (core_exception c), s) e h =
      (caikit_status_code_to_grpc c, ground (arith, h))
  handle-raised (raised type_or_value_error, s) e h = (grpc_invalid_argument, ground (arith, h))
  handle-raised (raised (rpc_error c), s) e h = (c, ground (arith, h))
  handle-raised (raised other_exception, s) e h = (grpc_internal, ground (arith, h))

  handle-done :
      (x : Exit A × Served W) (a : A) (s : Served W)
      → handle_predict_exceptions x ≡ (done a, s)
      → x ≡ (done a, s)
  unfolding handle_predict_exceptions
  handle-done (done x, s') a s h = h
  handle-done (raised (runtime_exception c), s') a s h = absurd (ground arith)
  handle-done (raised (core_exception c), s') a s h = absurd (ground arith)
  handle-done (raised type_or_value_error, s') a s h = absurd (ground arith)
  handle-done (raised (rpc_error c), s') a s h = absurd (ground arith)
  handle-done (raised other_exception, s') a s h = absurd (ground arith)

  handle-exception :
      (e : Exception) (s : Served W)
      → handle_predict_exceptions {A = A} (raised e, s)
        ≡ (raised (runtime_exception (code_of e)), if is_counted e then count (code_of e) s else s)
  unfolding handle_predict_exceptions code_of
  handle-exception (runtime_exception c) s = refl
  handle-exception (core_exception c) s = refl
  handle-exception type_or_value_error s = refl
  handle-exception (rpc_error c) s = refl
  handle-exception other_exception s = refl

  -- If the call ends with a result, then `OK` was counted once since the count was `log`, and nothing else.
  abbrev CountsOk : List GrpcCode → Exit A × Served W → Type (ℓ ⊔ κ)
  CountsOk log x = (a : A) (s : Served W) → x ≡ (done a, s) → s.counted ≡ grpc_ok ∷ log

  handle-CountsOk :
      (log : List GrpcCode) (x : Exit A × Served W)
      → CountsOk log x
      → CountsOk log (handle_predict_exceptions x)
  handle-CountsOk log x p a s h = p a s (handle-done x a s h)

module _ {ℓ κ μ} {A : Type ℓ} {B : Type κ} {W : Type μ} (log : List GrpcCode) where
  before-CountsOk :
      (x : Exit A × Served W) (f : A → Served W → Exit B × Served W)
      → x.1.counted ≡ log
      → ((a : A) (v : Served W) → v.counted ≡ log → CountsOk log (f a v))
      → CountsOk log (and_then x f)
  unfolding and_then
  before-CountsOk (done a, v) f c h b s k = h a v c b s k
  before-CountsOk (raised e, v) f c h b s k = absurd (ground arith)

  after-CountsOk :
      (x : Exit A × Served W) (f : A → Served W → Exit B × Served W)
      → CountsOk log x
      → ((a : A) (v : Served W) → (f a v).1.counted ≡ v.counted)
      → CountsOk log (and_then x f)
  unfolding and_then
  after-CountsOk (done a, v) f c h b s k = sym (ap (λ y. y.1.counted) k) ∙ h a v ∙ c a v refl
  after-CountsOk (raised e, v) f c h b s k = absurd (ground arith)

  counting-CountsOk :
      (x : Exit A × Served W) (f : A → Served W → Exit B × Served W)
      → x.1.counted ≡ log
      → ((a : A) (v : Served W) → (f a v).1.counted ≡ grpc_ok ∷ v.counted)
      → CountsOk log (and_then x f)
  unfolding and_then
  counting-CountsOk (done a, v) f c h b s k =
      sym (ap (λ y. y.1.counted) k) ∙ h a v ∙ ap (λ l. grpc_ok ∷ l) c
  counting-CountsOk (raised e, v) f c h b s k = absurd (ground arith)

module _ {ℓ} {Model Arg Request Response Reply W : Type ℓ}
    (calls : Calls Model Arg Request Response Reply W) where
  -- Whatever the manager, the model and the messages raise, a request that ends in an exception ends in
  -- one of the runtime, which has a gRPC code.
  pub predict-answers :
      (rpc : Rpc) (request : Request) (context : Arg) (s : Served W) (e : Exception)
      → (predict calls rpc request context s).0 ≡ raised e
      → (c : GrpcCode) × (e ≡ runtime_exception c)
  unfolding predict
  predict-answers rpc request context s e h = handle-raised _ e h

  run_model-CountsOk :
      (model : Model) (method : Text) (kwargs : Dict Text Arg) (s : Served W) (log : List GrpcCode)
      → s.counted ≡ log
      → CountsOk log (run_model calls model method kwargs s)
  unfolding run_model count
  run_model-CountsOk model method kwargs s log c = counting-CountsOk log _ _ c (λ a v. refl)

  predict_model-CountsOk :
      (rpc : Rpc) (model : Model) (context : Arg) (kwargs : Dict Text Arg) (s : Served W)
      (log : List GrpcCode)
      → s.counted ≡ log
      → CountsOk log (predict_model calls rpc model context kwargs s)
  unfolding predict_model
  predict_model-CountsOk rpc model context kwargs s log c = handle-CountsOk log _ (
      before-CountsOk log _ _ c (λ verified s₁ c₁. before-CountsOk log _ _ c₁ (λ signature s₂ c₂.
        run_model-CountsOk model signature.method_name
          (with_context calls signature.context_arg context kwargs) s₂ log c₂)))

  -- A request that ends with a response is counted once, with the code `OK`, and nothing else is
  -- counted for it.
  pub predict-counted :
      (rpc : Rpc) (request : Request) (context : Arg) (s s' : Served W) (r : Reply)
      → predict calls rpc request context s ≡ (done r, s')
      → s'.counted ≡ grpc_ok ∷ s.counted
  unfolding predict
  predict-counted rpc request context s s' r h =
      let log = s.counted in
      handle-CountsOk log _
        (before-CountsOk log _ _ refl (λ notified s₁ c₁. before-CountsOk log _ _ c₁ (λ model s₂ c₂.
          before-CountsOk log _ _ c₂ (λ verified s₃ c₃.
            before-CountsOk log _ _ c₃ (λ signature s₄ c₄.
              before-CountsOk log _ _ c₄ (λ kwargs s₅ c₅.
                after-CountsOk log _ _ (predict_model-CountsOk rpc model context kwargs s₅ log c₅)
                  (λ response s₆. refl)))))))
        r s' h

  predict_model-exception :
      (rpc : Rpc) (model : Model) (context : Arg) (kwargs : Dict Text Arg) (signature : Signature)
      (s : Served W) (e : Exception) (w : W)
      → supported calls model ≡ true
      → get_inference_signature
          (calls.signatures model)
          rpc.input_streaming
          rpc.output_streaming
          (some rpc.task)
        ≡ some signature
      → calls.run model signature.method_name
          (with_context calls signature.context_arg context kwargs)
          s.world
        ≡ (raised e, w)
      → predict_model calls rpc model context kwargs s ≡ (
        raised (runtime_exception (code_of e)),
        if is_counted e then count (code_of e) (record s { world = w }) else record s { world = w },
      )
  unfolding predict_model verify_model_task signature_or_error run_model and_then
  predict_model-exception rpc model context kwargs signature s e w v g r =
      rw (v, g, r) (handle-exception e (record s { world = w }))

  predict-reaches :
      (rpc : Rpc) (request : Request) (context : Arg) (kwargs : Dict Text Arg) (model : Model)
      (signature : Signature) (s : Served W) (w₁ w₂ : W)
      → calls.notify_backends s.world ≡ (done tt, w₁)
      → calls.retrieve_model w₁ ≡ (done model, w₂)
      → supported calls model ≡ true
      → get_inference_signature
          (calls.signatures model)
          rpc.input_streaming
          rpc.output_streaming
          (some rpc.task)
        ≡ some signature
      → calls.build_request request signature ≡ done kwargs
      → predict calls rpc request context s
        ≡ handle_predict_exceptions (
            and_then
              (predict_model calls rpc model context kwargs (record s { world = w₂ }))
              (λ response s₆. (calls.build_response response, s₆)))
  unfolding predict verify_model_task signature_or_refusal and_then
  predict-reaches rpc request context kwargs model signature s w₁ w₂ n m v g b =
      rw (n, m, v, g, b) refl

  if-count :
      (b : Bool) (c : GrpcCode) (w : W) (s : Served W)
      → handle_predict_exceptions (
          and_then
            (
              raised (runtime_exception c),
              if b then count c (record s { world = w }) else record s { world = w },
            )
            (λ response s₆. (calls.build_response response, s₆)))
        ≡ (
          raised (runtime_exception c),
          record { world = w; counted = c ∷ (if b then c ∷ s.counted else s.counted) },
        )
  unfolding and_then handle_predict_exceptions count
  if-count true c w s = refl
  if-count false c w s = refl

  -- An exception that the function of the model raises is answered with the code that belongs to it. It
  -- is counted once if it is one of the core library or of gRPC, and else twice, with the same code,
  -- since the handler of `predict_model` and that of `Predict` both count it.
  pub predict-exception :
      (rpc : Rpc) (request : Request) (context : Arg) (kwargs : Dict Text Arg) (model : Model)
      (signature : Signature) (s : Served W) (e : Exception) (w₁ w₂ w₃ : W)
      → calls.notify_backends s.world ≡ (done tt, w₁)
      → calls.retrieve_model w₁ ≡ (done model, w₂)
      → supported calls model ≡ true
      → get_inference_signature
          (calls.signatures model)
          rpc.input_streaming
          rpc.output_streaming
          (some rpc.task)
        ≡ some signature
      → calls.build_request request signature ≡ done kwargs
      → calls.run model signature.method_name
          (with_context calls signature.context_arg context kwargs)
          w₂
        ≡ (raised e, w₃)
      → predict calls rpc request context s ≡ (
        raised (runtime_exception (code_of e)),
        record {
          world = w₃;
          counted = code_of e ∷ (if is_counted e then code_of e ∷ s.counted else s.counted);
        },
      )
  predict-exception rpc request context kwargs model signature s e w₁ w₂ w₃ n m v g b r =
      let inner =
        predict_model-exception rpc model context kwargs signature (record s { world = w₂ }) e w₃ v
          g r in
      predict-reaches rpc request context kwargs model signature s w₁ w₂ n m v g b
      ∙ ap
          (λ x.
            handle_predict_exceptions
              (and_then x (λ response s₆. (calls.build_response response, s₆))))
          inner
      ∙ if-count (is_counted e) (code_of e) w₃ s

  -- A request for a model none of whose tasks the service has is refused as invalid: the model is
  -- looked up and not run.
  pub predict-unsupported :
      (rpc : Rpc) (request : Request) (context : Arg) (model : Model) (s : Served W) (w₁ w₂ : W)
      → calls.notify_backends s.world ≡ (done tt, w₁)
      → calls.retrieve_model w₁ ≡ (done model, w₂)
      → supported calls model ≡ false
      → predict calls rpc request context s ≡ (
        raised (runtime_exception grpc_invalid_argument),
        record { world = w₂; counted = grpc_invalid_argument ∷ s.counted },
      )
  unfolding predict verify_model_task and_then handle_predict_exceptions count
  predict-unsupported rpc request context model s w₁ w₂ n m v = rw (n, m, v) refl
