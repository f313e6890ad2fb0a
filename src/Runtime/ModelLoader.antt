-- ===== src/Runtime/ModelLoader.antt =====
-- caikit/runtime/model_management/model_loader_base.py and core_model_loader.py: loading a model by way of
-- the core library's manager, and wrapping it for batching.
use caikit.Common.{
  ◌≡◌, ℕ, false, Option, none, some, [], ◌∷◌, Text, codes, text_eq, arith, Bool-cases, Option-cases,
  inl, inr, ltb, if◌then◌else◌, not, ◌&&◌,
}
use caikit.Common.Dict
use caikit.Common.Dict.{Dict}
use caikit.CoreManager.Components.{
  Outcome, ok, value_error, file_not_found, other_error, Choice, named, choose, get_component,
}
use caikit.CoreManager.Loading.{
  Loader, path, Files, load, do_load, load_new, get_finder, normalise, under_load_path,
  load_directory,
}
use caikit.CoreManager.Archives.{load-cache}
use caikit.Runtime.Statuses.{GrpcCode, grpc_not_found, grpc_internal}

-- The entry of `runtime.batching` for a type of models; a size below 0 is 0 here.
pub record BatchConfig {ℓ} (Delay : Type ℓ) : Type ℓ where
  pub size : Option ℕ
  pub collect_delay_s : Option Delay

-- What the loader hands out: the model, or a `Batcher` around it.
pub data Served {ℓ} (Model Delay : Type ℓ) : Type ℓ where
  plain : Model → Served Model Delay
  batcher : Text → Model → ℕ → Option Delay → Served Model Delay

-- How loading ends for the runtime: all exceptions are turned into a `CaikitRuntimeException`.
pub data Reply {ℓ} (A : Type ℓ) : Type ℓ where
  loaded : A → Reply A
  refused : GrpcCode → Reply A

module _ {ℓ} {Delay : Type ℓ} (batching : Dict Text (BatchConfig Delay)) where
  unfoldable pub batch_config : Text → BatchConfig Delay
  batch_config model_type = elim (Dict.get batching model_type) [
    | some c ↦ c
    | none ↦ elim (Dict.get batching (codes "default")) [
      | some c ↦ c
      | none ↦ record { size = none; collect_delay_s = none }
    ]
  ]

unfoldable pub batch_size {ℓ} : {Delay : Type ℓ} → BatchConfig Delay → ℕ
batch_size c = elim c.size [ some n ↦ n | none ↦ 0 ]

module _ {ℓ} {Model Delay : Type ℓ} (batching : Dict Text (BatchConfig Delay)) where
  -- `_wrap_in_batcher_if_configured`
  unfoldable pub wrap_in_batcher : Model → Text → Text → Served Model Delay
  unfolding batch_config batch_size
  wrap_in_batcher model model_type model_id =
      let c = batch_config batching model_type in
      if ltb 0 (batch_size c)
      then batcher model_id model (batch_size c) c.collect_delay_s
      else plain model

  -- `_wrapped_load_model`, from how `load_module_instance` ends.
  unfoldable pub wrapped : Text → Text → Outcome Model → Reply (Served Model Delay)
  unfolding wrap_in_batcher
  wrapped model_id model_type (ok model) = loaded (wrap_in_batcher model model_type model_id)
  wrapped model_id model_type file_not_found = refused grpc_not_found
  wrapped model_id model_type value_error = refused grpc_not_found
  wrapped model_id model_type other_error = refused grpc_internal

-- An argument that is left out or empty means the default.
unfoldable pub or_default : Option Text → Text
or_default none = codes "default"
or_default (some []) = codes "default"
or_default (some (c ∷ cs)) = c ∷ cs

module _ {ℓ} {GF GI Finder Initializer Config Model Buffer Delay : Type ℓ}
    (construct_finder : GF → Text → Outcome Finder)
    (construct_initializer : GI → Text → Outcome Initializer)
    (find_model : Finder → Text → Outcome (Option Config))
    (init : Initializer → Config → Outcome (Option Model)) (os : Files Buffer)
    (load_path : Option Text) (batching : Dict Text (BatchConfig Delay)) where
  -- `CoreModelLoader.load_module_instance`
  unfoldable pub load_module_instance :
      Text
      → Option Text
      → Option Text
      → Loader GF GI Finder Initializer Model
      → Outcome Model × Loader GF GI Finder Initializer Model
  unfolding or_default
  load_module_instance model_path finder initializer m =
      load construct_finder construct_initializer find_model init os load_path (path model_path)
        false (named (or_default finder)) (named (or_default initializer)) m

  -- `_wrapped_load_model`
  unfoldable pub wrapped_load_model :
      Text
      → Text
      → Text
      → Option Text
      → Option Text
      → Loader GF GI Finder Initializer Model
      → Reply (Served Model Delay) × Loader GF GI Finder Initializer Model
  unfolding load_module_instance wrapped
  wrapped_load_model model_path model_id model_type finder initializer m =
      let (o, m') = load_module_instance model_path finder initializer m in
      (wrapped batching model_id model_type o, m')

  -- A load by the runtime leaves the core library's cache of singletons as it is, however it ends.
  pub wrapped_load_model-cache :
      (model_path model_id model_type : Text) (finder initializer : Option Text)
      (m : Loader GF GI Finder Initializer Model)
      → (wrapped_load_model model_path model_id model_type finder initializer
          m).1.singleton_module_cache
        ≡ m.singleton_module_cache
  unfolding wrapped_load_model load_module_instance
  wrapped_load_model-cache model_path model_id model_type finder initializer m =
      load-cache construct_finder construct_initializer find_model init os load_path
        (path model_path) (named (or_default finder)) (named (or_default initializer)) m

  do_load-unknown :
      (q name : Text) (initializer : Choice Initializer) (m : Loader GF GI Finder Initializer Model)
      → Dict.get m.finders.built name ≡ none
      → Dict.get m.finders.config name ≡ none
      → (do_load construct_finder construct_initializer find_model init q false
          (named name)
          initializer
          m).0
        ≡ value_error
  unfolding do_load load_new get_finder choose get_component
  do_load-unknown q name initializer m b g = ground (arith, b, g)

  normalise-path :
      (p : Text) → (q : Text) × (normalise os (under_load_path os load_path (path p)) ≡ path q)
  unfolding normalise under_load_path
  normalise-path p = elim (Option-cases load_path) [
    | inl e ↦ (os.normpath p, ground (arith, e))
    | inr (l, e) ↦ elim (Bool-cases (not (os.path_exists p) && os.path_exists (os.join l p))) [
      | inl b ↦ (os.normpath (os.join l p), ground (arith, e, b))
      | inr b ↦ (os.normpath p, ground (arith, e, b))
    ]
  ]

  -- A finder that is neither built nor configured is answered with `NOT_FOUND`, as if the model were
  -- missing, when what is to be loaded is no archive.
  pub wrapped_load_model-unknown :
      (model_path model_id model_type : Text) (finder initializer : Option Text)
      (m : Loader GF GI Finder Initializer Model)
      → os.is_zipfile (normalise os (under_load_path os load_path (path model_path))) ≡ false
      → Dict.get m.finders.built (or_default finder) ≡ none
      → Dict.get m.finders.config (or_default finder) ≡ none
      → (wrapped_load_model model_path model_id model_type finder initializer m).0
        ≡ refused grpc_not_found
  unfolding wrapped_load_model load_module_instance load load_directory wrapped
  wrapped_load_model-unknown model_path model_id model_type finder initializer m z b g =
      let (q, n) = normalise-path model_path in
      let d = do_load-unknown q (or_default finder) (named (or_default initializer)) m b g in
      ground (arith, z, n, d)
