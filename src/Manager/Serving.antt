-- ===== src/Manager/Serving.antt =====
-- caikit/runtime/model_management/model_manager.py: looking models up, and unloading all of them.
use caikit.Common.{
  ℕ, String, Bool, true, ◌||◌, not, Option, none, some, List, [], ◌∷◌, if◌then◌else◌, string_eq,
  nat_eq, ◌==◌,
}
use caikit.Common.Dict
use caikit.Common.Dict.{Dict, keys}
use caikit.LoadedModel.Defs.{LoadOutcome, size}
use caikit.Manager.Defs.{
  Manager, Error, not_found, invalid_argument, Result, ok, err, report_sizes, unload_model,
  wait_model, load_model,
}

-- What the operations read of the configuration and of the file system: `join` is `os.path.join`,
-- `exists` is `os.path.exists`.
pub record Settings : Type 0 where
  pub lazy_load_local_models : Bool
  pub local_models_dir : String
  pub lazy_load_retries : ℕ
  pub join : String → String → String
  pub exists : String → Bool

abbrev pub local_model_type : String
local_model_type = "standalone-model"

module _ {ℓ} {M E : Type ℓ} (futures : ℕ → ℕ → LoadOutcome M E) where
  -- `get_model_size`
  unfoldable pub get_model_size : String → Manager M → Manager M × Result E ℕ
  get_model_size id s =
      if (id == "") || not (Dict.has s.loaded_models id) then (s, err not_found) else (
        report_sizes s,
        elim (Dict.get s.loaded_models id) [
          | none ↦ err not_found
          | some ref ↦ elim (Dict.get s.heap ref) [ none ↦ err not_found | some m ↦ ok (size m) ]
        ],
      )

  -- The model in a handle on which a wait has returned.
  unfoldable pub held : Manager M → ℕ → Option (Manager M × Result E M)
  held s ref = elim (Dict.get s.heap ref) [
    | none ↦ none
    | some m ↦ elim m.model [ none ↦ none | some x ↦ some (s, ok x) ]
  ]

  unfoldable pub after_model :
      ℕ → Option (Manager M × Option (Error E)) → Option (Manager M × Result E M)
  unfolding held
  after_model ref none = none
  after_model ref (some (s, some e)) = some (s, err e)
  after_model ref (some (s, none)) = held s ref

  -- `LoadedModel.model`
  unfoldable pub model_of : ℕ → Manager M → Option (Manager M × Result E M)
  unfolding after_model
  model_of ref s = after_model ref (wait_model futures ref s)

  unfoldable pub after_load : Option (Manager M × Result E ℕ) → Option (Manager M × Result E M)
  after_load none = none
  after_load (some (s, err e)) = some (s, err e)
  after_load (some (s, ok ref)) = model_of ref s

  module _ (estimate : String → String → String → Option ℕ) (cfg : Settings) where
    -- `retrieve_model`
    unfoldable pub retrieve_model : String → Manager M → Option (Manager M × Result E M)
    unfolding after_load
    retrieve_model id s =
        if id == "" then some (s, err invalid_argument) else elim (Dict.get s.loaded_models id) [
          | some ref ↦ model_of ref s
          | none ↦
              if cfg.lazy_load_local_models
              then (let path = cfg.join cfg.local_models_dir id in
                  let found = if cfg.exists path then path else id in
                  after_load (
                    load_model futures estimate id found local_model_type true cfg.lazy_load_retries
                      s))
              else some (s, err not_found)
        ]

  -- `for model_id in all_model_ids: self.unload_model(model_id)`; an exception ends the loop.
  unfoldable pub unload_each : List String → Manager M → Option (Manager M × Result E (Unit {0}))
  unload_each [] s = some (s, ok tt)
  unload_each (id ∷ ids) s = elim (unload_model futures id s) [
    | none ↦ none
    | some r ↦ elim r.1 [ ok n ↦ unload_each ids r.0 | err e ↦ some (r.0, err e) ]
  ]

  -- `unload_all_models`
  unfoldable pub unload_all_models : Manager M → Option (Manager M × Result E (Unit {0}))
  unfolding unload_each
  unload_all_models s = unload_each (keys s.loaded_models) s
