-- ===== src/Manager/Syncing.antt =====
-- caikit/runtime/model_management/model_manager.py: the synchronization of the loaded models with the directory
-- of local models. The timer that calls it again is left out.
use caikit.Common.{
  ℕ, String, Bool, false, not, ◌&&◌, Option, none, some, List, [], ◌∷◌, if◌then◌else◌, string_eq,
  nat_eq, filter,
}
use caikit.Common.Dict
use caikit.Common.Dict.{Dict}
use caikit.LoadedModel.Defs.{LoadedModel, LoadOutcome}
use caikit.Manager.Defs.{Manager, Error, Result, ok, err, wait_model, load_model}
use caikit.Manager.Serving.{Settings, local_model_type, unload_each}

-- What the synchronization reads of the directory: the entries, `none` being a `FileNotFoundError`; which
-- paths are being written to; and `path.startswith(local_models_dir)`.
pub record Directory : Type 0 where
  pub entries : Option (List String)
  pub write_in_progress : String → Bool
  pub is_local : String → Bool

-- How `_local_models_dir_sync` ends: normally, with `StopIteration`, or with another exception.
pub data SyncEnd {ℓ} (E : Type ℓ) : Type ℓ where
  synced : SyncEnd E
  unreachable : SyncEnd E
  raised : Error E → SyncEnd E

module _ {ℓ} {M : Type ℓ} where
  unfoldable pub new_models : Bool → List String → Manager M → List String
  new_models load disk_models s =
      if load then filter (λ id. not (Dict.has s.loaded_models id)) disk_models else []

  -- The condition on a model to be unloaded.
  unfoldable pub is_gone : Settings → Directory → Option (LoadedModel M) → Bool
  is_gone cfg dir none = false
  is_gone cfg dir (some m) = dir.is_local m.model_path && not (cfg.exists m.model_path)

  unfoldable pub gone_models :
      Settings → Directory → Dict ℕ (LoadedModel M) → Dict String ℕ → List String
  unfolding is_gone
  gone_models cfg dir heap [] = []
  gone_models cfg dir heap ((id, ref) ∷ models) =
      let rest = gone_models cfg dir heap models in
      if is_gone cfg dir (Dict.get heap ref) then id ∷ rest else rest

module _ {ℓ} {M E : Type ℓ} (futures : ℕ → ℕ → LoadOutcome M E) where
  -- `for model_id in new_models: ...loaded_model.wait()`; an exception of a wait is only logged.
  unfoldable pub wait_new : List String → Manager M → Option (Manager M)
  wait_new [] s = some s
  wait_new (id ∷ ids) s = elim (Dict.get s.loaded_models id) [
    | none ↦ wait_new ids s
    | some ref ↦ elim (wait_model futures ref s) [ none ↦ none | some r ↦ wait_new ids r.0 ]
  ]

  module _ (estimate : String → String → String → Option ℕ) (cfg : Settings) (dir : Directory) where
    -- `for model_id in new_models: ...self.load_model(...)`
    unfoldable pub load_new : List String → Manager M → Option (Manager M × Result E (Unit {0}))
    load_new [] s = some (s, ok tt)
    load_new (id ∷ ids) s =
        let path = cfg.join cfg.local_models_dir id in
        let skipped = load_new ids s in
        if dir.write_in_progress path
        then skipped
        else elim (load_model futures estimate id path local_model_type false cfg.lazy_load_retries
            s) [
              | none ↦ none
              | some r ↦ elim r.1 [ ok ref ↦ load_new ids r.0 | err e ↦ some (r.0, err e) ]
            ]

    -- The unloading and the waiting, after the new models are submitted.
    unfoldable pub sync_rest :
        Bool
        → List String
        → List String
        → Option (Manager M × Result E (Unit {0}))
        → Option (Manager M × SyncEnd E)
    unfolding wait_new
    sync_rest wait new gone none = none
    sync_rest wait new gone (some (s, err e)) = some (s, raised e)
    sync_rest wait new gone (some (s, ok _)) = elim (unload_each futures gone s) [
      | none ↦ none
      | some r ↦ elim r.1 [
        | err e ↦ some (r.0, raised e)
        | ok _ ↦
            if wait
            then elim (wait_new new r.0) [ none ↦ none | some t ↦ some (t, synced) ]
            else some (r.0, synced)
      ]
    ]

    -- `_local_models_dir_sync`
    unfoldable pub local_models_dir_sync : Bool → Bool → Manager M → Option (Manager M × SyncEnd E)
    unfolding load_new sync_rest new_models gone_models
    local_models_dir_sync wait load s = elim dir.entries [
      | none ↦ some (s, unreachable)
      | some disk_models ↦
          let new = new_models load disk_models s in
          sync_rest wait new (gone_models cfg dir s.heap s.loaded_models) (load_new new s)
    ]
