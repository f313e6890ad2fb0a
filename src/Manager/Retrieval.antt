-- ===== src/Manager/Retrieval.antt =====
-- Retrieving and unloading models in model_manager.py.
use caikit.Common.{
  ℕ, ◌≤◌, ◌≡◌, refl, String, true, false, Option, none, some, ◌∷◌, if◌then◌else◌, nat_eq, string_eq,
  ◌==◌, arith, beq_refl,
}
use caikit.Common.Dict
use caikit.Common.Dict.{Dict, keys}
use caikit.LoadedModel.Defs.{LoadedModel, LoadOutcome, loaded, size, wait}
use caikit.LoadedModel.Waiting.{AllFail}
use caikit.Manager.Defs.{
  Manager, dec, ok, report_sizes, wait_with, unload_body, unload_nested, unload_model, wait_model,
}
use caikit.Manager.Gauges.{type_loaded, sum_sizes, get-report_sizes}
use caikit.Manager.Loading.{load_model-success}
use caikit.Manager.Serving.{Settings, local_model_type, model_of, retrieve_model}

module _ {ℓ} {M E : Type ℓ} (futures : ℕ → ℕ → LoadOutcome M E) where
  -- A handle that holds its model answers at once.
  model_of-held :
      (ref : ℕ) (s : Manager M) (m : LoadedModel M) (x : M)
      → Dict.get s.heap ref ≡ some m
      → m.model ≡ some x
      → model_of futures ref s ≡ some (s, ok x)
  unfolding model_of wait_model wait_with wait
  model_of-held ref s m x h u = ground (arith, h, u, Dict.put_self s.heap ref m h)

  module _ (estimate : String → String → String → Option ℕ) (cfg : Settings) (id : String)
      (named : (id == "") ≡ false) where
    -- With lazy loading on, an id that is not empty and not in the map is loaded on the first
    -- request for it, if the first load or one of its retries succeeds. The request returns the
    -- model of the first success, and the next request for the id returns the same model without
    -- any change.
    pub retrieve_model-lazy :
        (s : Manager M) (k : ℕ) (x : M)
        → Dict.get s.loaded_models id ≡ none
        → cfg.lazy_load_local_models ≡ true
        → k ≤ cfg.lazy_load_retries
        → AllFail (futures s.next_ref) 0 k
        → futures s.next_ref k ≡ loaded x
        → (t : Manager M) × (retrieve_model futures estimate cfg id s ≡ some (t, ok x))
          × (retrieve_model futures estimate cfg id t ≡ some (t, ok x))
    unfolding retrieve_model
    retrieve_model-lazy s k x l z le h q =
        let path = cfg.join cfg.local_models_dir id in
        let found = if cfg.exists path then path else id in
        let (t, m, e, hp, u, lm, ev) =
          load_model-success futures estimate id found local_model_type cfg.lazy_load_retries s l
            named refl k x le h q in
        (
          t,
          ground (arith, named, l, z, e, model_of-held s.next_ref t m x hp u),
          ground (arith, named, lm id, beq_refl id, model_of-held s.next_ref t m x hp u),
        )

  -- Unloading a model that is in the map and whose wait raises nothing takes out this model and no
  -- other, returns its size, lowers the count of loaded models, and sets the size gauge of each
  -- type that still has a loaded model to the sum of their sizes, the other gauges staying as they
  -- are.
  pub unload_model-known :
      (id : String) (ref : ℕ) (s : Manager M) (m m' : LoadedModel M)
      → Dict.get s.loaded_models id ≡ some ref
      → Dict.get s.heap ref ≡ some m
      → wait (futures ref) m ≡ (m', none)
      → (t : Manager M) × (unload_model futures id s ≡ some (t, ok (size m)))
        × ((j : String)
            → Dict.get t.loaded_models j ≡ (if id == j then none else Dict.get s.loaded_models j))
        × (t.count_events ≡ dec m.model_type id ∷ s.count_events)
        × ((y : String)
            → Dict.get t.size_gauge y ≡ (
                if type_loaded t.heap t.loaded_models y
                then some (sum_sizes t.heap t.loaded_models y)
                else Dict.get s.size_gauge y))
  unfolding unload_model unload_nested unload_body
  unload_model-known id ref s m m' l h w =
      let gone = record s {
        heap = Dict.put s.heap ref m';
        loaded_models = Dict.remove s.loaded_models id;
      } in
      let t = report_sizes gone in
      let waits : wait_with futures (unload_nested futures 1) ref
            (record s { loaded_models = Dict.remove s.loaded_models id })
          ≡ some (gone, none) =
        unfold wait_with in ground (arith, h, w) in
      (
        record t { count_events = dec m.model_type id ∷ t.count_events },
        ground (arith, l, h, waits),
        (λ j. unfold report_sizes in Dict.get-remove s.loaded_models id j),
        (unfold report_sizes in refl),
        (λ y. unfold report_sizes in ground (arith, get-report_sizes gone y)),
      )
