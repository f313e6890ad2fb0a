-- ===== src/Manager/Defs.antt =====
-- caikit/runtime/model_management/model_manager.py: the map of loaded models, their handles, and the
-- metrics. A handle is an object, so the map holds references into a heap. Every operation runs as
-- one step, as under the mutation lock.
use caikit.Common.{
  ℕ, zero, suc, ◌+◌, String, Bool, true, Option, none, some, List, [], ◌∷◌, if◌then◌else◌, nat_eq,
  string_eq,
}
use caikit.Common.Dict
use caikit.Common.Dict.{Dict}
use caikit.LoadedModel.Defs.{LoadedModel, LoadOutcome, build, size, set_size, wait}

-- The calls on the gauge of the number of loaded models: its labels are the type and the id.
pub data CountEvent : Type 0 where
  inc : String → String → CountEvent
  dec : String → String → CountEvent

pub record Manager {ℓ} (M : Type ℓ) : Type ℓ where
  pub heap : Dict ℕ (LoadedModel M)
  pub next_ref : ℕ
  pub loaded_models : Dict String ℕ
  pub size_gauge : Dict String ℕ
  pub count_events : List CountEvent
  pub load_exceptions : List String

pub data Error {ℓ} (E : Type ℓ) : Type ℓ where
  load_error : E → Error E
  value_error : Error E
  not_found : Error E
  invalid_argument : Error E

pub data Result {ℓ κ} (E : Type ℓ) (A : Type κ) : Type (ℓ ⊔ κ) where
  ok : A → Result E A
  err : Error E → Result E A

-- `for model_type, total_size in cnt.items(): ...set(total_size)`
unfoldable pub set_gauge : Dict String ℕ → Dict String ℕ → Dict String ℕ
set_gauge gauge [] = gauge
set_gauge gauge ((model_type, total) ∷ cnt) = set_gauge (Dict.put gauge model_type total) cnt

module _ {ℓ} {M : Type ℓ} where
  -- `cnt[model.type()] += model.size()`
  unfoldable pub add_size : LoadedModel M → Dict String ℕ → Dict String ℕ
  add_size m cnt =
      Dict.put cnt m.model_type
        (elim (Dict.get cnt m.model_type) [ none ↦ 0 | some n ↦ n ] + size m)

  unfoldable pub total_sizes :
      Dict ℕ (LoadedModel M) → Dict String ℕ → Dict String ℕ → Dict String ℕ
  total_sizes heap [] cnt = cnt
  total_sizes heap ((id, ref) ∷ models) cnt =
      total_sizes heap models (elim (Dict.get heap ref) [ none ↦ cnt | some m ↦ add_size m cnt ])

  -- `__report_total_model_size_metric`
  unfoldable pub report_sizes : Manager M → Manager M
  unfolding total_sizes set_gauge add_size
  report_sizes s = record s {
    size_gauge = set_gauge s.size_gauge (total_sizes s.heap s.loaded_models []);
  }

-- `futures ref` are the outcomes of the load jobs of the handle `ref`, one for each submission.
module _ {ℓ} {M E : Type ℓ} (futures : ℕ → ℕ → LoadOutcome M E) where
  abbrev pub Unload : Type ℓ
  Unload = String → Manager M → Option (Manager M × Result E ℕ)

  -- The exception that leaves the `except` block of `LoadedModel.wait`: that of the callback if it
  -- raises, else the one of the load.
  unfoldable pub after_callback :
      E → Option (Manager M × Result E ℕ) → Option (Manager M × Option (Error E))
  after_callback e none = none
  after_callback e (some (s, ok n)) = some (s, some (load_error e))
  after_callback e (some (s, err e')) = some (s, some e')

  unfoldable pub after_wait :
      Unload → ℕ → Manager M → LoadedModel M × Option E → Option (Manager M × Option (Error E))
  unfolding after_callback
  after_wait callback ref s (m, none) = some (record s { heap = Dict.put s.heap ref m }, none)
  after_wait callback ref s (m, some e) =
      if m.has_fail_callback
      then after_callback e (callback m.model_id (record s { heap = Dict.put s.heap ref m }))
      else some (record s { heap = Dict.put s.heap ref m }, some (load_error e))

  -- `LoadedModel.wait` on a handle of the heap, with the fail callback `unload_model(model_id)`.
  unfoldable pub wait_with : Unload → ℕ → Manager M → Option (Manager M × Option (Error E))
  unfolding after_wait
  wait_with callback ref s = elim (Dict.get s.heap ref) [
    | none ↦ none
    | some m ↦ after_wait callback ref s (wait (futures ref) m)
  ]

  -- What `unload_model` does with the model that it popped, after the wait. An exception of the wait
  -- leaves the metrics as they are.
  unfoldable pub finish_unload :
      String
      → LoadedModel M
      → Option (Manager M × Option (Error E))
      → Option (Manager M × Result E ℕ)
  finish_unload id m none = none
  finish_unload id m (some (s, some e)) = some (s, err e)
  finish_unload id m (some (s, none)) =
      let t = report_sizes s in
      some (record t { count_events = dec m.model_type id ∷ t.count_events }, ok (size m))

  unfoldable pub unload_body : Unload → Unload
  unfolding finish_unload
  unload_body callback id s = elim (Dict.get s.loaded_models id) [
    | none ↦ some (s, ok 0)
    | some ref ↦ elim (Dict.get s.heap ref) [
      | none ↦ none
      | some m ↦
          finish_unload id m
            (wait_with callback ref (record s { loaded_models = Dict.remove s.loaded_models id }))
    ]
  ]

  -- `unload_model`. The wait in it can call it again, so the nesting is bounded by fuel; `none` is
  -- that the fuel ran out.
  unfoldable pub unload_nested : ℕ → Unload
  unload_nested zero id s = none
  unload_nested (suc fuel) id s = unload_body (unload_nested fuel) id s

  unfoldable pub unload_model : Unload
  unload_model = unload_nested 2

  -- `LoadedModel.wait`, called from outside of `unload_model`.
  unfoldable pub wait_model : ℕ → Manager M → Option (Manager M × Option (Error E))
  wait_model = wait_with unload_model

  unfoldable pub reply : ℕ → Option (Manager M × Option (Error E)) → Option (Manager M × Result E ℕ)
  reply ref none = none
  reply ref (some (s, none)) = some (s, ok ref)
  reply ref (some (s, some e)) = some (s, err e)

  -- The branch of `load_model` for a model that is not there: its result is the new handle.
  -- `estimate` is `model_sizer.get_model_size`, `none` being its `CaikitRuntimeException`.
  module _ (estimate : String → String → String → Option ℕ) where
    unfoldable pub register : String → String → String → LoadedModel M → Manager M → Manager M
    register id path model_type m s =
        let sized = set_size (elim (estimate id path model_type) [ none ↦ 0 | some n ↦ n ]) m in
        report_sizes (record s {
          heap = Dict.put s.heap s.next_ref sized;
          next_ref = s.next_ref + 1;
          loaded_models = Dict.put s.loaded_models id s.next_ref;
          count_events = inc model_type id ∷ s.count_events;
        })

    -- `load_model`. A model that is in the map is returned at once, without a wait.
    unfoldable pub load_model :
        String → String → String → Bool → ℕ → Manager M → Option (Manager M × Result E ℕ)
    load_model id path model_type wait_for_it retries s = elim (Dict.get s.loaded_models id) [
      | some ref ↦ some (s, ok ref)
      | none ↦ elim (build {M = M} id path model_type true retries) [
        | none ↦
            some (record s { load_exceptions = model_type ∷ s.load_exceptions }, err value_error)
        | some m ↦
            let t = register id path model_type m s in
            if wait_for_it
            then reply s.next_ref (wait_model s.next_ref t)
            else some (t, ok s.next_ref)
      ]
    ]
