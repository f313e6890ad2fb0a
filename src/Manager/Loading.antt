-- ===== src/Manager/Loading.antt =====
-- Loading, failing and unloading models in model_manager.py.
use caikit.Common.{
  ℕ, suc, ◌+◌, ◌-◌, ◌≤◌, ◌≡◌, refl, String, Bool, true, false, Option, none, some, ◌∷◌,
  if◌then◌else◌, nat_eq, string_eq, ◌==◌, arith, beq_refl,
}
use native.Mathlib.Nat.{zero-add, add-zero}
use caikit.Common.Dict
use caikit.Common.Dict.{Dict, dict_laws}
use caikit.LoadedModel.Defs.{LoadedModel, LoadOutcome, loaded, failed, build, set_size, wait}
use caikit.LoadedModel.Waiting.{AllFail, wait-first_success, wait-AllFail}
use caikit.Manager.Defs.{
  Manager, inc, load_error, Result, ok, err, report_sizes, after_callback, wait_with, unload_body,
  unload_nested, unload_model, wait_model, reply, register, load_model,
}

module _ {ℓ} {M E : Type ℓ} (futures : ℕ → ℕ → LoadOutcome M E) where
  -- An id that is not in the map is unloaded without effect, whatever the fuel.
  unload_nested-unknown :
      (fuel : ℕ) (id : String) (s : Manager M)
      → Dict.get s.loaded_models id ≡ none
      → unload_nested futures (suc fuel) id s ≡ some (s, ok 0)
  unfolding unload_nested unload_body
  unload_nested-unknown fuel id s h = ground (arith, h)

  -- A wait that fails runs the callback and then raises the load's exception.
  wait_with-failing :
      (callback : String → Manager M → Option (Manager M × Result E ℕ)) (ref : ℕ) (s t : Manager M)
      (m m' : LoadedModel M) (r : Result E ℕ) (e : E)
      → Dict.get s.heap ref ≡ some m
      → wait (futures ref) m ≡ (m', some e)
      → m'.has_fail_callback ≡ true
      → callback m'.model_id (record s { heap = Dict.put s.heap ref m' }) ≡ some (t, r)
      → wait_with futures callback ref s ≡ after_callback futures e (some (t, r))
  unfolding wait_with
  wait_with-failing callback ref s t m m' r e h w c k = ground (arith, h, w, c, k)

  -- The unload that the callback makes: the model leaves the map, the wait on it fails once more,
  -- and its exception goes on without the metrics.
  unload_nested-failing :
      (id : String) (ref : ℕ) (s : Manager M) (m m' : LoadedModel M) (e : E)
      → Dict.get s.loaded_models id ≡ some ref
      → Dict.get s.heap ref ≡ some m
      → wait (futures ref) m ≡ (m', some e)
      → m'.has_fail_callback ≡ true
      → m'.model_id ≡ id
      → unload_nested futures 2 id s
        ≡ some (
          record s {
            heap = Dict.put s.heap ref m';
            loaded_models = Dict.remove s.loaded_models id;
          },
          err (load_error e),
        )
  unfolding unload_nested unload_body after_callback
  unload_nested-failing id ref s m m' e h k w c i =
      let gone = record s { loaded_models = Dict.remove s.loaded_models id } in
      let last = record s {
        heap = Dict.put s.heap ref m';
        loaded_models = Dict.remove s.loaded_models id;
      } in
      let unknown : Dict.get (Dict.remove s.loaded_models id) m'.model_id ≡ none = ground (
        arith,
        Dict.get-remove s.loaded_models id m'.model_id,
        string_eq.beq_iff id m'.model_id,
        i,
      ) in
      let again : unload_nested futures 1 m'.model_id last ≡ some (last, ok 0) =
        unload_nested-unknown 0 m'.model_id last unknown in
      ground (
        arith,
        h,
        k,
        wait_with-failing (unload_nested futures 1) ref gone last m m' (ok 0) e k w c again,
      )

  module _ (estimate : String → String → String → Option ℕ) where
    -- A second load of an id returns the handle that is there and changes nothing, whatever path, type
    -- and retries it is given; it does not wait, even when asked to.
    pub load_model-known :
        (id path model_type : String) (wait_for_it : Bool) (retries ref : ℕ) (s : Manager M)
        → Dict.get s.loaded_models id ≡ some ref
        → load_model futures estimate id path model_type wait_for_it retries s ≡ some (s, ok ref)
    unfolding load_model
    load_model-known id path model_type w r ref s h = ground (arith, h)

    -- The handle of a new load, before and after its size is set.
    abbrev blank : String → String → String → ℕ → LoadedModel M
    blank id path model_type retries = record {
      attempt = 0;
      model = none;
      has_fail_callback = true;
      model_id = id;
      model_path = path;
      model_type = model_type;
      retries = retries;
      size_field = none;
    }

    abbrev pub fresh : String → String → String → ℕ → LoadedModel M
    fresh id path model_type retries = record (blank id path model_type retries) {
      size_field = some (elim (estimate id path model_type) [ none ↦ 0 | some n ↦ n ]);
    }

    module _ (id path model_type : String) (retries : ℕ) (s : Manager M)
        (unknown : Dict.get s.loaded_models id ≡ none) (named : (id == "") ≡ false)
        (typed : (model_type == "") ≡ false) where
      abbrev m₀ : LoadedModel M
      m₀ = fresh id path model_type retries

      abbrev registered : Manager M
      registered = register futures estimate id path model_type (blank id path model_type retries) s

      load_model-new :
          load_model futures estimate id path model_type true retries s
          ≡ reply futures s.next_ref (wait_model futures s.next_ref registered)
      unfolding load_model build
      load_model-new = ground (arith, unknown, named, typed)

      heap-registered : Dict.get registered.heap s.next_ref ≡ some m₀
      unfolding register report_sizes set_size
      heap-registered = ground (arith, Dict.get-put s.heap s.next_ref m₀ s.next_ref)

      loaded-registered :
          (j : String)
          → Dict.get registered.loaded_models j
            ≡ (if id == j then some s.next_ref else Dict.get s.loaded_models j)
      unfolding register report_sizes
      loaded-registered j = Dict.get-put s.loaded_models id s.next_ref j

      events-registered : registered.count_events ≡ inc model_type id ∷ s.count_events
      unfolding register report_sizes
      events-registered = refl

      -- For an id that is not in the map, with an id and a type that are not empty: if the first
      -- load and all its retries fail, a load that waits raises the last exception, and the map of
      -- loaded models is as before. The count of loaded models was raised for the model, and is not
      -- lowered again.
      pub load_model-failure :
          (e : E)
          → AllFail (futures s.next_ref) 0 retries
          → futures s.next_ref retries ≡ failed e
          → (t : Manager M) × (load_model futures estimate id path model_type true retries s
              ≡ some (t, err (load_error e)))
            × ((j : String) → Dict.get t.loaded_models j ≡ Dict.get s.loaded_models j)
            × (t.count_events ≡ inc model_type id ∷ s.count_events)
      load_model-failure e h q =
          let ref = s.next_ref in
          let m' = record m₀ { attempt = 0 + retries; retries = 0 } in
          let t = record registered { heap = Dict.put registered.heap ref m' } in
          let t' = record t {
            heap = Dict.put t.heap ref m';
            loaded_models = Dict.remove t.loaded_models id;
          } in
          let fails : wait (futures ref) m₀ ≡ (m', some e) =
            wait-AllFail (futures ref) m₀ e refl h (rw zero-add q) in
          let again : wait (futures ref) m' ≡ (m', some e) = cc (
            wait-AllFail (futures ref) m' e refl (λ i lt. absurd (omega arith))
                (rw (add-zero, zero-add) q),
            add-zero (0 + retries),
          ) in
          let unloads : unload_nested futures 2 id t ≡ some (t', err (load_error e)) =
            unload_nested-failing id ref t m' m' e
              (ground (arith, loaded-registered id, beq_refl id))
              (ground (arith, Dict.get-put registered.heap ref m' ref)) again refl refl in
          let waits : wait_model futures ref registered
              ≡ after_callback futures e (some (t', err (load_error e))) =
            unfold wait_model unload_model in
            wait_with-failing (unload_nested futures 2) ref registered t' m₀ m' (err (load_error e))
              e heap-registered fails refl unloads in
          (
            t',
            rw (load_model-new, waits) (unfold after_callback reply in refl),
            (λ j. ground (
              arith,
              Dict.get-remove registered.loaded_models id j,
              loaded-registered j,
              string_eq.beq_iff id j,
              unknown,
            )),
            events-registered,
          )

      -- For an id that is not in the map, with an id and a type that are not empty: if the first
      -- load or one of its retries succeeds, a load that waits answers with the new handle, which
      -- holds the model of the first success; the map sends the id to it and is otherwise as
      -- before, and the count of loaded models is raised once.
      pub load_model-success :
          (k : ℕ) (x : M)
          → k ≤ retries
          → AllFail (futures s.next_ref) 0 k
          → futures s.next_ref k ≡ loaded x
          → (t : Manager M) × (m : LoadedModel M) × (load_model futures estimate id path model_type
                true retries s
              ≡ some (t, ok s.next_ref))
            × (Dict.get t.heap s.next_ref ≡ some m)
            × (m.model ≡ some x)
            × ((j : String)
                → Dict.get t.loaded_models j
                  ≡ (if id == j then some s.next_ref else Dict.get s.loaded_models j))
            × (t.count_events ≡ inc model_type id ∷ s.count_events)
      load_model-success k x le h q =
          let ref = s.next_ref in
          let m' = record m₀ { attempt = 0 + k; retries = retries - k; model = some x } in
          let t = record registered { heap = Dict.put registered.heap ref m' } in
          let done : wait (futures ref) m₀ ≡ (m', none) =
            wait-first_success (futures ref) m₀ k x refl le h (rw zero-add q) in
          let waits : wait_model futures ref registered ≡ some (t, none) =
            unfold wait_model wait_with in ground (arith, heap-registered, done) in
          (
            t,
            m',
            rw (load_model-new, waits) (unfold reply in refl),
            ground (arith, Dict.get-put registered.heap ref m' ref),
            refl,
            loaded-registered,
            events-registered,
          )
