-- ===== src/Manager/Again.antt =====
-- Repeated calls on model_manager.py for the same id.
use caikit.Common.{
  ℕ, ◌≡◌, refl, String, Bool, true, Option, none, some, if◌then◌else◌, nat_eq, string_eq, ◌==◌,
  arith, beq_refl, Bool-cases, Option-cases, inl, inr,
}
use caikit.Common.Dict
use caikit.Common.Dict.{Dict}
use caikit.LoadedModel.Defs.{LoadedModel, LoadOutcome, build, wait}
use caikit.LoadedModel.Waiting.{wait-wait}
use caikit.Manager.Defs.{
  Manager, Error, Result, ok, err, after_callback, after_wait, wait_with, unload_model, wait_model,
  reply, register, report_sizes, load_model,
}
use caikit.Manager.Loading.{load_model-known}
use caikit.Manager.Serving.{
  Settings, local_model_type, held, after_model, model_of, after_load, retrieve_model,
}

module _ {ℓ} {M E : Type ℓ} (futures : ℕ → ℕ → LoadOutcome M E) where
  -- The callback never turns a failed wait into one that succeeds.
  after_callback-fails :
      (e : E) (o : Option (Manager M × Result E ℕ)) (t : Manager M)
      → after_callback futures e o ≡ some (t, none)
      → ⊥
  unfolding after_callback
  after_callback-fails e none t h = cc h
  after_callback-fails e (some (s, ok n)) t h = ground arith
  after_callback-fails e (some (s, err e')) t h = ground arith

  after_wait-settles :
      (callback : String → Manager M → Option (Manager M × Result E ℕ)) (ref : ℕ) (s t : Manager M)
      (p : LoadedModel M × Option E)
      → after_wait futures callback ref s p ≡ some (t, none)
      → (m : LoadedModel M) × (p ≡ (m, none)) × (t ≡ record s { heap = Dict.put s.heap ref m })
  unfolding after_wait
  after_wait-settles callback ref s t (m, none) h = (m, refl, ground arith)
  after_wait-settles callback ref s t (m, some e) h = elim (Bool-cases m.has_fail_callback) [
    | inl c ↦ absurd (
        after_callback-fails e (callback m.model_id (record s { heap = Dict.put s.heap ref m })) t
          (ground (arith, c, h)))
    | inr c ↦ absurd (ground (arith, c, h))
  ]

  -- A wait that raises nothing leaves the new state of the handle in the heap.
  wait_model-settles :
      (ref : ℕ) (s t : Manager M)
      → wait_model futures ref s ≡ some (t, none)
      → (m m' : LoadedModel M) × (Dict.get s.heap ref ≡ some m)
        × (wait (futures ref) m ≡ (m', none))
        × (t ≡ record s { heap = Dict.put s.heap ref m' })
  unfolding wait_model wait_with
  wait_model-settles ref s t h = elim (Option-cases (Dict.get s.heap ref)) [
    | inl e ↦ absurd (ground (arith, e, h))
    | inr (m, e) ↦
        let (m', w, f) =
          after_wait-settles (unload_model futures) ref s t (wait (futures ref) m)
            (ground (arith, e, h)) in
        (m, m', e, w, f)
  ]

  -- Waiting again on the same handle changes nothing.
  wait_model-again :
      (ref : ℕ) (s t : Manager M)
      → wait_model futures ref s ≡ some (t, none)
      → (wait_model futures ref t ≡ some (t, none)) × (t.loaded_models ≡ s.loaded_models)
  wait_model-again ref s t h =
      let (m, m', e, w, f) = wait_model-settles ref s t h in
      let (holds, w') = wait-wait (futures ref) m m' w in
      let at : Dict.get t.heap ref ≡ some m' = ground (arith, f, Dict.get-put s.heap ref m' ref) in
      (
        unfold wait_model wait_with after_wait in
            ground (arith, at, w', Dict.put_self t.heap ref m' at),
        ground (arith, f),
      )

  held-state : (ref : ℕ) (s t : Manager M) (x : M) → held futures s ref ≡ some (t, ok x) → s ≡ t
  unfolding held
  held-state ref s t x h = elim (Option-cases (Dict.get s.heap ref)) [
    | inl e ↦ absurd (ground (arith, e, h))
    | inr (m, e) ↦ elim (Option-cases m.model) [
      | inl u ↦ absurd (ground (arith, e, u, h))
      | inr (y, u) ↦ ground (arith, e, u, h)
    ]
  ]

  after_model-ok :
      (ref : ℕ) (o : Option (Manager M × Option (Error E))) (t : Manager M) (x : M)
      → after_model futures ref o ≡ some (t, ok x)
      → (o ≡ some (t, none)) × (held futures t ref ≡ some (t, ok x))
  unfolding after_model
  after_model-ok ref none t x h = absurd (cc h)
  after_model-ok ref (some (s, some e)) t x h = absurd (ground arith)
  after_model-ok ref (some (s, none)) t x h =
      let same : s ≡ t = held-state ref s t x h in (ground (arith, same), ground (arith, same, h))

  model_of-again :
      (ref : ℕ) (s t : Manager M) (x : M)
      → model_of futures ref s ≡ some (t, ok x)
      → (model_of futures ref t ≡ some (t, ok x)) × (t.loaded_models ≡ s.loaded_models)
  unfolding model_of
  model_of-again ref s t x h =
      let (w, holds) = after_model-ok ref (wait_model futures ref s) t x h in
      let (again, same) = wait_model-again ref s t w in
      (unfold after_model in ground (arith, again, holds), same)

  reply-ok :
      (ref n : ℕ) (o : Option (Manager M × Option (Error E))) (t : Manager M)
      → reply futures ref o ≡ some (t, ok n)
      → (o ≡ some (t, none)) × (n ≡ ref)
  unfolding reply
  reply-ok ref n none t h = absurd (cc h)
  reply-ok ref n (some (s, none)) t h = (ground arith, ground arith)
  reply-ok ref n (some (s, some e)) t h = absurd (ground arith)

  module _ (estimate : String → String → String → Option ℕ) where
    -- A load that answers with a handle leaves the id mapped to it.
    load_model-maps :
        (id path model_type : String) (wait_for_it : Bool) (retries ref : ℕ) (s t : Manager M)
        → load_model futures estimate id path model_type wait_for_it retries s ≡ some (t, ok ref)
        → Dict.get t.loaded_models id ≡ some ref
    unfolding load_model
    load_model-maps id path model_type w retries ref s t h =
        elim (Option-cases (Dict.get s.loaded_models id)) [
          | inr (old, e) ↦ ground (arith, e, h)
          | inl e ↦ elim (Option-cases (build {M = M} id path model_type true retries)) [
            | inl b ↦ absurd (ground (arith, e, b, h))
            | inr (m, b) ↦
                let new = register futures estimate id path model_type m s in
                let mapped : Dict.get new.loaded_models id ≡ some s.next_ref =
                  unfold register report_sizes in
                  rw (Dict.get-put s.loaded_models id s.next_ref id, beq_refl id) refl in
                elim (Bool-cases w) [
                  | inl c ↦
                      let (o, n) =
                        reply-ok s.next_ref ref (wait_model futures s.next_ref new) t
                          (ground (arith, e, b, c, h)) in
                      let (again, same) = wait_model-again s.next_ref new t o in rw (same, n) mapped
                  | inr c ↦ ground (arith, e, b, c, h, mapped)
                ]
          ]
        ]

    -- After a load that answered with a handle, a second load of the same id answers with the same
    -- handle and changes nothing, whatever path, type, retries and wait it is given: it does not
    -- wait.
    pub load_model-again :
        (id path model_type path' model_type' : String) (w w' : Bool) (retries retries' ref : ℕ)
        (s t : Manager M)
        → load_model futures estimate id path model_type w retries s ≡ some (t, ok ref)
        → load_model futures estimate id path' model_type' w' retries' t ≡ some (t, ok ref)
    load_model-again id path model_type path' model_type' w w' retries retries' ref s t h =
        load_model-known futures estimate id path' model_type' w' retries' ref t
          (load_model-maps id path model_type w retries ref s t h)

    after_load-ok :
        (o : Option (Manager M × Result E ℕ)) (t : Manager M) (x : M)
        → after_load futures o ≡ some (t, ok x)
        → (s : Manager M) × (ref : ℕ) × (o ≡ some (s, ok ref))
          × (model_of futures ref s ≡ some (t, ok x))
    unfolding after_load
    after_load-ok none t x h = absurd (cc h)
    after_load-ok (some (s, err e)) t x h = absurd (ground arith)
    after_load-ok (some (s, ok ref)) t x h = (s, ref, refl, h)

    -- After a request that was answered with a model, the next request for the same id is answered
    -- with the same model and changes nothing: nothing is loaded again.
    pub retrieve_model-again :
        (cfg : Settings) (id : String) (s t : Manager M) (x : M)
        → retrieve_model futures estimate cfg id s ≡ some (t, ok x)
        → retrieve_model futures estimate cfg id t ≡ some (t, ok x)
    unfolding retrieve_model
    retrieve_model-again cfg id s t x h = elim (Bool-cases (id == "")) [
      | inl u ↦ absurd (ground (arith, u, h))
      | inr u ↦ elim (Option-cases (Dict.get s.loaded_models id)) [
        | inr (ref, e) ↦
            let (again, same) = model_of-again ref s t x (ground (arith, u, e, h)) in
            ground (arith, u, e, again, same)
        | inl e ↦ elim (Bool-cases cfg.lazy_load_local_models) [
          | inr z ↦ absurd (ground (arith, u, e, z, h))
          | inl z ↦
              let path = cfg.join cfg.local_models_dir id in
              let found = if cfg.exists path then path else id in
              let (r, ref, o, mo) =
                after_load-ok
                  (load_model futures estimate id found local_model_type true cfg.lazy_load_retries
                    s)
                  t x (ground (arith, u, e, z, h)) in
              let (again, same) = model_of-again ref r t x mo in
              let mapped =
                load_model-maps id found local_model_type true cfg.lazy_load_retries ref s r o in
              ground (arith, u, again, same, mapped)
        ]
      ]
    ]
