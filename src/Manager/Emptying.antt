-- ===== src/Manager/Emptying.antt =====
-- `unload_all_models` of model_manager.py.
use caikit.Common.{
  true, ℕ, ◌≡◌, refl, String, none, some, List, [], ◌∷◌, if◌then◌else◌, nat_eq, string_eq, ◌==◌,
  arith, contains, Bool-cases, Option-cases, inl, inr,
}
use caikit.Common.Dict
use caikit.Common.Dict.{Dict, keys}
use caikit.LoadedModel.Defs.{LoadedModel, LoadOutcome, size, wait}
use caikit.Manager.Defs.{
  Manager, dec, ok, report_sizes, wait_with, after_wait, finish_unload, unload_body, unload_nested,
  unload_model,
}
use caikit.Manager.Serving.{unload_each, unload_all_models}

module _ {ℓ} {M : Type ℓ} where
  -- Every model of the map is loaded.
  abbrev pub IsServing : Manager M → Type ℓ
  IsServing s =
      (id : String) (ref : ℕ)
      → Dict.get s.loaded_models id ≡ some ref
      → (m : LoadedModel M) × (x : M) × (Dict.get s.heap ref ≡ some m) × (m.model ≡ some x)

  -- Those of the ids that are in the map are loaded.
  abbrev pub IsServingAmong : List String → Manager M → Type ℓ
  IsServingAmong ids s =
      (id : String) (ref : ℕ)
      → contains id ids ≡ true
      → Dict.get s.loaded_models id ≡ some ref
      → (m : LoadedModel M) × (x : M) × (Dict.get s.heap ref ≡ some m) × (m.model ≡ some x)

  -- The state after a loaded model is unloaded.
  abbrev without : String → LoadedModel M → Manager M → Manager M
  without id m s =
      let t = report_sizes (record s { loaded_models = Dict.remove s.loaded_models id }) in
      record t { count_events = dec m.model_type id ∷ t.count_events }

  get-without :
      (id : String) (m : LoadedModel M) (s : Manager M) (j : String)
      → (Dict.get (without id m s).loaded_models j
          ≡ (if id == j then none else Dict.get s.loaded_models j))
        × ((without id m s).heap ≡ s.heap)
  unfolding report_sizes
  get-without id m s j = (Dict.get-remove s.loaded_models id j, refl)

  without-IsServingAmong :
      (ids : List String) (id : String) (m : LoadedModel M) (s : Manager M)
      → IsServingAmong ids s
      → IsServingAmong ids (without id m s)
  without-IsServingAmong ids id m s h = λ j ref c g. elim (Bool-cases (id == j)) [
    | inl e ↦ absurd (ground (arith, (get-without id m s j).0, e, g))
    | inr e ↦ unfold report_sizes in h j ref c (ground (arith, (get-without id m s j).0, e, g))
  ]

module _ {ℓ} {M E : Type ℓ} (futures : ℕ → ℕ → LoadOutcome M E) where
  unload_model-held :
      (id : String) (ref : ℕ) (s : Manager M) (m : LoadedModel M) (x : M)
      → Dict.get s.loaded_models id ≡ some ref
      → Dict.get s.heap ref ≡ some m
      → m.model ≡ some x
      → unload_model futures id s ≡ some (without id m s, ok (size m))
  unfolding unload_model unload_nested unload_body wait_with after_wait finish_unload wait
  unload_model-held id ref s m x l h u = ground (arith, l, h, u, Dict.put_self s.heap ref m h)

  unload_model-unknown :
      (id : String) (s : Manager M)
      → Dict.get s.loaded_models id ≡ none
      → unload_model futures id s ≡ some (s, ok 0)
  unfolding unload_model unload_nested unload_body
  unload_model-unknown id s h = ground (arith, h)

  -- Unloading some models that are loaded takes out these and no other.
  pub unload_each-empties :
      (ids : List String) (s : Manager M)
      → IsServingAmong ids s
      → (t : Manager M) × (unload_each futures ids s ≡ some (t, ok tt))
        × ((j : String)
            → Dict.get t.loaded_models j
              ≡ (if contains j ids then none else Dict.get s.loaded_models j))
  unfolding unload_each
  unload_each-empties [] s h = (s, refl, λ j. refl)
  unload_each-empties (id ∷ ids) s h = elim (Option-cases (Dict.get s.loaded_models id)) [
    | inl e ↦
        let (t, run, gone) =
          unload_each-empties ids s (λ j ref c g. h j ref (ground (arith, c)) g) in
        (
          t,
          ground (arith, unload_model-unknown id s e, run),
          λ j. ground (arith, gone j, e, string_eq.beq_iff id j),
        )
    | inr (ref, e) ↦
        let (m, x, at, u) = h id ref (ground (arith, string_eq.beq_iff id id)) e in
        let rest : IsServingAmong ids s = λ j k c g. h j k (ground (arith, c)) g in
        let (t, run, gone) =
          unload_each-empties ids (without id m s) (without-IsServingAmong ids id m s rest) in
        (
          t,
          ground (arith, unload_model-held id ref s m x e at u, run),
          λ j. ground (arith, gone j, (get-without id m s j).0, string_eq.beq_iff id j),
        )
  ]

  -- If every model in the map is loaded, unloading all of them raises nothing and leaves no model in the map.
  pub unload_all_models-empties :
      (s : Manager M)
      → IsServing s
      → (t : Manager M) × (unload_all_models futures s ≡ some (t, ok tt))
        × ((j : String) → Dict.get t.loaded_models j ≡ none)
  unfolding unload_all_models
  unload_all_models-empties s h =
      let (t, run, gone) =
        unload_each-empties (keys s.loaded_models) s (λ id ref c g. h id ref g) in
      (
        t,
        run,
        λ j. ground (
          arith,
          gone j,
          Dict.contains-keys s.loaded_models j,
          Dict.get-eq-none s.loaded_models j,
        ),
      )
