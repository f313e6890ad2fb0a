-- ===== src/CoreManager/Components.antt =====
-- caikit/core/model_manager.py: the named components (trainers, finders, initializers, predictors), which are
-- made from the configuration when they are first asked for.
use caikit.Common.{
  ◌≡◌, Option, none, some, List, [], ◌∷◌, Text, text_eq, text_beq_iff, arith, Option-cases, inl,
  inr,
}
use caikit.Common.Dict
use caikit.Common.Dict.{Dict}

-- How a call ends. A `ValueError` is told from the other exceptions, since callers catch it.
pub data Outcome {ℓ} (A : Type ℓ) : Type ℓ where
  ok : A → Outcome A
  value_error : Outcome A
  file_not_found : Outcome A
  other_error : Outcome A

-- What follows a step that may raise and that changes the state.
abbrev pub then_do {ℓ κ μ} :
    {A : Type ℓ} {B : Type κ} {S : Type μ} → Outcome A × S → (A → S → Outcome B × S) → Outcome B × S
then_do (ok x, s) f = f x s
then_do (value_error, s) f = (value_error, s)
then_do (file_not_found, s) f = (file_not_found, s)
then_do (other_error, s) f = (other_error, s)

-- `error.value_check` of a result that may be `None`.
abbrev pub present {ℓ} : {A : Type ℓ} → Outcome (Option A) → Outcome A
present (ok (some x)) = ok x
present (ok none) = value_error
present value_error = value_error
present file_not_found = file_not_found
present other_error = other_error

-- The argument that says which component to use: its name, or the component itself.
pub data Choice {ℓ} (C : Type ℓ) : Type ℓ where
  named : Text → Choice C
  given : C → Choice C

-- One `component_dict`, with its part of the configuration.
pub record Registry {ℓ} (G C : Type ℓ) : Type ℓ where
  pub built : Dict Text C
  pub config : Dict Text G

-- `construct` is the call of the factory.
module _ {ℓ} {G C : Type ℓ} (construct : G → Text → Outcome C) where
  unfoldable pub keep_built : Text → Registry G C → Outcome C → Outcome C × Registry G C
  keep_built name r (ok c) = (ok c, record r { built = Dict.put r.built name c })
  keep_built name r value_error = (value_error, r)
  keep_built name r file_not_found = (file_not_found, r)
  keep_built name r other_error = (other_error, r)

  -- `_get_component`, of a name.
  unfoldable pub get_component : Text → Registry G C → Outcome C × Registry G C
  unfolding keep_built
  get_component name r = elim (Dict.get r.built name) [
    | some c ↦ (ok c, r)
    | none ↦ elim (Dict.get r.config name) [
      | none ↦ (value_error, r)
      | some g ↦ keep_built name r (construct g name)
    ]
  ]

  -- `_get_component`, of a name or a component.
  unfoldable pub choose : Choice C → Registry G C → Outcome C × Registry G C
  unfolding get_component
  choose (named name) r = get_component name r
  choose (given c) r = (ok c, r)

  -- `initialize_components`, for the components of one sort: the names are those of the configuration.
  unfoldable pub initialize : List Text → Registry G C → Outcome (Unit {0}) × Registry G C
  unfolding get_component
  initialize [] r = (ok tt, r)
  initialize (name ∷ names) r = then_do (get_component name r) (λ c r'. initialize names r')

  keep_built-ok :
      (name : Text) (r r' : Registry G C) (o : Outcome C) (c : C)
      → keep_built name r o ≡ (ok c, r')
      → r' ≡ record r { built = Dict.put r.built name c }
  unfolding keep_built
  keep_built-ok name r r' (ok x) c h = ground (arith, h)
  keep_built-ok name r r' value_error c h = absurd (ground arith)
  keep_built-ok name r r' file_not_found c h = absurd (ground arith)
  keep_built-ok name r r' other_error c h = absurd (ground arith)

  get_component-built :
      (name : Text) (r r' : Registry G C) (c : C)
      → get_component name r ≡ (ok c, r')
      → Dict.get r'.built name ≡ some c
  unfolding get_component
  get_component-built name r r' c h = elim (Option-cases (Dict.get r.built name)) [
    | inr (x, e) ↦ ground (arith, e, h)
    | inl e ↦ elim (Option-cases (Dict.get r.config name)) [
      | inl g ↦ absurd (ground (arith, e, g, h))
      | inr (g, f) ↦
          let same = keep_built-ok name r r' (construct g name) c (ground (arith, e, f, h)) in
          ground (arith, same, Dict.get-put r.built name c name, text_beq_iff name name)
    ]
  ]

  -- A component that was asked for with success is made no second time: later calls of the name
  -- give the same one and change nothing.
  pub get_component-again :
      (name : Text) (r r' : Registry G C) (c : C)
      → get_component name r ≡ (ok c, r')
      → get_component name r' ≡ (ok c, r')
  unfolding get_component
  get_component-again name r r' c h = ground (arith, get_component-built name r r' c h)
