-- ===== src/Batcher/Defaults.antt =====
-- caikit/runtime/model_management/batcher.py: the defaults that `__init__` reads off the signature of
-- the model's `run`.
use caikit.Common.{
  ◌≡◌, String, Bool, true, false, Option, none, some, List, [], ◌∷◌, if◌then◌else◌, string_eq,
  arith, ◌==◌,
}
use caikit.Common.Dict
use caikit.Common.Dict.{Dict}

-- A parameter of `inspect.signature`. The `default` of one that has none is the class
-- `inspect.Parameter.empty`, which is an object as any other.
pub record Parameter {ℓ} (V : Type ℓ) : Type ℓ where
  pub name : String
  pub default : Option V

module _ {ℓ} {V : Type ℓ} where
  -- The parameter of that name.
  abbrev pub parameter : String → List (Parameter V) → Option (Parameter V)
  parameter k [] = none
  parameter k (p ∷ ps) = if p.name == k then some p else parameter k ps

  abbrev pub names_distinct : List (Parameter V) → Bool
  names_distinct [] = true
  names_distinct (p ∷ ps) = elim (parameter p.name ps) [ none ↦ names_distinct ps | some _ ↦ false ]

-- `truthy` is what `if param.default` asks of a value, `empty` the class for no default.
module _ {ℓ} {V : Type ℓ} (truthy : V → Bool) (empty : V) where
  unfoldable pub default_value : Parameter V → V
  default_value p = elim p.default [ none ↦ empty | some v ↦ v ]

  -- `{name: param.default for name, param in parameters.items() if param.default}`
  unfoldable pub run_defaults : List (Parameter V) → Dict String V
  unfolding default_value
  run_defaults [] = []
  run_defaults (p ∷ ps) =
      let rest = run_defaults ps in
      if truthy (default_value p) then (p.name, default_value p) ∷ rest else rest

  absent :
      (ps : List (Parameter V)) (k : String)
      → parameter k ps ≡ none
      → Dict.get (run_defaults ps) k ≡ none
  unfolding run_defaults Dict.get
  absent [] k h = ground arith
  absent (p ∷ ps) k h = ground (arith, absent ps k)

  -- The recorded default of a name is the value of its parameter's `default`, if that counts as true.
  pub get-run_defaults :
      (ps : List (Parameter V)) (k : String)
      → names_distinct ps ≡ true
      → Dict.get (run_defaults ps) k ≡ elim (parameter k ps) [
        | none ↦ none
        | some p ↦ if truthy (default_value p) then some (default_value p) else none
      ]
  unfolding run_defaults Dict.get
  get-run_defaults [] k h = ground arith
  get-run_defaults (p ∷ ps) k h =
      ground (arith, get-run_defaults ps k, string_eq.beq_iff p.name k, absent ps k)

  -- If the class `inspect.Parameter.empty` counts as true and the parameters have distinct names, a
  -- parameter without a default is recorded with that class as its default, and one with a default
  -- is recorded only if the default counts as true.
  pub run_defaults-inverted :
      (ps : List (Parameter V)) (k : String) (p : Parameter V)
      → truthy empty ≡ true
      → names_distinct ps ≡ true
      → parameter k ps ≡ some p
      → Dict.get (run_defaults ps) k
        ≡ elim p.default [ none ↦ some empty | some v ↦ if truthy v then some v else none ]
  unfolding default_value
  run_defaults-inverted ps k p t d h = ground (arith, get-run_defaults ps k, h, t)
