-- ===== src/LoadedModel/Defs.antt =====
-- caikit/runtime/model_management/loaded_model.py: the handle of a model that may still be loading.
use caikit.Common.{
  ℕ, zero, suc, String, Bool, false, ◌||◌, Option, none, some, ltb, if◌then◌else◌, nat_eq,
  string_eq, ◌==◌,
}

-- What a future ends with: the model, or a `CaikitRuntimeException`, which is the only exception that
-- a load job raises.
pub data LoadOutcome {ℓ} (M E : Type ℓ) : Type ℓ where
  loaded : M → LoadOutcome M E
  failed : E → LoadOutcome M E

-- `attempt` counts the futures that the factory was asked for after the first one: the future that is
-- held is the one with that number. A retry count is not negative.
pub record LoadedModel {ℓ} (M : Type ℓ) : Type ℓ where
  pub attempt : ℕ
  pub model : Option M
  pub has_fail_callback : Bool
  pub model_id : String
  pub model_path : String
  pub model_type : String
  pub retries : ℕ
  pub size_field : Option ℕ

module _ {ℓ} {M : Type ℓ} where
  -- `Builder.build`, with the factory set. `none` is the `ValueError` for an empty id or type.
  unfoldable pub build : String → String → String → Bool → ℕ → Option (LoadedModel M)
  build model_id model_path model_type has_fail_callback retries =
      if (model_id == "") || (model_type == "")
      then none
      else some (record {
        attempt = 0;
        model = none;
        has_fail_callback = has_fail_callback;
        model_id = model_id;
        model_path = model_path;
        model_type = model_type;
        retries = retries;
        size_field = none;
      })

  unfoldable pub size : LoadedModel M → ℕ
  size m = elim m.size_field [ none ↦ 0 | some n ↦ n ]

  unfoldable pub has_size : LoadedModel M → Bool
  has_size m = elim m.size_field [ none ↦ false | some n ↦ ltb 0 n ]

  unfoldable pub set_size : ℕ → LoadedModel M → LoadedModel M
  set_size n m = elim m.size_field [
    | none ↦ record m { size_field = some n }
    | some old ↦ if old == 0 then record m { size_field = some n } else m
  ]

-- `futures n` is the outcome of the future with the number `n`.
module _ {ℓ} {M E : Type ℓ} (futures : ℕ → LoadOutcome M E) where
  -- The retries of `wait`, from the future `n` on, with `r` retries left: the number of the last
  -- future that was waited for, the retries left, and its outcome.
  unfoldable pub retry : ℕ → ℕ → ℕ × ℕ × LoadOutcome M E
  retry zero n = (n, zero, futures n)
  retry (suc r) n = elim (futures n) [
    | loaded x ↦ (n, suc r, loaded x)
    | failed e ↦ retry r (suc n)
  ]

  unfoldable pub keep : LoadedModel M → ℕ → ℕ → LoadOutcome M E → LoadedModel M × Option E
  keep m n r (loaded x) = (record m { attempt = n; retries = r; model = some x }, none)
  keep m n r (failed e) = (record m { attempt = n; retries = r }, some e)

  unfoldable pub settle : LoadedModel M → ℕ × ℕ × LoadOutcome M E → LoadedModel M × Option E
  unfolding keep
  settle m (n, r, o) = keep m n r o

  -- `wait` up to the fail callback: the handle afterwards, and the exception if all is lost. The
  -- callback, if there is one, runs exactly if there is an exception.
  unfoldable pub wait : LoadedModel M → LoadedModel M × Option E
  unfolding retry settle
  wait m = elim m.model [ some x ↦ (m, none) | none ↦ settle m (retry m.retries m.attempt) ]
