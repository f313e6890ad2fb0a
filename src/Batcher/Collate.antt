-- ===== src/Batcher/Collate.antt =====
-- caikit/runtime/model_management/batcher.py: how `_batch_thread_run` collects the keyword arguments
-- of the requests of one batch, and finds the requests that lack a required argument.
use mathlib.Core.Option.{get_or}
use caikit.Common.{
  ℕ, zero, suc, String, not, ◌&&◌, List, [], ◌∷◌, ◌++◌, filter, replicate, is_empty, leb,
  if◌then◌else◌, nat_eq, string_eq,
}
use caikit.Common.Dict
use caikit.Common.Dict.{Dict, keys}

-- One entry of the input queue. The event of a request is named by the request's id.
pub record Request {ℓ} (V : Type ℓ) : Type ℓ where
  pub req_id : ℕ
  pub kwargs : Dict String V

-- The two dicts of the loop. A `ValueError` is the list of the argument names that it names.
pub record Collated {ℓ} (V : Type ℓ) : Type ℓ where
  pub batch_kwargs : Dict String (List V)
  pub invalid_reqs : Dict ℕ (List String)

-- `for j in range(i): invalid_reqs[j] = err`
unfoldable pub mark_range : ℕ → List String → Dict ℕ (List String) → Dict ℕ (List String)
mark_range zero err reqs = reqs
mark_range (suc i) err reqs = Dict.put (mark_range i err reqs) i err

module _ {ℓ} {V : Type ℓ} where
  -- `batch_kwargs.setdefault(name, []).append(val)`
  unfoldable pub append_value : Dict String (List V) → String → V → Dict String (List V)
  append_value batch name val = Dict.put batch name (get_or (Dict.get batch name) [] ++ val ∷ [])

  unfoldable pub append_all : Dict String (List V) → Dict String V → Dict String (List V)
  append_all batch [] = batch
  append_all batch ((name, val) ∷ kwargs) = append_all (append_value batch name val) kwargs

  unfoldable pub new_kwargs : Dict String (List V) → Dict String V → List String
  new_kwargs batch kwargs = filter (λ k. not (Dict.has batch k)) (keys kwargs)

  unfoldable pub missing_kwargs : Dict String (List V) → Dict String V → List String
  missing_kwargs batch kwargs = filter (λ k. not (Dict.has kwargs k)) (keys batch)

-- `defaults` is `_model_run_defaults`.
module _ {ℓ} {V : Type ℓ} (defaults : Dict String V) where
  unfoldable pub without_default : List String → List String
  without_default = filter (λ k. not (Dict.has defaults k))

  -- The requests that the arguments of request `i` show to be invalid.
  unfoldable pub invalid_after :
      ℕ → List String → List String → Dict ℕ (List String) → Dict ℕ (List String)
  invalid_after i new missing reqs =
      let before =
        if leb 1 i && not (is_empty (without_default new))
        then mark_range i (without_default new) reqs
        else reqs in
      if is_empty (without_default missing)
      then before
      else Dict.put before i (without_default missing)

-- `py_none` is what the `get` of `defaults` returns for a missing name.
module _ {ℓ} {V : Type ℓ} (py_none : V) (defaults : Dict String V) where
  unfoldable pub default_of : String → V
  default_of name = get_or (Dict.get defaults name) py_none

  -- `for new_kwarg in new_kwargs: batch_kwargs[new_kwarg] = [default] * i`
  unfoldable pub fill_new : ℕ → List String → Dict String (List V) → Dict String (List V)
  fill_new i [] batch = batch
  fill_new i (k ∷ ks) batch = fill_new i ks (Dict.put batch k (replicate i (default_of k)))

  -- `for kwarg in missing_kwargs: req_kwargs[kwarg] = default`
  unfoldable pub fill_missing : List String → Dict String V → Dict String V
  fill_missing [] kwargs = kwargs
  fill_missing (k ∷ ks) kwargs = fill_missing ks (Dict.put kwargs k (default_of k))

  unfoldable pub collate_step : ℕ → Collated V → Dict String V → Collated V
  collate_step i c kwargs =
      let new = new_kwargs c.batch_kwargs kwargs in
      let missing = missing_kwargs c.batch_kwargs kwargs in
      let filled = if leb 1 i then fill_new i new c.batch_kwargs else c.batch_kwargs in
      record {
        batch_kwargs = append_all filled (fill_missing missing kwargs);
        invalid_reqs = invalid_after defaults i new missing c.invalid_reqs;
      }

  -- `for i, (_, _, req_kwargs) in enumerate(current_batch)`
  unfoldable pub collate_from : ℕ → Collated V → List (Request V) → Collated V
  collate_from i c [] = c
  collate_from i c (r ∷ rs) = collate_from (suc i) (collate_step i c r.kwargs) rs

  unfoldable pub collate : List (Request V) → Collated V
  collate = collate_from 0 (record { batch_kwargs = []; invalid_reqs = [] })
