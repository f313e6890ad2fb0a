-- ===== src/CoreManager/Futures.antt =====
-- caikit/core/model_manager.py: finding the future of a background job by its id. A trainer and a predictor
-- are looked up in the same way.
use caikit.Common.{
  ◌≡◌, ap, ◌∙◌, ℕ, true, false, none, List, Text, codes, take_until, text_eq, nat_eq, arith,
}
use caikit.Common.Dict
use caikit.Common.Dict.{Dict}
use caikit.ModelManagement.JobIds.{charset, job_id, get_job_name, IsShuffle, get_job_name-job_id}
use caikit.CoreManager.Components.{
  Outcome, ok, value_error, file_not_found, other_error, Registry, get_component,
}

-- `get_future` of a component gives the future of an id or raises; `shuffled` is the order of the
-- hasher's characters.
module _ {ℓ} {G C F : Type ℓ} (construct : G → Text → Outcome C) (get_future : C → Text → Outcome F)
    (shuffled : List ℕ) where
  unfoldable pub ask : Text → Outcome C × Registry G C → Outcome F × Registry G C
  ask id (ok c, r) = (get_future c id, r)
  ask id (value_error, r) = (value_error, r)
  ask id (file_not_found, r) = (file_not_found, r)
  ask id (other_error, r) = (other_error, r)

  -- A `ValueError` of the look-up falls back to the default component.
  unfoldable pub with_default : Text → Outcome C × Registry G C → Outcome F × Registry G C
  unfolding ask
  with_default id (ok c, r) = (get_future c id, r)
  with_default id (value_error, r) = ask id (get_component construct (codes "default") r)
  with_default id (file_not_found, r) = (file_not_found, r)
  with_default id (other_error, r) = (other_error, r)

  -- `get_model_future` and `get_prediction_future`
  unfoldable pub get_job_future : Text → Registry G C → Outcome F × Registry G C
  unfolding with_default
  get_job_future id r = with_default id (get_component construct (get_job_name shuffled id) r)

  -- The future of a job whose id was made with the name of its component is asked of that component,
  -- if the name has no colon and the component can be had.
  pub get_job_future-routes :
      (name future_id : Text) (r r' : Registry G C) (c : C)
      → IsShuffle charset shuffled
      → take_until b':' name ≡ name
      → get_component construct name r ≡ (ok c, r')
      → get_job_future (job_id shuffled name future_id true) r
        ≡ (get_future c (job_id shuffled name future_id true), r')
  unfolding get_job_future
  get_job_future-routes name future_id r r' c s n g =
      ap (λ k. with_default (job_id shuffled name future_id true) (get_component construct k r))
        (get_job_name-job_id shuffled s name future_id ∙ n)
      ∙ ap (with_default (job_id shuffled name future_id true)) g

  -- An id that was made without the name of its component, as those of the local trainer are, is only
  -- looked for in the default component, if what is read from the id as a name is not configured:
  -- whatever component made it.
  pub get_job_future-default :
      (name future_id : Text) (r r' : Registry G C) (c : C)
      → Dict.get r.built (get_job_name shuffled future_id) ≡ none
      → Dict.get r.config (get_job_name shuffled future_id) ≡ none
      → get_component construct (codes "default") r ≡ (ok c, r')
      → get_job_future (job_id shuffled name future_id false) r ≡ (get_future c future_id, r')
  unfolding get_job_future with_default ask job_id get_component
  get_job_future-default name future_id r r' c b g d = ground (arith, b, g, d)
