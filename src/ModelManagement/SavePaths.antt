-- ===== src/ModelManagement/SavePaths.antt =====
-- caikit/core/model_management/local_job_base.py: the path under which a job's result is kept.
use caikit.Common.{
  ◌≡◌, ◌≢◌, ◌↔◌, ◌⊎◌, inl, inr, Bool, true, Option, none, some, not, ◌&&◌, List, [], ◌∷◌, ◌++◌,
  Text, occurs_in, if◌then◌else◌, arith, Bool-cases,
}

-- The texts that `_save_path_with_id` joins to a path.
unfoldable pub id_part : Bool → Text → Text → List Text
id_part save_with_id future_id save_path =
    if save_with_id && not (occurs_in future_id save_path) then future_id ∷ [] else []

unfoldable pub name_part : Option Text → Text → List Text
name_part none save_path = []
name_part (some []) save_path = []
name_part (some (c ∷ cs)) save_path = if occurs_in (c ∷ cs) save_path then [] else (c ∷ cs) ∷ []

unfoldable pub final_path_parts : Text → Bool → Text → Option Text → List Text → List Text
unfolding id_part name_part
final_path_parts save_path save_with_id future_id model_name extra_path_args =
    save_path
    ∷ (id_part save_with_id future_id save_path
        ++ (name_part model_name save_path ++ extra_path_args))

-- `_save_path_with_id`; `join` is `os.path.join`.
unfoldable pub save_path_with_id :
    (List Text → Text) → Option Text → Bool → Text → Option Text → Option (List Text) → Option Text
unfolding final_path_parts
save_path_with_id join none save_with_id future_id model_name extra_path_args = none
save_path_with_id join (some save_path) save_with_id future_id model_name none =
    some (join (final_path_parts save_path save_with_id future_id model_name []))
save_path_with_id join (some save_path) save_with_id future_id model_name (some extra) =
    some (join (final_path_parts save_path save_with_id future_id model_name extra))

cons-not_same {ℓ} : {A : Type ℓ} (x : A) (xs : List A) → (x ∷ xs) ≢ xs
cons-not_same x [] h = absurd (ground arith)
cons-not_same x (y ∷ xs) h = cons-not_same y xs (ground (arith, h))

-- When the id goes into the path, the parts for two ids are the same exactly if the ids are the same
-- or both occur somewhere in the given path: such jobs share one path.
pub final_path_parts-shared :
    (save_path a b : Text) (model_name : Option Text) (extra : List Text)
    → (final_path_parts save_path true a model_name extra
        ≡ final_path_parts save_path true b model_name extra)
      ↔ ((a ≡ b) ⊎ ((occurs_in a save_path ≡ true) × (occurs_in b save_path ≡ true)))
unfolding final_path_parts id_part
final_path_parts-shared save_path a b model_name extra =
    let rest = name_part model_name save_path ++ extra in
    elim (Bool-cases (occurs_in a save_path)) [
      | inl p ↦ elim (Bool-cases (occurs_in b save_path)) [
        | inl q ↦ (λ h. inr (p, q), λ h. ground (arith, p, q))
        | inr q ↦ ground (arith, p, q, cons-not_same b rest)
      ]
      | inr p ↦ elim (Bool-cases (occurs_in b save_path)) [
        | inl q ↦ ground (arith, p, q, cons-not_same a rest)
        | inr q ↦ ground (arith, p, q)
      ]
    ]
