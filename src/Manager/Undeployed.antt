-- ===== src/Manager/Undeployed.antt =====
-- `undeploy_model` of runtime/model_management/model_manager.py: what it removes.
use caikit.Common.{
  ◌≡◌, inl, inr, sym, ap, ◌∙◌, none, some, [], ◌∷◌, Text, text_eq, ◌==◌, if◌then◌else◌, arith,
  Bool-cases,
}
use caikit.Common.Dict
use caikit.Common.Dict.{Dict}
use caikit.Common.Paths.{path_eq, path_beq_iff, join}
use caikit.Manager.Deploying.{
  Location, location, Disk, saved, Os, path_exists, is_under, remove_tree, undeploy_model,
}

get-remove_tree {ℓ} :
    {D : Type ℓ} (dir : Location) (files : Dict Location D) (p : Location)
    → Dict.get (remove_tree dir files) p ≡ (if is_under dir p then none else Dict.get files p)
unfolding remove_tree Dict.get
get-remove_tree dir [] p = ground arith
get-remove_tree dir ((q, content) ∷ files) p =
    let rest = get-remove_tree dir files p in
    elim (Bool-cases (q == p)) [
      | inl e ↦
          let same = ap (is_under dir) ((path_beq_iff q p).0 e) in
          elim (Bool-cases (is_under dir q)) [
            | inl u ↦ ground (arith, e, u, same, rest)
            | inr u ↦ ground (arith, e, u, same, rest)
          ]
      | inr e ↦ elim (Bool-cases (is_under dir q)) [
        | inl u ↦ ground (arith, e, u, rest)
        | inr u ↦ ground (arith, e, u, rest)
      ]
    ]

-- When undeploying a model succeeds, the files under its directory are gone, and every other file
-- stays as it is.
pub undeploy_model-removes {ℓ} :
    {D : Type ℓ} (os : Os) (local_models_dir model_id : Text) (p : Location) (disk disk' : Disk D)
    → undeploy_model os (some local_models_dir) model_id disk ≡ (saved, disk')
    → Dict.get disk'.files p ≡ (
        if is_under (location os (join local_models_dir model_id)) p
        then none
        else Dict.get disk.files p)
unfolding undeploy_model
undeploy_model-removes os local_models_dir model_id p disk disk' h =
    let dir = join local_models_dir model_id in
    elim (Bool-cases (local_models_dir == [])) [
      | inl e ↦ absurd (ground (arith, e, h))
      | inr e ↦ elim (Bool-cases (path_exists os disk dir)) [
        | inl x ↦
            let same : remove_tree (location os dir) disk.files ≡ disk'.files =
              ground (arith, e, x, h) in
            ap (λ l. Dict.get l p) (sym same) ∙ get-remove_tree (location os dir) disk.files p
        | inr x ↦ absurd (ground (arith, e, x, h))
      ]
    ]
