-- ===== src/Tests/Deploying.antt =====
-- Examples for deploying models.
use caikit.Common.{◌≡◌, refl, Bool, true, false, some, [], ◌∷◌, Text, codes, text_eq}
use caikit.Common.Dict
use caikit.Common.Dict.{Dict}
use caikit.Common.Paths.{path_eq, join, common_parts}
use caikit.Manager.Deploying.{
  done, Location, Disk, Os, deploy_model, path_exists, save_files, save_file, save_allowed,
  is_allowed, and_then, make_parent, write_file, after_io,
}
use caikit.Manager.Deployed.{deploy_model-spares}

abbrev os : Os
os = record {
  cwd = codes "srv" ∷ [];
  strip = λ s. s;
  dirname = λ p. codes "/models/a";
  same_dir = λ p q. true;
  make = λ p. done;
  write = λ p. done;
}

abbrev other_model : Location
other_model = codes "config.yml" ∷ codes "b" ∷ codes "models" ∷ []

abbrev disk : Disk Bool
disk = record {
  files = (other_model, true) ∷ [];
  dirs = (codes "models" ∷ []) ∷ (codes "b" ∷ codes "models" ∷ []) ∷ [];
}

-- The absolute name is refused.
abbrev model_files : Dict Text Bool
model_files = (codes "config.yml", false) ∷ (codes "/etc/passwd", false) ∷ []

deploy_model-spares_example :
    Dict.get
      (deploy_model os (some (codes "/models")) (codes "a") model_files disk).1.files
      (codes "passwd" ∷ codes "etc" ∷ [])
    ≡ Dict.get disk.files (codes "passwd" ∷ codes "etc" ∷ [])
unfolding join common_parts
deploy_model-spares_example =
    deploy_model-spares os (codes "/models") (codes "a") (codes "passwd" ∷ codes "etc" ∷ [])
      model_files disk refl refl

-- A relative name that climbs overwrites the file of another model.
climbs :
    Dict.get
      (deploy_model os
        (some (codes "/models"))
        (codes "a")
        ((codes "../b/config.yml", false) ∷ [])
        disk).1.files
      other_model
    ≡ some false
unfolding join common_parts deploy_model path_exists save_files save_file save_allowed is_allowed
    and_then make_parent write_file after_io Dict.get Dict.put Dict.has
climbs = refl
