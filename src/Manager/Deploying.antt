-- ===== src/Manager/Deploying.antt =====
-- `deploy_model` and `undeploy_model` of runtime/model_management/model_manager.py: what they do to the
-- directory of models. `load_model` and `unload_model`, which they call at their ends, are in Defs.
use caikit.Common.{
  Bool, true, false, not, ◌||◌, Option, none, some, List, [], ◌∷◌, contains, Text, text_eq, ◌==◌,
  if◌then◌else◌,
}
use caikit.Common.Dict
use caikit.Common.Dict.{Dict, keys}
use caikit.Common.Paths.{path_eq, is_abs, join, parts, common_parts}
use caikit.Runtime.Statuses.{
  GrpcCode, grpc_already_exists, grpc_invalid_argument, grpc_failed_precondition, grpc_unknown,
  grpc_not_found,
}

-- How a call of the file system ends.
pub data Io : Type 0 where
  done : Io
  permission_error : Io
  os_error : Io

-- Where a file or a directory is: the names from it up to the root.
abbrev pub Location : Type 0
Location = List Text

-- The files with what is in them, and the directories. Links are left out.
pub record Disk {ℓ} (D : Type ℓ) : Type ℓ where
  pub files : Dict Location D
  pub dirs : List Location

-- How saving the files of a model ends; after `saved` the model is loaded.
pub data Saved : Type 0 where
  saved : Saved
  refused : GrpcCode → Saved
  value_error : Saved

-- What is called of `str`, `os` and `os.path`, with the working directory; `same_dir` is whether the one
-- path is `.` relative to the other.
pub record Os : Type 0 where
  pub cwd : Location
  pub strip : Text → Text
  pub dirname : Text → Text
  pub same_dir : Text → Text → Bool
  pub make : Text → Io
  pub write : Text → Io

abbrev pub dotdot : Text
dotdot = b'.' ∷ b'.' ∷ []

abbrev pub parent : Location → Location
parent [] = []
parent (x ∷ l) = l

-- Where a path leads from a place, part by part.
abbrev pub walk : Location → List Text → Location
walk l [] = l
walk l (x ∷ p) = if x == dotdot then walk (parent l) p else walk (x ∷ l) p

abbrev pub location : Os → Text → Location
location os p = walk (if is_abs p then [] else os.cwd) (parts p)

unfoldable pub path_exists {ℓ} : {D : Type ℓ} → Os → Disk D → Text → Bool
path_exists os disk p = Dict.has disk.files (location os p) || contains (location os p) disk.dirs

-- The exceptions of the file system that `deploy_model` turns into its own.
unfoldable pub after_io {ℓ} : {A : Type ℓ} → Io → A → (Saved → A) → A
after_io done next fail = next
after_io permission_error next fail = fail (refused grpc_failed_precondition)
after_io os_error next fail = fail (refused grpc_unknown)

-- The check of a file name: `none` is the `ValueError` of `commonpath` for an absolute and a relative path.
unfoldable pub is_allowed : Text → Text → Option Bool
is_allowed model_dir fpath =
    if (if is_abs model_dir then is_abs fpath else not (is_abs fpath))
    then some
        (elim (common_parts (parts model_dir) (parts fpath)) [ [] ↦ false | part ∷ rest ↦ true ])
    else none

module _ {ℓ} {D : Type ℓ} (os : Os) where
  unfoldable pub write_file : Text → D → Disk D → Saved × Disk D
  unfolding after_io
  write_file fpath content disk =
      after_io (os.write fpath)
        (saved, record disk { files = Dict.put disk.files (location os fpath) content })
        (λ e. (e, disk))

  unfoldable pub make_parent : Text → Text → Disk D → Saved × Disk D
  unfolding after_io
  make_parent model_dir fpath disk =
      let parent_dir = os.dirname fpath in
      if os.same_dir parent_dir model_dir
      then (saved, disk)
      else after_io (os.make parent_dir)
          (saved, record disk { dirs = location os parent_dir ∷ disk.dirs }) (λ e. (e, disk))

  -- What follows a step that has succeeded.
  unfoldable pub and_then : Saved × Disk D → (Disk D → Saved × Disk D) → Saved × Disk D
  and_then (saved, disk) f = f disk
  and_then (refused c, disk) f = (refused c, disk)
  and_then (value_error, disk) f = (value_error, disk)

  unfoldable pub save_allowed : Option Bool → Text → Text → D → Disk D → Saved × Disk D
  unfolding and_then make_parent write_file
  save_allowed none model_dir fpath content disk = (value_error, disk)
  save_allowed (some false) model_dir fpath content disk = (refused grpc_invalid_argument, disk)
  save_allowed (some true) model_dir fpath content disk =
      and_then (make_parent model_dir fpath disk) (λ made. write_file fpath content made)

  -- One round of the loop over the files.
  unfoldable pub save_file : Text → Text → D → Disk D → Saved × Disk D
  unfolding save_allowed is_allowed
  save_file model_dir fname content disk =
      let name = os.strip fname in
      if name == []
      then (refused grpc_invalid_argument, disk)
      else save_allowed (is_allowed model_dir (join model_dir name)) model_dir (join model_dir name)
          content disk

  unfoldable pub save_files : Text → Dict Text D → Disk D → Saved × Disk D
  unfolding save_file and_then
  save_files model_dir [] disk = (saved, disk)
  save_files model_dir ((fname, content) ∷ model_files) disk =
      and_then (save_file model_dir fname content disk)
        (λ next. save_files model_dir model_files next)

  -- `deploy_model`, up to the load of the model.
  unfoldable pub deploy_model : Option Text → Text → Dict Text D → Disk D → Saved × Disk D
  unfolding save_files path_exists after_io
  deploy_model none model_id model_files disk = (value_error, disk)
  deploy_model (some local_models_dir) model_id model_files disk =
      let model_dir = join local_models_dir model_id in
      if local_models_dir == []
      then (value_error, disk)
      else if path_exists os disk model_dir
      then (refused grpc_already_exists, disk)
      else after_io (os.make model_dir)
          (save_files model_dir model_files
            (record disk { dirs = location os model_dir ∷ disk.dirs }))
          (λ e. (e, disk))

-- Whether a place is a directory or lies under it.
abbrev pub is_under : Location → Location → Bool
is_under dir [] = dir == []
is_under dir (x ∷ l) = (dir == x ∷ l) || is_under dir l

-- `shutil.rmtree` of a directory, for the files.
unfoldable pub remove_tree {ℓ} : {D : Type ℓ} → Location → Dict Location D → Dict Location D
remove_tree dir [] = []
remove_tree dir ((q, content) ∷ files) =
    let rest = remove_tree dir files in if is_under dir q then rest else (q, content) ∷ rest

unfoldable pub other_dirs : Location → List Location → List Location
other_dirs dir [] = []
other_dirs dir (q ∷ dirs) =
    let rest = other_dirs dir dirs in if is_under dir q then rest else q ∷ rest

-- `undeploy_model`, up to unloading the model.
unfoldable pub undeploy_model {ℓ} : {D : Type ℓ} → Os → Option Text → Text → Disk D → Saved × Disk D
unfolding remove_tree other_dirs path_exists
undeploy_model os none model_id disk = (value_error, disk)
undeploy_model os (some local_models_dir) model_id disk =
    let local_model_path = join local_models_dir model_id in
    if local_models_dir == []
    then (value_error, disk)
    else if path_exists os disk local_model_path
    then (
      saved,
      record {
        files = remove_tree (location os local_model_path) disk.files;
        dirs = other_dirs (location os local_model_path) disk.dirs;
      },
    )
    else (refused grpc_not_found, disk)
