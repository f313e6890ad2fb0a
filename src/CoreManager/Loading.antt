-- ===== src/CoreManager/Loading.antt =====
-- caikit/core/model_manager.py: loading a model from a directory or an archive, with the cache of the models
-- that are loaded as singletons.
use caikit.Common.{
  ◌≡◌, refl, ℕ, ◌+◌, Bool, true, false, Option, none, some, ◌&&◌, not, List, [], ◌∷◌, if◌then◌else◌,
  Text, codes, starts_with, text_eq, text_beq_iff, arith, Option-cases, inl, inr,
}
use caikit.Common.Dict
use caikit.Common.Dict.{Dict}
use caikit.CoreManager.Components.{
  Outcome, ok, value_error, file_not_found, other_error, Registry, Choice, choose, then_do, present,
}

-- The state of the manager that loading uses. The models are objects that Python takes for true.
pub record Loader {ℓ} (GF GI Finder Initializer Model : Type ℓ) : Type ℓ where
  pub finders : Registry GF Finder
  pub initializers : Registry GI Initializer
  pub singleton_module_cache : Dict Text Model
  -- how many temporary directories were made
  pub temporary : ℕ

-- The argument `module_path`.
pub data ModulePath {ℓ} (Buffer : Type ℓ) : Type ℓ where
  path : Text → ModulePath Buffer
  bytes_io : Buffer → ModulePath Buffer
  bytes : Buffer → ModulePath Buffer

-- The functions of `os`, `tempfile` and `zipfile` that loading calls.
pub record Files {ℓ} (Buffer : Type ℓ) : Type ℓ where
  pub path_exists : Text → Bool
  pub is_dir : Text → Bool
  pub listdir : Text → List Text
  pub join : Text → Text → Text
  pub normpath : Text → Text
  pub is_zipfile : ModulePath Buffer → Bool
  pub temporary_directory : ℕ → Text

module _ {ℓ} {GF GI Finder Initializer Model : Type ℓ} where
  unfoldable pub keep_singleton :
      Text
      → Outcome Model × Loader GF GI Finder Initializer Model
      → Outcome Model × Loader GF GI Finder Initializer Model
  keep_singleton module_path (ok x, m) =
      (ok x, record m { singleton_module_cache = Dict.put m.singleton_module_cache module_path x })
  keep_singleton module_path (value_error, m) = (value_error, m)
  keep_singleton module_path (file_not_found, m) = (file_not_found, m)
  keep_singleton module_path (other_error, m) = (other_error, m)

  pub keep_singleton-outcome :
      (p : Text) (x : Outcome Model × Loader GF GI Finder Initializer Model)
      → (keep_singleton p x).0 ≡ x.0
  unfolding keep_singleton
  keep_singleton-outcome p (ok x, m) = refl
  keep_singleton-outcome p (value_error, m) = refl
  keep_singleton-outcome p (file_not_found, m) = refl
  keep_singleton-outcome p (other_error, m) = refl

  keep_singleton-kept :
      (p : Text) (x : Outcome Model × Loader GF GI Finder Initializer Model) (model : Model)
      (m : Loader GF GI Finder Initializer Model)
      → keep_singleton p x ≡ (ok model, m)
      → Dict.get m.singleton_module_cache p ≡ some model
  unfolding keep_singleton
  keep_singleton-kept p (ok x, m') model m h =
      ground (arith, h, Dict.get-put m'.singleton_module_cache p x p, text_beq_iff p p)
  keep_singleton-kept p (value_error, m') model m h = absurd (ground arith)
  keep_singleton-kept p (file_not_found, m') model m h = absurd (ground arith)
  keep_singleton-kept p (other_error, m') model m h = absurd (ground arith)

  module _ (construct_finder : GF → Text → Outcome Finder) where
    unfoldable pub get_finder :
        Choice Finder
        → Loader GF GI Finder Initializer Model
        → Outcome Finder × Loader GF GI Finder Initializer Model
    unfolding choose
    get_finder f m =
        let (o, r) = choose construct_finder f m.finders in (o, record m { finders = r })

  module _ (construct_initializer : GI → Text → Outcome Initializer) where
    unfoldable pub get_initializer :
        Choice Initializer
        → Loader GF GI Finder Initializer Model
        → Outcome Initializer × Loader GF GI Finder Initializer Model
    unfolding choose
    get_initializer i m =
        let (o, r) = choose construct_initializer i m.initializers in
        (o, record m { initializers = r })

-- `find_model` and `init` are those of the components.
module _ {ℓ} {GF GI Finder Initializer Config Model : Type ℓ}
    (construct_finder : GF → Text → Outcome Finder)
    (construct_initializer : GI → Text → Outcome Initializer)
    (find_model : Finder → Text → Outcome (Option Config))
    (init : Initializer → Config → Outcome (Option Model)) where
  -- What `_do_load` does for a model that it does not find in the cache.
  unfoldable pub load_new :
      Text
      → Choice Finder
      → Choice Initializer
      → Loader GF GI Finder Initializer Model
      → Outcome Model × Loader GF GI Finder Initializer Model
  unfolding get_finder get_initializer
  load_new module_path f i m = then_do (get_finder construct_finder f m) (λ finder m₁.
      then_do (present (find_model finder module_path), m₁)
        (λ config m₂.
          then_do (get_initializer construct_initializer i m₂)
            (λ initializer m₃. (present (init initializer config), m₃))))

  -- `_do_load`
  unfoldable pub do_load :
      Text
      → Bool
      → Choice Finder
      → Choice Initializer
      → Loader GF GI Finder Initializer Model
      → Outcome Model × Loader GF GI Finder Initializer Model
  unfolding load_new keep_singleton
  do_load module_path false f i m = load_new module_path f i m
  do_load module_path true f i m = elim (Dict.get m.singleton_module_cache module_path) [
    | some x ↦ (ok x, m)
    | none ↦ keep_singleton module_path (load_new module_path f i m)
  ]

  do_load-kept :
      (p : Text) (f : Choice Finder) (i : Choice Initializer)
      (m m' : Loader GF GI Finder Initializer Model) (model : Model)
      → do_load p true f i m ≡ (ok model, m')
      → Dict.get m'.singleton_module_cache p ≡ some model
  unfolding do_load
  do_load-kept p f i m m' model h = elim (Option-cases (Dict.get m.singleton_module_cache p)) [
    | inl e ↦ keep_singleton-kept p (load_new p f i m) model m' (ground (arith, e, h))
    | inr (x, e) ↦ ground (arith, e, h)
  ]

  -- After a singleton load of a path with success, every later singleton load of the path gives the
  -- same model and changes nothing: also one that names another finder or initializer.
  pub do_load-again :
      (p : Text) (f g : Choice Finder) (i j : Choice Initializer)
      (m m' : Loader GF GI Finder Initializer Model) (model : Model)
      → do_load p true f i m ≡ (ok model, m')
      → do_load p true g j m' ≡ (ok model, m')
  unfolding do_load
  do_load-again p f g i j m m' model h = ground (arith, do_load-kept p f i m m' model h)

module _ {ℓ} {Buffer : Type ℓ} (os : Files Buffer) where
  -- The directories of an unpacked archive, in which the configuration may be.
  unfoldable pub nested_dirs : Text → List Text → List Text
  nested_dirs extract_path [] = []
  nested_dirs extract_path (f ∷ fs) =
      let rest = nested_dirs extract_path fs in
      if os.is_dir (os.join extract_path f) && not (starts_with f (codes "__"))
      then os.join extract_path f ∷ rest
      else rest

  -- A path that does not exist is looked for under the configured `load_path`.
  unfoldable pub under_load_path : Option Text → ModulePath Buffer → ModulePath Buffer
  under_load_path none p = p
  under_load_path (some load_path) (path p) =
      if not (os.path_exists p) && os.path_exists (os.join load_path p)
      then path (os.join load_path p)
      else path p
  under_load_path (some load_path) (bytes_io b) = bytes_io b
  under_load_path (some load_path) (bytes b) = bytes b

  unfoldable pub normalise : ModulePath Buffer → ModulePath Buffer
  normalise (path p) = path (os.normpath p)
  normalise (bytes_io b) = bytes_io b
  normalise (bytes b) = bytes_io b

-- The sections' parameters together.
module _ {ℓ} {GF GI Finder Initializer Config Model Buffer : Type ℓ}
    (construct_finder : GF → Text → Outcome Finder)
    (construct_initializer : GI → Text → Outcome Initializer)
    (find_model : Finder → Text → Outcome (Option Config))
    (init : Initializer → Config → Outcome (Option Model)) (os : Files Buffer) where
  unfoldable pub load_nested :
      List Text
      → Bool
      → Choice Finder
      → Choice Initializer
      → Loader GF GI Finder Initializer Model
      → Outcome Model × Loader GF GI Finder Initializer Model
  unfolding do_load
  load_nested [] s f i m = (file_not_found, m)
  load_nested (d ∷ []) s f i m =
      do_load construct_finder construct_initializer find_model init d s f i m
  load_nested (d ∷ e ∷ ds) s f i m = (file_not_found, m)

  unfoldable pub or_nested :
      Text
      → Bool
      → Choice Finder
      → Choice Initializer
      → Outcome Model × Loader GF GI Finder Initializer Model
      → Outcome Model × Loader GF GI Finder Initializer Model
  unfolding load_nested nested_dirs
  or_nested extract_path s f i (ok x, m) = (ok x, m)
  or_nested extract_path s f i (value_error, m) = (value_error, m)
  or_nested extract_path s f i (file_not_found, m) =
      load_nested (nested_dirs os extract_path (os.listdir extract_path)) s f i m
  or_nested extract_path s f i (other_error, m) = (other_error, m)

  -- `_load_from_zipfile`: the archive is unpacked into a new temporary directory.
  unfoldable pub load_from_zipfile :
      Bool
      → Choice Finder
      → Choice Initializer
      → Loader GF GI Finder Initializer Model
      → Outcome Model × Loader GF GI Finder Initializer Model
  unfolding do_load or_nested
  load_from_zipfile s f i m =
      let extract_path = os.temporary_directory m.temporary in
      or_nested extract_path s f i (
        do_load construct_finder construct_initializer find_model init extract_path s f i
          (record m { temporary = m.temporary + 1 }))

  -- What is no archive is loaded from its path. The finders raise a `TypeError` on a buffer.
  unfoldable pub load_directory :
      ModulePath Buffer
      → Bool
      → Choice Finder
      → Choice Initializer
      → Loader GF GI Finder Initializer Model
      → Outcome Model × Loader GF GI Finder Initializer Model
  unfolding do_load
  load_directory (path p) s f i m =
      do_load construct_finder construct_initializer find_model init p s f i m
  load_directory (bytes_io b) s f i m = (other_error, m)
  load_directory (bytes b) s f i m = (other_error, m)

  -- `load`
  unfoldable pub load :
      Option Text
      → ModulePath Buffer
      → Bool
      → Choice Finder
      → Choice Initializer
      → Loader GF GI Finder Initializer Model
      → Outcome Model × Loader GF GI Finder Initializer Model
  unfolding load_from_zipfile load_directory normalise under_load_path
  load load_path module_path s f i m =
      let p = normalise os (under_load_path os load_path module_path) in
      if os.is_zipfile p then load_from_zipfile s f i m else load_directory p s f i m
