-- ===== src/Runtime/Sizers.antt =====
-- caikit/runtime/model_management/directory_model_sizer.py and mm_model_sizer.py: estimating how much memory
-- a model takes.
use caikit.Common.{
  ◌≡◌, ℕ, ◌+◌, zero, suc, Bool, Option, none, some, List, [], ◌∷◌, Text, text_eq, text_beq_iff,
  arith, Option-cases, inl, inr, if◌then◌else◌,
}
use caikit.Common.Dict
use caikit.Common.Dict.{Dict}

-- What `Path(…).rglob("*")` lists.
pub record Entry : Type 0 where
  pub is_file : Bool
  pub st_size : ℕ

-- The file system at a time. `getsize` has no size for a file that is not there.
pub record FileSystem : Type 0 where
  pub is_dir : Text → Bool
  pub rglob : Text → List Entry
  pub getsize : Text → Option ℕ

unfoldable pub sum_sizes : List Entry → ℕ
sum_sizes [] = 0
sum_sizes (e ∷ es) = let rest = sum_sizes es in if e.is_file then e.st_size + rest else rest

-- `__get_directory_size`: `none` is the exception with the code `NOT_FOUND`.
unfoldable pub get_directory_size : FileSystem → Text → Option ℕ
unfolding sum_sizes
get_directory_size fs path =
    if fs.is_dir path then some (sum_sizes (fs.rglob path)) else fs.getsize path

unfoldable pub keep_size : Text → Dict Text ℕ → Option ℕ → Option ℕ × Dict Text ℕ
keep_size path sizes none = (none, sizes)
keep_size path sizes (some n) = (some n, Dict.put sizes path n)

-- `DirectoryModelSizer.get_model_size`, with `model_directory_size`. A cached 0 counts as none.
unfoldable pub get_model_size : FileSystem → Text → Dict Text ℕ → Option ℕ × Dict Text ℕ
unfolding get_directory_size keep_size
get_model_size fs path sizes = elim (Dict.get sizes path) [
  | some (suc n) ↦ (some (suc n), sizes)
  | some zero ↦ keep_size path sizes (get_directory_size fs path)
  | none ↦ keep_size path sizes (get_directory_size fs path)
]

keep_size-again :
    (fs' : FileSystem) (path : Text) (sizes sizes' : Dict Text ℕ) (size : Option ℕ) (n : ℕ)
    → keep_size path sizes size ≡ (some (suc n), sizes')
    → Dict.get sizes' path ≡ some (suc n)
unfolding keep_size
keep_size-again fs' path sizes sizes' none n h = absurd (ground arith)
keep_size-again fs' path sizes sizes' (some k) n h =
    ground (arith, h, Dict.get-put sizes path k path, text_beq_iff path path)

-- What was sized with success, and is not empty, keeps its size: each later call for the path gives
-- the same one, whatever the file system is then, and changes nothing.
pub get_model_size-again :
    (fs fs' : FileSystem) (path : Text) (sizes sizes' : Dict Text ℕ) (n : ℕ)
    → get_model_size fs path sizes ≡ (some (suc n), sizes')
    → get_model_size fs' path sizes' ≡ (some (suc n), sizes')
unfolding get_model_size
get_model_size-again fs fs' path sizes sizes' n h = elim (Option-cases (Dict.get sizes path)) [
  | inl e ↦
      let kept =
        keep_size-again fs' path sizes sizes' (get_directory_size fs path) n
          (ground (arith, e, h)) in
      ground (arith, kept)
  | inr (zero, e) ↦
      let kept =
        keep_size-again fs' path sizes sizes' (get_directory_size fs path) n
          (ground (arith, e, h)) in
      ground (arith, kept)
  | inr (suc k, e) ↦ ground (arith, e, h)
]

-- `multiply size multiplier` is `int(size * multiplier)`, for the configured multipliers.
module _ {ℓ} {Multiplier : Type ℓ} (multiply : ℕ → Multiplier → ℕ)
    (multipliers : Dict Text Multiplier) (default_multiplier : Multiplier) where
  unfoldable pub multiplier_of : Text → Multiplier
  multiplier_of model_type = elim (Dict.get multipliers model_type) [
    | some x ↦ x
    | none ↦ default_multiplier
  ]

  unfoldable pub scaled : Text → Option ℕ × Dict Text ℕ → Option ℕ × Dict Text ℕ
  unfolding multiplier_of
  scaled model_type (none, sizes) = (none, sizes)
  scaled model_type (some n, sizes) = (some (multiply n (multiplier_of model_type)), sizes)

  -- `ModelMeshModelSizer.get_model_size`
  unfoldable pub get_mesh_size : FileSystem → Text → Text → Dict Text ℕ → Option ℕ × Dict Text ℕ
  unfolding scaled
  get_mesh_size fs path model_type sizes = scaled model_type (get_model_size fs path sizes)
