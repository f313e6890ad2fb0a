-- ===== src/Configuration/Precedence.antt =====
-- Which of the sources of `configure` counts.
use caikit.Common.{
  Text, String, Bool, true, false, not, ◌&&◌, Option, none, some, ◌>>=◌, List, [], ◌∷◌, all, ◌≡◌,
  refl, sym, ap, ◌∙◌, arith,
}
use caikit.Configuration.Values.{Value, Entries, distinct_keys}
use caikit.Configuration.Merging.{merge_configs, merge_entries, is_override, get_merge_strategy}
use caikit.Configuration.Paths.{find, decides, merged, find-merge_entries}
use caikit.Configuration.Configure.{
  Outside, Configs, Configured, configured, merge_files, merge_extra_files, merge_into, type_error,
  or_raise, unreadable, extra_config_files, new_config, configure, and_then,
}

module _ {N : Type 0} where
  -- The merge of one dictionary with the strategy that it asks for, where that is not `override`.
  merge_configs-deep :
      (base overrides : Entries N)
      → is_override (get_merge_strategy overrides) ≡ false
      → merge_configs (some base) (some overrides) (get_merge_strategy overrides)
        ≡ merge_entries base overrides
  unfolding merge_configs
  merge_configs-deep base overrides h = rw h refl

  -- A dictionary that is merged deeply and settles the path.
  abbrev pub settles : String → List String → Entries N → Bool
  settles k path o = distinct_keys o && not (is_override (get_merge_strategy o)) && decides o k path

  abbrev pub fold_merged :
      Option (Value N) → List (Entries N) → String → List String → Option (Value N)
  fold_merged v [] k path = v
  fold_merged v (o ∷ os) k path = fold_merged (merged v (find o k path)) os k path

module _ {N : Type 0} (out : Outside N) where
  abbrev pub read_all : List Text → Option (List (Entries N))
  read_all [] = some []
  read_all (file ∷ files) = do o ← out.from_yaml file; os ← read_all files; some (o ∷ os)

  merge_into-deep :
      (base overrides : Entries N)
      → is_override (get_merge_strategy overrides) ≡ false
      → merge_into out base overrides ≡ or_raise type_error (merge_entries base overrides)
  merge_into-deep base overrides h = ap (or_raise type_error) (merge_configs-deep base overrides h)

  module _ (k : String) (path : List String) (result : Entries N)
      (rest : Entries N → Configured N) where
    merge_found :
        (cfg o : Entries N) (os : List (Entries N)) (x : Option (Entries N))
        → settles k path o ≡ true
        → merge_entries cfg o ≡ x
        → ((m : Entries N)
            → rest m ≡ configured result
            → find result k path ≡ fold_merged (find m k path) os k path)
        → and_then (or_raise type_error x) rest ≡ configured result
        → find result k path ≡ fold_merged (merged (find cfg k path) (find o k path)) os k path
    unfolding and_then or_raise
    merge_found cfg o os none s em ih e = absurd (ground arith)
    merge_found cfg o os (some m) s em ih e =
        ih m e
        ∙ ap (λ v. fold_merged v os k path)
            (find-merge_entries cfg o m k path (ground arith) em (ground arith))

    into_found :
        (cfg o : Entries N) (os : List (Entries N))
        → settles k path o ≡ true
        → ((m : Entries N)
            → rest m ≡ configured result
            → find result k path ≡ fold_merged (find m k path) os k path)
        → and_then (merge_into out cfg o) rest ≡ configured result
        → find result k path ≡ fold_merged (merged (find cfg k path) (find o k path)) os k path
    into_found cfg o os s ih e =
        merge_found cfg o os (merge_entries cfg o) s refl ih
          (sym (ap (λ c. and_then c rest) (merge_into-deep cfg o (ground arith))) ∙ e)

    read_found :
        (cfg : Entries N) (os : List (Entries N)) (x : Option (Entries N))
        (y : Option (List (Entries N)))
        → (x >>= λ o. y >>= λ os'. some (o ∷ os')) ≡ some os
        → all (settles k path) os ≡ true
        → ((os' : List (Entries N)) (m : Entries N)
            → y ≡ some os'
            → all (settles k path) os' ≡ true
            → rest m ≡ configured result
            → find result k path ≡ fold_merged (find m k path) os' k path)
        → (and_then (or_raise unreadable x) λ o. and_then (merge_into out cfg o) rest)
          ≡ configured result
        → find result k path ≡ fold_merged (find cfg k path) os k path
    unfolding and_then or_raise
    read_found cfg os none y r s ih e = absurd (ground arith)
    read_found cfg os (some o) none r s ih e = absurd (ground arith)
    read_found cfg [] (some o) (some os') r s ih e = absurd (ground arith)
    read_found cfg (p ∷ ps) (some o) (some os') r s ih e =
        let q : o ≡ p = cc in
        let qs : os' ≡ ps = cc in
        into_found cfg p ps (ground arith) (λ m. ih ps m (ap some qs) (ground arith))
          (ap (λ c. and_then (merge_into out cfg c) rest) (sym q) ∙ e)

  merge_files-found :
      (files : List Text) (os : List (Entries N)) (cfg result : Entries N) (k : String)
      (path : List String)
      → read_all files ≡ some os
      → all (settles k path) os ≡ true
      → merge_files out files cfg ≡ configured result
      → find result k path ≡ fold_merged (find cfg k path) os k path
  unfolding merge_files
  merge_files-found [] os cfg result k path r s e = ground arith
  merge_files-found (file ∷ files) os cfg result k path r s e =
      read_found k path result (merge_files out files) cfg os (out.from_yaml file) (read_all files)
        r s (λ os' m r' s' e'. merge_files-found files os' m result k path r' s' e') e

  -- Loading the extra files puts them on top of each other from left to right: where all of them
  -- can be read, each one has distinct keys, is merged deeply and settles the path, and no merge
  -- raises, the configuration has there what the base had, merged with what each file has in
  -- turn, so that of plain values the last one counts and of lists the last one comes first.
  pub find-merge_extra_files :
      (cfg result : Entries N) (os : List (Entries N)) (k : String) (path : List String)
      → read_all (extra_config_files out cfg) ≡ some os
      → all (settles k path) os ≡ true
      → merge_extra_files out cfg ≡ configured result
      → find result k path ≡ fold_merged (find cfg k path) os k path
  unfolding merge_extra_files
  find-merge_extra_files cfg result os k path r s e =
      merge_files-found (extra_config_files out cfg) os cfg result k path r s e

  abbrev pub given : Option Text → Bool
  given none = false
  given (some []) = false
  given (some (c ∷ path)) = true

  -- When a path is given, `configure` does not look at `config_dict` at all: the two dictionaries lead
  -- to the same configurations and the same result, whatever they say.
  pub configure_path_only :
      (path : Option Text) (d d' : Option (Entries N)) (st : Configs N)
      → given path ≡ true
      → configure out path d st ≡ configure out path d' st
  unfolding configure new_config
  configure_path_only none d d' st h = absurd (ground arith)
  configure_path_only (some []) d d' st h = absurd (ground arith)
  configure_path_only (some (c ∷ path)) d d' st h = refl
