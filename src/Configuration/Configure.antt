-- ===== src/Configuration/Configure.antt =====
-- `configure`, `_merge_extra_files` and `_update_global_config` of config.py.
use caikit.Common.{
  Text, Bool, true, false, not, Option, none, some, List, [], ◌∷◌, map, nat_eq, if◌then◌else◌,
}
use caikit.Common.Split.{split}
use caikit.Configuration.Values.{
  Value, null, flag, number, text, sequence, mapping, nil, cons, Entries, end, entry, get,
}
use caikit.Configuration.Merging.{merge_configs, get_merge_strategy}

-- What `configure` may raise: its own `ValueError`, what `aconfig` raises for a file that cannot be
-- read, and the `TypeError` of a merge.
pub data Error : Type 0 where
  value_error : Error
  unreadable : Error
  type_error : Error

pub data Configured (N : Type 0) : Type 0 where
  configured : Entries N → Configured N
  raised : Error → Configured N

-- What the module takes from `aconfig` and from Python: `from_yaml` reads a file, environment
-- variables included, `with_env` is `aconfig.Config` of a dictionary, which applies the environment
-- variables, `str` and `is_zero` are Python's for values and for numbers, `strip` is that of strings.
pub record Outside (N : Type 0) : Type 0 where
  pub from_yaml : Text → Option (Entries N)
  pub with_env : Entries N → Entries N
  pub str : Value N → Text
  pub is_zero : N → Bool
  pub strip : Text → Text

-- `_CONFIG` and `_IMMUTABLE_CONFIG`
pub record Configs (N : Type 0) : Type 0 where
  pub config : Entries N
  pub immutable_config : Entries N

module _ {N : Type 0} where
  -- Sequencing, and the exception that a failed call raises.
  unfoldable pub and_then : Configured N → (Entries N → Configured N) → Configured N
  and_then (raised e) f = raised e
  and_then (configured c) f = f c

  unfoldable pub or_raise : Error → Option (Entries N) → Configured N
  or_raise e none = raised e
  or_raise e (some d) = configured d

module _ {N : Type 0} (out : Outside N) where
  open out use {from_yaml, with_env, str, is_zero, strip}

  abbrev is_empty : Entries N → Bool
  is_empty end = true
  is_empty (entry k v d) = false

  -- `bool(value)`
  abbrev pub truthy : Value N → Bool
  truthy null = false
  truthy (flag b) = b
  truthy (number n) = not (is_zero n)
  truthy (text []) = false
  truthy (text (c ∷ t)) = true
  truthy (sequence nil) = false
  truthy (sequence (cons v vs)) = true
  truthy (mapping d) = not (is_empty d)

  abbrev pub merge_into : Entries N → Entries N → Configured N
  merge_into base overrides =
      or_raise type_error
        (merge_configs (some base) (some overrides) (get_merge_strategy overrides))

  -- The `for` loop of `_merge_extra_files`.
  unfoldable pub merge_files : List Text → Entries N → Configured N
  merge_files [] cfg = configured cfg
  merge_files (file ∷ files) cfg =
      and_then (or_raise unreadable (from_yaml file))
        λ overrides. and_then (merge_into cfg overrides) (merge_files files)

  -- `config.config_files`, as a list of file names: an entry that is missing or false is no file.
  abbrev pub extra_config_files : Entries N → List Text
  extra_config_files cfg = elim (get cfg "config_files") [
    | none ↦ []
    | some v ↦ if truthy v then map strip (split b',' (str v)) else []
  ]

  unfoldable pub merge_extra_files : Entries N → Configured N
  unfolding merge_files split
  merge_extra_files cfg = merge_files (extra_config_files cfg) cfg

  -- The overrides: the file if a path is given, and the dictionary only if none is.
  unfoldable pub new_config : Option Text → Option (Entries N) → Configured N
  new_config (some (c ∷ path)) config_dict = or_raise unreadable (from_yaml (c ∷ path))
  new_config _ (some (entry k v d)) = configured (with_env (entry k v d))
  new_config _ _ = raised value_error

  -- The configuration that `configure` computes from `_CONFIG`.
  unfoldable pub configure_from : Option Text → Option (Entries N) → Entries N → Configured N
  unfolding merge_extra_files new_config
  configure_from path config_dict base =
      and_then (new_config path config_dict)
        λ overrides. and_then (merge_into (with_env base) overrides) merge_extra_files

  -- `_update_global_config`, and nothing if an exception leaves `configure` before it.
  abbrev update_global_config : Configured N → Configs N → Configs N
  update_global_config (raised e) st = st
  update_global_config (configured c) st = record { config = c; immutable_config = c }

  unfoldable pub configure : Option Text → Option (Entries N) → Configs N → Configs N × Configured N
  unfolding configure_from
  configure path config_dict st =
      let r = configure_from path config_dict st.config in (update_global_config r st, r)
