-- ===== src/Configuration/Merging.antt =====
-- `merge_configs` and `_get_merge_strategy` of config.py.
use caikit.Common.{codes, Bool, false, Option, none, some, ◌>>=◌, ◌==◌, text_eq, if◌then◌else◌}
use caikit.Configuration.Values.{
  Value, null, flag, number, text, sequence, mapping, Entries, end, entry, concat, get, put,
}

module _ {N : Type 0} where
  -- The deep merge of the overrides onto the base, and what a key gets from its base value and the
  -- override; `none` is the `TypeError` that Python raises for a list and a dictionary.
  unfoldable mutual
    pub merge_entries : Entries N → Entries N → Option (Entries N)
    merge_entries base end = some base
    merge_entries base (entry k v rest) = do
      w ← merge_at (get base k) v
      merge_entries (put base k w) rest

    pub merge_at : Option (Value N) → Value N → Option (Value N)
    merge_at none v = some v
    merge_at (some null) v = some v
    merge_at (some (flag b)) v = some v
    merge_at (some (number n)) v = some v
    merge_at (some (text t)) v = some v
    merge_at (some (sequence bs)) (sequence vs) = some (sequence (concat vs bs))
    merge_at (some (sequence bs)) (mapping end) = some (sequence bs)
    merge_at (some (sequence bs)) (mapping (entry k v d)) = none
    merge_at (some (mapping b)) (sequence vs) = none
    merge_at (some (mapping b)) (mapping d) = do m ← merge_entries b d; some (mapping m)
    merge_at (some (sequence bs)) null = some null
    merge_at (some (sequence bs)) (flag c) = some (flag c)
    merge_at (some (sequence bs)) (number n) = some (number n)
    merge_at (some (sequence bs)) (text t) = some (text t)
    merge_at (some (mapping b)) null = some null
    merge_at (some (mapping b)) (flag c) = some (flag c)
    merge_at (some (mapping b)) (number n) = some (number n)
    merge_at (some (mapping b)) (text t) = some (text t)

  -- `base.update(overrides)`
  unfoldable pub update : Entries N → Entries N → Entries N
  update base end = base
  update base (entry k v rest) = update (put base k v) rest

  -- `cfg.get("merge_strategy", "merge")`
  unfoldable pub get_merge_strategy : Entries N → Value N
  get_merge_strategy cfg = elim (get cfg "merge_strategy") [
    | none ↦ text (codes "merge")
    | some v ↦ v
  ]

  -- `merge_strategy == "override"`
  abbrev pub is_override : Value N → Bool
  is_override (text t) = t == codes "override"
  is_override _ = false

  abbrev or_empty : Option (Entries N) → Entries N
  or_empty none = end
  or_empty (some d) = d

  unfoldable pub merge_configs :
      Option (Entries N) → Option (Entries N) → Value N → Option (Entries N)
  unfolding merge_entries update
  merge_configs none overrides strategy = some (or_empty overrides)
  merge_configs (some base) none strategy = some base
  merge_configs (some base) (some overrides) strategy =
      if is_override strategy then some (update base overrides) else merge_entries base overrides
