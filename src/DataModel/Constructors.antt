-- ===== src/DataModel/Constructors.antt =====
-- The two constructors of data model classes: the one that `_make_init` of base.py writes, and the one
-- that `_make_oneof_init` of dataobject.py puts around the constructor of a dataclass.
use caikit.Common.{
  ◌+◌, String, Bool, false, not, ◌||◌, ◌&&◌, Option, none, some, List, [], ◌∷◌, ◌++◌, contains, any,
  length, ltb, ◌==◌, string_eq, if◌then◌else◌,
}
use caikit.Common.Dict.{Dict, get, has, put, remove}
use caikit.DataModel.Attributes.{DataClass, Object, fields_to_oneof, slot, set_attr}

-- The `TypeError`s of the constructors.
pub data InitError : Type 0 where
  too_many_arguments : InitError
  unknown_field : InitError
  multiple_values : InitError
  conflicting_oneof : InitError
  original_init_failed : InitError

-- The object with the names in `used_fields`, or an exception.
pub data Init (V : Type 0) : Type 0 where
  built : Object V → List String → Init V
  raised : InitError → Init V

abbrev pub empty_object : {V : Type 0} → Object V
empty_object = record { private_attrs = []; plain_attrs = []; which = []; backend = none }

module _ {V : Type 0} (cls : DataClass V) where
  -- The loop over the positional arguments.
  unfoldable pub set_args :
      List String → List (Option V) → Object V → List String → Object V × List String
  set_args [] args obj used = (obj, used)
  set_args (f ∷ fields) [] obj used = (obj, used)
  set_args (f ∷ fields) (v ∷ args) obj used =
      set_args fields args (set_attr cls f v obj) (used ++ f ∷ [])

  -- `which_oneof[oneof_name] = field_name` on the dictionary that the object already has.
  unfoldable pub note_oneof : Option String → String → Object V → Object V
  note_oneof none name obj = obj
  note_oneof (some oneof) name obj = record obj { which = put obj.which oneof (some name) }

  -- The loop over the keyword arguments.
  unfoldable pub set_kwargs : Dict String (Option V) → Object V → List String → Init V
  unfolding note_oneof
  set_kwargs [] obj used = built obj used
  set_kwargs ((name, v) ∷ kwargs) obj used =
      let field = slot cls name in
      let noted = note_oneof (get (fields_to_oneof cls) name) name obj in
      let rest = set_kwargs kwargs (set_attr cls field v noted) (used ++ field ∷ []) in
      if not (contains field cls.fields || has cls.oneofs field)
      then raised unknown_field
      else if contains field used
      then raised multiple_values
      else rest

  -- The loop over the fields that are left, with the default of each, `None` if it has none.
  unfoldable pub set_defaults :
      (String → Option V) → List String → List String → Object V → Object V
  set_defaults default [] used obj = obj
  set_defaults default (f ∷ fields) used obj = set_defaults default fields used (
      if not (contains f used) && not (has (fields_to_oneof cls) f)
      then set_attr cls f (default f) obj
      else obj)

  abbrev pub with_defaults : (String → Option V) → Init V → Init V
  with_defaults default (raised e) = raised e
  with_defaults default (built obj used) = built (set_defaults default cls.fields used obj) used

  -- The `__init__` of `_make_init`.
  unfoldable pub make_init : (String → Option V) → List (Option V) → Dict String (Option V) → Init V
  unfolding set_args set_kwargs set_defaults
  make_init default args kwargs =
      if ltb (length cls.fields) (length args + length kwargs)
      then raised too_many_arguments
      else let (obj, used) = set_args cls.fields args empty_object [] in
        with_defaults default (set_kwargs kwargs obj used)

  abbrev or_no_members : Option (List String) → List String
  or_no_members none = []
  or_no_members (some fs) = fs

  -- `oneofs_to_fields[oneof_name]`
  abbrev pub members : String → List String
  members oneof = or_no_members (get cls.oneofs oneof)

  -- Whether another field of the oneof, or the oneof, is among the keyword arguments too.
  unfoldable pub has_other : Dict String (Option V) → String → String → Bool
  has_other kwargs oneof name = any (λ f. not (f == name) && has kwargs f) (oneof ∷ members oneof)

  -- `new_kwargs` with `which_oneof`, and `kwargs` less `to_remove`.
  pub record Renamed : Type 0 where
    pub left : Dict String (Option V)
    pub renamed : Dict String (Option V)
    pub which_oneof : Dict String (Option String)

  unfoldable pub rename_one : String → String → Option V → Renamed → Renamed
  rename_one oneof name v r = record {
    left = remove r.left name;
    renamed = put r.renamed oneof v;
    which_oneof = put r.which_oneof oneof (some name);
  }

  -- The loop of `_make_oneof_init` over the keyword arguments; `given` tells whether a oneof has a
  -- positional argument, and `none` stands for a `TypeError`.
  unfoldable pub rename_from :
      (String → Bool) → Dict String (Option V) → Dict String (Option V) → Renamed → Option Renamed
  unfolding has_other rename_one
  rename_from given all_kwargs [] r = some r
  rename_from given all_kwargs ((name, v) ∷ kwargs) r = elim (get (fields_to_oneof cls) name) [
    | none ↦ rename_from given all_kwargs kwargs r
    | some oneof ↦
        let next = rename_from given all_kwargs kwargs (rename_one oneof name v r) in
        if given oneof || has_other all_kwargs oneof name then none else next
  ]

  -- `d.update(other)`
  unfoldable pub update : Dict String (Option V) → Dict String (Option V) → Dict String (Option V)
  update d [] = d
  update d ((k, v) ∷ other) = update (put d k v) other

  -- `list(cls.__dataclass_fields__.keys()).index(name) < len(args)`
  unfoldable pub is_positional : List String → List (Option V) → String → Bool
  is_positional (f ∷ fields) (v ∷ args) name = (f == name) || is_positional fields args name
  is_positional _ _ name = false

  unfoldable pub finish_init : Dict String (Option String) → Option (Object V) → Init V
  finish_init which none = raised original_init_failed
  finish_init which (some obj) = built (record obj { which = which }) []

  unfoldable pub init_renamed :
      (List (Option V) → Dict String (Option V) → Option (Object V))
      → List (Option V)
      → Option Renamed
      → Init V
  unfolding update finish_init
  init_renamed original_init args none = raised conflicting_oneof
  init_renamed original_init args (some r) =
      finish_init r.which_oneof (original_init args (update r.left r.renamed))

  -- The `__init__` of `_make_oneof_init`, around the one that `dataclass` wrote.
  unfoldable pub make_oneof_init :
      (List (Option V) → Dict String (Option V) → Option (Object V))
      → List String
      → List (Option V)
      → Dict String (Option V)
      → Init V
  unfolding init_renamed rename_from is_positional
  make_oneof_init original_init dataclass_fields args kwargs = init_renamed original_init args (
      rename_from (is_positional dataclass_fields args) kwargs kwargs
        (record { left = kwargs; renamed = []; which_oneof = [] }))
