-- ===== src/DataModel/Attributes.antt =====
-- The attributes of `DataBase` objects: `__setattr__`, the property getters, `which_oneof` and
-- `_infer_which_oneof` of caikit/core/data_model/base.py.
use caikit.Common.{
  String, Bool, false, ◌||◌, Option, none, some, List, [], ◌∷◌, contains, ◌==◌, string_eq,
  if◌then◌else◌,
}
use caikit.Common.Dict.{Dict, get, has, put, remove}

-- What is known of a data model class: `fields`, `_fields_oneofs_map`, and `is_valid`, which is
-- `_is_valid_type_for_field` on values that are not `None`. Each oneof has a property of its name.
pub record DataClass (V : Type 0) : Type 0 where
  pub fields : List String
  pub oneofs : Dict String (List String)
  pub is_valid : String → V → Bool

-- What `get_attribute` of a backend does: raise `AttributeError` or another exception, or return a
-- value, plain or as a `OneofFieldVal`. A value `none` is Python's `None`.
pub data Fetched (V : Type 0) : Type 0 where
  no_attribute : Fetched V
  fails : Fetched V
  plain : Option V → Fetched V
  oneof_field_val : Option V → Option String → Fetched V

-- `DataModelBackendBase`
pub record Backend (V : Type 0) : Type 0 where
  pub get_attribute : String → Fetched V
  pub cache_attribute : String → Option V → Bool

-- An object: the values of its fields and oneofs, which the program keeps under the name with an
-- underscore before it, the attributes under their own name, the dictionary of `which_oneof` and the
-- backend. The four are apart in the program if no field or oneof is named `backend`, `which_oneof`,
-- `fields` or with an underscore first, and no attribute with an underscore is set by hand.
pub record Object (V : Type 0) : Type 0 where
  pub private_attrs : Dict String (Option V)
  pub plain_attrs : Dict String (Option V)
  pub which : Dict String (Option String)
  pub backend : Option (Backend V)

-- What reading an attribute gives, with the two kinds of exception apart.
pub data Read {ℓ} (A : Type ℓ) : Type ℓ where
  found : A → Read A
  attribute_error : Read A
  other_error : Read A

abbrev put_fields : String → List String → Dict String String → Dict String String
put_fields oneof [] d = d
put_fields oneof (f ∷ fs) d = put_fields oneof fs (put d f oneof)

abbrev put_oneofs : Dict String (List String) → Dict String String → Dict String String
put_oneofs [] d = d
put_oneofs ((oneof, fs) ∷ rest) d = put_oneofs rest (put_fields oneof fs d)

-- `which_oneof.get(oneof_name)`, where `None` counts as missing.
unfoldable pub known : Dict String (Option String) → String → Option String
known which oneof = elim (get which oneof) [
  | none ↦ none
  | some none ↦ none
  | some (some f) ↦ some f
]

module _ {V : Type 0} (cls : DataClass V) where
  -- `_fields_to_oneof`
  unfoldable pub fields_to_oneof : Dict String String
  fields_to_oneof = put_oneofs cls.oneofs []

  -- The oneof under whose name a field is held, and its own name for any other attribute.
  abbrev pub slot : String → String
  slot name = elim (get fields_to_oneof name) [ none ↦ name | some oneof ↦ oneof ]

  abbrev pop_oneof : String → Dict String (Option String) → Dict String (Option String)
  pop_oneof name which = if has cls.oneofs name then remove which name else which

  abbrev set_oneof : String → Dict String (Option String) → Dict String (Option String)
  set_oneof name which = elim (get fields_to_oneof name) [
    | none ↦ which
    | some oneof ↦ put which oneof (some name)
  ]

  -- `DataBase.__setattr__`
  unfoldable pub set_attr : String → Option V → Object V → Object V
  set_attr name val obj =
      let target = slot name in
      let which' = set_oneof name (pop_oneof name obj.which) in
      if contains target cls.fields || has cls.oneofs target
      then record obj { private_attrs = put obj.private_attrs target val; which = which' }
      else record obj { plain_attrs = put obj.plain_attrs target val; which = which' }

  -- Caching what the backend gave.
  abbrev pub keep_fetched : Backend V → String → Option V → Object V → Read (Option V) × Object V
  keep_fetched b field val obj =
      (found val, if b.cache_attribute field val then set_attr field val obj else obj)

  unfoldable pub fetched : Backend V → String → Object V → Fetched V → Read (Option V) × Object V
  fetched b field obj no_attribute = (attribute_error, obj)
  fetched b field obj fails = (other_error, obj)
  fetched b field obj (plain val) = keep_fetched b field val obj
  fetched b field obj (oneof_field_val val w) =
      if has cls.oneofs field
      then keep_fetched b field val (record obj { which = put obj.which field w })
      else (other_error, obj)

  unfoldable pub ask : Option (Backend V) → String → Object V → Read (Option V) × Object V
  unfolding fetched
  ask none field obj = (attribute_error, obj)
  ask (some b) field obj = fetched b field obj (b.get_attribute field)

  -- The part of `_property_getter` that asks the backend.
  unfoldable pub fetch : String → Object V → Read (Option V) × Object V
  unfolding ask
  fetch field obj = ask obj.backend field obj

  unfoldable pub stored : Option (Option V) → String → Object V → Read (Option V) × Object V
  unfolding fetch
  stored (some val) name obj = (found val, obj)
  stored none name obj = fetch name obj

  -- `_property_getter` of a field that is in no oneof, or of a oneof.
  unfoldable pub get_plain : String → Object V → Read (Option V) × Object V
  unfolding stored
  get_plain name obj = stored (get obj.private_attrs name) name obj

  -- `_is_valid_type_for_field`, for which `None` is never valid.
  abbrev pub is_valid_type : String → Option V → Bool
  is_valid_type field none = false
  is_valid_type field (some val) = cls.is_valid field val

  abbrev pub first_valid : List String → Option V → Option String
  first_valid [] val = none
  first_valid (f ∷ fs) val = if is_valid_type f val then some f else first_valid fs val

  abbrev or_no_fields : Option (List String) → List String
  or_no_fields none = []
  or_no_fields (some fs) = fs

  -- `_infer_which_oneof`
  unfoldable pub infer_which_oneof : String → Option V → Option String
  infer_which_oneof oneof val = first_valid (or_no_fields (get cls.oneofs oneof)) val

  unfoldable pub or_inferred :
      Option String → Option String → String → Object V → Read (Option String) × Object V
  or_inferred (some f) inferred oneof obj = (found (some f), obj)
  or_inferred none none oneof obj = (found none, obj)
  or_inferred none (some f) oneof obj =
      (found (some f), record obj { which = put obj.which oneof (some f) })

  -- `which_oneof` after the value of the oneof has been read.
  unfoldable pub settle_which :
      String → Read (Option V) × Object V → Read (Option String) × Object V
  unfolding known or_inferred infer_which_oneof
  settle_which oneof (attribute_error, obj) = (attribute_error, obj)
  settle_which oneof (other_error, obj) = (other_error, obj)
  settle_which oneof (found val, obj) =
      or_inferred (known obj.which oneof) (infer_which_oneof oneof val) oneof obj

  unfoldable pub known_or : Option String → String → Object V → Read (Option String) × Object V
  unfolding get_plain settle_which
  known_or (some f) oneof obj = (found (some f), obj)
  known_or none oneof obj = settle_which oneof (get_plain oneof obj)

  -- `DataBase.which_oneof`
  unfoldable pub which_oneof : String → Object V → Read (Option String) × Object V
  unfolding known_or known
  which_oneof oneof obj = known_or (known obj.which oneof) oneof obj

  -- A failed `getattr` with a default leads to the backend.
  unfoldable pub or_fetch : String → Read (Option V) × Object V → Read (Option V) × Object V
  or_fetch field (found val, obj) = (found val, obj)
  or_fetch field (attribute_error, obj) = fetch field obj
  or_fetch field (other_error, obj) = (other_error, obj)

  unfoldable pub get_chosen :
      String → String → Read (Option String) × Object V → Read (Option V) × Object V
  get_chosen oneof field (attribute_error, obj) = (attribute_error, obj)
  get_chosen oneof field (other_error, obj) = (other_error, obj)
  get_chosen oneof field (found none, obj) = (found none, obj)
  get_chosen oneof field (found (some f), obj) =
      if f == field then or_fetch field (get_plain oneof obj) else (found none, obj)

  unfoldable pub get_at : Option String → String → Object V → Read (Option V) × Object V
  unfolding get_chosen or_fetch which_oneof
  get_at none name obj = get_plain name obj
  get_at (some oneof) name obj = get_chosen oneof name (which_oneof oneof obj)

  -- Reading an attribute that is a field or a oneof.
  unfoldable pub get_attr : String → Object V → Read (Option V) × Object V
  unfolding get_at
  get_attr name obj = get_at (get fields_to_oneof name) name obj
