-- ===== src/JsonDict/RoundTrip.antt =====
-- Round trips of json_dict.py.
use caikit.Common.{Bool, true, false, ◌&&◌, Option, some, ◌>>=◌, ◌≡◌, refl, arith, succeeds}
use caikit.JsonDict.Convert.{
  PyValue, PyList, PyDict, py_none, py_dict, py_list, py_bool, py_int, py_float, py_str,
  unsupported, entry, field, StructValue, ListValue, Struct, unset, null_value, number_value,
  string_value, bool_value, struct_value, list_value, value_to_struct_value, list_to_struct,
  dict_to_struct, number_to_py, struct_value_to_py, list_to_py, struct_to_dict,
}

module _ {I F : Type 0} (to_float : I → F) (int : F → Option I) (same : I → F → Bool) where
  -- An integer that the float stands for exactly; a float that is finite and has a fraction.
  abbrev pub IsExact : I → Type 0
  IsExact i = (int (to_float i) ≡ some i) × (same i (to_float i) ≡ true)

  abbrev pub IsFractional : F → Type 0
  IsFractional x = (i : I) × (int x ≡ some i) × (same i x ≡ false)

  abbrev mutual
    pub IsJson : PyValue I F → Type 0
    IsJson py_none = Unit
    IsJson (py_dict d) = IsJsonDict d
    IsJson (py_list l) = IsJsonList l
    IsJson (py_bool b) = Unit
    IsJson (py_int i) = IsExact i
    IsJson (py_float x) = IsFractional x
    IsJson (py_str t) = Unit
    IsJson unsupported = ⊥

    pub IsJsonList : PyList I F → Type 0
    IsJsonList PyList.nil = Unit
    IsJsonList (PyList.cons v l) = IsJson v × IsJsonList l

    pub IsJsonDict : PyDict I F → Type 0
    IsJsonDict PyDict.end = Unit
    IsJsonDict (entry k v d) = IsJson v × IsJsonDict d

  mutual
    unfolding value_to_struct_value list_to_struct dict_to_struct struct_value_to_py list_to_py
        struct_to_dict number_to_py

    value_trip :
        (v : PyValue I F)
        → IsJson v
        → (value_to_struct_value to_float v >>= struct_value_to_py int same) ≡ some v
    value_trip py_none h = refl
    value_trip (py_dict d) h = ground (arith, dict_trip d h)
    value_trip (py_list l) h = ground (arith, list_trip l h)
    value_trip (py_bool b) h = refl
    value_trip (py_int i) h = ground (arith, h)
    value_trip (py_float x) h = ground (arith, h)
    value_trip (py_str t) h = refl
    value_trip unsupported h = absurd h

    list_trip :
        (l : PyList I F)
        → IsJsonList l
        → (list_to_struct to_float l >>= list_to_py int same) ≡ some l
    list_trip PyList.nil h = refl
    list_trip (PyList.cons v l) h = ground (arith, value_trip v h.0, list_trip l h.1)

    dict_trip :
        (d : PyDict I F)
        → IsJsonDict d
        → (dict_to_struct to_float d >>= struct_to_dict int same) ≡ some d
    dict_trip PyDict.end h = refl
    dict_trip (entry k v d) h = ground (arith, value_trip v h.0, dict_trip d h.1)

  -- A dict of supported values comes back unchanged from a message, if each integer is one that a
  -- float holds exactly and each float is finite and has a fraction.
  pub dict-struct-dict :
      (d : PyDict I F)
      → IsJsonDict d
      → (dict_to_struct to_float d >>= struct_to_dict int same) ≡ some d
  dict-struct-dict d h = dict_trip d h

  -- The messages that the conversion to Python can read and write back: each number is finite, and
  -- an integral one is what its integer is stored as; no value is unset.
  abbrev mutual
    pub IsPlain : StructValue F → Type 0
    IsPlain unset = ⊥
    IsPlain null_value = Unit
    IsPlain (number_value x) = (i : I) × (int x ≡ some i) × (same i x ≡ true → to_float i ≡ x)
    IsPlain (string_value t) = Unit
    IsPlain (bool_value b) = Unit
    IsPlain (struct_value s) = IsPlainStruct s
    IsPlain (list_value vs) = IsPlainList vs

    pub IsPlainList : ListValue F → Type 0
    IsPlainList ListValue.nil = Unit
    IsPlainList (ListValue.cons s vs) = IsPlain s × IsPlainList vs

    pub IsPlainStruct : Struct F → Type 0
    IsPlainStruct Struct.end = Unit
    IsPlainStruct (field k s rest) = IsPlain s × IsPlainStruct rest

  mutual
    unfolding value_to_struct_value list_to_struct dict_to_struct struct_value_to_py list_to_py
        struct_to_dict number_to_py

    struct_value_trip :
        (s : StructValue F)
        → IsPlain s
        → (struct_value_to_py int same s >>= value_to_struct_value to_float) ≡ some s
    struct_value_trip unset h = absurd h
    struct_value_trip null_value h = refl
    struct_value_trip (number_value x) (i, e, f) = ground (arith, e, f)
    struct_value_trip (string_value t) h = refl
    struct_value_trip (bool_value b) h = refl
    struct_value_trip (struct_value s) h = ground (arith, struct_trip s h)
    struct_value_trip (list_value vs) h = ground (arith, list_value_trip vs h)

    list_value_trip :
        (vs : ListValue F)
        → IsPlainList vs
        → (list_to_py int same vs >>= list_to_struct to_float) ≡ some vs
    list_value_trip ListValue.nil h = refl
    list_value_trip (ListValue.cons s vs) h =
        ground (arith, struct_value_trip s h.0, list_value_trip vs h.1)

    struct_trip :
        (s : Struct F)
        → IsPlainStruct s
        → (struct_to_dict int same s >>= dict_to_struct to_float) ≡ some s
    struct_trip Struct.end h = refl
    struct_trip (field k s rest) h = ground (arith, struct_value_trip s h.0, struct_trip rest h.1)

  -- A message is written back as it was, if none of its values is unset, its numbers are finite,
  -- and each integral number is what its integer is stored as.
  pub struct-dict-struct :
      (s : Struct F)
      → IsPlainStruct s
      → (struct_to_dict int same s >>= dict_to_struct to_float) ≡ some s
  struct-dict-struct s h = struct_trip s h

module _ {I F : Type 0} where
  -- No part of the value has an unsupported type.
  abbrev mutual
    pub supported : PyValue I F → Bool
    supported py_none = true
    supported (py_dict d) = supported_dict d
    supported (py_list l) = supported_list l
    supported (py_bool b) = true
    supported (py_int i) = true
    supported (py_float x) = true
    supported (py_str t) = true
    supported unsupported = false

    pub supported_list : PyList I F → Bool
    supported_list PyList.nil = true
    supported_list (PyList.cons v l) = supported v && supported_list l

    pub supported_dict : PyDict I F → Bool
    supported_dict PyDict.end = true
    supported_dict (entry k v d) = supported v && supported_dict d

module _ {I F : Type 0} (to_float : I → F) where
  mutual
    unfolding value_to_struct_value list_to_struct dict_to_struct

    value_succeeds : (v : PyValue I F) → succeeds (value_to_struct_value to_float v) ≡ supported v
    value_succeeds py_none = refl
    value_succeeds (py_dict d) = ground (arith, dict_succeeds d)
    value_succeeds (py_list l) = ground (arith, list_succeeds l)
    value_succeeds (py_bool b) = refl
    value_succeeds (py_int i) = refl
    value_succeeds (py_float x) = refl
    value_succeeds (py_str t) = refl
    value_succeeds unsupported = refl

    list_succeeds : (l : PyList I F) → succeeds (list_to_struct to_float l) ≡ supported_list l
    list_succeeds PyList.nil = refl
    list_succeeds (PyList.cons v l) = ground (arith, value_succeeds v, list_succeeds l)

    dict_succeeds : (d : PyDict I F) → succeeds (dict_to_struct to_float d) ≡ supported_dict d
    dict_succeeds PyDict.end = refl
    dict_succeeds (entry k v d) = ground (arith, value_succeeds v, dict_succeeds d)

  -- The conversion to a message raises exactly if some value in the dict, at any depth, has an
  -- unsupported type.
  pub dict_to_struct-succeeds :
      (d : PyDict I F) → succeeds (dict_to_struct to_float d) ≡ supported_dict d
  dict_to_struct-succeeds d = dict_succeeds d
