-- ===== src/JsonDict/Convert.antt =====
-- caikit/core/data_model/json_dict.py: Python dicts to protobuf `Struct` messages and back. The
-- message classes carry no logic here, so their look-up in a descriptor pool is left out.
use caikit.Common.{String, Bool, Option, none, some, ◌>>=◌, if◌then◌else◌}

-- Values of Python; `I` and `F` are its integers and floats. `unsupported` is a value of any type
-- that the code does not know.
mutual
  pub data PyValue (I F : Type 0) : Type 0 where
    py_none : PyValue I F
    py_dict : PyDict I F → PyValue I F
    py_list : PyList I F → PyValue I F
    py_bool : Bool → PyValue I F
    py_int : I → PyValue I F
    py_float : F → PyValue I F
    py_str : String → PyValue I F
    unsupported : PyValue I F

  pub data PyList (I F : Type 0) : Type 0 where
    nil : PyList I F
    cons : PyValue I F → PyList I F → PyList I F

  pub data PyDict (I F : Type 0) : Type 0 where
    end : PyDict I F
    entry : String → PyValue I F → PyDict I F → PyDict I F

-- `google.protobuf.Value`, `ListValue` and `Struct`. `unset` is a value with no kind.
mutual
  pub data StructValue (F : Type 0) : Type 0 where
    unset : StructValue F
    null_value : StructValue F
    number_value : F → StructValue F
    string_value : String → StructValue F
    bool_value : Bool → StructValue F
    struct_value : Struct F → StructValue F
    list_value : ListValue F → StructValue F

  pub data ListValue (F : Type 0) : Type 0 where
    nil : ListValue F
    cons : StructValue F → ListValue F → ListValue F

  pub data Struct (F : Type 0) : Type 0 where
    end : Struct F
    field : String → StructValue F → Struct F → Struct F

-- `to_float` is what protobuf stores for an integer, `int` is Python's `int(val)` on a float, which
-- raises for an infinity and for NaN, and `same` is its `==`.
module _ {I F : Type 0} (to_float : I → F) where
  -- `_value_to_struct_value` and `dict_to_struct`; `none` is the `ValueError`.
  unfoldable mutual
    pub value_to_struct_value : PyValue I F → Option (StructValue F)
    value_to_struct_value py_none = some null_value
    value_to_struct_value (py_dict d) = do s ← dict_to_struct d; some (struct_value s)
    value_to_struct_value (py_list l) = do vs ← list_to_struct l; some (list_value vs)
    value_to_struct_value (py_bool b) = some (bool_value b)
    value_to_struct_value (py_int i) = some (number_value (to_float i))
    value_to_struct_value (py_float x) = some (number_value x)
    value_to_struct_value (py_str t) = some (string_value t)
    value_to_struct_value unsupported = none

    pub list_to_struct : PyList I F → Option (ListValue F)
    list_to_struct nil = some nil
    list_to_struct (cons v l) = do
      s ← value_to_struct_value v
      rest ← list_to_struct l
      some (cons s rest)

    pub dict_to_struct : PyDict I F → Option (Struct F)
    dict_to_struct end = some end
    dict_to_struct (entry k v d) = do
      s ← value_to_struct_value v
      rest ← dict_to_struct d
      some (field k s rest)

module _ {I F : Type 0} (int : F → Option I) (same : I → F → Bool) where
  -- The `number_value` branch of `_struct_value_to_py`.
  unfoldable pub number_to_py : F → Option (PyValue I F)
  number_to_py x = do i ← int x; if same i x then some (py_int i) else some (py_float x)

  -- `_struct_value_to_py` and `struct_to_dict`; `none` is what `int` raises.
  unfoldable mutual
    pub struct_value_to_py : StructValue F → Option (PyValue I F)
    struct_value_to_py unset = some py_none
    struct_value_to_py null_value = some py_none
    struct_value_to_py (number_value x) = number_to_py x
    struct_value_to_py (string_value t) = some (py_str t)
    struct_value_to_py (bool_value b) = some (py_bool b)
    struct_value_to_py (struct_value s) = do d ← struct_to_dict s; some (py_dict d)
    struct_value_to_py (list_value vs) = do l ← list_to_py vs; some (py_list l)

    pub list_to_py : ListValue F → Option (PyList I F)
    list_to_py nil = some nil
    list_to_py (cons s vs) = do v ← struct_value_to_py s; rest ← list_to_py vs; some (cons v rest)

    pub struct_to_dict : Struct F → Option (PyDict I F)
    struct_to_dict end = some end
    struct_to_dict (field k s rest) = do
      v ← struct_value_to_py s
      d ← struct_to_dict rest
      some (entry k v d)
