-- ===== src/Tests/JsonDict.antt =====
-- Examples for json_dict.py. A float is kept as twice its value, so that it has a fraction of a half.
use caikit.Common.{ℕ, ◌*◌, ◌/◌, ◌≡◌, refl, Bool, Option, some, nat_eq, ◌==◌, ◌>>=◌}
use caikit.JsonDict.Convert.{
  PyList, PyDict, py_list, py_int, py_float, py_none, entry, Struct, null_value, number_value,
  struct_value, field, dict_to_struct, struct_to_dict,
}
use caikit.JsonDict.RoundTrip.{dict-struct-dict}

abbrev to_float : ℕ → ℕ
to_float i = i * 2

abbrev int : ℕ → Option ℕ
int x = some (x / 2)

abbrev same : ℕ → ℕ → Bool
same i x = i * 2 == x

-- `{"sizes": [4, 2.5], "owner": None}`
abbrev dict : PyDict ℕ ℕ
dict =
    entry "sizes" (py_list (PyList.cons (py_int 4) (PyList.cons (py_float 5) PyList.nil)))
      (entry "owner" py_none PyDict.end)

abbrev message : Struct ℕ
message =
    field "limits" (struct_value (field "low" (number_value 3) Struct.end))
      (field "owner" null_value Struct.end)

dict-struct-dict_example : (dict_to_struct to_float dict >>= struct_to_dict int same) ≡ some dict
dict-struct-dict_example =
    dict-struct-dict to_float int same dict (((refl, refl), ((2, refl, refl), tt)), (tt, tt))
