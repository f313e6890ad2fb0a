-- ===== src/Tests/DataModel.antt =====
-- Examples for caikit/core/data_model.
use caikit.Common.{
  ◌/◌, arith, ℕ, false, String, ◌≡◌, ◌↔◌, refl, true, Option, none, some, List, [], ◌∷◌,
}
use caikit.Common.Dict.{Dict, get, has, put, remove}
use caikit.DataModel.Attributes.{
  DataClass, Object, found, fields_to_oneof, set_attr, get_attr, which_oneof, infer_which_oneof,
}
use caikit.DataModel.OneOfs.{set_attr-chooses}
use caikit.DataModel.Frames.{set_attr-frame}
use caikit.DataModel.Constructors.{empty_object, make_init, make_oneof_init}
use caikit.DataModel.Forgetting.{make_init-forgets}
use caikit.DataModel.Remembering.{make_oneof_init-remembers}
use caikit.DataModel.Backends.{from_backend, dict_backend, which_oneof-from_backend}
use caikit.DataModel.Protos.{
  Schema, field, primitive, primitive_repeated, values, enumeration, message, Attrs, attr, py_none,
  value, member, number, object,
}
use caikit.DataModel.RoundTrip.{holds, come_back}
use caikit.DataModel.Timestamps.{
  before, full_seconds, time_at, datetime_to_proto, proto_to_datetime, is_kept,
  proto_to_datetime-datetime_to_proto,
}

-- A second and a half, and a microsecond, before the epoch, by floats that are exact.
proto_to_datetime-datetime_to_proto_example :
    (proto_to_datetime
        (λ p. time_at p.seconds (p.nanos / 1000))
        (datetime_to_proto full_seconds (before 1500000))
      ≡ before 1500000)
    ↔ (is_kept (before 1500000) ≡ true)
unfolding full_seconds
proto_to_datetime-datetime_to_proto_example =
    proto_to_datetime-datetime_to_proto full_seconds (λ p. time_at p.seconds (p.nanos / 1000))
      (λ t h. refl) (λ w us h k. ground arith) (before 1500000) refl

-- A class with a field `name` and a oneof `foo` of two texts: both fields take any value.
abbrev thing : DataClass ℕ
thing = record {
  fields = "name" ∷ "foo_a" ∷ "foo_b" ∷ [];
  oneofs = ("foo", "foo_a" ∷ "foo_b" ∷ []) ∷ [];
  is_valid = λ field val. true;
}

abbrev keyword : Dict String (Option ℕ)
keyword = ("foo_b", some 7) ∷ []

set_attr-chooses_example :
    ((which_oneof thing "foo" (set_attr thing "foo_b" (some 7) empty_object)).0
      ≡ found (some "foo_b"))
    × ((get_attr thing "foo" (set_attr thing "foo_b" (some 7) empty_object)).0 ≡ found (some 7))
    × ((get_attr thing "foo_a" (set_attr thing "foo_b" (some 7) empty_object)).0 ≡ found none)
unfolding fields_to_oneof get has put
set_attr-chooses_example =
    set_attr-chooses thing "foo_b" "foo_a" "foo" (some 7) empty_object refl refl refl

-- The name is read from the object, which has it.
abbrev named : Object ℕ
named = record {
  private_attrs = ("name", some 3) ∷ [];
  plain_attrs = [];
  which = [];
  backend = none;
}

set_attr-frame_example :
    (get_attr thing "name" (set_attr thing "foo_b" (some 7) named)).0
    ≡ (get_attr thing "name" named).0
unfolding fields_to_oneof get has put
set_attr-frame_example = set_attr-frame thing "foo_b" "name" (some 7) named refl refl refl refl refl

-- What `Thing(foo_b=7)` builds.
abbrev forgetful : Object ℕ
forgetful = record {
  private_attrs = ("foo", some 7) ∷ ("name", none) ∷ [];
  plain_attrs = [];
  which = [];
  backend = none;
}

make_init-forgets_example :
    ((which_oneof thing "foo" forgetful).0 ≡ found (infer_which_oneof thing "foo" (some 7)))
    × ((get_attr thing "foo" forgetful).0 ≡ found (some 7))
unfolding fields_to_oneof get has put remove make_init set_attr
make_init-forgets_example =
    make_init-forgets thing "foo" (some 7) "foo_b" (λ field. none) [] keyword forgetful ("foo" ∷ [])
      refl refl refl refl

infers_first : infer_which_oneof thing "foo" (some 7) ≡ some "foo_a"
unfolding infer_which_oneof get
infers_first = refl

abbrev dataclass_init : List (Option ℕ) → Dict String (Option ℕ) → Option (Object ℕ)
dataclass_init args kwargs =
    some (record { private_attrs = kwargs; plain_attrs = []; which = []; backend = none })

make_oneof_init-remembers_example :
    (which_oneof thing "foo" (record {
      private_attrs = ("foo", some 7) ∷ [];
      plain_attrs = [];
      which = ("foo", some "foo_b") ∷ [];
      backend = none;
    })).0
    ≡ found (some "foo_b")
unfolding fields_to_oneof get has put remove make_oneof_init
make_oneof_init-remembers_example =
    make_oneof_init-remembers thing dataclass_init ("name" ∷ "foo" ∷ []) [] keyword "foo_b" "foo"
      (some 7) _ [] refl refl refl refl refl

which_oneof-from_backend_example :
    (which_oneof thing "foo" (from_backend (dict_backend thing (λ name. none) keyword))).0
    ≡ found (infer_which_oneof thing "foo" (some 7))
unfolding fields_to_oneof get has put dict_backend
which_oneof-from_backend_example =
    which_oneof-from_backend thing "foo" (dict_backend thing (λ name. none) keyword) (some 7)
      "foo_b" refl refl refl

-- A class with a number, an enum, a nested message, and another with a default.
abbrev inner : Schema ℕ
inner = field "choices" (primitive_repeated some) Schema.end

abbrev schema : Schema ℕ
schema = field "size" (primitive some 0) (
    field "kind" (enumeration 0) (
      field "inner" (message inner py_none)
        (field "other" (message inner (object (attr (values (8 ∷ [])) Attrs.end))) Schema.end)))

abbrev attrs : Attrs ℕ
attrs = attr py_none (
    attr (member 2) (
      attr (object (attr (values (5 ∷ [])) Attrs.end))
        (attr (object (attr py_none Attrs.end)) Attrs.end)))

-- The object of the field `other` holds nothing, so its default comes back.
default_comes_back :
    come_back false schema attrs
    ≡ attr (value 0) (
        attr (number 2) (
          attr
            (object (attr (values (5 ∷ [])) Attrs.end))
            (attr (object (attr (values (8 ∷ [])) Attrs.end)) Attrs.end)))
unfolding come_back holds
default_comes_back = refl
