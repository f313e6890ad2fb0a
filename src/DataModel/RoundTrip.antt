-- ===== src/DataModel/RoundTrip.antt =====
-- `from_proto` of what `fill_proto` wrote.
use caikit.Common.{Bool, true, false, ◌||◌, some, [], if◌then◌else◌, ◌≡◌, refl}
use caikit.DataModel.Protos.{
  Schema, Kind, field, primitive, enumeration, primitive_repeated, enum_repeated, message,
  message_repeated, Attrs, Attr, attr, py_none, value, member, number, values, numbers, object,
  objects, Items, nil, cons, Proto, Content, slot, unset, scalar, enum_number, scalars,
  enum_numbers, subs, Protos, is_nonempty, store_all, enum_range, any_item, fill_proto, fill_field,
  fill_each, from_proto, from_field, from_each, presence,
}

module _ {S : Type 0} where
  -- The attributes are `None` or of the types that the fields have, and a field stores its values as
  -- they are.
  unfoldable mutual
    pub Fits : Schema S → Attrs S → Type 0
    Fits Schema.end Attrs.end = Unit
    Fits (field name k s) (attr v rest) = FitsField k v × Fits s rest
    Fits Schema.end (attr v rest) = ⊥
    Fits (field name k s) Attrs.end = ⊥

    pub FitsField : Kind S → Attr S → Type 0
    FitsField (primitive store d) (value v) = store v ≡ some v
    FitsField (enumeration d) (member n) = enum_range n ≡ some n
    FitsField (enumeration d) (number n) = enum_range n ≡ some n
    FitsField (primitive_repeated store) (values l) = store_all store l ≡ some l
    FitsField enum_repeated (numbers l) = store_all enum_range l ≡ some l
    FitsField (message s d) (object o) = Fits s o
    FitsField (message_repeated s) (objects l) = FitsEach s l
    FitsField k py_none = Unit
    FitsField _ _ = ⊥

    pub FitsEach : Schema S → Items S → Type 0
    FitsEach s nil = Unit
    FitsEach s (cons o l) = Fits s o × FitsEach s l

module _ {S : Type 0} (extend_sets : Bool) where
  -- Whether an object holds anything: a field that is not `None`, no empty list of objects, no empty
  -- list of values unless `extend` by it counts, and no object that itself holds nothing.
  unfoldable mutual
    pub holds : Attrs S → Bool
    holds Attrs.end = false
    holds (attr v rest) = holds_attr v || holds rest

    pub holds_attr : Attr S → Bool
    holds_attr py_none = false
    holds_attr (value v) = true
    holds_attr (member n) = true
    holds_attr (number n) = true
    holds_attr (values l) = is_nonempty l || extend_sets
    holds_attr (numbers l) = is_nonempty l || extend_sets
    holds_attr (object o) = holds o
    holds_attr (objects l) = any_item extend_sets l

  -- What comes back: a primitive or enum field as the default of its type, or as an empty list, if it
  -- was `None`, an enum as its number, and a message field that was `None` or held nothing as the
  -- default that the class gives it.
  unfoldable mutual
    pub come_back : Schema S → Attrs S → Attrs S
    come_back (field name k s) (attr v rest) = attr (field_back k v) (come_back s rest)
    come_back _ x = x

    pub field_back : Kind S → Attr S → Attr S
    field_back (primitive store d) py_none = value d
    field_back (enumeration d) py_none = number d
    field_back (enumeration d) (member n) = number n
    field_back (primitive_repeated store) py_none = values []
    field_back enum_repeated py_none = numbers []
    field_back (message_repeated s) py_none = objects nil
    field_back (message s d) py_none = d
    field_back (message s d) (object o) =
        let back = object (come_back s o) in if holds o then back else d
    field_back (message_repeated s) (objects l) = objects (each_back s l)
    field_back k v = v

    pub each_back : Schema S → Items S → Items S
    each_back s nil = nil
    each_back s (cons o l) = cons (come_back s o) (each_back s l)

  mutual
    unfolding fill_proto from_proto Fits holds come_back

    fill-from :
        (s : Schema S) (x : Attrs S)
        → Fits s x
        → (p : Proto S) × (fill_proto extend_sets s x ≡ some (holds x, p))
          × (from_proto s p ≡ some (come_back s x))
    fill-from Schema.end Attrs.end h = (Proto.end, refl, refl)
    fill-from Schema.end (attr v rest) h = absurd h
    fill-from (field name k s) Attrs.end h = absurd h
    fill-from (field name k s) (attr v rest) (h, i) =
        let (c, e, f) = fill-field k v h in
        let (p, e', f') = fill-from s rest i in (slot c p, rw (e, e') refl, rw (f, f') refl)

    fill-field :
        (k : Kind S) (v : Attr S)
        → FitsField k v
        → (c : Content S) × (fill_field extend_sets k v ≡ some (holds_attr v, c))
          × (from_field k c ≡ some (field_back k v))
    fill-field (primitive store d) py_none h = (scalar d, refl, refl)
    fill-field (primitive store d) (value v) h = (scalar v, rw h refl, refl)
    fill-field (enumeration d) py_none h = (enum_number d, refl, refl)
    fill-field (enumeration d) (member n) h = (enum_number n, rw h refl, refl)
    fill-field (enumeration d) (number n) h = (enum_number n, rw h refl, refl)
    fill-field (primitive_repeated store) py_none h = (scalars [], refl, refl)
    fill-field (primitive_repeated store) (values l) h = (scalars l, rw h refl, refl)
    fill-field enum_repeated py_none h = (enum_numbers [], refl, refl)
    fill-field enum_repeated (numbers l) h = (enum_numbers l, rw h refl, refl)
    fill-field (message s d) py_none h = (unset, refl, refl)
    fill-field (message s d) (object o) h =
        let (p, e, f) = fill-from s o h in
        (presence extend_sets (holds o) p, rw e refl, kept (holds o) p f)
      where
        kept :
            (b : Bool) (p : Proto S)
            → from_proto s p ≡ some (come_back s o)
            → from_field (message s d) (presence extend_sets b p)
              ≡ some (if b then object (come_back s o) else d)
        kept true p f = rw f refl
        kept false p f = refl
    fill-field (message_repeated s) py_none h = (subs Protos.nil, refl, refl)
    fill-field (message_repeated s) (objects l) h =
        let (ps, e, f) = fill-each s l h in (subs ps, rw e refl, rw f refl)
    fill-field _ _ h = absurd h

    fill-each :
        (s : Schema S) (l : Items S)
        → FitsEach s l
        → (ps : Protos S) × (fill_each extend_sets s l ≡ some ps)
          × (from_each s ps ≡ some (each_back s l))
    fill-each s nil h = (Protos.nil, refl, refl)
    fill-each s (cons o l) (h, i) =
        let (p, e, f) = fill-from s o h in
        let (ps, e', f') = fill-each s l i in (Protos.cons p ps, rw (e, e') refl, rw (f, f') refl)
