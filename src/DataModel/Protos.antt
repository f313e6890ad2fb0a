-- ===== src/DataModel/Protos.antt =====
-- `from_proto` and `fill_proto` of caikit/core/data_model/base.py on primitive, enum and message
-- fields, repeated or not, in classes without oneofs whose constructor is the one that is made for
-- them. Fields that hold maps, times or dictionaries are left out.
use caikit.Common.{
  ℕ, String, Bool, true, false, ◌||◌, Option, none, some, ◌>>=◌, List, [], ◌∷◌, if◌then◌else◌, ltb,
}

-- What the attributes of an object read as, in the order of the fields: `None`, a primitive, a member
-- of an enum, a number, lists, another object, a list of objects.
mutual
  pub data Attrs (S : Type 0) : Type 0 where
    end : Attrs S
    attr : Attr S → Attrs S → Attrs S

  pub data Attr (S : Type 0) : Type 0 where
    py_none : Attr S
    value : S → Attr S
    member : ℕ → Attr S
    number : ℕ → Attr S
    values : List S → Attr S
    numbers : List ℕ → Attr S
    object : Attrs S → Attr S
    objects : Items S → Attr S

  pub data Items (S : Type 0) : Type 0 where
    nil : Items S
    cons : Attrs S → Items S → Items S

-- A class with the descriptor of its message: the fields in order. A primitive field has what
-- assigning a value stores (a `float` is rounded, a number out of range is refused), and, unless it is
-- repeated, the default of its type. A message field has the value that the class gives it by default,
-- `None` if it says nothing. `S` is the type of primitive values.
mutual
  pub data Schema (S : Type 0) : Type 0 where
    end : Schema S
    field : String → Kind S → Schema S → Schema S

  pub data Kind (S : Type 0) : Type 0 where
    primitive : (S → Option S) → S → Kind S
    enumeration : ℕ → Kind S
    primitive_repeated : (S → Option S) → Kind S
    enum_repeated : Kind S
    message : Schema S → Attr S → Kind S
    message_repeated : Schema S → Kind S

-- A protobuf message: `unset` is a field with presence for which `HasField` is false; any other field
-- has a value, its default if none was assigned.
mutual
  pub data Proto (S : Type 0) : Type 0 where
    end : Proto S
    slot : Content S → Proto S → Proto S

  pub data Content (S : Type 0) : Type 0 where
    unset : Content S
    scalar : S → Content S
    enum_number : ℕ → Content S
    scalars : List S → Content S
    enum_numbers : List ℕ → Content S
    sub : Proto S → Content S
    subs : Protos S → Content S

  pub data Protos (S : Type 0) : Type 0 where
    nil : Protos S
    cons : Proto S → Protos S → Protos S

abbrev pub is_nonempty : {A : Type 0} → List A → Bool
is_nonempty [] = false
is_nonempty (x ∷ xs) = true

-- Assigning each of some values.
abbrev pub store_all : {A : Type 0} → (A → Option A) → List A → Option (List A)
store_all store [] = some []
store_all store (x ∷ xs) = do y ← store x; ys ← store_all store xs; some (y ∷ ys)

-- An enum field takes the numbers of 32 bits. The model has none below 0.
abbrev pub enum_range : ℕ → Option ℕ
enum_range n = if ltb n 2147483648 then some n else none

-- `extend_sets` is whether `extend` by no items counts as assigning something, in which the
-- implementations of protobuf differ.
module _ {S : Type 0} (extend_sets : Bool) where
  -- A message field becomes set when something in it is assigned, and not by being read.
  abbrev pub presence : Bool → Proto S → Content S
  presence assigned p = if assigned then sub p else unset

  abbrev pub any_item : Items S → Bool
  any_item nil = false
  any_item (cons x xs) = true

  -- `fill_proto` on a new message: whether anything was assigned, and the message; `none` stands for
  -- an exception. The first function is the loop over the fields, the second its body.
  unfoldable mutual
    pub fill_proto : Schema S → Attrs S → Option (Bool × Proto S)
    fill_proto Schema.end Attrs.end = some (false, Proto.end)
    fill_proto (field name k s) (attr v rest) = do
      (t, c) ← fill_field k v
      (u, p) ← fill_proto s rest
      some (t || u, slot c p)
    fill_proto Schema.end (attr v rest) = none
    fill_proto (field name k s) Attrs.end = none

    pub fill_field : Kind S → Attr S → Option (Bool × Content S)
    fill_field (primitive store d) py_none = some (false, scalar d)
    fill_field (primitive store d) (value v) = do u ← store v; some (true, scalar u)
    fill_field (enumeration d) py_none = some (false, enum_number d)
    fill_field (enumeration d) (member n) = do m ← enum_range n; some (true, enum_number m)
    fill_field (enumeration d) (number n) = do m ← enum_range n; some (true, enum_number m)
    fill_field (primitive_repeated store) py_none = some (false, scalars [])
    fill_field (primitive_repeated store) (values l) = do
      us ← store_all store l
      some (is_nonempty l || extend_sets, scalars us)
    fill_field enum_repeated py_none = some (false, enum_numbers [])
    fill_field enum_repeated (numbers l) = do
      ns ← store_all enum_range l
      some (is_nonempty l || extend_sets, enum_numbers ns)
    fill_field (message s d) py_none = some (false, unset)
    fill_field (message s d) (object o) = do (t, p) ← fill_proto s o; some (t, presence t p)
    fill_field (message_repeated s) py_none = some (false, subs Protos.nil)
    fill_field (message_repeated s) (objects l) = do ps ← fill_each s l; some (any_item l, subs ps)
    fill_field _ _ = none

    pub fill_each : Schema S → Items S → Option (Protos S)
    fill_each s nil = some Protos.nil
    fill_each s (cons o l) = do (t, p) ← fill_proto s o; ps ← fill_each s l; some (Protos.cons p ps)

module _ {S : Type 0} where
  -- What the constructor makes of a keyword argument, or of none: the default of the class.
  abbrev pub construct : Option (Attr S) → Attr S → Attr S
  construct none d = d
  construct (some v) d = v

  -- `from_proto`: the attributes of the object that it builds. Only a message field that is not set
  -- has no keyword argument. The second function is the body of the loop over the fields, with what
  -- the constructor then sets.
  unfoldable mutual
    pub from_proto : Schema S → Proto S → Option (Attrs S)
    from_proto Schema.end Proto.end = some Attrs.end
    from_proto (field name k s) (slot c p) = do
      v ← from_field k c
      rest ← from_proto s p
      some (attr v rest)
    from_proto Schema.end (slot c p) = none
    from_proto (field name k s) Proto.end = none

    pub from_field : Kind S → Content S → Option (Attr S)
    from_field (primitive store d) (scalar v) = some (value v)
    from_field (enumeration d) (enum_number n) = some (number n)
    from_field (primitive_repeated store) (scalars l) = some (values l)
    from_field enum_repeated (enum_numbers l) = some (numbers l)
    from_field (message s d) unset = some (construct none d)
    from_field (message s d) (sub p) = do o ← from_proto s p; some (construct (some (object o)) d)
    from_field (message_repeated s) (subs ps) = do l ← from_each s ps; some (objects l)
    from_field _ _ = none

    pub from_each : Schema S → Protos S → Option (Items S)
    from_each s Protos.nil = some nil
    from_each s (Protos.cons p ps) = do o ← from_proto s p; l ← from_each s ps; some (cons o l)
