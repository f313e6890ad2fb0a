-- ===== src/DataModel/Backends.antt =====
-- Objects over a backend: `from_backend` of base.py and `DictBackend` of data_backends/dict_backend.py.
use caikit.Common.{
  String, true, false, ◌||◌, Option, none, some, List, [], ◌∷◌, contains, string_eq, if◌then◌else◌,
  Bool-cases, ◌≡◌, refl, ap, ◌∙◌, inl, inr, arith,
}
use caikit.Common.Dict.{Dict, get, has, put}
use caikit.DataModel.Attributes.{
  DataClass, Backend, Object, Fetched, no_attribute, fails, plain, oneof_field_val, found,
  fields_to_oneof, set_attr, known, which_oneof, known_or, get_plain, stored, fetch, ask, fetched,
  keep_fetched, settle_which, or_inferred, infer_which_oneof,
}
use caikit.DataModel.OneOfs.{known-put}
use caikit.DataModel.Constructors.{members}
use caikit.DataModel.Forgetting.{set_attr-oneof}

module _ {V : Type 0} where
  -- `DataBase.from_backend`
  unfoldable pub from_backend : Backend V → Object V
  from_backend b = record { private_attrs = []; plain_attrs = []; which = []; backend = some b }

module _ {V : Type 0} (cls : DataClass V) where
  -- The first field of a oneof that the dictionary has.
  unfoldable pub first_field : List String → Dict String (Option V) → Fetched V → Fetched V
  first_field [] d other = other
  first_field (f ∷ fs) d other = elim (get d f) [
    | some val ↦ oneof_field_val val (some f)
    | none ↦ first_field fs d other
  ]

  abbrev or_none : Option (Option V) → Option V
  or_none none = none
  or_none (some v) = v

  unfoldable pub wrapped : Option V → Fetched V
  wrapped none = fails
  wrapped (some v) = plain (some v)

  -- What follows the nested messages in `DictBackend.get_attribute`.
  unfoldable pub get_unwrapped : String → Dict String (Option V) → Fetched V
  unfolding first_field
  get_unwrapped name d =
      if has cls.oneofs name
      then elim (get d name) [
        | some val ↦ oneof_field_val val (infer_which_oneof cls name val)
        | none ↦ first_field (members cls name) d (plain none)
      ]
      else plain (or_none (get d name))

  -- `DictBackend.get_attribute`. `nested name` is `none` for a field that holds no message and else
  -- how a value becomes an object or a list of objects over backends of their own, or is refused.
  unfoldable pub get_attribute :
      (String → Option (V → Option V)) → Dict String (Option V) → String → Fetched V
  unfolding get_unwrapped wrapped
  get_attribute nested d name =
      if contains name cls.fields || has cls.oneofs name
      then elim (nested name) [
        | none ↦ get_unwrapped name d
        | some wrap ↦ elim (or_none (get d name)) [
          | none ↦ get_unwrapped name d
          | some val ↦ wrapped (wrap val)
        ]
      ]
      else no_attribute

  -- `DictBackend(data_dict)`, which caches every attribute.
  unfoldable pub dict_backend :
      (String → Option (V → Option V)) → Dict String (Option V) → Backend V
  unfolding get_attribute
  dict_backend nested d = record {
    get_attribute = get_attribute nested d;
    cache_attribute = λ name val. true;
  }

module _ {V : Type 0} (cls : DataClass V) (oneof : String) where
  known-none : (d : Dict String (Option String)) → get d oneof ≡ none → known d oneof ≡ none
  unfolding known
  known-none d e = ground (arith, e)

  settled :
      (v : Option V) (obj : Object V) (k : Option String)
      → known obj.which oneof ≡ k
      → (settle_which cls oneof (found v, obj)).0
        ≡ found (elim k [ none ↦ infer_which_oneof cls oneof v | some f ↦ some f ])
  unfolding settle_which or_inferred
  settled v obj k e =
      ap (λ x. (or_inferred cls x (infer_which_oneof cls oneof v) oneof obj).0) e
      ∙ cases k (infer_which_oneof cls oneof v)
    where
      cases :
          (x i : Option String)
          → (or_inferred cls x i oneof obj).0 ≡ found (elim x [ none ↦ i | some f ↦ some f ])
      cases none none = refl
      cases none (some f) = refl
      cases (some f) i = refl

  fetched-oneof :
      (b : Backend V) (v : Option V) (w : Option String) (obj : Object V)
      → has cls.oneofs oneof ≡ true
      → fetched cls b oneof obj (oneof_field_val v w)
        ≡ keep_fetched cls b oneof v (record obj { which = put obj.which oneof w })
  unfolding fetched
  fetched-oneof b v w obj h = rw h refl

  settle-keep_fetched :
      (b : Backend V) (v : Option V) (f : String) (obj : Object V)
      → has cls.oneofs oneof ≡ true
      → has (fields_to_oneof cls) oneof ≡ false
      → (settle_which cls oneof
          (keep_fetched cls b oneof v (record obj { which = put obj.which oneof (some f) }))).0
        ≡ found (if b.cache_attribute oneof v then infer_which_oneof cls oneof v else some f)
  settle-keep_fetched b v f obj h g =
      let noted = record obj { which = put obj.which oneof (some f) } in
      elim (Bool-cases (b.cache_attribute oneof v)) [
        | inl e ↦ rw e (
            settled v (set_attr cls oneof v noted) none
              (known-none _ (set_attr-oneof cls oneof v noted h g).1))
        | inr e ↦ rw e (settled v noted (some f) (known-put obj.which oneof f))
      ]

  -- On a new object over a backend that answers for a oneof with a `OneofFieldVal`, which says
  -- what field of the oneof is set, the object goes by that only if the backend does not cache
  -- the value. Caching it sets the oneof, which drops the answer, and then the first field counts
  -- whose type the value has. No field of a oneof has the name of this oneof.
  pub which_oneof-from_backend :
      (b : Backend V) (v : Option V) (f : String)
      → has cls.oneofs oneof ≡ true
      → has (fields_to_oneof cls) oneof ≡ false
      → b.get_attribute oneof ≡ oneof_field_val v (some f)
      → (which_oneof cls oneof (from_backend b)).0
        ≡ found (if b.cache_attribute oneof v then infer_which_oneof cls oneof v else some f)
  unfolding which_oneof known_or get_plain stored fetch ask from_backend known get
  which_oneof-from_backend b v f h g e =
      ap (λ y. (settle_which cls oneof (fetched cls b oneof (from_backend b) y)).0) e
      ∙ ap (λ r. (settle_which cls oneof r).0) (fetched-oneof b v (some f) (from_backend b) h)
      ∙ settle-keep_fetched b v f (from_backend b) h g
