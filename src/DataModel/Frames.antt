-- ===== src/DataModel/Frames.antt =====
-- What `__setattr__` leaves alone.
use caikit.Common.{
  String, Bool, not, ◌&&◌, ◌||◌, all, contains, [], ◌∷◌, Text, codes, nat_eq, true, false, Option,
  none, some, ◌==◌, string_eq, Bool-cases, Option-cases, ◌≡◌, refl, ◌∙◌, sym, inl, inr, arith,
}
use mathlib.Core.Path.{subst}
use caikit.Common.Dict.{keys, get, has, put, remove, get-put, get-remove}
use caikit.DataModel.Attributes.{
  DataClass, Backend, Object, Read, Fetched, no_attribute, fails, plain, oneof_field_val, found,
  attribute_error, other_error, fields_to_oneof, slot, set_attr, fetch, ask, fetched, get_plain,
  infer_which_oneof, known, settle_which, which_oneof, get_chosen, get_attr, get_at, stored,
  known_or, or_fetch, or_inferred, keep_fetched,
}
use caikit.DataModel.OneOfs.{coherent, member-get, get-put_same}

abbrev pub begins_with_underscore : Text → Bool
begins_with_underscore [] = false
begins_with_underscore (c ∷ s) = c == b'_'

-- Not a name that `DataBase` uses: `_foo` holds the field `foo`, and `_backend` and `_which_oneof`
-- hold what their names say.
abbrev pub is_plain_name : String → Bool
is_plain_name name = not (
    begins_with_underscore (codes name)
    || contains name ("backend" ∷ "which_oneof" ∷ "fields" ∷ []))

abbrev pub has_plain_names : {V : Type 0} → DataClass V → Bool
has_plain_names cls = all is_plain_name cls.fields && all is_plain_name (keys cls.oneofs)

module _ {V : Type 0} where
  -- Two objects that hold the same under one name.
  abbrev pub Agree : String → Object V → Object V → Type 0
  Agree s a b =
      (get a.private_attrs s ≡ get b.private_attrs s)
      × (get a.which s ≡ get b.which s)
      × (a.backend ≡ b.backend)

module _ {V : Type 0} (cls : DataClass V) where
  pub set_attr-elsewhere :
      (f s : String) (v : Option V) (obj : Object V)
      → coherent cls ≡ true
      → (slot cls f == s) ≡ false
      → Agree s obj (set_attr cls f v obj)
  unfolding set_attr
  set_attr-elsewhere f s v obj c h = elim (Option-cases (get (fields_to_oneof cls) f)) [
    | inl e ↦ ground (arith, get-put obj.private_attrs f v s, get-remove obj.which f s)
    | inr (o, e) ↦ ground (
      arith,
      member-get cls (fields_to_oneof cls) f o c e,
      get-put obj.private_attrs o v s,
      get-put obj.which o (some f) s,
    )
  ]

  set_attr-both :
      (f s : String) (v : Option V) (a b : Object V)
      → Agree s a b
      → Agree s (set_attr cls f v a) (set_attr cls f v b)
  unfolding set_attr
  set_attr-both f s v a b h = elim (Option-cases (get (fields_to_oneof cls) f)) [
    | inl e ↦ ground (
      arith,
      get-put a.private_attrs f v s,
      get-put b.private_attrs f v s,
      get-remove a.which f s,
      get-remove b.which f s,
    )
    | inr (o, e) ↦ ground (
      arith,
      get-put a.private_attrs o v s,
      get-put b.private_attrs o v s,
      get-remove a.which f s,
      get-remove b.which f s,
      get-put (remove a.which f) o (some f) s,
      get-put (remove b.which f) o (some f) s,
      get-put a.which o (some f) s,
      get-put b.which o (some f) s,
    )
  ]

  -- The same call at two objects gives the same, and leaves two objects that agree.
  abbrev Same {ℓ} : {A : Type ℓ} → String → Read A × Object V → Read A × Object V → Type ℓ
  Same s p q = (p.0 ≡ q.0) × Agree s p.1 q.1

  keep_fetched-Same :
      (x : Backend V) (f s : String) (v : Option V) (a b : Object V)
      → Agree s a b
      → Same s (keep_fetched cls x f v a) (keep_fetched cls x f v b)
  keep_fetched-Same x f s v a b h = elim (Bool-cases (x.cache_attribute f v)) [
    | inl e ↦ rw e (refl, set_attr-both f s v a b h)
    | inr e ↦ rw e (refl, h)
  ]

  fetched-Same :
      (x : Backend V) (f s : String) (a b : Object V) (y : Fetched V)
      → Agree s a b
      → Same s (fetched cls x f a y) (fetched cls x f b y)
  unfolding fetched
  fetched-Same x f s a b no_attribute h = (refl, h)
  fetched-Same x f s a b fails h = (refl, h)
  fetched-Same x f s a b (plain v) h = keep_fetched-Same x f s v a b h
  fetched-Same x f s a b (oneof_field_val v w) h = elim (Bool-cases (has cls.oneofs f)) [
    | inl e ↦ rw e (
        keep_fetched-Same x f s v (record a { which = put a.which f w })
          (record b { which = put b.which f w })
          (ground (arith, get-put a.which f w s, get-put b.which f w s)))
    | inr e ↦ rw e (refl, h)
  ]

  ask-Same :
      (x : Option (Backend V)) (f s : String) (a b : Object V)
      → Agree s a b
      → Same s (ask cls x f a) (ask cls x f b)
  unfolding ask
  ask-Same none f s a b h = (refl, h)
  ask-Same (some x) f s a b h = fetched-Same x f s a b (x.get_attribute f) h

  fetch-Same :
      (f s : String) (a b : Object V) → Agree s a b → Same s (fetch cls f a) (fetch cls f b)
  unfolding fetch
  fetch-Same f s a b h =
      subst (λ y. Same s (fetch cls f a) (ask cls y f b)) (h.2) (ask-Same a.backend f s a b h)

  stored-Same :
      (x : Option (Option V)) (f s : String) (a b : Object V)
      → Agree s a b
      → Same s (stored cls x f a) (stored cls x f b)
  unfolding stored
  stored-Same none f s a b h = fetch-Same f s a b h
  stored-Same (some v) f s a b h = (refl, h)

  get_plain-Same :
      (s : String) (a b : Object V) → Agree s a b → Same s (get_plain cls s a) (get_plain cls s b)
  unfolding get_plain
  get_plain-Same s a b h =
      subst (λ y. Same s (get_plain cls s a) (stored cls y s b)) (h.0)
        (stored-Same (get a.private_attrs s) s s a b h)

  or_inferred-Same :
      (k i : Option String) (o : String) (a b : Object V)
      → Agree o a b
      → Same o (or_inferred cls k i o a) (or_inferred cls k i o b)
  unfolding or_inferred
  or_inferred-Same (some f) i o a b h = (refl, h)
  or_inferred-Same none none o a b h = (refl, h)
  or_inferred-Same none (some f) o a b h =
      (refl, (h.0, get-put_same a.which o (some f) ∙ sym (get-put_same b.which o (some f)), h.2))

  known-Agree : (o : String) (a b : Object V) → Agree o a b → known a.which o ≡ known b.which o
  unfolding known
  known-Agree o a b h = ground (arith, h)

  settle_which-Same :
      (o : String) (x : Read (Option V)) (a b : Object V)
      → Agree o a b
      → Same o (settle_which cls o (x, a)) (settle_which cls o (x, b))
  unfolding settle_which
  settle_which-Same o attribute_error a b h = (refl, h)
  settle_which-Same o other_error a b h = (refl, h)
  settle_which-Same o (found v) a b h =
      subst
        (λ k.
          Same o (settle_which cls o (found v, a))
            (or_inferred cls k (infer_which_oneof cls o v) o b))
        (known-Agree o a b h)
        (or_inferred-Same (known a.which o) (infer_which_oneof cls o v) o a b h)

  settle_which-next :
      (o : String) (p q : Read (Option V) × Object V)
      → Same o p q
      → Same o (settle_which cls o p) (settle_which cls o q)
  settle_which-next o (x, a) (y, b) h =
      subst (λ z. Same o (settle_which cls o (x, a)) (settle_which cls o (z, b))) (h.0)
        (settle_which-Same o x a b (h.1))

  known_or-Same :
      (k : Option String) (o : String) (a b : Object V)
      → Agree o a b
      → Same o (known_or cls k o a) (known_or cls k o b)
  unfolding known_or
  known_or-Same (some f) o a b h = (refl, h)
  known_or-Same none o a b h =
      settle_which-next o (get_plain cls o a) (get_plain cls o b) (get_plain-Same o a b h)

  which_oneof-Same :
      (o : String) (a b : Object V)
      → Agree o a b
      → Same o (which_oneof cls o a) (which_oneof cls o b)
  unfolding which_oneof
  which_oneof-Same o a b h =
      subst (λ k. Same o (which_oneof cls o a) (known_or cls k o b)) (known-Agree o a b h)
        (known_or-Same (known a.which o) o a b h)

  or_fetch-Same :
      (f o : String) (p q : Read (Option V) × Object V)
      → Same o p q
      → (or_fetch cls f p).0 ≡ (or_fetch cls f q).0
  unfolding or_fetch
  or_fetch-Same f o (x, a) (y, b) h =
      subst (λ z. (or_fetch cls f (x, a)).0 ≡ (or_fetch cls f (z, b)).0) (h.0) (cases x)
    where
      cases : (z : Read (Option V)) → (or_fetch cls f (z, a)).0 ≡ (or_fetch cls f (z, b)).0
      cases (found v) = refl
      cases attribute_error = (fetch-Same f o a b (h.1)).0
      cases other_error = refl

  get_chosen-Same :
      (o g : String) (p q : Read (Option String) × Object V)
      → Same o p q
      → (get_chosen cls o g p).0 ≡ (get_chosen cls o g q).0
  unfolding get_chosen
  get_chosen-Same o g (x, a) (y, b) h =
      subst (λ z. (get_chosen cls o g (x, a)).0 ≡ (get_chosen cls o g (z, b)).0) (h.0) (cases x)
    where
      cases :
          (z : Read (Option String)) → (get_chosen cls o g (z, a)).0 ≡ (get_chosen cls o g (z, b)).0
      cases attribute_error = refl
      cases other_error = refl
      cases (found none) = refl
      cases (found (some f)) = elim (Bool-cases (f == g)) [
        | inl e ↦
            rw e (
              or_fetch-Same g o (get_plain cls o a) (get_plain cls o b)
                (get_plain-Same o a b (h.1)))
        | inr e ↦ rw e refl
      ]

  get_attr-Agree :
      (g : String) (a b : Object V)
      → Agree (slot cls g) a b
      → (get_attr cls g a).0 ≡ (get_attr cls g b).0
  unfolding get_attr get_at
  get_attr-Agree g a b h = cases (get (fields_to_oneof cls) g) h
    where
      cases :
          (x : Option String)
          → Agree (elim x [ none ↦ g | some o ↦ o ]) a b
          → (get_at cls x g a).0 ≡ (get_at cls x g b).0
      cases none h' = (get_plain-Same g a b h').0
      cases (some o) h' =
          get_chosen-Same o g (which_oneof cls o a) (which_oneof cls o b)
            (which_oneof-Same o a b h')

  -- The class has the name as a field or as a oneof.
  abbrev pub is_attribute : String → Bool
  is_attribute name = contains name cls.fields || has cls.oneofs name

  -- Take a class where no field of a oneof has the name of a oneof, and no field or oneof has a name
  -- that begins with an underscore or is `backend`, `which_oneof` or `fields`. Setting a field or a oneof
  -- changes no other one: any that is held under another name, so any but the same one and those of
  -- the same oneof, reads as before, exceptions included, whether its value was set, comes from the
  -- backend or depends on what the oneof's type says.
  pub set_attr-frame :
      (f g : String) (v : Option V) (obj : Object V)
      → coherent cls ≡ true
      → has_plain_names cls ≡ true
      → is_attribute f ≡ true
      → is_attribute g ≡ true
      → (slot cls f == slot cls g) ≡ false
      → (get_attr cls g (set_attr cls f v obj)).0 ≡ (get_attr cls g obj).0
  set_attr-frame f g v obj c n i j h =
      sym
        (get_attr-Agree g obj (set_attr cls f v obj) (set_attr-elsewhere f (slot cls g) v obj c h))
