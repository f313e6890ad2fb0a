-- ===== src/DataModel/Remembering.antt =====
-- What the constructor of `_make_oneof_init` makes of a keyword argument for a field of a oneof.
use caikit.Common.{
  String, Bool, true, false, not, ◌&&◌, Option, none, some, List, [], ◌∷◌, contains, any, distinct,
  ◌==◌, string_eq, Bool-cases, Option-cases, beq→eq, ◌≡◌, refl, ap, sym, ◌∙◌, inl, inr, arith,
}
use caikit.Common.Dict.{Dict, get, has, keys, get-put, has_of_get, contains-keys}
use caikit.DataModel.Attributes.{
  DataClass, Object, found, fields_to_oneof, known, which_oneof, known_or,
}
use caikit.DataModel.OneOfs.{get-put_same}
use caikit.DataModel.Constructors.{
  Init, built, raised, Renamed, members, has_other, rename_one, rename_from, make_oneof_init,
  init_renamed, finish_init, is_positional, update,
}

abbrev which_of : {V : Type 0} → Init V → Dict String (Option String)
which_of (built obj used) = obj.which
which_of (raised e) = []

any_of_contains :
    (p : String → Bool) (x : String) (xs : List String)
    → contains x xs ≡ true
    → p x ≡ true
    → any p xs ≡ true
any_of_contains p x [] c h = absurd (ground arith)
any_of_contains p x (y ∷ xs) c h =
    ground (arith, any_of_contains p x xs, string_eq.beq_iff y x, string_eq.beq_iff x y)

module _ {V : Type 0} (cls : DataClass V) (given : String → Bool)
    (all_kwargs : Dict String (Option V)) (f oneof : String) where
  other_given :
      (name : String)
      → contains f (members cls oneof) ≡ true
      → has all_kwargs f ≡ true
      → (f == name) ≡ false
      → has_other cls all_kwargs oneof name ≡ true
  unfolding has_other
  other_given name m h n =
      ground
        (arith, any_of_contains (λ g. not (g == name) && has all_kwargs g) f (members cls oneof) m)

  -- A step that succeeds.
  step_renames :
      (name p : String) (v : Option V) (kwargs : Dict String (Option V)) (r r' : Renamed cls)
      → get (fields_to_oneof cls) name ≡ some p
      → rename_from cls given all_kwargs ((name, v) ∷ kwargs) r ≡ some r'
      → (has_other cls all_kwargs p name ≡ false)
        × (rename_from cls given all_kwargs kwargs (rename_one cls p name v r) ≡ some r')
  unfolding rename_from
  step_renames name p v kwargs r r' e h = ground (arith, e, h)

  step_skips :
      (name : String) (v : Option V) (kwargs : Dict String (Option V)) (r r' : Renamed cls)
      → get (fields_to_oneof cls) name ≡ none
      → rename_from cls given all_kwargs ((name, v) ∷ kwargs) r ≡ some r'
      → rename_from cls given all_kwargs kwargs r ≡ some r'
  unfolding rename_from
  step_skips name v kwargs r r' e h = ground (arith, e, h)

  rename_one-elsewhere :
      (name p : String) (v : Option V) (r : Renamed cls)
      → (p == oneof) ≡ false
      → get (rename_one cls p name v r).which_oneof oneof ≡ get r.which_oneof oneof
  unfolding rename_one
  rename_one-elsewhere name p v r h = ground (arith, get-put r.which_oneof p (some name) oneof)

  -- After the field, no other keyword argument is one of the oneof.
  rename_from-keeps :
      (kwargs : Dict String (Option V)) (r r' : Renamed cls)
      → contains f (members cls oneof) ≡ true
      → has all_kwargs f ≡ true
      → has kwargs f ≡ false
      → rename_from cls given all_kwargs kwargs r ≡ some r'
      → get r'.which_oneof oneof ≡ get r.which_oneof oneof
  unfolding has rename_from
  rename_from-keeps [] r r' m a n h = ap (λ (x : Renamed cls). get x.which_oneof oneof) (some_inj h)
    where
      some_inj : {s t : Renamed cls} → rename_from cls given all_kwargs [] s ≡ some t → t ≡ s
      some_inj e = cc
  rename_from-keeps ((name, v) ∷ kwargs) r r' m a n h =
      elim (Option-cases (get (fields_to_oneof cls) name)) [
        | inl e ↦
            rename_from-keeps kwargs r r' m a (ground arith) (step_skips name v kwargs r r' e h)
        | inr (p, e) ↦
            let (o, h') = step_renames name p v kwargs r r' e h in
            elim (Bool-cases (p == oneof)) [
              | inl q ↦ absurd (
                  ground (
                    arith,
                    other_given name m a
                        (ground (arith, string_eq.beq_iff f name, string_eq.beq_iff name f)),
                    ap (λ x. has_other cls all_kwargs x name) (beq→eq q),
                  ))
              | inr q ↦
                  rename_from-keeps kwargs (rename_one cls p name v r) r' m a (ground arith) h'
                  ∙ rename_one-elsewhere name p v r q
            ]
      ]

  rename_from-notes :
      (kwargs : Dict String (Option V)) (r r' : Renamed cls)
      → contains f (members cls oneof) ≡ true
      → get (fields_to_oneof cls) f ≡ some oneof
      → has all_kwargs f ≡ true
      → has kwargs f ≡ true
      → distinct (keys kwargs) ≡ true
      → rename_from cls given all_kwargs kwargs r ≡ some r'
      → get r'.which_oneof oneof ≡ some (some f)
  unfolding has rename_one
  rename_from-notes [] r r' m g a i d h = absurd (ground arith)
  rename_from-notes ((name, v) ∷ kwargs) r r' m g a i d h = elim (Bool-cases (name == f)) [
    | inl q ↦
        let s : name ≡ f = beq→eq q in
        let (_, h') =
          step_renames name oneof v kwargs r r' (ap (get (fields_to_oneof cls)) s ∙ g) h in
        rename_from-keeps kwargs (rename_one cls oneof name v r) r' m a
          (ground (arith, contains-keys kwargs name, ap (has kwargs) s)) h'
        ∙ get-put_same r.which_oneof oneof (some name)
        ∙ ap (λ x. some (some x)) s
    | inr q ↦ elim (Option-cases (get (fields_to_oneof cls) name)) [
      | inl e ↦
          rename_from-notes kwargs r r' m g a (ground arith) (ground arith)
            (step_skips name v kwargs r r' e h)
      | inr (p, e) ↦
          let (_, h') = step_renames name p v kwargs r r' e h in
          rename_from-notes kwargs (rename_one cls p name v r) r' m g a (ground arith)
            (ground arith) h'
    ]
  ]

module _ {V : Type 0} (cls : DataClass V) where
  known-some :
      (d : Dict String (Option String)) (k f : String)
      → get d k ≡ some (some f)
      → known d k ≡ some f
  unfolding known
  known-some d k f e = ground (arith, e)

  init_renamed-which :
      (original_init : List (Option V) → Dict String (Option V) → Option (Object V))
      (args : List (Option V)) (x : Option (Renamed cls)) (f oneof : String) (obj : Object V)
      (used : List String)
      → ((r : Renamed cls) → x ≡ some r → get r.which_oneof oneof ≡ some (some f))
      → init_renamed cls original_init args x ≡ built obj used
      → get obj.which oneof ≡ some (some f)
  unfolding init_renamed finish_init
  init_renamed-which original_init args none f oneof obj used k h = absurd (ground arith)
  init_renamed-which original_init args (some r) f oneof obj used k h =
      finished (original_init args (update cls r.left r.renamed)) h
    where
      finished :
          (y : Option (Object V))
          → finish_init cls r.which_oneof y ≡ built obj used
          → get obj.which oneof ≡ some (some f)
      finished none e = absurd (ground arith)
      finished (some o) e = ap (λ i. get (which_of i) oneof) (sym e) ∙ k r refl

  -- The constructor that `_make_oneof_init` writes for dataclasses, when it succeeds, remembers
  -- which field of a oneof a keyword argument was for, whatever the type of the value and
  -- whatever the dataclass's own constructor does. The keyword arguments are distinct, and the
  -- field is in the list of its oneof.
  pub make_oneof_init-remembers :
      (original_init : List (Option V) → Dict String (Option V) → Option (Object V))
      (dataclass_fields : List String) (args : List (Option V)) (kwargs : Dict String (Option V))
      (f oneof : String) (v : Option V) (obj : Object V) (used : List String)
      → distinct (keys kwargs) ≡ true
      → get (fields_to_oneof cls) f ≡ some oneof
      → contains f (members cls oneof) ≡ true
      → get kwargs f ≡ some v
      → make_oneof_init cls original_init dataclass_fields args kwargs ≡ built obj used
      → (which_oneof cls oneof obj).0 ≡ found (some f)
  unfolding make_oneof_init which_oneof
  make_oneof_init-remembers original_init dataclass_fields args kwargs f oneof v obj used d g m i
        h =
      let a = has_of_get kwargs f v i in
      let w =
        init_renamed-which original_init args _ f oneof obj used
          (λ r e.
            rename_from-notes cls (is_positional cls dataclass_fields args) kwargs f oneof kwargs
              (record { left = kwargs; renamed = []; which_oneof = [] }) r m g a a d e)
          h in
      ap (λ x. (known_or cls x oneof obj).0) (known-some obj.which oneof f w)
