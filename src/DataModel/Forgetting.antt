-- ===== src/DataModel/Forgetting.antt =====
-- What the constructor of `_make_init` makes of a keyword argument for a field of a oneof.
use caikit.Common.{
  ◌+◌, String, Bool, true, false, not, ◌&&◌, Option, none, some, List, [], ◌∷◌, ◌++◌, contains,
  contains-append, length, ltb, ◌==◌, string_eq, if◌then◌else◌, Bool-cases, Option-cases, beq_refl,
  beq→eq, ◌≡◌, refl, ap, sym, ◌∙◌, inl, inr, arith,
}
use mathlib.Core.Path.{subst}
use caikit.Common.Dict.{Dict, get, has, get-put, get-remove, get-eq-none}
use caikit.DataModel.Attributes.{
  DataClass, Object, found, fields_to_oneof, slot, set_attr, known, which_oneof, get_attr,
  get_plain, infer_which_oneof, settle_which, known_or, or_inferred, stored, get_at,
}
use caikit.DataModel.OneOfs.{coherent, member-get}
use caikit.DataModel.Frames.{set_attr-elsewhere}
use caikit.DataModel.Constructors.{
  Init, InitError, built, raised, set_kwargs, note_oneof, set_defaults, with_defaults, make_init,
  set_args, empty_object, too_many_arguments,
}

abbrev object_of : {V : Type 0} → Init V → Object V
object_of (built obj used) = obj
object_of (raised e) = empty_object

abbrev used_of : {V : Type 0} → Init V → List String
used_of (built obj used) = used
used_of (raised e) = []

module _ {V : Type 0} (cls : DataClass V) (oneof : String) (v : Option V) where
  -- The oneof holds the value, and the object does not know which field is set.
  abbrev pub Unknown : Object V → Type 0
  Unknown obj = (get obj.private_attrs oneof ≡ some v) × (get obj.which oneof ≡ none)

  pub set_attr-oneof :
      (obj : Object V)
      → has cls.oneofs oneof ≡ true
      → has (fields_to_oneof cls) oneof ≡ false
      → Unknown (set_attr cls oneof v obj)
  unfolding set_attr
  set_attr-oneof obj h g = ground (
    arith,
    get-eq-none (fields_to_oneof cls) oneof g,
    get-put obj.private_attrs oneof v oneof,
    get-remove obj.which oneof oneof,
    beq_refl oneof,
  )

  set_attr-Unknown :
      (f : String) (w : Option V) (obj : Object V)
      → coherent cls ≡ true
      → (slot cls f == oneof) ≡ false
      → Unknown obj
      → Unknown (set_attr cls f w obj)
  set_attr-Unknown f w obj c h u =
      let (p, q, _) = set_attr-elsewhere cls f oneof w obj c h in (sym p ∙ u.0, sym q ∙ u.1)

  note_oneof-Unknown :
      (x : Option String) (f : String) (obj : Object V)
      → ((elim x [ none ↦ f | some o ↦ o ]) == oneof) ≡ false
      → Unknown obj
      → Unknown (note_oneof cls x f obj)
  unfolding note_oneof
  note_oneof-Unknown none f obj h u = u
  note_oneof-Unknown (some o) f obj h u = ground (arith, get-put obj.which o (some f) oneof, u)

  -- The name under which a field is held is held under itself.
  slot-slot : (f : String) → coherent cls ≡ true → slot cls (slot cls f) ≡ slot cls f
  slot-slot f c = elim (Option-cases (get (fields_to_oneof cls) f)) [
    | inl e ↦ ground (arith, e)
    | inr (o, e) ↦
        ground
          (arith, member-get cls (fields_to_oneof cls) f o c e, get-eq-none (fields_to_oneof cls) o)
  ]

  slot_free : (f : String) → has (fields_to_oneof cls) f ≡ false → slot cls f ≡ f
  slot_free f h =
      ap (λ (x : Option String). elim x [ none ↦ f | some o ↦ o ])
        (get-eq-none (fields_to_oneof cls) f h)

  slot_member : (f : String) → get (fields_to_oneof cls) f ≡ some oneof → slot cls f ≡ oneof
  slot_member f e = ap (λ (x : Option String). elim x [ none ↦ f | some o ↦ o ]) e

  if-built :
      (a b : Bool) (e e' : InitError) (rest : Init V) (obj : Object V) (used : List String)
      → (if a then raised e else if b then raised e' else rest) ≡ built obj used
      → (b ≡ false) × (rest ≡ built obj used)
  if-built true b e e' rest obj used h = absurd (ground arith)
  if-built false true e e' rest obj used h = absurd (ground arith)
  if-built false false e e' rest obj used h = (refl, h)

  -- One keyword argument.
  set_kwargs-step :
      (name : String) (w : Option V) (kwargs : Dict String (Option V)) (obj obj' : Object V)
      (used used' : List String)
      → set_kwargs cls ((name, w) ∷ kwargs) obj used ≡ built obj' used'
      → (contains (slot cls name) used ≡ false)
        × (set_kwargs cls kwargs
              (set_attr cls
                (slot cls name)
                w
                (note_oneof cls (get (fields_to_oneof cls) name) name obj))
              (used ++ slot cls name ∷ [])
            ≡ built obj' used')
  unfolding set_kwargs
  set_kwargs-step name w kwargs obj obj' used used' h = if-built _ _ _ _ _ obj' used' h

  not_same :
      (used : List String) (name : String)
      → contains oneof used ≡ true
      → contains name used ≡ false
      → (name == oneof) ≡ false
  not_same used name c d = elim (Bool-cases (name == oneof)) [
    | inl e ↦
        let p : name ≡ oneof = beq→eq e in absurd (ground (arith, ap (λ n. contains n used) p))
    | inr e ↦ e
  ]

  contains-more :
      (used : List String) (name : String)
      → contains oneof used ≡ true
      → contains oneof (used ++ name ∷ []) ≡ true
  contains-more used name c = contains-append oneof used (name ∷ []) ∙ ground (arith, c)

  -- Once the oneof is among the used names, no keyword argument touches it.
  set_kwargs-Unknown :
      (kwargs : Dict String (Option V)) (obj obj' : Object V) (used used' : List String)
      → coherent cls ≡ true
      → contains oneof used ≡ true
      → Unknown obj
      → set_kwargs cls kwargs obj used ≡ built obj' used'
      → Unknown obj' × (contains oneof used' ≡ true)
  unfolding set_kwargs
  set_kwargs-Unknown [] obj obj' used used' c n u h = (
    (
      ap (λ r. get (object_of r).private_attrs oneof) (sym h) ∙ u.0,
      ap (λ r. get (object_of r).which oneof) (sym h) ∙ u.1,
    ),
    ap (λ r. contains oneof (used_of r)) (sym h) ∙ n,
  )
  set_kwargs-Unknown ((name, w) ∷ kwargs) obj obj' used used' c n u h =
      let (d, h') = set_kwargs-step name w kwargs obj obj' used used' h in
      let s = not_same used (slot cls name) n d in
      set_kwargs-Unknown kwargs _ obj' (used ++ slot cls name ∷ []) used' c
        (contains-more used (slot cls name) n)
        (set_attr-Unknown (slot cls name) w _ c (ap (λ x. x == oneof) (slot-slot name c) ∙ s)
          (note_oneof-Unknown (get (fields_to_oneof cls) name) name obj s u))
        h'

  set_kwargs-member :
      (f : String) (kwargs : Dict String (Option V)) (obj obj' : Object V)
      (used used' : List String)
      → coherent cls ≡ true
      → get (fields_to_oneof cls) f ≡ some oneof
      → get kwargs f ≡ some v
      → set_kwargs cls kwargs obj used ≡ built obj' used'
      → Unknown obj' × (contains oneof used' ≡ true)
  unfolding get
  set_kwargs-member f [] obj obj' used used' c m g h = absurd (ground arith)
  set_kwargs-member f ((name, w) ∷ kwargs) obj obj' used used' c m g h =
      let (d, h') = set_kwargs-step name w kwargs obj obj' used used' h in
      elim (Bool-cases (name == f)) [
        | inl e ↦
            let q = slot_member name (ap (get (fields_to_oneof cls)) (beq→eq e) ∙ m) in
            let (o, t, _) = member-get cls (fields_to_oneof cls) f oneof c m in
            let p : w ≡ v = cc in
            set_kwargs-Unknown kwargs _ obj' (used ++ slot cls name ∷ []) used' c
              (contains-append oneof used (slot cls name ∷ []) ∙ ground (arith, q, beq_refl oneof))
              (subst
                (λ s.
                  Unknown
                    (set_attr cls s w (note_oneof cls (get (fields_to_oneof cls) name) name obj)))
                (sym q)
                (subst
                  (λ x. Unknown (
                    set_attr cls oneof x
                      (note_oneof cls (get (fields_to_oneof cls) name) name obj)))
                  (sym p) (set_attr-oneof _ o t)))
              h'
        | inr e ↦
            set_kwargs-member f kwargs _ obj' (used ++ slot cls name ∷ []) used' c m (ground arith)
              h'
      ]

  set_defaults-Unknown :
      (default : String → Option V) (fields : List String) (used : List String) (obj : Object V)
      → coherent cls ≡ true
      → contains oneof used ≡ true
      → Unknown obj
      → Unknown (set_defaults cls default fields used obj)
  unfolding set_defaults
  set_defaults-Unknown default [] used obj c n u = u
  set_defaults-Unknown default (f ∷ fields) used obj c n u =
      set_defaults-Unknown default fields used _ c n
        (elim (Bool-cases (not (contains f used) && not (has (fields_to_oneof cls) f))) [
          | inl e ↦ rw e (
              set_attr-Unknown f (default f) obj c
                (ap (λ x. x == oneof) (slot_free f (ground arith))
                  ∙ not_same used f n (ground arith))
                u)
          | inr e ↦ rw e u
        ])

  which_oneof-Unknown :
      (obj : Object V)
      → has (fields_to_oneof cls) oneof ≡ false
      → Unknown obj
      → ((which_oneof cls oneof obj).0 ≡ found (infer_which_oneof cls oneof v))
        × ((get_attr cls oneof obj).0 ≡ found v)
  unfolding which_oneof get_attr
  which_oneof-Unknown obj h u =
      let k : known obj.which oneof ≡ none = known-none obj.which oneof (u.1) in
      let p : get_plain cls oneof obj ≡ (found v, obj) = get_plain-some obj (u.0) in
      (
        ap (λ x. (known_or cls x oneof obj).0) k
            ∙ ap (λ r. (settle_which cls oneof r).0) p
            ∙ ap (λ x. (or_inferred cls x (infer_which_oneof cls oneof v) oneof obj).0) k
            ∙ inferred (infer_which_oneof cls oneof v),
        ap (λ x. (get_at cls x oneof obj).0) (get-eq-none (fields_to_oneof cls) oneof h)
            ∙ ap (λ r. r.0) p,
      )
    where
      known-none :
          (d : Dict String (Option String)) (k : String) → get d k ≡ none → known d k ≡ none
      known-none d k e = ground (arith, e)

      get_plain-some :
          (o : Object V) → get o.private_attrs oneof ≡ some v → get_plain cls oneof o ≡ (found v, o)
      get_plain-some o e = ap (λ x. stored cls x oneof o) e

      inferred : (i : Option String) → (or_inferred cls none i oneof obj).0 ≡ found i
      inferred none = refl
      inferred (some f) = refl

  with_defaults-Unknown :
      (default : String → Option V) (i : Init V) (obj : Object V) (used : List String)
      → coherent cls ≡ true
      → ((o : Object V) (us : List String)
          → i ≡ built o us
          → Unknown o × (contains oneof us ≡ true))
      → with_defaults cls default i ≡ built obj used
      → Unknown obj
  with_defaults-Unknown default (raised e) obj used c k h = absurd (ground arith)
  with_defaults-Unknown default (built o us) obj used c k h =
      let (u, n) = k o us refl in
      let r = set_defaults-Unknown default cls.fields us o c n u in
      (
        ap (λ x. get (object_of x).private_attrs oneof) (sym h) ∙ r.0,
        ap (λ x. get (object_of x).which oneof) (sym h) ∙ r.1,
      )

  -- In a class where no field of a oneof has the name of a oneof, the constructor that
  -- `_make_init` writes, when it succeeds, keeps the value of a keyword argument for a field of a
  -- oneof, but not which field it was for: setting the oneof drops what was just noted, so
  -- `which_oneof` answers with the first field of the oneof whose type the value has, whatever
  -- field was named.
  pub make_init-forgets :
      (f : String) (default : String → Option V) (args : List (Option V))
      (kwargs : Dict String (Option V)) (obj : Object V) (used : List String)
      → coherent cls ≡ true
      → get (fields_to_oneof cls) f ≡ some oneof
      → get kwargs f ≡ some v
      → make_init cls default args kwargs ≡ built obj used
      → ((which_oneof cls oneof obj).0 ≡ found (infer_which_oneof cls oneof v))
        × ((get_attr cls oneof obj).0 ≡ found v)
  unfolding make_init
  make_init-forgets f default args kwargs obj used c m g h =
      let (_, t, _) = member-get cls (fields_to_oneof cls) f oneof c m in
      let start = set_args cls cls.fields args empty_object [] in
      which_oneof-Unknown obj t (
        with_defaults-Unknown default (set_kwargs cls kwargs (start.0) (start.1)) obj used c
          (λ o us e. set_kwargs-member f kwargs (start.0) o (start.1) us c m g e)
          (fits (ltb (length cls.fields) (length args + length kwargs)) _ h))
    where
      fits :
          (b : Bool) (r : Init V)
          → (if b then raised too_many_arguments else r) ≡ built obj used
          → r ≡ built obj used
      fits true r e = absurd (ground arith)
      fits false r e = e
