-- ===== src/DataModel/OneOfs.antt =====
-- Reading back what `__setattr__` has set.
use caikit.Common.{
  String, Bool, true, false, not, ◌&&◌, Option, none, some, [], ◌∷◌, all, ◌==◌, string_eq,
  if◌then◌else◌, Bool-cases, beq_refl, ◌≡◌, refl, ap, ◌∙◌, inl, inr, arith,
}
use caikit.Common.Dict.{Dict, get, has, put, get-put, get-eq-none}
use caikit.DataModel.Attributes.{
  DataClass, Object, found, fields_to_oneof, set_attr, get_plain, known, which_oneof, get_chosen,
  get_attr, get_at, stored, known_or, or_fetch,
}

pub known-put :
    (w : Dict String (Option String)) (oneof f : String)
    → known (put w oneof (some f)) oneof ≡ some f
unfolding known
known-put w o f = ground (arith, get-put w o (some f) o, beq_refl o)

pub get-put_same {ℓ} :
    {A : Type ℓ} (d : Dict String A) (k : String) (v : A) → get (put d k v) k ≡ some v
get-put_same d k v = get-put d k v k ∙ ap (λ b. if b then some v else get d k) (beq_refl k)

module _ {V : Type 0} (cls : DataClass V) where
  abbrev pub member_ok : String × String → Bool
  member_ok (f, oneof) =
      has cls.oneofs oneof && not (has (fields_to_oneof cls) oneof) && not (has cls.oneofs f)

  -- No field of a oneof has the name of a oneof.
  abbrev pub coherent : Bool
  coherent = all member_ok (fields_to_oneof cls)

  pub member-get :
      (d : Dict String String) (f oneof : String)
      → all member_ok d ≡ true
      → get d f ≡ some oneof
      → (has cls.oneofs oneof ≡ true)
        × (has (fields_to_oneof cls) oneof ≡ false)
        × (has cls.oneofs f ≡ false)
  unfolding get
  member-get [] f o a e = absurd (ground arith)
  member-get ((g, p) ∷ d) f o a e = ground (arith, string_eq.beq_iff g f, member-get d f o)

  -- A field of a oneof is held under the name of the oneof.
  set_attr-member :
      (f oneof : String) (v : Option V) (obj : Object V)
      → coherent ≡ true
      → get (fields_to_oneof cls) f ≡ some oneof
      → set_attr cls f v obj ≡ record obj {
        private_attrs = put obj.private_attrs oneof v;
        which = put obj.which oneof (some f);
      }
  unfolding set_attr
  set_attr-member f o v obj c e = ground (arith, member-get (fields_to_oneof cls) f o c e)

  -- The object after a field of a oneof was set.
  abbrev chosen : String → String → Option V → Object V → Object V
  chosen f oneof v obj = record obj {
    private_attrs = put obj.private_attrs oneof v;
    which = put obj.which oneof (some f);
  }

  which_oneof-chosen :
      (f oneof : String) (v : Option V) (obj : Object V)
      → which_oneof cls oneof (chosen f oneof v obj) ≡ (found (some f), chosen f oneof v obj)
  unfolding which_oneof
  which_oneof-chosen f o v obj =
      ap (λ k. known_or cls k o (chosen f o v obj)) (known-put obj.which o f)

  get_plain-chosen :
      (f oneof : String) (v : Option V) (obj : Object V)
      → get_plain cls oneof (chosen f oneof v obj) ≡ (found v, chosen f oneof v obj)
  unfolding get_plain
  get_plain-chosen f o v obj =
      ap (λ x. stored cls x o (chosen f o v obj)) (get-put_same obj.private_attrs o v)

  choose_other :
      (f oneof g : String) (v : Option V) (obj : Object V)
      → (get_chosen cls oneof g (found (some f), chosen f oneof v obj)).0
        ≡ found (if f == g then v else none)
  unfolding get_chosen or_fetch
  choose_other f o g v obj = elim (Bool-cases (f == g)) [
    | inl e ↦ rw e (ap (λ r. (or_fetch cls g r).0) (get_plain-chosen f o v obj))
    | inr e ↦ rw e refl
  ]

  get_attr-chosen :
      (f oneof g : String) (v : Option V) (obj : Object V)
      → get (fields_to_oneof cls) g ≡ some oneof
      → (get_attr cls g (chosen f oneof v obj)).0 ≡ found (if f == g then v else none)
  unfolding get_attr
  get_attr-chosen f o g v obj e =
      ap (λ x. (get_at cls x g (chosen f o v obj)).0) e
      ∙ ap (λ r. (get_chosen cls o g r).0) (which_oneof-chosen f o v obj)
      ∙ choose_other f o g v obj

  get_attr-chosen_whole :
      (f oneof : String) (v : Option V) (obj : Object V)
      → has (fields_to_oneof cls) oneof ≡ false
      → (get_attr cls oneof (chosen f oneof v obj)).0 ≡ found v
  unfolding get_attr
  get_attr-chosen_whole f o v obj h =
      ap (λ x. (get_at cls x o (chosen f o v obj)).0) (get-eq-none (fields_to_oneof cls) o h)
      ∙ ap (λ r. r.0) (get_plain-chosen f o v obj)

  -- In a class where no field of a oneof has the name of a oneof, setting a field of a oneof
  -- chooses it and hides the others: the object says that the field is the one that is set, the
  -- field and the oneof itself read as the value, and every other field of the oneof reads as
  -- `None`, whatever the object held before and whatever its backend holds.
  pub set_attr-chooses :
      (f g oneof : String) (v : Option V) (obj : Object V)
      → coherent ≡ true
      → get (fields_to_oneof cls) f ≡ some oneof
      → get (fields_to_oneof cls) g ≡ some oneof
      → ((which_oneof cls oneof (set_attr cls f v obj)).0 ≡ found (some f))
        × ((get_attr cls oneof (set_attr cls f v obj)).0 ≡ found v)
        × ((get_attr cls g (set_attr cls f v obj)).0 ≡ found (if f == g then v else none))
  set_attr-chooses f g o v obj c e e' =
      let s = set_attr-member f o v obj c e in
      let (_, h, _) = member-get (fields_to_oneof cls) f o c e in
      (
        ap (λ r. (which_oneof cls o r).0) s ∙ ap (λ r. r.0) (which_oneof-chosen f o v obj),
        ap (λ r. (get_attr cls o r).0) s ∙ get_attr-chosen_whole f o v obj h,
        ap (λ r. (get_attr cls g r).0) s ∙ get_attr-chosen f o g v obj e',
      )
