-- ===== src/Manager/Deployed.antt =====
-- `deploy_model` of runtime/model_management/model_manager.py: where they write.
use caikit.Common.{
  ◌≡◌, inl, inr, refl, sym, ap, ◌∙◌, Bool, true, false, not, ◌&&◌, ◌||◌, Option, none, some, List,
  [], ◌∷◌, ◌++◌, Text, text_eq, ◌==◌, beq_refl, contains, if◌then◌else◌, arith, Bool-cases,
}
use caikit.Common.Dict
use caikit.Common.Dict.{Dict}
use caikit.Common.Paths.{
  path_eq, path_beq_iff, is_abs, join, parts, common_parts, parts-join, is_abs-join,
}
use caikit.Manager.Deploying.{
  Io, done, permission_error, os_error, Location, dotdot, parent, walk, location, Disk, Saved,
  saved, refused, value_error, Os, path_exists, after_io, is_allowed, write_file, make_parent,
  and_then, save_allowed, save_file, save_files, deploy_model, is_under,
}

is_under_refl : (l : Location) → is_under l l ≡ true
is_under_refl [] = refl
is_under_refl (x ∷ l) = rw (beq_refl (x ∷ l)) refl

-- Going down from a place that lies under a directory, without a `..`, one stays there.
walk-is_under :
    (dir l : Location) (p : List Text)
    → contains dotdot p ≡ false
    → is_under dir l ≡ true
    → is_under dir (walk l p) ≡ true
walk-is_under dir l [] h u = u
walk-is_under dir l (x ∷ p) h u = elim (Bool-cases (x == dotdot)) [
  | inl e ↦ absurd (ground (arith, h, e))
  | inr e ↦ rw e (walk-is_under dir (x ∷ l) p (ground (arith, h, e)) (ground (arith, u)))
]

walk-append : (l : Location) (p q : List Text) → walk l (p ++ q) ≡ walk (walk l p) q
walk-append l [] q = refl
walk-append l (x ∷ p) q = elim (Bool-cases (x == dotdot)) [
  | inl e ↦ rw e (walk-append (parent l) p q)
  | inr e ↦ rw e (walk-append (x ∷ l) p q)
]

is_abs-relative : (a b : Text) → is_abs b ≡ false → is_abs (join a b) ≡ is_abs a
unfolding join
is_abs-relative [] b h = rw h h
is_abs-relative (c ∷ a) b h = is_abs-join c a b h

-- A relative name without `..` leads under the directory that it is joined to.
join-is_under :
    (os : Os) (dir name : Text)
    → is_abs name ≡ false
    → contains dotdot (parts name) ≡ false
    → is_under (location os dir) (location os (join dir name)) ≡ true
join-is_under os dir name r d =
    let start = if is_abs dir then [] else os.cwd in
    rw
      (
        is_abs-relative dir name r,
        parts-join dir name r,
        walk-append start (parts dir) (parts name),
      )
      (walk-is_under (location os dir) (location os dir) (parts name) d
        (is_under_refl (location os dir)))

-- The paths have their first part in common.
abbrev pub share_root : Text → Text → Bool
share_root a b = elim (common_parts (parts a) (parts b)) [ [] ↦ false | x ∷ l ↦ true ]

allowed-absolute :
    (model_dir name : Text)
    → is_abs name ≡ true
    → is_allowed model_dir name ≡ some true
    → (is_abs model_dir && share_root model_dir name) ≡ true
unfolding is_allowed
allowed-absolute model_dir name e k = elim (Bool-cases (is_abs model_dir)) [
  | inl a ↦ elim (Bool-cases (share_root model_dir name)) [
    | inl r ↦ ground (arith, a, r)
    | inr r ↦ absurd (ground (arith, a, r, e, k))
  ]
  | inr a ↦ absurd (ground (arith, a, e, k))
]

module _ (os : Os) where
  -- Whether a name may lead to the place: a relative one, if the place is under the directory, an
  -- absolute one, if it is the place's, its path has its first part in common with the directory's,
  -- and that is absolute, too.
  abbrev pub may_reach : Text → Location → Text → Bool
  may_reach model_dir p fname =
      let name = os.strip fname in
      if is_abs name
      then is_abs model_dir && share_root model_dir name && (location os name == p)
      else is_under (location os model_dir) p

module _ {ℓ} {D : Type ℓ} (os : Os) where
  -- Whether no relative name climbs by `..`.
  abbrev pub no_climb : Dict Text D → Bool
  no_climb [] = true
  no_climb ((fname, content) ∷ model_files) =
      let name = os.strip fname in
      (is_abs name || not (contains dotdot (parts name))) && no_climb model_files

  abbrev pub any_reaches : Text → Location → Dict Text D → Bool
  any_reaches model_dir p [] = false
  any_reaches model_dir p ((fname, content) ∷ model_files) =
      may_reach os model_dir p fname || any_reaches model_dir p model_files

module _ (os : Os) (model_dir : Text) (p : Location) where
  -- A name that is not refused leads elsewhere, if it may not lead to the place.
  is_allowed-elsewhere :
      (fname : Text)
      → (is_abs (os.strip fname) || not (contains dotdot (parts (os.strip fname)))) ≡ true
      → may_reach os model_dir p fname ≡ false
      → is_allowed model_dir (join model_dir (os.strip fname)) ≡ some true
      → (location os (join model_dir (os.strip fname)) == p) ≡ false
  is_allowed-elsewhere fname n h k =
      let name = os.strip fname in
      elim (Bool-cases (is_abs name)) [
        | inl e ↦
            let same : join model_dir name ≡ name = unfold join in ground (arith, e) in
            let root =
              allowed-absolute model_dir name e (ap (is_allowed model_dir) (sym same) ∙ k) in
            rw same (ground (arith, h, e, root))
        | inr e ↦ elim (Bool-cases (location os (join model_dir name) == p)) [
          | inl l ↦ absurd (
              ground (
                arith,
                h,
                e,
                l,
                n,
                join-is_under os model_dir name e,
                path_beq_iff (location os (join model_dir name)) p,
              ))
          | inr l ↦ l
        ]
      ]

module _ {ℓ} {D : Type ℓ} (os : Os) (model_dir : Text) (p : Location) where
  -- The place is left alone.
  abbrev Spares : Disk D → Saved × Disk D → Type ℓ
  Spares before r = Dict.get r.1.files p ≡ Dict.get before.files p

  after_io-Spares :
      (io : Io) (disk : Disk D) (next : Saved × Disk D)
      → Spares disk next
      → Spares disk (after_io io next (λ e. (e, disk)))
  unfolding after_io
  after_io-Spares done disk next s = s
  after_io-Spares permission_error disk next s = refl
  after_io-Spares os_error disk next s = refl

  and_then-Spares :
      (disk : Disk D) (x : Saved × Disk D) (f : Disk D → Saved × Disk D)
      → Spares disk x
      → ((next : Disk D) → Spares next (f next))
      → Spares disk (and_then os x f)
  unfolding and_then
  and_then-Spares disk (saved, next) f s g = g next ∙ s
  and_then-Spares disk (refused c, next) f s g = s
  and_then-Spares disk (value_error, next) f s g = s

  write_file-Spares :
      (fpath : Text) (content : D) (disk : Disk D)
      → (location os fpath == p) ≡ false
      → Spares disk (write_file os fpath content disk)
  unfolding write_file
  write_file-Spares fpath content disk u =
      after_io-Spares (os.write fpath) disk
        (saved, record disk { files = Dict.put disk.files (location os fpath) content })
        (Dict.get-put disk.files (location os fpath) content p ∙ rw u refl)

  make_parent-Spares :
      (fpath : Text) (disk : Disk D) → Spares disk (make_parent os model_dir fpath disk)
  unfolding make_parent
  make_parent-Spares fpath disk = elim (Bool-cases (os.same_dir (os.dirname fpath) model_dir)) [
    | inl e ↦ rw e refl
    | inr e ↦ rw e (
        after_io-Spares (os.make (os.dirname fpath)) disk
          (saved, record disk { dirs = location os (os.dirname fpath) ∷ disk.dirs }) refl)
  ]

  save_allowed-Spares :
      (allowed : Option Bool) (fpath : Text) (content : D) (disk : Disk D)
      → (allowed ≡ some true → (location os fpath == p) ≡ false)
      → Spares disk (save_allowed os allowed model_dir fpath content disk)
  unfolding save_allowed
  save_allowed-Spares none fpath content disk u = refl
  save_allowed-Spares (some false) fpath content disk u = refl
  save_allowed-Spares (some true) fpath content disk u =
      and_then-Spares disk (make_parent os model_dir fpath disk)
        (λ made. write_file os fpath content made) (make_parent-Spares fpath disk)
        (λ next. write_file-Spares fpath content next (u refl))

  save_file-Spares :
      (fname : Text) (content : D) (disk : Disk D)
      → (is_abs (os.strip fname) || not (contains dotdot (parts (os.strip fname)))) ≡ true
      → may_reach os model_dir p fname ≡ false
      → Spares disk (save_file os model_dir fname content disk)
  unfolding save_file
  save_file-Spares fname content disk n h = elim (Bool-cases (os.strip fname == [])) [
    | inl e ↦ rw e refl
    | inr e ↦ rw e (
        save_allowed-Spares (is_allowed model_dir (join model_dir (os.strip fname)))
          (join model_dir (os.strip fname)) content disk
          (is_allowed-elsewhere os model_dir p fname n h))
  ]

  save_files-Spares :
      (model_files : Dict Text D) (disk : Disk D)
      → no_climb os model_files ≡ true
      → any_reaches os model_dir p model_files ≡ false
      → Spares disk (save_files os model_dir model_files disk)
  unfolding save_files
  save_files-Spares [] disk n h = refl
  save_files-Spares ((fname, content) ∷ model_files) disk n h =
      and_then-Spares disk (save_file os model_dir fname content disk)
        (λ next. save_files os model_dir model_files next)
        (save_file-Spares fname content disk (ground (arith, n)) (ground (arith, h)))
        (λ next. save_files-Spares model_files next (ground (arith, n)) (ground (arith, h)))

-- If no relative file name has a part `..`, deploying a model changes no file but those under the
-- model's directory, where there are relative names, and those that an absolute name names and whose
-- path has its first part in common with that of the directory, however it ends. Links are left out.
pub deploy_model-spares {ℓ} :
    {D : Type ℓ} (os : Os) (local_models_dir model_id : Text) (p : Location)
    (model_files : Dict Text D) (disk : Disk D)
    → no_climb os model_files ≡ true
    → any_reaches os (join local_models_dir model_id) p model_files ≡ false
    → Dict.get (deploy_model os (some local_models_dir) model_id model_files disk).1.files p
      ≡ Dict.get disk.files p
unfolding deploy_model
deploy_model-spares os local_models_dir model_id p model_files disk n h =
    let model_dir = join local_models_dir model_id in
    elim (Bool-cases (local_models_dir == [])) [
      | inl e ↦ rw e refl
      | inr e ↦ elim (Bool-cases (path_exists os disk model_dir)) [
        | inl x ↦ rw (e, x) refl
        | inr x ↦
            rw (e, x)
              (after_io-Spares os model_dir p (os.make model_dir) disk
                (save_files os model_dir model_files
                  (record disk { dirs = location os model_dir ∷ disk.dirs }))
                (save_files-Spares os model_dir p model_files
                  (record disk { dirs = location os model_dir ∷ disk.dirs }) n h))
      ]
    ]
