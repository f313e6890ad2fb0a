-- ===== src/CoreManager/Archives.antt =====
-- caikit/core/model_manager.py: loading again what was loaded, from a path and from an archive.
use caikit.Common.{
  ◌≡◌, refl, ap, ◌∙◌, ◌+◌, true, false, Option, none, List, [], ◌∷◌, if◌then◌else◌, Text, contains,
  text_eq, text_beq_iff, arith, Bool-cases, inl, inr,
}
use caikit.Common.Dict
use caikit.Common.Dict.{Dict}
use caikit.CoreManager.Components.{
  Outcome, ok, value_error, file_not_found, other_error, Choice, then_do, present,
}
use caikit.CoreManager.Loading.{
  Loader, ModulePath, path, bytes_io, bytes, Files, get_finder, get_initializer, load_new,
  keep_singleton, keep_singleton-outcome, do_load, do_load-again, nested_dirs, load_nested,
  or_nested, load_from_zipfile, under_load_path, normalise, load_directory, load,
}

module _ {ℓ} {GF GI Finder Initializer Config Model Buffer : Type ℓ}
    (construct_finder : GF → Text → Outcome Finder)
    (construct_initializer : GI → Text → Outcome Initializer)
    (find_model : Finder → Text → Outcome (Option Config))
    (init : Initializer → Config → Outcome (Option Model)) (os : Files Buffer) where
  abbrev Run : Type ℓ
  Run = Outcome Model × Loader GF GI Finder Initializer Model

  load_directory-again :
      (p : ModulePath Buffer) (f g : Choice Finder) (i j : Choice Initializer)
      (m m' : Loader GF GI Finder Initializer Model) (model : Model)
      → load_directory construct_finder construct_initializer find_model init os p true f i m
        ≡ (ok model, m')
      → load_directory construct_finder construct_initializer find_model init os p true g j m'
        ≡ (ok model, m')
  unfolding load_directory
  load_directory-again (path p) f g i j m m' model h =
      do_load-again construct_finder construct_initializer find_model init p f g i j m m' model h
  load_directory-again (bytes_io b) f g i j m m' model h = absurd (ground arith)
  load_directory-again (bytes b) f g i j m m' model h = absurd (ground arith)

  -- What was loaded as a singleton with success and is no archive is loaded as a singleton no second
  -- time: the same call, and one with another finder or initializer, gives the same model and changes
  -- nothing.
  pub load-again :
      (load_path : Option Text) (p : ModulePath Buffer) (f g : Choice Finder)
      (i j : Choice Initializer) (m m' : Loader GF GI Finder Initializer Model) (model : Model)
      → os.is_zipfile (normalise os (under_load_path os load_path p)) ≡ false
      → load construct_finder construct_initializer find_model init os load_path p true f i m
        ≡ (ok model, m')
      → load construct_finder construct_initializer find_model init os load_path p true g j m'
        ≡ (ok model, m')
  unfolding load
  load-again load_path p f g i j m m' model z h =
      let again =
        load_directory-again (normalise os (under_load_path os load_path p)) f g i j m m' model
          (ground (arith, z, h)) in
      ground (arith, z, again)

  then_do-cache :
      {A B : Type ℓ} (x : Outcome A × Loader GF GI Finder Initializer Model)
      (f : A
        → Loader GF GI Finder Initializer Model
        → Outcome B × Loader GF GI Finder Initializer Model)
      → ((a : A) (m : Loader GF GI Finder Initializer Model)
          → (f a m).1.singleton_module_cache ≡ m.singleton_module_cache)
      → (then_do x f).1.singleton_module_cache ≡ x.1.singleton_module_cache
  then_do-cache (ok a, m) f h = h a m
  then_do-cache (value_error, m) f h = refl
  then_do-cache (file_not_found, m) f h = refl
  then_do-cache (other_error, m) f h = refl

  get_finder-cache :
      (f : Choice Finder) (m : Loader GF GI Finder Initializer Model)
      → (get_finder construct_finder f m).1.singleton_module_cache ≡ m.singleton_module_cache
  unfolding get_finder
  get_finder-cache f m = refl

  get_initializer-cache :
      (f : Choice Initializer) (m : Loader GF GI Finder Initializer Model)
      → (get_initializer construct_initializer f m).1.singleton_module_cache
        ≡ m.singleton_module_cache
  unfolding get_initializer
  get_initializer-cache f m = refl

  do_load-cache :
      (p : Text) (f : Choice Finder) (i : Choice Initializer)
      (m : Loader GF GI Finder Initializer Model)
      → (do_load construct_finder construct_initializer find_model init p false f i
          m).1.singleton_module_cache
        ≡ m.singleton_module_cache
  unfolding do_load load_new
  do_load-cache p f i m =
      then_do-cache (get_finder construct_finder f m) _ (λ finder m₁.
        then_do-cache (present (find_model finder p), m₁) _
          (λ config m₂.
            then_do-cache (get_initializer construct_initializer i m₂) _ (λ initializer m₃. refl)
            ∙ get_initializer-cache i m₂))
      ∙ get_finder-cache f m

  do_load-missing :
      (p : Text) (f : Choice Finder) (i : Choice Initializer)
      (m : Loader GF GI Finder Initializer Model)
      → Dict.get m.singleton_module_cache p ≡ none
      → do_load construct_finder construct_initializer find_model init p true f i m
        ≡ keep_singleton p
            (do_load construct_finder construct_initializer find_model init p false f i m)
  unfolding do_load
  do_load-missing p f i m h = ground (arith, h)

  load_nested-outcome :
      (ds : List Text) (f : Choice Finder) (i : Choice Initializer)
      (m : Loader GF GI Finder Initializer Model)
      → ((d : Text) → contains d ds ≡ true → Dict.get m.singleton_module_cache d ≡ none)
      → (load_nested construct_finder construct_initializer find_model init os ds true f i m).0
        ≡ (load_nested construct_finder construct_initializer find_model init os ds false f i m).0
  unfolding load_nested
  load_nested-outcome [] f i m h = refl
  load_nested-outcome (d ∷ []) f i m h =
      ap (λ x. x.0) (do_load-missing d f i m (h d (ground (arith, text_beq_iff d d))))
      ∙ keep_singleton-outcome d
          (do_load construct_finder construct_initializer find_model init d false f i m)
  load_nested-outcome (d ∷ e ∷ ds) f i m h = refl

  nested_dirs-join :
      (extract_path : Text) (fs : List Text) (P : Dict Text Model)
      → ((name : Text) → Dict.get P (os.join extract_path name) ≡ none)
      → (d : Text) → contains d (nested_dirs os extract_path fs) ≡ true
      → Dict.get P d ≡ none
  unfolding nested_dirs
  nested_dirs-join extract_path [] P h d c = absurd (ground arith)
  nested_dirs-join extract_path (f ∷ fs) P h d c =
      ground (
        arith,
        h f,
        nested_dirs-join extract_path fs P h d,
        text_beq_iff (os.join extract_path f) d,
      )

  or_nested-outcome :
      (extract_path : Text) (f : Choice Finder) (i : Choice Initializer)
      (x : Outcome Model × Loader GF GI Finder Initializer Model)
      → ((name : Text) → Dict.get x.1.singleton_module_cache (os.join extract_path name) ≡ none)
      → (or_nested construct_finder construct_initializer find_model init os extract_path true f i
          (keep_singleton extract_path x)).0
        ≡ (or_nested construct_finder construct_initializer find_model init os extract_path false f
            i x).0
  unfolding or_nested keep_singleton
  or_nested-outcome extract_path f i (ok x, m) h = refl
  or_nested-outcome extract_path f i (value_error, m) h = refl
  or_nested-outcome extract_path f i (file_not_found, m) h =
      load_nested-outcome (nested_dirs os extract_path (os.listdir extract_path)) f i m
        (nested_dirs-join extract_path (os.listdir extract_path) m.singleton_module_cache h)
  or_nested-outcome extract_path f i (other_error, m) h = refl

  -- For an archive, loading as a singleton has the outcome of loading it anew: the cache is asked for
  -- the new temporary directory and what is in it, which it does not have, and not for the archive.
  pub load_from_zipfile-anew :
      (f : Choice Finder) (i : Choice Initializer) (m : Loader GF GI Finder Initializer Model)
      → Dict.get m.singleton_module_cache (os.temporary_directory m.temporary) ≡ none
      → ((name : Text)
          → Dict.get m.singleton_module_cache (os.join (os.temporary_directory m.temporary) name)
            ≡ none)
      → (load_from_zipfile construct_finder construct_initializer find_model init os true f i m).0
        ≡ (load_from_zipfile construct_finder construct_initializer find_model init os false f i
            m).0
  unfolding load_from_zipfile
  load_from_zipfile-anew f i m h n =
      let extract_path = os.temporary_directory m.temporary in
      let m₁ = record m { temporary = m.temporary + 1 } in
      let x =
        do_load construct_finder construct_initializer find_model init extract_path false f i m₁ in
      ap
        (λ y.
          (or_nested construct_finder construct_initializer find_model init os extract_path true f i
            y).0)
        (do_load-missing extract_path f i m₁ h)
      ∙ or_nested-outcome extract_path f i x (λ name.
        ap (λ c. Dict.get c (os.join extract_path name)) (do_load-cache extract_path f i m₁)
        ∙ n name)

  load_nested-cache :
      (ds : List Text) (f : Choice Finder) (i : Choice Initializer)
      (m : Loader GF GI Finder Initializer Model)
      → (load_nested construct_finder construct_initializer find_model init os ds false f i
          m).1.singleton_module_cache
        ≡ m.singleton_module_cache
  unfolding load_nested
  load_nested-cache [] f i m = refl
  load_nested-cache (d ∷ []) f i m = do_load-cache d f i m
  load_nested-cache (d ∷ e ∷ ds) f i m = refl

  or_nested-cache :
      (extract_path : Text) (f : Choice Finder) (i : Choice Initializer)
      (x : Outcome Model × Loader GF GI Finder Initializer Model)
      → (or_nested construct_finder construct_initializer find_model init os extract_path false f i
          x).1.singleton_module_cache
        ≡ x.1.singleton_module_cache
  unfolding or_nested
  or_nested-cache extract_path f i (ok x, m) = refl
  or_nested-cache extract_path f i (value_error, m) = refl
  or_nested-cache extract_path f i (file_not_found, m) =
      load_nested-cache (nested_dirs os extract_path (os.listdir extract_path)) f i m
  or_nested-cache extract_path f i (other_error, m) = refl

  load_from_zipfile-cache :
      (f : Choice Finder) (i : Choice Initializer) (m : Loader GF GI Finder Initializer Model)
      → (load_from_zipfile construct_finder construct_initializer find_model init os false f i
          m).1.singleton_module_cache
        ≡ m.singleton_module_cache
  unfolding load_from_zipfile
  load_from_zipfile-cache f i m =
      or_nested-cache (os.temporary_directory m.temporary) f i _
      ∙ do_load-cache (os.temporary_directory m.temporary) f i
          (record m { temporary = m.temporary + 1 })

  load_directory-cache :
      (p : ModulePath Buffer) (f : Choice Finder) (i : Choice Initializer)
      (m : Loader GF GI Finder Initializer Model)
      → (load_directory construct_finder construct_initializer find_model init os p false f i
          m).1.singleton_module_cache
        ≡ m.singleton_module_cache
  unfolding load_directory
  load_directory-cache (path p) f i m = do_load-cache p f i m
  load_directory-cache (bytes_io b) f i m = refl
  load_directory-cache (bytes b) f i m = refl

  -- A load that is no singleton load leaves the cache as it is, however it ends.
  pub load-cache :
      (load_path : Option Text) (p : ModulePath Buffer) (f : Choice Finder) (i : Choice Initializer)
      (m : Loader GF GI Finder Initializer Model)
      → (load construct_finder construct_initializer find_model init os load_path p false f i
          m).1.singleton_module_cache
        ≡ m.singleton_module_cache
  unfolding load
  load-cache load_path p f i m =
      let q = normalise os (under_load_path os load_path p) in
      elim (Bool-cases (os.is_zipfile q)) [
        | inl z ↦
            ap
              (λ b.
                (if b
                  then load_from_zipfile construct_finder construct_initializer find_model init os
                      false f i m
                  else load_directory construct_finder construct_initializer find_model init os q
                      false f i m).1.singleton_module_cache)
              z
            ∙ load_from_zipfile-cache f i m
        | inr z ↦
            ap
              (λ b.
                (if b
                  then load_from_zipfile construct_finder construct_initializer find_model init os
                      false f i m
                  else load_directory construct_finder construct_initializer find_model init os q
                      false f i m).1.singleton_module_cache)
              z
            ∙ load_directory-cache q f i m
      ]
