-- ===== src/Manager/Synced.antt =====
-- Which models are loaded after a synchronization of model_manager.py with its directory.
use caikit.Common.{
  ℕ, ◌≤◌, ◌≡◌, refl, ap, sym, ◌∙◌, String, Bool, true, false, not, ◌&&◌, ◌||◌, Option, none, some,
  List, [], ◌∷◌, if◌then◌else◌, nat_eq, string_eq, ◌==◌, arith, contains, distinct, filter,
  contains-filter, Bool-cases, Option-cases, inl, inr,
}
use caikit.Common.Dict
use caikit.Common.Dict.{Dict, keys}
use caikit.LoadedModel.Defs.{LoadedModel, LoadOutcome, build, set_size}
use caikit.Manager.Defs.{Manager, ok, report_sizes, register, load_model}
use caikit.Manager.Serving.{Settings, local_model_type}
use caikit.Manager.Emptying.{IsServing, IsServingAmong, unload_each-empties}
use caikit.Manager.Syncing.{
  Directory, synced, new_models, is_gone, gone_models, load_new, sync_rest, local_models_dir_sync,
}

-- The entry of the directory is not being written to.
abbrev pub is_ready : Settings → Directory → String → Bool
is_ready cfg dir j = not (dir.write_in_progress (cfg.join cfg.local_models_dir j))

module _ {ℓ} {M : Type ℓ} where
  -- No handle has a reference that is still to be given out.
  abbrev pub IsFresh : Manager M → Type ℓ
  IsFresh s = (ref : ℕ) → s.next_ref ≤ ref → Dict.get s.heap ref ≡ none

  -- The second state has the models and the handles of the first.
  abbrev Extends : Manager M → Manager M → Type ℓ
  Extends s t =
      ((j : String) (ref : ℕ)
        → Dict.get s.loaded_models j ≡ some ref
        → Dict.get t.loaded_models j ≡ some ref)
      × ((ref : ℕ) (m : LoadedModel M)
          → Dict.get s.heap ref ≡ some m
          → Dict.get t.heap ref ≡ some m)

  -- The model of the id was loaded from the directory, and its path does not exist any more.
  abbrev pub gone : Settings → Directory → Manager M → String → Bool
  gone cfg dir s j = elim (Dict.get s.loaded_models j) [
    | none ↦ false
    | some ref ↦ is_gone cfg dir (Dict.get s.heap ref)
  ]

  contains-gone_none :
      (cfg : Settings) (dir : Directory) (heap : Dict ℕ (LoadedModel M)) (models : Dict String ℕ)
      (j : String)
      → Dict.has models j ≡ false
      → contains j (gone_models cfg dir heap models) ≡ false
  unfolding gone_models Dict.has
  contains-gone_none cfg dir heap [] j h = refl
  contains-gone_none cfg dir heap ((id, ref) ∷ models) j h =
      ground (arith, contains-gone_none cfg dir heap models j)

  contains-gone_models :
      (cfg : Settings) (dir : Directory) (heap : Dict ℕ (LoadedModel M)) (models : Dict String ℕ)
      (j : String)
      → distinct (keys models) ≡ true
      → contains j (gone_models cfg dir heap models)
        ≡ elim (Dict.get models j) [ none ↦ false | some ref ↦ is_gone cfg dir (Dict.get heap ref) ]
  unfolding gone_models Dict.get
  contains-gone_models cfg dir heap [] j h = refl
  contains-gone_models cfg dir heap ((id, ref) ∷ models) j h = ground (
    arith,
    contains-gone_models cfg dir heap models j,
    contains-gone_none cfg dir heap models j,
    Dict.contains-keys models id,
    string_eq.beq_iff id j,
  )

has_of_same :
    (d d' : Dict String ℕ) (j : String)
    → Dict.get d j ≡ Dict.get d' j
    → Dict.has d j ≡ Dict.has d' j
has_of_same d d' j h = ground (
  arith,
  h,
  Dict.get_of_has d j,
  Dict.get_of_has d' j,
  Dict.get-eq-none d j,
  Dict.get-eq-none d' j,
)

-- The models `before`, those with the new ones, and those that are left.
still :
    (j : String) (old : List String) (before more left : Dict String ℕ) (disk_models : List String)
    (ready vanished : Bool)
    → contains j old ≡ vanished
    → (Dict.has before j ≡ false → contains j old ≡ false)
    → Dict.has more j
      ≡ (((not (Dict.has before j) && contains j disk_models) && ready) || Dict.has before j)
    → Dict.get left j ≡ (if contains j old then none else Dict.get more j)
    → Dict.has left j
      ≡ (if Dict.has before j then not vanished else contains j disk_models && ready)
still j old before more left disk_models ready vanished g u m l =
    elim (Bool-cases (contains j old)) [
      | inl c ↦ ground (arith, c, g, u, l, Dict.get_of_has left j)
      | inr c ↦
          let same : Dict.has left j ≡ Dict.has more j =
            has_of_same left more j (ground (arith, l, c)) in
          ground (arith, same, m, g, c)
    ]

module _ {ℓ} {M E : Type ℓ} (futures : ℕ → ℕ → LoadOutcome M E)
    (estimate : String → String → String → Option ℕ) where
  -- A load that does not wait submits a new model.
  load_model-submits :
      (id path : String) (retries : ℕ) (s : Manager M)
      → (id == "") ≡ false
      → IsFresh s
      → (t : Manager M) × (ref : ℕ) × (load_model futures estimate id path local_model_type false
            retries s
          ≡ some (t, ok ref))
        × IsFresh t
        × Extends s t
        × ((j : String) → Dict.has t.loaded_models j ≡ ((id == j) || Dict.has s.loaded_models j))
  unfolding load_model build
  load_model-submits id path retries s n f = elim (Option-cases (Dict.get s.loaded_models id)) [
    | inr (ref, e) ↦ (
      s,
      ref,
      ground (arith, e),
      f,
      ((λ j r g. g), (λ r m g. g)),
      (λ j. ground (arith, Dict.has_of_get s.loaded_models id ref e, string_eq.beq_iff id j)),
    )
    | inl e ↦
        let m : LoadedModel M = record {
          attempt = 0;
          model = none;
          has_fail_callback = true;
          model_id = id;
          model_path = path;
          model_type = local_model_type;
          retries = retries;
          size_field = none;
        } in
        let t = register futures estimate id path local_model_type m s in
        (
          t,
          s.next_ref,
          ground (arith, e, n),
          (λ ref le.
              unfold register report_sizes in
              ground (
                arith,
                Dict.get-put s.heap s.next_ref
                    (set_size (elim (estimate id path local_model_type) [ none ↦ 0 | some k ↦ k ])
                      m)
                    ref,
                f ref,
              )),
          (
            (λ j ref g.
                unfold register report_sizes in
                ground (
                  arith,
                  Dict.get-put s.loaded_models id s.next_ref j,
                  g,
                  e,
                  string_eq.beq_iff id j,
                )),
            (λ ref k g.
                unfold register report_sizes in
                ground (
                  arith,
                  Dict.get-put s.heap s.next_ref
                      (set_size (elim (estimate id path local_model_type) [ none ↦ 0 | some k ↦ k ])
                        m)
                      ref,
                  g,
                  f s.next_ref,
                )),
          ),
          (λ j. unfold register report_sizes in Dict.has-put s.loaded_models id s.next_ref j),
        )
  ]

  module _ (cfg : Settings) (dir : Directory) where
    load_new-submits :
        (ids : List String) (s : Manager M)
        → contains "" ids ≡ false
        → IsFresh s
        → (t : Manager M) × (load_new futures estimate cfg dir ids s ≡ some (t, ok tt))
          × Extends s t
          × ((j : String)
              → Dict.has t.loaded_models j
                ≡ ((contains j ids && is_ready cfg dir j) || Dict.has s.loaded_models j))
    unfolding load_new
    load_new-submits [] s n f = (s, refl, ((λ j r g. g), (λ r m g. g)), λ j. refl)
    load_new-submits (id ∷ ids) s n f =
        let named : (id == "") ≡ false = ground arith in
        elim (Bool-cases (dir.write_in_progress (cfg.join cfg.local_models_dir id))) [
          | inl w ↦
              let (t, run, ext, has) = load_new-submits ids s (ground arith) f in
              (
                t,
                ground (arith, w, run),
                ext,
                λ j. ground (arith, has j, w, string_eq.beq_iff id j),
              )
          | inr w ↦
              let (r, ref, one, fresh, (models, heap), has₁) =
                load_model-submits id (cfg.join cfg.local_models_dir id) cfg.lazy_load_retries s
                  named f in
              let (t, run, (models', heap'), has) = load_new-submits ids r (ground arith) fresh in
              (
                t,
                ground (arith, w, one, run),
                ((λ j k g. models' j k (models j k g)), (λ k m g. heap' k m (heap k m g))),
                λ j. ground (arith, has j, has₁ j, w, string_eq.beq_iff id j),
              )
        ]

    -- A synchronization that loads and does not wait, beside models that are all loaded and a directory
    -- with entries that have a name, ends normally. Afterwards a model is in the map exactly if it was and
    -- its path in the directory did not vanish, or if it is a new entry of the directory that is not
    -- being written to.
    pub local_models_dir_sync-synced :
        (disk_models : List String) (s : Manager M)
        → dir.entries ≡ some disk_models
        → contains "" disk_models ≡ false
        → distinct (keys s.loaded_models) ≡ true
        → IsFresh s
        → IsServing s
        → (t : Manager M) × (local_models_dir_sync futures estimate cfg dir false true s
            ≡ some (t, synced))
          × ((j : String)
              → Dict.has t.loaded_models j ≡ (
                  if Dict.has s.loaded_models j
                  then not (gone cfg dir s j)
                  else contains j disk_models && is_ready cfg dir j))
    unfolding local_models_dir_sync sync_rest new_models
    local_models_dir_sync-synced disk_models s e n d f serving =
        let new = filter (λ id. not (Dict.has s.loaded_models id)) disk_models in
        let old = gone_models cfg dir s.heap s.loaded_models in
        let in_new : (j : String)
            → contains j new ≡ (not (Dict.has s.loaded_models j) && contains j disk_models) =
          λ j. contains-filter (λ id. not (Dict.has s.loaded_models id)) j disk_models in
        let (r, run, (models, heap), has) =
          load_new-submits new s (ground (arith, in_new "", n)) f in
        let among : IsServingAmong old r = λ j ref c g.
          elim (Option-cases (Dict.get s.loaded_models j)) [
            | inl u ↦
                absurd
                  (ground (arith, contains-gone_models cfg dir s.heap s.loaded_models j d, u, c))
            | inr (k, u) ↦
                let (m, x, at, held) = serving j k u in
                let same : k ≡ ref = ground (arith, models j k u, g) in
                (m, x, ap (Dict.get r.heap) (sym same) ∙ heap k m at, held)
          ] in
        let (t, run', left) = unload_each-empties futures old r among in
        (
          t,
          ground (arith, e, run, run'),
          λ j.
              still j old s.loaded_models r.loaded_models t.loaded_models disk_models
                (is_ready cfg dir j) (gone cfg dir s j)
                (contains-gone_models cfg dir s.heap s.loaded_models j d)
                (contains-gone_none cfg dir s.heap s.loaded_models j)
                (ground (arith, has j, in_new j)) (left j),
        )
