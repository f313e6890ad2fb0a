-- ===== src/Manager/Gauges.antt =====
-- The gauge of model sizes in model_manager.py.
use caikit.Common.{
  ℕ, ◌+◌, ◌≡◌, refl, ap, ◌∙◌, String, Bool, true, false, ◌||◌, Option, none, some, [], ◌∷◌,
  distinct, if◌then◌else◌, nat_eq, string_eq, ◌==◌, arith,
}
use caikit.Common.Dict
use caikit.Common.Dict.{Dict, keys}
use caikit.LoadedModel.Defs.{LoadedModel, size}
use caikit.Manager.Defs.{Manager, add_size, total_sizes, set_gauge, report_sizes}

abbrev plus : Bool → ℕ → Option ℕ → Option ℕ
plus false n o = o
plus true n none = some n
plus true n (some k) = some (k + n)

plus-plus :
    (b c : Bool) (m n : ℕ) (o : Option ℕ)
    → (b ≡ false → m ≡ 0)
    → (c ≡ false → n ≡ 0)
    → plus c n (plus b m o) ≡ plus (b || c) (m + n) o
plus-plus b c m n o h k = ground (arith, h, k)

get-set_gauge :
    (gauge cnt : Dict String ℕ) (t : String)
    → distinct (keys cnt) ≡ true
    → Dict.get (set_gauge gauge cnt) t
      ≡ (if Dict.has cnt t then Dict.get cnt t else Dict.get gauge t)
unfolding set_gauge Dict.get Dict.has
get-set_gauge gauge [] t h = refl
get-set_gauge gauge ((j, n) ∷ cnt) t h = ground (
  arith,
  get-set_gauge (Dict.put gauge j n) cnt t,
  Dict.get-put gauge j n t,
  string_eq.beq_iff j t,
  Dict.contains-keys cnt j,
)

module _ {ℓ} {M : Type ℓ} where
  -- The sum of the sizes of the loaded models of a type, and whether there are any.
  abbrev pub size_of : Option (LoadedModel M) → String → ℕ
  size_of none t = 0
  size_of (some m) t = if m.model_type == t then size m else 0

  abbrev pub has_type : Option (LoadedModel M) → String → Bool
  has_type none t = false
  has_type (some m) t = m.model_type == t

  abbrev pub sum_sizes : Dict ℕ (LoadedModel M) → Dict String ℕ → String → ℕ
  sum_sizes heap [] t = 0
  sum_sizes heap ((id, ref) ∷ models) t = size_of (Dict.get heap ref) t + sum_sizes heap models t

  abbrev pub type_loaded : Dict ℕ (LoadedModel M) → Dict String ℕ → String → Bool
  type_loaded heap [] t = false
  type_loaded heap ((id, ref) ∷ models) t =
      has_type (Dict.get heap ref) t || type_loaded heap models t

  size_of-zero : (o : Option (LoadedModel M)) (t : String) → has_type o t ≡ false → size_of o t ≡ 0
  size_of-zero none t h = refl
  size_of-zero (some m) t h = ground arith

  sum_sizes-zero :
      (heap : Dict ℕ (LoadedModel M)) (models : Dict String ℕ) (t : String)
      → type_loaded heap models t ≡ false
      → sum_sizes heap models t ≡ 0
  sum_sizes-zero heap [] t h = refl
  sum_sizes-zero heap ((id, ref) ∷ models) t h =
      ground (arith, size_of-zero (Dict.get heap ref) t, sum_sizes-zero heap models t)

  abbrev add_entry : Option (LoadedModel M) → Dict String ℕ → Dict String ℕ
  add_entry none cnt = cnt
  add_entry (some m) cnt = add_size m cnt

  get-add_entry :
      (o : Option (LoadedModel M)) (cnt : Dict String ℕ) (t : String)
      → Dict.get (add_entry o cnt) t ≡ plus (has_type o t) (size_of o t) (Dict.get cnt t)
  unfolding add_size
  get-add_entry none cnt t = refl
  get-add_entry (some m) cnt t = ground (
    arith,
    Dict.get-put cnt m.model_type
        (elim (Dict.get cnt m.model_type) [ none ↦ 0 | some n ↦ n ] + size m) t,
    string_eq.beq_iff m.model_type t,
  )

  distinct-add_entry :
      (o : Option (LoadedModel M)) (cnt : Dict String ℕ)
      → distinct (keys cnt) ≡ true
      → distinct (keys (add_entry o cnt)) ≡ true
  unfolding add_size
  distinct-add_entry none cnt h = h
  distinct-add_entry (some m) cnt h = Dict.distinct-put cnt m.model_type _ h

  total_sizes-cons :
      (heap : Dict ℕ (LoadedModel M)) (id : String) (ref : ℕ) (models cnt : Dict String ℕ)
      → total_sizes heap ((id, ref) ∷ models) cnt
        ≡ total_sizes heap models (add_entry (Dict.get heap ref) cnt)
  unfolding total_sizes
  total_sizes-cons heap id ref models cnt = ap (total_sizes heap models) (same (Dict.get heap ref))
    where
      same :
          (o : Option (LoadedModel M))
          → elim o [ none ↦ cnt | some m ↦ add_size m cnt ] ≡ add_entry o cnt
      same none = refl
      same (some m) = refl

  get-total_sizes :
      (heap : Dict ℕ (LoadedModel M)) (models cnt : Dict String ℕ) (t : String)
      → Dict.get (total_sizes heap models cnt) t
        ≡ plus (type_loaded heap models t) (sum_sizes heap models t) (Dict.get cnt t)
  get-total_sizes heap [] cnt t = unfold total_sizes in refl
  get-total_sizes heap ((id, ref) ∷ models) cnt t = rw (total_sizes-cons heap id ref models cnt) (
      get-total_sizes heap models (add_entry (Dict.get heap ref) cnt) t
      ∙ ap (plus (type_loaded heap models t) (sum_sizes heap models t))
          (get-add_entry (Dict.get heap ref) cnt t)
      ∙ plus-plus (has_type (Dict.get heap ref) t) (type_loaded heap models t)
          (size_of (Dict.get heap ref) t) (sum_sizes heap models t) (Dict.get cnt t)
          (size_of-zero (Dict.get heap ref) t) (sum_sizes-zero heap models t))

  distinct-total_sizes :
      (heap : Dict ℕ (LoadedModel M)) (models cnt : Dict String ℕ)
      → distinct (keys cnt) ≡ true
      → distinct (keys (total_sizes heap models cnt)) ≡ true
  distinct-total_sizes heap [] cnt h = unfold total_sizes in h
  distinct-total_sizes heap ((id, ref) ∷ models) cnt h =
      rw (total_sizes-cons heap id ref models cnt) (
        distinct-total_sizes heap models (add_entry (Dict.get heap ref) cnt)
          (distinct-add_entry (Dict.get heap ref) cnt h))

  -- After a report the gauge of a type is the sum of the sizes of its loaded models, if there are
  -- any. For a type that has none it keeps its old value: it is not set to zero.
  pub get-report_sizes :
      (s : Manager M) (t : String)
      → Dict.get (report_sizes s).size_gauge t ≡ (
          if type_loaded s.heap s.loaded_models t
          then some (sum_sizes s.heap s.loaded_models t)
          else Dict.get s.size_gauge t)
  unfolding report_sizes Dict.get
  get-report_sizes s t =
      let cnt = total_sizes s.heap s.loaded_models [] in
      ground (
        arith,
        get-set_gauge s.size_gauge cnt t,
        distinct-total_sizes s.heap s.loaded_models [] refl,
        get-total_sizes s.heap s.loaded_models [] t,
        Dict.get_of_has cnt t,
        Dict.has_of_get cnt t (sum_sizes s.heap s.loaded_models t),
      )
