-- ===== src/ModelManagement/Finders.antt =====
-- caikit/core/model_management/multi_model_finder.py and multi_model_initializer.py: several finders, or
-- initializers, in an order of priority. The two classes are the same code but for their names; an
-- attempt is a call of `find_model` or of `init`.
use caikit.Common.{
  ◌≡◌, refl, ap, String, Bool, true, false, not, Option, none, some, List, [], ◌∷◌, ◌++◌, ◌↔◌, ◌⊎◌,
  if◌then◌else◌, string_eq, contains, filter, is_empty, arith, any, all, inl, inr,
}

-- What a call does: it returns something that counts as true, something else, or raises.
pub data Attempt {ℓ} (C : Type ℓ) : Type ℓ where
  found : C → Attempt C
  unable : Attempt C
  raised : Attempt C

-- The `ValueError`s of `__init__`.
pub data SetupError : Type 0 where
  no_finder : SetupError
  invalid_finders : List String → SetupError
  includes_self : SetupError

-- The checks of `__init__` on values of the right types.
unfoldable pub check_priority : List String → String → List String → Option SetupError
check_priority config_finders instance_name priority =
    let invalid = filter (λ f. not (contains f config_finders)) priority in
    if is_empty priority
    then some no_finder
    else if not (is_empty invalid)
    then some (invalid_finders invalid)
    else if contains instance_name priority
    then some includes_self
    else none

attempt-cases {ℓ} :
    {C : Type ℓ} (a : Attempt C) → ((c : C) × (a ≡ found c)) ⊎ ((a ≡ unable) ⊎ (a ≡ raised))
attempt-cases (found c) = inl (c, refl)
attempt-cases unable = inr (inl refl)
attempt-cases raised = inr (inr refl)

module _ {ℓ κ} {F : Type ℓ} {C : Type κ} (attempt : F → Attempt C) where
  -- The loop of `find_model` and of `init`.
  unfoldable pub find_model : List F → Option C
  find_model [] = none
  find_model (f ∷ fs) =
      let rest = find_model fs in
      elim (attempt f) [ found c ↦ some c | unable ↦ rest | raised ↦ rest ]

  abbrev pub succeeds_at : F → Bool
  succeeds_at f = elim (attempt f) [ found c ↦ true | unable ↦ false | raised ↦ false ]

  -- The first finder of the list that succeeds finds the configuration.
  abbrev pub IsFirst : List F → C → Type (ℓ ⊔ κ)
  IsFirst fs c =
      (before : List F) × (f : F) × (after : List F) × (fs ≡ before ++ f ∷ after)
      × (any succeeds_at before ≡ false)
      × (attempt f ≡ found c)

  sound : (fs : List F) (c : C) → find_model fs ≡ some c → IsFirst fs c
  unfolding find_model
  sound [] c h = absurd (cc h)
  sound (f ∷ fs) c h = elim (attempt-cases (attempt f)) [
    | inl (x, e) ↦ ([], f, fs, refl, refl, ground (arith, e, h))
    | inr e ↦
        let (before, g, after, same, missed, hit) = sound fs c (ground (arith, e, h)) in
        (f ∷ before, g, after, ap (◌∷◌ f) same, ground (arith, e, missed), hit)
  ]

  complete :
      (before : List F) (f : F) (after : List F) (c : C)
      → any succeeds_at before ≡ false
      → attempt f ≡ found c
      → find_model (before ++ f ∷ after) ≡ some c
  unfolding find_model
  complete [] f after c m h = ground (arith, h)
  complete (g ∷ before) f after c m h = ground (arith, complete before f after c, m, h)

  -- The search returns a configuration exactly if it is the one of the first finder that succeeds:
  -- those before it returned nothing or raised, and neither ends the search.
  pub find_model-IsFirst : (fs : List F) (c : C) → (find_model fs ≡ some c) ↔ IsFirst fs c
  find_model-IsFirst fs c = (
    (λ h. sound fs c h),
    (λ (before, f, after, same, missed, hit). rw same (complete before f after c missed hit)),
  )

all_known :
    (config_finders priority : List String)
    → is_empty (filter (λ f. not (contains f config_finders)) priority)
      ≡ all (λ f. contains f config_finders) priority
all_known config_finders [] = refl
all_known config_finders (f ∷ fs) = ground (arith, all_known config_finders fs)

-- A list of priorities is accepted exactly if it is not empty, names configured finders only, and does
-- not name the finder itself.
pub check_priority-accepts :
    (config_finders priority : List String) (instance_name : String)
    → (check_priority config_finders instance_name priority ≡ none) ↔ (
        (is_empty priority ≡ false)
        × (all (λ f. contains f config_finders) priority ≡ true)
        × (contains instance_name priority ≡ false))
unfolding check_priority
check_priority-accepts config_finders priority instance_name =
    let known = all_known config_finders priority in
    (
      (λ h. (ground (arith, known, h), ground (arith, known, h), ground (arith, known, h))),
      (λ (e, a, c). ground (arith, known, e, a, c)),
    )
