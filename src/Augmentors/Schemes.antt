-- ===== src/Augmentors/Schemes.antt =====
-- caikit/core/augmentors/schemes: applying several augmentors to an object. See base.py,
-- always_selection_scheme.py and random_multi_selection_scheme.py there.
use caikit.Common.{
  ℕ, zero, suc, Bool, Option, none, some, List, [], ◌∷◌, length, get_elem?, if◌then◌else◌,
}

-- A scheme: the augmentors, and the order in which they are applied next.
pub record Scheme {ℓ} (Aug : Type ℓ) : Type ℓ where
  pub preserve_order : Bool
  pub augmentors : List Aug
  pub current_order : List ℕ

-- `list(range(n))`, from `i` on.
abbrev pub range_from : ℕ → ℕ → List ℕ
range_from i zero = []
range_from i (suc n) = i ∷ range_from (suc i) n

-- `SchemeBase.__init__`: `none` is the `ValueError` for no augmentors.
unfoldable pub new_scheme {ℓ} : {Aug : Type ℓ} → Bool → List Aug → Option (Scheme Aug)
new_scheme preserve_order [] = none
new_scheme preserve_order (a ∷ augmentors) = some (record {
  preserve_order = preserve_order;
  augmentors = a ∷ augmentors;
  current_order = range_from 0 (length (a ∷ augmentors));
})

-- What follows a call that may raise.
abbrev pub then_apply {ℓ κ} :
    {T : Type ℓ} {W : Type κ} → Option T × W → (T → W → Option T × W) → Option T × W
then_apply (none, w) f = (none, w)
then_apply (some y, w) f = f y w

-- `augment` is the call of an augmentor, `none` an exception; `shuffle` and `selected` are draws from
-- the generator of `random`, which is part of the state `W`: `selected i` is whether the next draw is
-- within the probability of the augmentor with the index `i`.
module _ {ℓ} {Aug T W : Type ℓ} (augment : Aug → T → W → Option T × W) where
  -- The loop of `AlwaysSelectionScheme._execute`.
  unfoldable pub always_loop : List Aug → List ℕ → T → W → Option T × W
  always_loop augmentors [] x w = (some x, w)
  always_loop augmentors (idx ∷ order) x w = elim (get_elem? augmentors idx) [
    | none ↦ (none, w)
    | some aug ↦ then_apply (augment aug x w) (λ y w'. always_loop augmentors order y w')
  ]

  -- The loop of `RandomMultiSelectionScheme._execute`.
  unfoldable pub multi_loop : (ℕ → W → Bool × W) → List Aug → List ℕ → T → W → Option T × W
  multi_loop selected augmentors [] x w = (some x, w)
  multi_loop selected augmentors (idx ∷ order) x w = elim (get_elem? augmentors idx) [
    | none ↦ (none, w)
    | some aug ↦
        let w' = (selected idx w).1 in
        let r = if (selected idx w).0 then augment aug x w' else (some x, w') in
        then_apply r (λ y w''. multi_loop selected augmentors order y w'')
  ]

  -- An object passed through the augmentors of a list, one after the other.
  unfoldable pub apply_all : List Aug → T → W → Option T × W
  apply_all [] x w = (some x, w)
  apply_all (aug ∷ augs) x w = then_apply (augment aug x w) (λ y w'. apply_all augs y w')

  module _ (shuffle : List ℕ → W → List ℕ × W) where
    -- What `execute` does before the scheme's own `_execute`.
    unfoldable pub next_order : Scheme Aug → W → Scheme Aug × W
    next_order s w = if s.preserve_order then (s, w) else (
      record s { current_order = (shuffle s.current_order w).0 },
      (shuffle s.current_order w).1,
    )

    -- `execute` of the scheme that always selects.
    unfoldable pub execute : Scheme Aug → T → W → (Option T × W) × Scheme Aug
    unfolding next_order always_loop
    execute s x w =
        let (s', w') = next_order s w in (always_loop s'.augmentors s'.current_order x w', s')

    -- `execute` of the scheme that selects each augmentor at random.
    unfoldable pub execute_multi :
        (ℕ → W → Bool × W) → Scheme Aug → T → W → (Option T × W) × Scheme Aug
    unfolding next_order multi_loop
    execute_multi selected s x w =
        let (s', w') = next_order s w in
        (multi_loop selected s'.augmentors s'.current_order x w', s')
