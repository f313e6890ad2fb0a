-- ===== src/Streams/Augmenting.antt =====
-- `augment` of data_stream.py. An augmentor has a state, which it changes at each call and `reset`
-- puts back; see caikit/core/augmentors/base.py.
use caikit.Common.{
  ℕ, zero, suc, ◌+◌, ◌*◌, ◌≡◌, refl, ap, Bool, true, false, Option, none, some, List, [], ◌∷◌, ◌++◌,
  length, if◌then◌else◌, nat_eq, arith, length-append,
}

-- `AugmentorBase`: `augment` is `None` with `none`.
pub record Augmentor {ℓ} (S T : Type ℓ) : Type ℓ where
  pub initial : S
  pub augment : S → T → Option T × S
  pub produces_none : Bool

-- What one iteration yields, whether it raised the `ValueError` of an unexpected `None`, and the state
-- in which it leaves the augmentor.
pub record Augmented {ℓ} (S T : Type ℓ) : Type ℓ where
  pub items : List T
  pub raised : Bool
  pub state : S

-- A stream of items that are no tuples, with no `augment_index`. `post` is `post_augment_func`.
module _ {ℓ} {S T : Type ℓ} (a : Augmentor S T) (post : T → T) where
  abbrev emit : T → Augmented S T → Augmented S T
  emit x r = record r { items = x ∷ r.items }

  -- The first cycle: the items themselves.
  unfoldable pub original_cycle : List T → List T
  original_cycle [] = []
  original_cycle (x ∷ xs) = post x ∷ original_cycle xs

  -- `for obj in self` of a later cycle.
  unfoldable pub augment_cycle : List T → S → Augmented S T
  augment_cycle [] s = record { items = []; raised = false; state = s }
  augment_cycle (x ∷ xs) s =
      let r = a.augment s x in
      let rest = augment_cycle xs r.1 in
      elim r.0 [
        | some y ↦ record rest { items = post y ∷ rest.items }
        | none ↦ if a.produces_none then rest else record { items = []; raised = true; state = r.1 }
      ]

  unfoldable pub augment_cycles : ℕ → List T → S → Augmented S T
  unfolding augment_cycle
  augment_cycles zero xs s = record { items = []; raised = false; state = s }
  augment_cycles (suc n) xs s =
      let first = augment_cycle xs s in
      let rest = augment_cycles n xs first.state in
      if first.raised then first else record rest { items = first.items ++ rest.items }

  -- One iteration of the stream that `augment` makes.
  unfoldable pub augment : ℕ → Bool → List T → S → Augmented S T
  unfolding original_cycle augment_cycles
  augment aug_cycles enforce_determinism xs s =
      let later = augment_cycles aug_cycles xs s in
      record {
        items = original_cycle xs ++ later.items;
        raised = later.raised;
        state =
            if later.raised
            then later.state
            else if enforce_determinism
            then a.initial
            else later.state;
      }

  -- With determinism enforced, an iteration from the initial state of the augmentor that raises
  -- nothing is followed by one that yields the same items.
  pub augment-again :
      (n : ℕ) (xs : List T)
      → (augment n true xs a.initial).raised ≡ false
      → augment n true xs (augment n true xs a.initial).state ≡ augment n true xs a.initial
  unfolding augment
  augment-again n xs h = ap (augment n true xs) (ground (arith, h))

  length-original_cycle : (xs : List T) → length (original_cycle xs) ≡ length xs
  unfolding original_cycle
  length-original_cycle [] = refl
  length-original_cycle (x ∷ xs) = ap suc (length-original_cycle xs)

  module _ (total : (s : S) (x : T) → (y : T) × ((a.augment s x).0 ≡ some y)) where
    length-augment_cycle :
        (xs : List T) (s : S)
        → (length (augment_cycle xs s).items ≡ length xs) × ((augment_cycle xs s).raised ≡ false)
    unfolding augment_cycle
    length-augment_cycle [] s = (refl, refl)
    length-augment_cycle (x ∷ xs) s =
        let (y, e) = total s x in
        let (p, q) = length-augment_cycle xs (a.augment s x).1 in
        (ground (arith, e, p), ground (arith, e, q))

    length-augment_cycles :
        (n : ℕ) (xs : List T) (s : S)
        → (length (augment_cycles n xs s).items ≡ n * length xs)
          × ((augment_cycles n xs s).raised ≡ false)
    unfolding augment_cycles
    length-augment_cycles zero xs s = (omega arith, refl)
    length-augment_cycles (suc n) xs s =
        let (p, q) = length-augment_cycle xs s in
        let (u, v) = length-augment_cycles n xs (augment_cycle xs s).state in
        (
          grind (
            arith,
            q,
            p,
            u,
            length-append (augment_cycle xs s).items
                (augment_cycles n xs (augment_cycle xs s).state).items,
          ),
          ground (arith, q, v),
        )

    -- With an augmentor that never produces `None`, an iteration raises nothing and yields one
    -- original and `aug_cycles` augmented items for each item of the stream.
    pub length-augment :
        (n : ℕ) (xs : List T) (s : S) (enforce : Bool)
        → (length (augment n enforce xs s).items ≡ (n + 1) * length xs)
          × ((augment n enforce xs s).raised ≡ false)
    unfolding augment
    length-augment n xs s enforce =
        let (u, v) = length-augment_cycles n xs s in
        (
          grind (
            arith,
            u,
            length-original_cycle xs,
            length-append (original_cycle xs) (augment_cycles n xs s).items,
          ),
          v,
        )
