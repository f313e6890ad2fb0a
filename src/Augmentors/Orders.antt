-- ===== src/Augmentors/Orders.antt =====
-- caikit/core/augmentors/schemes: the order in which a scheme applies its augmentors.
use caikit.Common.{
  ◌≡◌, refl, sym, ap, ◌∙◌, ℕ, zero, suc, ◌+◌, Bool, true, Option, none, some, List, [], ◌∷◌, length,
  get_elem?, get_elem?_of_lt, all, ltb, arith, Bool-cases, inl, inr,
}
use mathlib.Core.Path.{subst}
use mathlib.Core.List.{Permᴰ}
use mathlib.Core.List.Permᴰ
use caikit.Augmentors.Schemes.{
  Scheme, range_from, new_scheme, always_loop, apply_all, next_order, execute, then_apply,
}

abbrev add_some {ℓ} : {A : Type ℓ} → Option A → List A → List A
add_some (some a) l = a ∷ l
add_some none l = l

add_some-Perm {ℓ} :
    {A : Type ℓ} (o : Option A) {l m : List A} → Permᴰ l m → Permᴰ (add_some o l) (add_some o m)
add_some-Perm (some a) p = Permᴰ.cons refl p
add_some-Perm none p = p

add_some-swap {ℓ} :
    {A : Type ℓ} (o o' : Option A) (l : List A)
    → Permᴰ (add_some o (add_some o' l)) (add_some o' (add_some o l))
add_some-swap (some a) (some b) l = Permᴰ.swap refl refl
add_some-swap (some a) none l = Permᴰ.refl (a ∷ l)
add_some-swap none (some b) l = Permᴰ.refl (b ∷ l)
add_some-swap none none l = Permᴰ.refl l

then_apply-same {ℓ κ} :
    {T : Type ℓ} {W : Type κ} (r : Option T × W) (f g : T → W → Option T × W)
    → ((y : T) (w : W) → f y w ≡ g y w)
    → then_apply r f ≡ then_apply r g
then_apply-same (none, w) f g h = refl
then_apply-same (some y, w) f g h = h y w

module _ {ℓ} {Aug : Type ℓ} (augmentors : List Aug) where
  -- The augmentors at the indices of a list.
  abbrev picked : List ℕ → List Aug
  picked [] = []
  picked (i ∷ is) = add_some (get_elem? augmentors i) (picked is)

  abbrev pub in_range : List ℕ → Bool
  in_range is = all (λ i. ltb i (length augmentors)) is

  in_range-Perm : {is js : List ℕ} → Permᴰ is js → in_range is ≡ in_range js
  in_range-Perm Permᴰ.nil = refl
  in_range-Perm (Permᴰ.cons e p) = ground (arith, e, in_range-Perm p)
  in_range-Perm (Permᴰ.swap e f) = ground (arith, e, f)
  in_range-Perm (Permᴰ.trans p q) = in_range-Perm p ∙ in_range-Perm q

  picked-Perm : {is js : List ℕ} → Permᴰ is js → Permᴰ (picked is) (picked js)
  picked-Perm Permᴰ.nil = Permᴰ.nil
  picked-Perm (Permᴰ.cons {a = a} {l₁ = is} {l₂ = js} e p) =
      subst (λ k. Permᴰ (picked (a ∷ is)) (picked (k ∷ js))) e
        (add_some-Perm (get_elem? augmentors a) (picked-Perm p))
  picked-Perm (Permᴰ.swap {a = a} {b = b} {a' = c} {b' = d} {l = l} e f) =
      subst (λ k. Permᴰ (picked (a ∷ b ∷ l)) (picked (k ∷ d ∷ l))) f
        (subst (λ k. Permᴰ (picked (a ∷ b ∷ l)) (picked (b ∷ k ∷ l))) e
          (add_some-swap (get_elem? augmentors a) (get_elem? augmentors b) (picked l)))
  picked-Perm (Permᴰ.trans p q) = Permᴰ.trans (picked-Perm p) (picked-Perm q)

picked-shift {ℓ} :
    {Aug : Type ℓ} (a : Aug) (augs : List Aug) (i n : ℕ)
    → picked (a ∷ augs) (range_from (suc i) n) ≡ picked augs (range_from i n)
picked-shift a augs i zero = refl
picked-shift a augs i (suc n) = ap (add_some (get_elem? augs i)) (picked-shift a augs (suc i) n)

picked-range_from {ℓ} :
    {Aug : Type ℓ} (augs : List Aug) → picked augs (range_from 0 (length augs)) ≡ augs
picked-range_from [] = refl
picked-range_from (a ∷ augs) =
    ap (λ l. a ∷ l) (picked-shift a augs 0 (length augs) ∙ picked-range_from augs)

in_range-range_from {ℓ} :
    {Aug : Type ℓ} (augs : List Aug) (i n : ℕ)
    → (i + n ≡ length augs)
    → in_range augs (range_from i n) ≡ true
in_range-range_from augs i zero h = refl
in_range-range_from augs i (suc n) h = ground (arith, h, in_range-range_from augs (suc i) n)

module _ {ℓ} {Aug T W : Type ℓ} (augment : Aug → T → W → Option T × W) where
  always_loop-step :
      (augmentors : List Aug) (i : ℕ) (order : List ℕ) (x : T) (w : W) (aug : Aug)
      → get_elem? augmentors i ≡ some aug
      → ((y : T) (v : W)
          → always_loop augment augmentors order y v
            ≡ apply_all augment (picked augmentors order) y v)
      → always_loop augment augmentors (i ∷ order) x w
        ≡ apply_all augment (picked augmentors (i ∷ order)) x w
  unfolding always_loop apply_all
  always_loop-step augmentors i order x w aug e h =
      rw (e, always_loop) (then_apply-same (augment aug x w) _ _ h)

  always_loop-picked :
      (augmentors : List Aug) (order : List ℕ) (x : T) (w : W)
      → in_range augmentors order ≡ true
      → always_loop augment augmentors order x w ≡ apply_all augment (picked augmentors order) x w
  unfolding always_loop apply_all
  always_loop-picked augmentors [] x w h = refl
  always_loop-picked augmentors (i ∷ order) x w h =
      let (aug, e) = get_elem?_of_lt augmentors i (ground (arith, h)) in
      always_loop-step augmentors i order x w aug e
        (λ y v. always_loop-picked augmentors order y v (ground (arith, h)))

  -- The order of a scheme is a reordering of the indices of all its augmentors, and none other
  -- where it is to be preserved.
  abbrev pub IsOrder : Scheme Aug → Type 0
  IsOrder s = Permᴰ (range_from 0 (length s.augmentors)) s.current_order

  always_loop-reordered :
      (augmentors : List Aug) (order : List ℕ) (x : T) (w : W)
      → Permᴰ (range_from 0 (length augmentors)) order
      → (augs : List Aug) × Permᴰ augmentors augs
        × (always_loop augment augmentors order x w ≡ apply_all augment augs x w)
  always_loop-reordered augmentors order x w p = (
    picked augmentors order,
    subst (λ l. Permᴰ l (picked augmentors order)) (picked-range_from augmentors)
        (picked-Perm augmentors p),
    always_loop-picked augmentors order x w (
        sym (in_range-Perm augmentors p)
        ∙ in_range-range_from augmentors 0 (length augmentors) (omega arith)),
  )

  module _ (shuffle : List ℕ → W → List ℕ × W)
      (reorders : (l : List ℕ) (w : W) → Permᴰ l (shuffle l w).0) where
    next_order-IsOrder :
        (s : Scheme Aug) (w : W) → IsOrder s → IsOrder (next_order augment shuffle s w).0
    unfolding next_order
    next_order-IsOrder s w p = elim (Bool-cases s.preserve_order) [
      | inl e ↦ rw e p
      | inr e ↦ rw e (Permᴰ.trans p (reorders s.current_order w))
    ]

    next_order-augmentors :
        (s : Scheme Aug) (w : W) → (next_order augment shuffle s w).0.augmentors ≡ s.augmentors
    unfolding next_order
    next_order-augmentors s w = ground arith

    -- The scheme that always selects passes the object through all its augmentors, each once, in some
    -- order, and can do so again.
    pub execute-applies_all :
        (s : Scheme Aug) (x : T) (w : W)
        → IsOrder s
        → (augs : List Aug) × (v : W) × Permᴰ s.augmentors augs
          × ((execute augment shuffle s x w).0 ≡ apply_all augment augs x v)
          × IsOrder (execute augment shuffle s x w).1
    unfolding execute
    execute-applies_all s x w p =
        let t = (next_order augment shuffle s w).0 in
        let v = (next_order augment shuffle s w).1 in
        let order = next_order-IsOrder s w p in
        let (augs, q, run) = always_loop-reordered t.augmentors t.current_order x v order in
        (augs, v, subst (λ l. Permᴰ l augs) (next_order-augmentors s w) q, run, order)

    -- A new scheme that preserves the order passes the object through its augmentors in the given order.
    pub execute-in_order :
        (augmentors : List Aug) (s : Scheme Aug) (x : T) (w : W)
        → new_scheme true augmentors ≡ some s
        → execute augment shuffle s x w ≡ (apply_all augment augmentors x w, s)
    unfolding execute new_scheme next_order
    execute-in_order [] s x w h = absurd (ground arith)
    execute-in_order (a ∷ augmentors) s x w h =
        let augs = a ∷ augmentors in
        let new : Scheme Aug = record {
          preserve_order = true;
          augmentors = augs;
          current_order = range_from 0 (length augs);
        } in
        let same : new ≡ s = ground (arith, h) in
        let run =
          always_loop-picked augs (range_from 0 (length augs)) x w
            (in_range-range_from augs 0 (length augs) (omega arith)) in
        subst (λ r. execute augment shuffle r x w ≡ (apply_all augment augs x w, r)) same
          (ap (λ r. (r, new)) (run ∙ ap (λ l. apply_all augment l x w) (picked-range_from augs)))
