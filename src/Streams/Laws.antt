-- ===== src/Streams/Laws.antt =====
-- What the combinators of data_stream.py yield.
use caikit.Common.{
  ℕ, zero, suc, ◌+◌, ◌≡◌, refl, ap, sym, ◌∙◌, Bool, true, false, none, some, List, [], ◌∷◌, ◌++◌,
  length, get_elem?, if◌then◌else◌, nat_eq, ◌==◌, map, arith, Bool-cases, inl, inr,
}
use mathlib.Core.List.{append_assoc, map-append}
use caikit.Streams.Defs.{
  value_error, Iteration, yields, then_yield, from_iterable, chain, map_stream, flatten, zip_items,
  train_items, test_items, train_test_split,
}

module _ {ℓ} {T : Type ℓ} where
  then_yield_assoc :
      (a b c : Iteration T) → then_yield (then_yield a b) c ≡ then_yield a (then_yield b c)
  unfolding then_yield
  then_yield_assoc a b c = ground (arith, append_assoc a.items b.items c.items)

  then_yield_nil : (a : Iteration T) → then_yield (yields []) a ≡ a
  unfolding then_yield
  then_yield_nil a = refl

  -- Chaining chains is chaining all the parts in order: an exception of a part ends the whole, and
  -- the items of the parts before it are yielded all the same.
  pub chain-append :
      (ss ts : List (Iteration T)) → chain (ss ++ ts) ≡ then_yield (chain ss) (chain ts)
  unfolding chain
  chain-append [] ts = sym (then_yield_nil (chain ts))
  chain-append (s ∷ ss) ts =
      ap (then_yield s) (chain-append ss ts) ∙ sym (then_yield_assoc s (chain ss) (chain ts))

  -- Flattening the stream of some streams is chaining them.
  pub flatten-eq-chain : (ss : List (Iteration T)) → flatten (from_iterable ss) ≡ chain ss
  unfolding flatten from_iterable chain
  flatten-eq-chain [] = refl
  flatten-eq-chain (s ∷ ss) = ap (then_yield s) (flatten-eq-chain ss)

module _ {ℓ κ} {T : Type ℓ} {U : Type κ} where
  -- Mapping a chain of streams is chaining the mapped streams, exceptions included.
  pub map-chain :
      (f : T → U) (ss : List (Iteration T))
      → map_stream f (chain ss) ≡ chain (map (map_stream f) ss)
  unfolding chain map_stream then_yield
  map-chain f [] = refl
  map-chain f (s ∷ ss) = ground (arith, map-chain f ss, map-append f s.items (chain ss).items)

  zip-pairs :
      (xs : List T) (ys : List U) (i : ℕ)
      → get_elem? (zip_items xs ys).items i ≡ (elim (get_elem? xs i) [
        | none ↦ none
        | some x ↦ elim (get_elem? ys i) [ none ↦ none | some y ↦ some (x, y) ]
      ])
  unfolding zip_items
  zip-pairs [] [] i = refl
  zip-pairs [] (y ∷ ys) i = refl
  zip-pairs (x ∷ xs) [] i = ground arith
  zip-pairs (x ∷ xs) (y ∷ ys) zero = refl
  zip-pairs (x ∷ xs) (y ∷ ys) (suc i) = zip-pairs xs ys i

  zip-failure :
      (xs : List T) (ys : List U)
      → (zip_items xs ys).failure ≡ (if length xs == length ys then none else some value_error)
  unfolding zip_items
  zip-failure [] [] = refl
  zip-failure [] (y ∷ ys) = ground arith
  zip-failure (x ∷ xs) [] = ground arith
  zip-failure (x ∷ xs) (y ∷ ys) = ground (arith, zip-failure xs ys)

  -- Zipping yields the pairs of the items at the same positions, as far as both streams go, and then
  -- raises exactly if one of them has more items.
  pub zip_items_lem :
      (xs : List T) (ys : List U)
      → ((i : ℕ)
          → get_elem? (zip_items xs ys).items i ≡ (elim (get_elem? xs i) [
            | none ↦ none
            | some x ↦ elim (get_elem? ys i) [ none ↦ none | some y ↦ some (x, y) ]
          ]))
        × ((zip_items xs ys).failure ≡ (if length xs == length ys then none else some value_error))
  zip_items_lem xs ys = (zip-pairs xs ys, zip-failure xs ys)

module _ {ℓ} {T : Type ℓ} where
  -- Puts the `count` items of two lists in the order of the draws, from the `n`th on.
  abbrev pub weave : (ℕ → Bool) → ℕ → ℕ → List T → List T → List T
  weave draw n zero left_items bs = []
  weave draw n (suc count) [] [] = []
  weave draw n (suc count) (a ∷ left_items) [] = a ∷ weave draw (suc n) count left_items []
  weave draw n (suc count) [] (b ∷ bs) = b ∷ weave draw (suc n) count [] bs
  weave draw n (suc count) (a ∷ left_items) (b ∷ bs) =
      let left = weave draw (suc n) count left_items (b ∷ bs) in
      let right = weave draw (suc n) count (a ∷ left_items) bs in
      if draw n then a ∷ left else b ∷ right

  weave-split :
      (draw : ℕ → Bool) (n : ℕ) (xs : List T)
      → weave draw n (length xs) (train_items draw n xs) (test_items draw n xs) ≡ xs
  unfolding train_items test_items
  weave-split draw n [] = refl
  weave-split draw n (x ∷ xs) = elim (Bool-cases (draw n)) [
    | inl e ↦ rw e (
        chosen (train_items draw (suc n) xs) (test_items draw (suc n) xs) e
          (weave-split draw (suc n) xs))
    | inr e ↦ rw e (
        other (train_items draw (suc n) xs) (test_items draw (suc n) xs) e
          (weave-split draw (suc n) xs))
  ]
    where
      chosen :
          (left_items bs : List T)
          → draw n ≡ true
          → weave draw (suc n) (length xs) left_items bs ≡ xs
          → weave draw n (suc (length xs)) (x ∷ left_items) bs ≡ x ∷ xs
      chosen left_items [] e h = ap (◌∷◌ x) h
      chosen left_items (b ∷ bs) e h = ground (arith, e, h)

      other :
          (left_items bs : List T)
          → draw n ≡ false
          → weave draw (suc n) (length xs) left_items bs ≡ xs
          → weave draw n (suc (length xs)) left_items (x ∷ bs) ≡ x ∷ xs
      other [] bs e h = ap (◌∷◌ x) h
      other (a ∷ left_items) bs e h = ground (arith, e, h)

  -- The train and the test stream split the items between them: each item is in exactly one of them,
  -- in its order, as the draws say, so that the two together give back the stream; and each ends
  -- with the exception of the stream, if it has one.
  pub train_test_split_lem :
      (draw : ℕ → Bool) (s : Iteration T)
      → (weave draw 0
            (length s.items)
            (train_test_split draw s).0.items
            (train_test_split draw s).1.items
          ≡ s.items)
        × (length (train_test_split draw s).0.items + length (train_test_split draw s).1.items
            ≡ length s.items)
        × ((train_test_split draw s).0.failure ≡ s.failure)
        × ((train_test_split draw s).1.failure ≡ s.failure)
  unfolding train_test_split
  train_test_split_lem draw s = (weave-split draw 0 s.items, length-split 0 s.items, refl, refl)
    where
      length-split :
          (n : ℕ) (xs : List T)
          → length (train_items draw n xs) + length (test_items draw n xs) ≡ length xs
      length-split n [] = omega arith
      length-split n (x ∷ xs) = ground (arith, length-split (suc n) xs)
