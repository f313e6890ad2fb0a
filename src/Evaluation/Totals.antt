-- ===== src/Evaluation/Totals.antt =====
-- The counts of multi-label evaluation add up.
use caikit.Common.{
  ℕ, ◌+◌, String, Bool, true, false, ◌&&◌, List, [], ◌∷◌, length, filter, contains, distinct, all,
  contains-filter, Eq, if◌then◌else◌, string_eq, nat_eq, ◌==◌, beq→eq, Bool-cases, inl, inr, ◌≡◌,
  refl, ap, arith,
}
use caikit.Evaluation.Multilabel.{to_set, intersection, difference}

module _ {A : Type 0} ⦃e : Eq A⦄ where
  pub contains-to_set : (a : A) (xs : List A) → contains a (to_set xs) ≡ contains a xs
  unfolding to_set
  contains-to_set a [] = refl
  contains-to_set a (x ∷ xs) =
      ground (arith, contains-to_set a xs, contains-to_set x xs, e.beq_iff x a)

  pub to_set-distinct : (xs : List A) → distinct (to_set xs) ≡ true
  unfolding to_set
  to_set-distinct [] = refl
  to_set-distinct (x ∷ xs) = ground (arith, to_set-distinct xs)

  pub to_set-filter : (p : A → Bool) (xs : List A) → to_set (filter p xs) ≡ filter p (to_set xs)
  unfolding to_set
  to_set-filter p [] = refl
  to_set-filter p (x ∷ xs) = ground (arith, to_set-filter p xs, contains-filter p x (to_set xs))

  -- Restricting both sets to the data of a label restricts what they share.
  pub intersection-filter :
      (p : A → Bool) (a b : List A)
      → intersection (filter p a) (filter p b) ≡ filter p (intersection a b)
  unfolding intersection
  intersection-filter p [] b = refl
  intersection-filter p (x ∷ a) b = ground (arith, intersection-filter p a b, contains-filter p x b)

  pub difference-filter :
      (p : A → Bool) (a b : List A)
      → difference (filter p a) (filter p b) ≡ filter p (difference a b)
  unfolding difference
  difference-filter p [] b = refl
  difference-filter p (x ∷ a) b = ground (arith, difference-filter p a b, contains-filter p x b)

and_first : (a b : Bool) → (a && b) ≡ true → a ≡ true
and_first true b h = refl
and_first false b h = h

and_second : (a b : Bool) → (a && b) ≡ true → b ≡ true
and_second true b h = h
and_second false b h = absurd (ground arith)

-- The sum of a number over a list of labels.
abbrev pub sum_over : List String → (String → ℕ) → ℕ
sum_over [] h = 0
sum_over (l ∷ ls) h = h l + sum_over ls h

abbrev one_if : Bool → ℕ
one_if b = if b then 1 else 0

sum_over-add :
    (ls : List String) (g h k : String → ℕ)
    → ((l : String) → g l ≡ h l + k l)
    → sum_over ls g ≡ sum_over ls h + sum_over ls k
sum_over-add [] g h k p = omega arith
sum_over-add (l ∷ ls) g h k p = omega (arith, p l, sum_over-add ls g h k p)

sum_over_none :
    (ls : List String) (k : String) → contains k ls ≡ false → sum_over ls (λ l. one_if (k == l)) ≡ 0
sum_over_none [] k h = refl
sum_over_none (l ∷ ls) k h =
    ground (arith, sum_over_none ls k, string_eq.beq_iff l k, string_eq.beq_iff k l)

-- Among distinct labels, one that is there counts once.
sum_over_one :
    (ls : List String) (k : String)
    → distinct ls ≡ true
    → contains k ls ≡ true
    → sum_over ls (λ l. one_if (k == l)) ≡ 1
sum_over_one [] k d h = absurd (ground arith)
sum_over_one (l ∷ ls) k d h = elim (Bool-cases (l == k)) [
  | inl q ↦ ground (
    arith,
    sum_over_none ls k,
    ap (λ x. contains x ls) (beq→eq q),
    string_eq.beq_iff l k,
    string_eq.beq_iff k l,
  )
  | inr q ↦ ground (arith, sum_over_one ls k, string_eq.beq_iff l k, string_eq.beq_iff k l)
]

sum_over_zero : (ls : List String) → sum_over ls (λ l. 0) ≡ 0
sum_over_zero [] = refl
sum_over_zero (l ∷ ls) = omega (arith, sum_over_zero ls)

module _ {T : Type 0} (label : T → String) where
  unfoldable pub with_label : List T → String → List T
  with_label xs l = filter (λ x. label x == l) xs

  length-with_label :
      (x : T) (xs : List T) (l : String)
      → length (with_label (x ∷ xs) l) ≡ one_if (label x == l) + length (with_label xs l)
  unfolding with_label
  length-with_label x xs l = ground arith

  -- The data of a list are parted by their labels.
  pub sum_over-with_label :
      (ls : List String) (xs : List T)
      → distinct ls ≡ true
      → all (λ x. contains (label x) ls) xs ≡ true
      → sum_over ls (λ l. length (with_label xs l)) ≡ length xs
  unfolding with_label
  sum_over-with_label ls [] d h = sum_over_zero ls
  sum_over-with_label ls (x ∷ xs) d h = omega (
    arith,
    sum_over-add ls (λ l. length (with_label (x ∷ xs) l)) (λ l. one_if (label x == l))
        (λ l. length (with_label xs l)) (length-with_label x xs),
    sum_over_one ls (label x) d (and_first _ _ h),
    sum_over-with_label ls xs d (and_second _ _ h),
  )
