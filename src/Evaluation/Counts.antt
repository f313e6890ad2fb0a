-- ===== src/Evaluation/Counts.antt =====
-- The counts of quality_evaluation.py for single-label evaluation.
use caikit.Common.{
  ◌≡◌, refl, ap, ◌∙◌, String, Bool, false, ◌&&◌, ◌||◌, Option, none, some, List, [], ◌∷◌, length,
  if◌then◌else◌, string_eq, nat_eq, ◌==◌, arith,
}
use caikit.Common.Dict
use caikit.Common.Dict.{Dict}
use caikit.Evaluation.Defs.{
  F1Metrics, no_counts, Matrix, wanted, count_examples, zip_labels, confusion_matrix,
}
use caikit.Evaluation.Example.{spec_counts, plus, after, occurs, count_example_lem}

module _ (labels : Option (List String)) where
  counts-unmentioned :
      (l : String) (examples : List (String × String))
      → occurs l examples ≡ false
      → spec_counts l examples ≡ no_counts
  counts-unmentioned l [] h = refl
  counts-unmentioned l ((gold, pred) ∷ rest) h = ground (arith, counts-unmentioned l rest)

  -- Entries of two examples add up.
  after-after :
      (l : String) (m m₁ : Matrix) (named more : Bool) (c d : F1Metrics)
      → (more ≡ false → d ≡ no_counts)
      → (named ≡ false → c ≡ no_counts)
      → Dict.get m₁ l ≡ after labels named c l m
      → after labels more d l m₁ ≡ after labels (named || more) (plus c d) l m
  after-after l m m₁ named more c d hd hc h = ground (
    arith,
    hd,
    hc,
    h,
    Dict.get_of_has m l,
    Dict.get-eq-none m l,
    Dict.get_of_has m₁ l,
    Dict.get-eq-none m₁ l,
  )

  one_plus :
      (l gold pred : String) (rest : List (String × String))
      → plus (spec_counts l ((gold, pred) ∷ [])) (spec_counts l rest)
        ≡ spec_counts l ((gold, pred) ∷ rest)
  one_plus l gold pred rest = ground arith

  count_examples_lem :
      (examples : List (String × String)) (m : Matrix)
      → (m' : Matrix) × (count_examples labels examples m ≡ some m')
        × ((l : String)
            → Dict.get m' l ≡ after labels (occurs l examples) (spec_counts l examples) l m)
  unfolding count_examples
  count_examples_lem [] m = (m, refl, λ l. ground (arith, Dict.get_of_has m l))
  count_examples_lem ((gold, pred) ∷ rest) m =
      let (m₁, e₁, g₁) = count_example_lem labels gold pred m in
      let (m₂, e₂, g₂) = count_examples_lem rest m₁ in
      (
        m₂,
        ground (arith, e₁, e₂),
        λ l.
            g₂ l
            ∙ after-after l m m₁ ((gold == l) || (pred == l)) (occurs l rest)
                (spec_counts l ((gold, pred) ∷ [])) (spec_counts l rest) (counts-unmentioned l rest)
                (λ e. counts-unmentioned l ((gold, pred) ∷ []) (ground (arith, e))) (g₁ l)
            ∙ ap (λ c. after labels (occurs l ((gold, pred) ∷ rest)) c l m)
                (one_plus l gold pred rest),
      )

  -- The evaluation of as many predicted as gold labels does not fail. Each wanted label that occurs
  -- has an entry, with the numbers of examples where it is right, where it is predicted wrongly,
  -- and where it is missed; no other label has one.
  pub confusion_matrix-counts :
      (gold pred : List String)
      → length gold ≡ length pred
      → (m : Matrix) × (confusion_matrix labels gold pred ≡ some m)
        × ((l : String)
            → Dict.get m l ≡ (
                if wanted labels l && occurs l (zip_labels gold pred)
                then some (spec_counts l (zip_labels gold pred))
                else none))
  unfolding confusion_matrix Dict.get Dict.has
  confusion_matrix-counts gold pred h =
      let (m, e, g) = count_examples_lem (zip_labels gold pred) [] in
      (m, ground (arith, h, e), λ l. ground (arith, g l))
