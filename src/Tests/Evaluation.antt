-- ===== src/Tests/Evaluation.antt =====
-- Examples for quality_evaluation.py.
use caikit.Common.{
  ℕ, ◌%◌, false, filter, ◌≡◌, refl, String, Bool, ◌&&◌, Option, none, some, List, [], ◌∷◌,
  if◌then◌else◌, string_eq, ◌==◌, nat_eq,
}
use caikit.Common.Dict
use caikit.Evaluation.Defs.{Matrix, wanted, zip_labels, confusion_matrix}
use caikit.Evaluation.Example.{spec_counts, occurs}
use caikit.Evaluation.Counts.{confusion_matrix-counts}
use caikit.Evaluation.Multilabel.{Counts, multilabel_counts}
use caikit.Evaluation.Micro.{total, multilabel_counts-total}

abbrev gold_labels : List String
gold_labels = "cat" ∷ "dog" ∷ "cat" ∷ []

abbrev predicted : List String
predicted = "cat" ∷ "cat" ∷ "bird" ∷ []

abbrev some_labels : Option (List String)
some_labels = some ("cat" ∷ "dog" ∷ [])

confusion_matrix-counts_example :
    (m : Matrix) × (confusion_matrix some_labels gold_labels predicted ≡ some m)
    × ((l : String)
        → Dict.get m l ≡ (
            if wanted some_labels l && occurs l (zip_labels gold_labels predicted)
            then some (spec_counts l (zip_labels gold_labels predicted))
            else none))
confusion_matrix-counts_example = confusion_matrix-counts some_labels gold_labels predicted refl

-- Only a phrase is part of itself here.
abbrev same_phrase : String → String → Bool
same_phrase a b = a == b

-- Numbers with two labels; the data of a label are the numbers that have it.
abbrev parity : ℕ → String
parity n = if n % 2 == 0 then "even" else "odd"

abbrev data_with : List ℕ → String → List ℕ
data_with xs l = filter (λ x. parity x == l) xs

abbrev gold_sets : List (List ℕ)
gold_sets = (1 ∷ 2 ∷ 3 ∷ []) ∷ (2 ∷ []) ∷ []

abbrev predicted_sets : List (List ℕ)
predicted_sets = (2 ∷ 4 ∷ []) ∷ (2 ∷ 5 ∷ []) ∷ []

multilabel_counts-total_example :
    (c : Counts) × (multilabel_counts data_with (some parity) none false gold_sets predicted_sets
      ≡ some c)
    × (total c.matrix ≡ c.overall)
multilabel_counts-total_example =
    multilabel_counts-total data_with parity (λ xs l. refl) none gold_sets predicted_sets refl
