-- ===== src/Evaluation/Defs.antt =====
-- caikit/core/toolkit/quality_evaluation.py: confusion matrices of single-label
-- evaluation, and partial matches of phrases.
use caikit.Common.{
  ℕ, ◌+◌, String, Bool, true, not, ◌&&◌, Option, none, some, List, [], ◌∷◌, length, contains,
  if◌then◌else◌, string_eq, nat_eq, ◌==◌,
}
use caikit.Common.Dict
use caikit.Common.Dict.{Dict}

-- `F1Metrics`, the counts.
pub record F1Metrics : Type 0 where
  pub true_positive : ℕ
  pub false_positive : ℕ
  pub false_negative : ℕ

abbrev pub no_counts : F1Metrics
no_counts = record { true_positive = 0; false_positive = 0; false_negative = 0 }

abbrev pub Matrix : Type 0
Matrix = Dict String F1Metrics

-- `labels is None or label in labels`
unfoldable pub wanted : Option (List String) → String → Bool
wanted none label = true
wanted (some labels) label = contains label labels

-- `if label not in matrix and (...): matrix[label] = F1Metrics(...)`
unfoldable pub add_class : Option (List String) → String → Matrix → Matrix
add_class labels label m =
    if not (Dict.has m label) && wanted labels label then Dict.put m label no_counts else m

-- `matrix[label].… += 1`. A missing label is a `KeyError`: `none`.
unfoldable pub change : (F1Metrics → F1Metrics) → String → Matrix → Option Matrix
change f label m = elim (Dict.get m label) [ none ↦ none | some c ↦ some (Dict.put m label (f c)) ]

abbrev pub add_tp : F1Metrics → F1Metrics
add_tp c = record c { true_positive = c.true_positive + 1 }

abbrev pub add_fp : F1Metrics → F1Metrics
add_fp c = record c { false_positive = c.false_positive + 1 }

abbrev pub add_fn : F1Metrics → F1Metrics
add_fn c = record c { false_negative = c.false_negative + 1 }

-- `if labels is None or label in labels: change`
unfoldable pub change_wanted :
    Option (List String) → (F1Metrics → F1Metrics) → String → Matrix → Option Matrix
unfolding change
change_wanted labels f label m = if wanted labels label then change f label m else some m

abbrev pub bind_matrix : Option Matrix → (Matrix → Option Matrix) → Option Matrix
bind_matrix none f = none
bind_matrix (some m) f = f m

-- One example of `singlelabel_multiclass_evaluation`.
unfoldable pub count_example : Option (List String) → String → String → Matrix → Option Matrix
unfolding add_class change_wanted
count_example labels gold pred m =
    let ready = add_class labels pred (add_class labels gold m) in
    if (gold == pred) && wanted labels gold
    then change add_tp gold ready
    else bind_matrix (change_wanted labels add_fp pred ready) (change_wanted labels add_fn gold)

unfoldable pub count_examples :
    Option (List String) → List (String × String) → Matrix → Option Matrix
count_examples labels [] m = some m
count_examples labels ((gold, pred) ∷ rest) m =
    bind_matrix (count_example labels gold pred m) (count_examples labels rest)

unfoldable pub zip_labels : List String → List String → List (String × String)
zip_labels (g ∷ gold) (p ∷ pred) = (g, p) ∷ zip_labels gold pred
zip_labels gold pred = []

-- The matrix of `singlelabel_multiclass_evaluation`; `none` is the `AssertionError` on the lengths.
unfoldable pub confusion_matrix : Option (List String) → List String → List String → Option Matrix
unfolding count_examples zip_labels
confusion_matrix labels gold pred =
    if length gold == length pred then count_examples labels (zip_labels gold pred) [] else none

-- `set.add`
unfoldable pub add_to_set : String → List String → List String
add_to_set x s = if contains x s then s else x ∷ s

-- `find_partial_matches`: `part_of a b` is whether the regular expression for the phrase `a` is found
-- in the phrase `b`. The two sets are of the ground truth and of the predictions.
module _ (part_of : String → String → Bool) where
  unfoldable pub match_one :
      String → List String → List String × List String → List String × List String
  unfolding add_to_set
  match_one gold [] (gs, ps) = (gs, ps)
  match_one gold (pred ∷ preds) (gs, ps) = match_one gold preds (
      if part_of pred gold
      then (add_to_set gold gs, add_to_set pred ps)
      else if part_of gold pred
      then (add_to_set gold gs, add_to_set pred ps)
      else (gs, ps))

  unfoldable pub match_from :
      List String → List String → List String × List String → List String × List String
  unfolding match_one
  match_from [] preds found = found
  match_from (gold ∷ golds) preds found = match_from golds preds (match_one gold preds found)

  unfoldable pub find_partial_matches : List String → List String → List String × List String
  unfolding match_from
  find_partial_matches groundtruth prediction = match_from groundtruth prediction ([], [])
