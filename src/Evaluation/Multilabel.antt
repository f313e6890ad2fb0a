-- ===== src/Evaluation/Multilabel.antt =====
-- caikit/core/toolkit/quality_evaluation.py: the counts of `multilabel_multiclass_evaluation`.
use caikit.Common.{
  ◌+◌, String, Bool, not, ◌&&◌, Option, none, some, List, [], ◌∷◌, ◌++◌, map, length, filter,
  contains, Eq, all, is_empty, ◌>>=◌, succeeds, if◌then◌else◌, string_eq, nat_eq, ◌==◌,
}
use caikit.Common.Dict
use caikit.Evaluation.Defs.{F1Metrics, no_counts, Matrix}

module _ {A : Type 0} ⦃e : Eq A⦄ where
  -- `set(xs)`: each member once.
  unfoldable pub to_set : List A → List A
  to_set [] = []
  to_set (x ∷ xs) = let rest = to_set xs in if contains x rest then rest else x ∷ rest

  -- `a.intersection(b)`
  unfoldable pub intersection : List A → List A → List A
  intersection a b = filter (λ x. contains x b) a

  -- `a - b`
  unfoldable pub difference : List A → List A → List A
  difference a b = filter (λ x. not (contains x b)) a

  -- `a.union(b)`
  unfoldable pub union : List A → List A → List A
  unfolding to_set
  union a b = to_set (a ++ b)

  -- The three numbers for a set of gold data and a set of predicted data.
  unfoldable pub compare_sets : List A → List A → F1Metrics
  unfolding intersection difference
  compare_sets gold pred = record {
    true_positive = length (intersection gold pred);
    false_positive = length (difference pred gold);
    false_negative = length (difference gold pred);
  }

unfoldable pub add_counts : F1Metrics → F1Metrics → F1Metrics
add_counts c d = record {
  true_positive = c.true_positive + d.true_positive;
  false_positive = c.false_positive + d.false_positive;
  false_negative = c.false_negative + d.false_negative;
}

-- The dictionary entry of a label, made if it is missing, and raised by what an example adds.
unfoldable pub add_label : String → F1Metrics → Matrix → Matrix
unfolding add_counts
add_label label c m = elim (Dict.get m label) [
  | none ↦ Dict.put m label (add_counts no_counts c)
  | some d ↦ Dict.put m label (add_counts d c)
]

-- `per_class_confusion_matrix`, the variables `overall_tp`, `overall_fp` and `overall_fn`, and
-- `use_labels_for_matching`.
pub record Counts : Type 0 where
  pub matrix : Matrix
  pub overall : F1Metrics
  pub use_labels : Bool

-- `find_label` and `label_data` are the functions that find the label of a datum and the data of a
-- label; the first is `none` if every call of it raises `NotImplementedError`.
module _ {T : Type 0} ⦃e : Eq T⦄ (label_data : List T → String → List T) where
  -- The loop over the labels of one example.
  unfoldable pub count_labels : List T → List T → List String → Matrix → Matrix
  unfolding add_label compare_sets to_set
  count_labels gold pred [] m = m
  count_labels gold pred (l ∷ ls) m =
      count_labels gold pred ls
        (add_label l (compare_sets (to_set (label_data gold l)) (to_set (label_data pred l))) m)

  -- `map(find_label_func, ex)`
  unfoldable pub find_labels : Option (T → String) → List T → Option (List String)
  find_labels none [] = some []
  find_labels none (x ∷ xs) = none
  find_labels (some label) xs = some (map label xs)

  -- `all_labels`, and `none` for the `NotImplementedError`.
  unfoldable pub all_labels : Option (T → String) → List T → List T → Option (List String)
  unfolding union to_set find_labels
  all_labels find_label gold pred = do
    g ← find_labels find_label gold
    p ← find_labels find_label pred
    some (union (to_set g) (to_set p))

  -- What the labels are if they are found, none otherwise: no earlier example can have had any.
  abbrev labels_or_none : Option (List String) → List String
  labels_or_none none = []
  labels_or_none (some ls) = ls

  -- One example. An exception ends the matching by labels, without which the overall counts grow.
  unfoldable pub count_multi : Option (T → String) → List T → List T → Counts → Counts
  unfolding count_labels all_labels
  count_multi find_label gold pred c =
      let found = all_labels find_label gold pred in
      let by_labels = c.use_labels && succeeds found in
      record {
        matrix = count_labels gold pred (labels_or_none found) c.matrix;
        overall =
            if by_labels
            then c.overall
            else add_counts c.overall (compare_sets (to_set gold) (to_set pred));
        use_labels = by_labels;
      }

  -- The loop over the examples.
  unfoldable pub count_multis : Option (T → String) → List (List T × List T) → Counts → Counts
  unfolding count_multi
  count_multis find_label [] c = c
  count_multis find_label ((gold, pred) ∷ rest) c =
      count_multis find_label rest (count_multi find_label gold pred c)

  unfoldable pub zip_examples : List (List T) → List (List T) → List (List T × List T)
  zip_examples (g ∷ gold) (p ∷ pred) = (g, p) ∷ zip_examples gold pred
  zip_examples _ _ = []

  -- The filter by `labels`: an empty list counts as none, and `none` is the `NotImplementedError`.
  unfoldable pub restrict :
      Option (List String) → Option (T → String) → List (List T) → Option (List (List T))
  restrict none find_label exs = some exs
  restrict (some []) find_label exs = some exs
  restrict (some (l ∷ ls)) none exs = if all is_empty exs then some exs else none
  restrict (some (l ∷ ls)) (some label) exs =
      some (map (filter (λ x. contains (label x) (l ∷ ls))) exs)

  -- The counts of `multilabel_multiclass_evaluation`; `none` is the `AssertionError` on the lengths or
  -- the `NotImplementedError`.
  unfoldable pub multilabel_counts :
      Option (T → String)
      → Option (List String)
      → Bool
      → List (List T)
      → List (List T)
      → Option Counts
  unfolding count_multis restrict zip_examples
  multilabel_counts find_label labels use_labels gold pred =
      if not (length gold == length pred) then none else do
        gold' ← restrict labels find_label gold
        pred' ← restrict labels find_label pred
        some (
            count_multis find_label (zip_examples gold' pred')
              (record { matrix = []; overall = no_counts; use_labels = use_labels }))
