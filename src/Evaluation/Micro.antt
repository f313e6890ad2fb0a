-- ===== src/Evaluation/Micro.antt =====
-- The two ways of `multilabel_multiclass_evaluation` to reach the counts of the micro average.
use caikit.Common.{
  ℕ, String, Bool, true, false, not, ◌&&◌, ◌||◌, Option, none, some, List, [], ◌∷◌, ◌++◌, map,
  length, filter, contains, all, contains-append, contains-filter, Eq, if◌then◌else◌, string_eq,
  nat_eq, ◌==◌, beq_refl, beq→eq, Bool-cases, Option-cases, inl, inr, ◌≡◌, refl, ap, sym, ◌∙◌,
  arith, nat_beq_iff,
}
use caikit.Common.Dict
use caikit.Evaluation.Defs.{F1Metrics, no_counts, Matrix}
use caikit.Evaluation.Multilabel.{
  to_set, intersection, difference, union, compare_sets, add_counts, add_label, Counts,
  count_labels, all_labels, find_labels, count_multi, count_multis, zip_examples, restrict,
  multilabel_counts,
}
use caikit.Evaluation.Totals.{
  contains-to_set, to_set-distinct, to_set-filter, intersection-filter, difference-filter, sum_over,
  with_label, sum_over-with_label,
}

-- The sum of the counts of all classes.
unfoldable pub total : Matrix → F1Metrics
unfolding add_counts
total [] = no_counts
total ((l, c) ∷ m) = add_counts c (total m)

total-put_new :
    (l : String) (c : F1Metrics) (m : Matrix)
    → Dict.get m l ≡ none
    → total (Dict.put m l c) ≡ add_counts (total m) c
unfolding total Dict.get Dict.put
total-put_new l c [] h = ground arith
total-put_new l c ((k, d) ∷ m) h = ground (arith, total-put_new l c m)

total-put_old :
    (l : String) (c d : F1Metrics) (m : Matrix)
    → Dict.get m l ≡ some d
    → total (Dict.put m l (add_counts d c)) ≡ add_counts (total m) c
unfolding total Dict.get Dict.put
total-put_old l c d [] h = absurd (ground arith)
total-put_old l c d ((k, b) ∷ m) h = ground (arith, total-put_old l c d m)

add_counts-zero : (c : F1Metrics) → add_counts no_counts c ≡ c
unfolding add_counts
add_counts-zero c = ground arith

total-add_label :
    (l : String) (c : F1Metrics) (m : Matrix) → total (add_label l c m) ≡ add_counts (total m) c
unfolding add_label
total-add_label l c m = elim (Option-cases (Dict.get m l)) [
  | inl h ↦ ground (arith, h, total-put_new l (add_counts no_counts c) m h, add_counts-zero c)
  | inr (d, h) ↦ ground (arith, h, total-put_old l c d m h)
]

-- The counts of several labels together.
abbrev sum_counts : List String → (String → F1Metrics) → F1Metrics
sum_counts [] h = no_counts
sum_counts (l ∷ ls) h = add_counts (h l) (sum_counts ls h)

sum_counts-parts :
    (ls : List String) (h : String → F1Metrics) (a b c : String → ℕ) (n : F1Metrics)
    → ((l : String)
        → h l ≡ record { true_positive = a l; false_positive = b l; false_negative = c l })
    → sum_over ls a ≡ n.true_positive
    → sum_over ls b ≡ n.false_positive
    → sum_over ls c ≡ n.false_negative
    → sum_counts ls h ≡ n
unfolding add_counts
sum_counts-parts [] h a b c n p x y z = ground (arith, x, y, z)
sum_counts-parts (l ∷ ls) h a b c n p x y z = ground (
  arith,
  p l,
  x,
  y,
  z,
  sum_counts-parts ls h a b c
      (record {
        true_positive = sum_over ls a;
        false_positive = sum_over ls b;
        false_negative = sum_over ls c;
      })
      p refl refl refl,
)

module _ {A : Type 0} ⦃e : Eq A⦄ where
  all_of :
      (p : A → Bool) (xs : List A) → ((x : A) → contains x xs ≡ true → p x ≡ true) → all p xs ≡ true
  all_of p [] h = refl
  all_of p (x ∷ xs) h =
      ground (arith, h x, beq_refl x, all_of p xs (λ y c. h y (ground (arith, c))))

  contains-map :
      (label : A → String) (x : A) (xs : List A)
      → contains x xs ≡ true
      → contains (label x) (map label xs) ≡ true
  contains-map label x [] h = absurd (ground arith)
  contains-map label x (y ∷ xs) h = elim (Bool-cases (y == x)) [
    | inl q ↦ ground (arith, ap (λ z. label z == label x) (beq→eq q), beq_refl (label x))
    | inr q ↦ ground (arith, contains-map label x xs)
  ]

add_zero : (c : F1Metrics) → c ≡ add_counts c no_counts
unfolding add_counts
add_zero c = ground arith

add_counts_assoc :
    (a b c : F1Metrics) → add_counts (add_counts a b) c ≡ add_counts a (add_counts b c)
unfolding add_counts
add_counts_assoc a b c = ground arith

module _ {T : Type 0} ⦃e : Eq T⦄ (label_data : List T → String → List T) (label : T → String)
    (labelled : (xs : List T) (l : String) → label_data xs l ≡ filter (λ x. label x == l) xs) where
  counts_of : List T → List T → String → F1Metrics
  counts_of gold pred l = compare_sets (to_set (label_data gold l)) (to_set (label_data pred l))

  total-count_labels :
      (gold pred : List T) (ls : List String) (m : Matrix)
      → total (count_labels label_data gold pred ls m)
        ≡ add_counts (total m) (sum_counts ls (counts_of gold pred))
  unfolding count_labels counts_of
  total-count_labels gold pred [] m = add_zero (total m)
  total-count_labels gold pred (l ∷ ls) m =
      total-count_labels gold pred ls (add_label l (counts_of gold pred l) m)
      ∙ ap (λ t. add_counts t (sum_counts ls (counts_of gold pred)))
          (total-add_label l (counts_of gold pred l) m)
      ∙ add_counts_assoc (total m) (counts_of gold pred l) (sum_counts ls (counts_of gold pred))

  set_of_label :
      (xs : List T) (l : String) → to_set (label_data xs l) ≡ with_label label (to_set xs) l
  unfolding with_label
  set_of_label xs l = ap to_set (labelled xs l) ∙ to_set-filter (λ x. label x == l) xs

  counts_of-parts :
      (gold pred : List T) (l : String)
      → counts_of gold pred l ≡ record {
        true_positive = length (with_label label (intersection (to_set gold) (to_set pred)) l);
        false_positive = length (with_label label (difference (to_set pred) (to_set gold)) l);
        false_negative = length (with_label label (difference (to_set gold) (to_set pred)) l);
      }
  unfolding counts_of compare_sets with_label
  counts_of-parts gold pred l =
      rw (set_of_label gold l, set_of_label pred l)
        (rw
          (
            intersection-filter (λ x. label x == l) (to_set gold) (to_set pred),
            difference-filter (λ x. label x == l) (to_set pred) (to_set gold),
            difference-filter (λ x. label x == l) (to_set gold) (to_set pred),
          )
          refl)

  labels_of : List T → List T → List String
  labels_of gold pred = union (to_set (map label gold)) (to_set (map label pred))

  labels_of-contains :
      (gold pred : List T) (x : T)
      → (contains x gold || contains x pred) ≡ true
      → contains (label x) (labels_of gold pred) ≡ true
  unfolding labels_of union
  labels_of-contains gold pred x h = ground (
    arith,
    contains-to_set (label x) (to_set (map label gold) ++ to_set (map label pred)),
    contains-append (label x) (to_set (map label gold)) (to_set (map label pred)),
    contains-to_set (label x) (map label gold),
    contains-to_set (label x) (map label pred),
    contains-map label x gold,
    contains-map label x pred,
  )

  -- A part of the data counts in full over the labels of the example.
  sum_over-part :
      (gold pred part : List T)
      → ((x : T) → contains x part ≡ true → (contains x gold || contains x pred) ≡ true)
      → sum_over (labels_of gold pred) (λ l. length (with_label label part l)) ≡ length part
  unfolding labels_of union
  sum_over-part gold pred part h =
      sum_over-with_label label (labels_of gold pred) part
        (to_set-distinct (to_set (map label gold) ++ to_set (map label pred)))
        (all_of (λ x. contains (label x) (labels_of gold pred)) part
          (λ x c. labels_of-contains gold pred x (h x c)))

  sum_counts-labels_of :
      (gold pred : List T)
      → sum_counts (labels_of gold pred) (counts_of gold pred)
        ≡ compare_sets (to_set gold) (to_set pred)
  unfolding compare_sets intersection difference
  sum_counts-labels_of gold pred =
      let g = to_set gold in
      let p = to_set pred in
      sum_counts-parts (labels_of gold pred) (counts_of gold pred)
        (λ l. length (with_label label (intersection g p) l))
        (λ l. length (with_label label (difference p g) l))
        (λ l. length (with_label label (difference g p) l)) (compare_sets g p)
        (counts_of-parts gold pred)
        (sum_over-part gold pred (intersection g p) (λ x c.
          ground (arith, c, contains-filter (λ y. contains y p) x g, contains-to_set x gold)))
        (sum_over-part gold pred (difference p g) (λ x c.
          ground (arith, c, contains-filter (λ y. not (contains y g)) x p, contains-to_set x pred)))
        (sum_over-part gold pred (difference g p) (λ x c.
          ground (arith, c, contains-filter (λ y. not (contains y p)) x g, contains-to_set x gold)))

  -- What the loop over the examples keeps.
  abbrev Agrees : Counts → Type 0
  Agrees c = (total c.matrix ≡ c.overall) × (c.use_labels ≡ false)

  count_multi-Agrees :
      (gold pred : List T) (c : Counts)
      → Agrees c
      → Agrees (count_multi label_data (some label) gold pred c)
  unfolding count_multi all_labels find_labels labels_of
  count_multi-Agrees gold pred c (h, n) = (
    total-count_labels gold pred (labels_of gold pred) c.matrix
        ∙ (λ i. add_counts (h i) (sum_counts-labels_of gold pred i))
        ∙ ap
            (λ b.
              if b && true
              then c.overall
              else add_counts c.overall (compare_sets (to_set gold) (to_set pred)))
            (sym n),
    ap (λ b. b && true) n,
  )

  count_multis-Agrees :
      (exs : List (List T × List T)) (c : Counts)
      → Agrees c
      → Agrees (count_multis label_data (some label) exs c)
  unfolding count_multis
  count_multis-Agrees [] c h = h
  count_multis-Agrees ((gold, pred) ∷ exs) c h =
      count_multis-Agrees exs (count_multi label_data (some label) gold pred c)
        (count_multi-Agrees gold pred c h)

  restrict-some :
      (labels : Option (List String)) (exs : List (List T))
      → (exs' : List (List T)) × (restrict label_data labels (some label) exs ≡ some exs')
  unfolding restrict
  restrict-some none exs = (exs, refl)
  restrict-some (some []) exs = (exs, refl)
  restrict-some (some (l ∷ ls)) exs = (_, refl)

  -- The two ways to the counts of the micro average agree. Where the data of a label are those that
  -- `find_label_func` gives the label, and as many examples are predicted as there are gold ones,
  -- multi-label evaluation that does not match by labels succeeds, and the true positives, false
  -- positives and false negatives of all classes add up to those that it counts on the data as a whole.
  pub multilabel_counts-total :
      (labels : Option (List String)) (gold pred : List (List T))
      → length gold ≡ length pred
      → (c : Counts) × (multilabel_counts label_data (some label) labels false gold pred ≡ some c)
        × (total c.matrix ≡ c.overall)
  unfolding multilabel_counts total
  multilabel_counts-total labels gold pred h =
      let (gold', g) = restrict-some labels gold in
      let (pred', p) = restrict-some labels pred in
      let start : Counts = record { matrix = []; overall = no_counts; use_labels = false } in
      let exs = zip_examples label_data gold' pred' in
      (
        count_multis label_data (some label) exs start,
        rw ((nat_beq_iff (length gold) (length pred)).1 h, g, p) refl,
        (count_multis-Agrees exs start (refl, refl)).0,
      )
