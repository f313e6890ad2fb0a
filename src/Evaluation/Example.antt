-- ===== src/Evaluation/Example.antt =====
-- What one example adds to the confusion matrix of quality_evaluation.py.
use caikit.Common.{
  ℕ, ◌+◌, ◌≡◌, refl, String, Bool, true, false, not, ◌&&◌, ◌||◌, Option, none, some, List, [], ◌∷◌,
  if◌then◌else◌, string_eq, nat_eq, ◌==◌, arith, Bool-cases, inl, inr, ◌⊎◌,
}
use caikit.Common.Dict
use caikit.Common.Dict.{Dict}
use caikit.Evaluation.Defs.{
  F1Metrics, no_counts, Matrix, wanted, add_class, add_tp, add_fp, add_fn, change_wanted,
  count_example,
}

-- The specification: one count of an example for a label.
abbrev pub one : Bool → ℕ
one true = 1
one false = 0

-- The examples in which the label is right, wrongly predicted, or missed.
abbrev pub spec_counts : String → List (String × String) → F1Metrics
spec_counts l [] = no_counts
spec_counts l ((gold, pred) ∷ rest) =
    let c = spec_counts l rest in
    record {
      true_positive = one ((gold == l) && (pred == l)) + c.true_positive;
      false_positive = one (not (gold == l) && (pred == l)) + c.false_positive;
      false_negative = one ((gold == l) && not (pred == l)) + c.false_negative;
    }

-- The label is the gold or the predicted label of an example.
abbrev pub occurs : String → List (String × String) → Bool
occurs l [] = false
occurs l ((gold, pred) ∷ rest) = ((gold == l) || (pred == l)) || occurs l rest

abbrev pub plus : F1Metrics → F1Metrics → F1Metrics
plus a b = record {
  true_positive = a.true_positive + b.true_positive;
  false_positive = a.false_positive + b.false_positive;
  false_negative = a.false_negative + b.false_negative;
}

abbrev pub counts_at : Option F1Metrics → F1Metrics
counts_at none = no_counts
counts_at (some c) = c

module _ (labels : Option (List String)) where
  get-add_class :
      (l : String) (m : Matrix) (j : String)
      → Dict.get (add_class labels l m) j ≡ (
          if not (Dict.has m l) && wanted labels l && (l == j)
          then some no_counts
          else Dict.get m j)
  unfolding add_class
  get-add_class l m j = ground (arith, Dict.get-put m l no_counts j)

  -- A label that is wanted has an entry once it is added.
  has-add_class :
      (l : String) (m : Matrix) (j : String)
      → Dict.has (add_class labels l m) j ≡ ((wanted labels l && (l == j)) || Dict.has m j)
  unfolding add_class
  has-add_class l m j = ground (arith, Dict.has-put m l no_counts j, string_eq.beq_iff l j)

  change_wanted_lem :
      (f : F1Metrics → F1Metrics) (l : String) (m : Matrix)
      → (wanted labels l ≡ true → Dict.has m l ≡ true)
      → (m' : Matrix) × (change_wanted labels f l m ≡ some m')
        × ((j : String)
            → Dict.get m' j ≡ (
                if wanted labels l && (l == j)
                then some (f (counts_at (Dict.get m j)))
                else Dict.get m j))
  unfolding change_wanted
  change_wanted_lem f l m h = elim (Bool-cases (wanted labels l)) [
    | inl w ↦
        let (c, e) = Dict.get_of_has m l (h w) in
        (
          Dict.put m l (f c),
          ground (arith, w, e),
          λ j. ground (arith, w, e, Dict.get-put m l (f c) j, string_eq.beq_iff l j),
        )
    | inr w ↦ (m, ground (arith, w), λ j. ground (arith, w))
  ]

  -- The matrix with both labels of an example in it.
  abbrev ready : String → String → Matrix → Matrix
  ready gold pred m = add_class labels pred (add_class labels gold m)

  get-ready :
      (gold pred : String) (m : Matrix) (j : String)
      → Dict.get (ready gold pred m) j ≡ (
          if not (Dict.has m j) && wanted labels j && ((gold == j) || (pred == j))
          then some no_counts
          else Dict.get m j)
  get-ready gold pred m j = ground (
    arith,
    get-add_class pred (add_class labels gold m) j,
    get-add_class gold m j,
    has-add_class gold m pred,
    string_eq.beq_iff gold j,
    string_eq.beq_iff pred j,
    string_eq.beq_iff gold pred,
  )

  has-ready :
      (gold pred : String) (m : Matrix) (j : String)
      → (wanted labels j ≡ true → (gold ≡ j) ⊎ (pred ≡ j) → Dict.has (ready gold pred m) j ≡ true)
  has-ready gold pred m j w (inl e) = ground (
    arith,
    has-add_class pred (add_class labels gold m) j,
    has-add_class gold m j,
    string_eq.beq_iff gold j,
    e,
    w,
  )
  has-ready gold pred m j w (inr e) =
      ground (arith, has-add_class pred (add_class labels gold m) j, string_eq.beq_iff pred j, e, w)

  -- What the examples add to the entry of a label.
  abbrev pub after : Bool → F1Metrics → String → Matrix → Option F1Metrics
  after named c l m =
      if wanted labels l && (Dict.has m l || named)
      then some (plus (counts_at (Dict.get m l)) c)
      else Dict.get m l

  -- The false positive leaves the entry of the gold label in place.
  still :
      (gold pred : String) (m m₁ : Matrix)
      → wanted labels gold ≡ true
      → ((j : String)
          → Dict.get m₁ j ≡ (
              if wanted labels pred && (pred == j)
              then some (add_fp (counts_at (Dict.get (ready gold pred m) j)))
              else Dict.get (ready gold pred m) j))
      → Dict.has m₁ gold ≡ true
  still gold pred m m₁ w g =
      let (c, e) =
        Dict.get_of_has (ready gold pred m) gold (has-ready gold pred m gold w (inl refl)) in
      elim (Bool-cases (wanted labels pred && (pred == gold))) [
        | inl t ↦ Dict.has_of_get m₁ gold (add_fp c) (ground (arith, g gold, e, t))
        | inr t ↦ Dict.has_of_get m₁ gold c (ground (arith, g gold, e, t))
      ]

  pub count_example_lem :
      (gold pred : String) (m : Matrix)
      → (m' : Matrix) × (count_example labels gold pred m ≡ some m')
        × ((l : String)
            → Dict.get m' l
              ≡ after ((gold == l) || (pred == l)) (spec_counts l ((gold, pred) ∷ [])) l m)
  unfolding count_example
  count_example_lem gold pred m = elim (Bool-cases ((gold == pred) && wanted labels gold)) [
    | inl t ↦
        let (m', e, g) =
          change_wanted_lem add_tp gold (ready gold pred m)
            (λ w. has-ready gold pred m gold w (inl refl)) in
        (
          m',
          ground (arith, t, e),
          λ l. ground (
            arith,
            t,
            g l,
            get-ready gold pred m l,
            Dict.get-eq-none m l,
            Dict.get_of_has m l,
            string_eq.beq_iff gold pred,
            string_eq.beq_iff gold l,
            string_eq.beq_iff pred l,
          ),
        )
    | inr t ↦
        let (m₁, e₁, g₁) =
          change_wanted_lem add_fp pred (ready gold pred m)
            (λ w. has-ready gold pred m pred w (inr refl)) in
        let (m₂, e₂, g₂) = change_wanted_lem add_fn gold m₁ (λ w. still gold pred m m₁ w g₁) in
        (
          m₂,
          ground (arith, t, e₁, e₂),
          λ l. ground (
            arith,
            t,
            g₁ l,
            g₂ l,
            get-ready gold pred m l,
            Dict.get-eq-none m l,
            Dict.get_of_has m l,
            string_eq.beq_iff gold pred,
            string_eq.beq_iff gold l,
            string_eq.beq_iff pred l,
          ),
        )
  ]
