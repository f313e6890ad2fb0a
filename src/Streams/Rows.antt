-- ===== src/Streams/Rows.antt =====
-- Formatted rows, and the numbers of invalid items.
use caikit.Common.{
  ℕ, ◌+◌, Bool, true, false, ◌&&◌, Option, none, some, List, [], ◌∷◌, ◌++◌, nat_eq, if◌then◌else◌,
  Bool-cases, inl, inr, ◌≡◌, refl, ap, ◌∙◌, arith,
}
use mathlib.Core.Option
use caikit.Streams.Columns.{
  Cell, Cells, scalar, listed, other, nil, cons, Column, list_column, column, validate,
}

module _ {S : Type 0} where
  -- The elements of a row, those of lists in their places.
  unfoldable mutual
    pub flat : Cells S → List S
    flat nil = []
    flat (cons x row) = flat_cell x ++ flat row

    pub flat_cell : Cell S → List S
    flat_cell (scalar x) = x ∷ []
    flat_cell (listed l) = flat l
    flat_cell (other x) = x ∷ []

  -- A row as a CSV file gives it: no lists, and each value of the type of its column where that is not
  -- `list`.
  unfoldable pub is_text_row : List (Column S) → Cells S → Bool
  is_text_row cs nil = true
  is_text_row [] (cons (scalar x) row) = is_text_row [] row
  is_text_row (list_column ∷ cs) (cons (scalar x) row) = is_text_row cs row
  is_text_row (column p ∷ cs) (cons (scalar x) row) = p x && is_text_row cs row
  is_text_row cs (cons (listed l) row) = false
  is_text_row cs (cons (other x) row) = false

shift :
    (n : ℕ) (o : Option ℕ)
    → Option.map (λ i. n + 1 + i) o ≡ Option.map (λ i. n + i) (Option.map (λ i. i + 1) o)
shift n none = refl
shift n (some i) = ap some (omega arith)

from_zero : (o : Option ℕ) → Option.map (λ i. 0 + i) o ≡ o
from_zero none = refl
from_zero (some i) = ap some (omega arith)

module _ {D : Type 0} (is_valid : D → Bool) where
  -- The position of the first item that is not valid, the items before it, and how many items are
  -- looked at.
  abbrev pub first_invalid : List D → Option ℕ
  first_invalid [] = none
  first_invalid (x ∷ items) =
      if is_valid x then Option.map (λ i. i + 1) (first_invalid items) else some 0

  abbrev pub before_invalid : List D → List D
  before_invalid [] = []
  before_invalid (x ∷ items) = if is_valid x then x ∷ before_invalid items else []

  abbrev pub looked_at : List D → ℕ
  looked_at [] = 0
  looked_at (x ∷ items) = if is_valid x then looked_at items + 1 else 1

  validate_lem :
      (next : ℕ) (items : List D)
      → ((validate is_valid next items).0.yielded ≡ before_invalid items)
        × ((validate is_valid next items).0.failed
            ≡ Option.map (λ i. next + i) (first_invalid items))
        × ((validate is_valid next items).1 ≡ next + looked_at items)
  unfolding validate
  validate_lem next [] = (refl, refl, omega arith)
  validate_lem next (x ∷ items) =
      let (y, f, a) = validate_lem (next + 1) items in
      elim (Bool-cases (is_valid x)) [
        | inl v ↦ rw v (ap (λ l. x ∷ l) y, f ∙ shift next (first_invalid items), a ∙ omega arith)
        | inr v ↦ rw v (refl, ap some (omega arith), refl)
      ]

  -- A validated stream that is iterated over twice, each time to its end or to its first invalid item:
  -- both times it yields the items before the first invalid one, and the first time the error names
  -- the position of that item. The second time it names a number that is too large by as many items as
  -- were looked at before, since the count goes on.
  pub validate-validate :
      (items : List D)
      → ((validate is_valid 0 items).0.yielded ≡ before_invalid items)
        × ((validate is_valid 0 items).0.failed ≡ first_invalid items)
        × ((validate is_valid (validate is_valid 0 items).1 items).0.yielded ≡ before_invalid items)
        × ((validate is_valid (validate is_valid 0 items).1 items).0.failed
            ≡ Option.map (λ i. looked_at items + i) (first_invalid items))
  validate-validate items =
      let (y, f, a) = validate_lem 0 items in
      let n : (validate is_valid 0 items).1 ≡ looked_at items = a ∙ omega arith in
      let (y', f', _) = validate_lem (validate is_valid 0 items).1 items in
      (
        y,
        f ∙ from_zero (first_invalid items),
        y',
        f' ∙ ap (λ m. Option.map (λ i. m + i) (first_invalid items)) n,
      )
