-- ===== src/Tests/Streams.antt =====
-- Examples for data_stream.py.
use mathlib.Core.Option
use caikit.Common.{
  true, ℕ, ◌+◌, ◌*◌, ◌%◌, ◌≡◌, refl, Bool, false, some, List, [], ◌∷◌, nat_eq, ltb, arith,
}
use caikit.Streams.Defs.{type_error, Iteration, yields, shuffle}
use caikit.Streams.Columns.{
  Column, list_column, column, Cells, scalar, listed, nil, cons, convert, validate,
}
use caikit.Streams.Rows.{first_invalid, before_invalid, looked_at, validate-validate}
use caikit.Streams.Shuffling.{count, shuffle-items}
use caikit.Streams.Augmenting.{Augmentor}

abbrev numbers : List ℕ
numbers = 1 ∷ 2 ∷ 3 ∷ 4 ∷ []

-- A stream that raises after two items.
abbrev broken : Iteration ℕ
broken = record { items = 5 ∷ 6 ∷ []; failure = some type_error }

abbrev parts : List (Iteration ℕ)
parts = yields numbers ∷ broken ∷ []

-- An augmentor that counts its calls.
abbrev counting : Augmentor ℕ ℕ
counting = record { initial = 0; augment = λ s x. (some (x + s), s + 1); produces_none = false }

abbrev pair : List ℕ
pair = 7 ∷ 8 ∷ []

abbrev double : ℕ → ℕ
double x = x * 2

abbrev draw : ℕ → Bool
draw n = ltb n 3

shuffle-items_example :
    (ys : List ℕ) × (shuffle 2 (λ n. n % 2) (λ xs. xs) numbers ≡ some ys)
    × ((p : ℕ → Bool) → count p ys ≡ count p numbers)
shuffle-items_example =
    shuffle-items 2 (λ n. n % 2) (λ n. omega arith) (λ xs. xs) (λ ys p. refl) numbers

-- A text column and a list of labels.
abbrev text_and_labels : List (Column ℕ)
text_and_labels = column (λ x. true) ∷ list_column ∷ []

abbrev long_row : Cells ℕ
long_row = cons (scalar 1) (cons (scalar 2) (cons (scalar 3) nil))

long_row_formatted :
    convert text_and_labels long_row
    ≡ some (cons (scalar 1) (cons (listed (cons (scalar 2) (cons (scalar 3) nil))) nil))
unfolding convert
long_row_formatted = refl

abbrev small : ℕ → Bool
small x = ltb x 5

validate-validate_example :
    ((validate small 0 (1 ∷ 9 ∷ [])).0.yielded ≡ before_invalid small (1 ∷ 9 ∷ []))
    × ((validate small 0 (1 ∷ 9 ∷ [])).0.failed ≡ first_invalid small (1 ∷ 9 ∷ []))
    × ((validate small (validate small 0 (1 ∷ 9 ∷ [])).1 (1 ∷ 9 ∷ [])).0.yielded
        ≡ before_invalid small (1 ∷ 9 ∷ []))
    × ((validate small (validate small 0 (1 ∷ 9 ∷ [])).1 (1 ∷ 9 ∷ [])).0.failed
        ≡ Option.map (λ i. looked_at small (1 ∷ 9 ∷ []) + i) (first_invalid small (1 ∷ 9 ∷ [])))
validate-validate_example = validate-validate small (1 ∷ 9 ∷ [])

second_number : (validate small 2 (1 ∷ 9 ∷ [])).0.failed ≡ some 3
unfolding validate
second_number = refl
