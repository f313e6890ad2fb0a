-- ===== src/Streams/Columns.antt =====
-- caikit/core/data_model/streams/csv_column_formatter.py, `CSVColumnFormatter`, and validator.py,
-- `DataStreamValidator`, on rows.
use caikit.Common.{
  ℕ, ◌+◌, Bool, true, false, ◌&&◌, Option, none, some, ◌>>=◌, List, [], ◌∷◌, length, ltb, ◌==◌,
  nat_eq, String, string_eq, if◌then◌else◌,
}
use caikit.Common.Dict.{Dict, get}

-- An element of a row: one of the types that are put into a list (`bool`, `float`, `int`, `str`), a
-- list, or another object.
mutual
  pub data Cell (S : Type 0) : Type 0 where
    scalar : S → Cell S
    listed : Cells S → Cell S
    other : S → Cell S

  pub data Cells (S : Type 0) : Type 0 where
    nil : Cells S
    cons : Cell S → Cells S → Cells S

-- The expected type of a column: `list`, or a type with its instances.
pub data Column (S : Type 0) : Type 0 where
  list_column : Column S
  column : (S → Bool) → Column S

module _ {S : Type 0} where
  abbrev pub is_list : Column S → Bool
  is_list list_column = true
  is_list (column p) = false

  -- `len(row)`
  abbrev pub width : Cells S → ℕ
  width nil = 0
  width (cons x xs) = width xs + 1

  unfoldable pub join_cells : Cells S → Cells S → Cells S
  join_cells nil b = b
  join_cells (cons x a) b = cons x (join_cells a b)

  -- `_attempt_to_listify`
  unfoldable pub listify : Cell S → Cell S
  listify (scalar x) = listed (cons (scalar x) nil)
  listify (listed l) = listed l
  listify (other x) = other x

  -- The loop over the columns of a row.
  unfoldable pub listify_columns : List (Column S) → Cells S → Cells S
  unfolding listify
  listify_columns [] row = row
  listify_columns (c ∷ cs) nil = nil
  listify_columns (c ∷ cs) (cons x row) =
      cons (if is_list c then listify x else x) (listify_columns cs row)

  -- The type of the last column.
  abbrev pub last_is_list : List (Column S) → Bool
  last_is_list [] = false
  last_is_list (c ∷ []) = is_list c
  last_is_list (c ∷ d ∷ cs) = last_is_list (d ∷ cs)

  -- `data.extend(rest)`; `none` is the `AttributeError` of what is no list.
  unfoldable pub extend : Cell S → Cells S → Option (Cell S)
  unfolding join_cells
  extend (listed l) rest = some (listed (join_cells l rest))
  extend (scalar x) rest = none
  extend (other x) rest = none

  -- The rest of the row goes into the last column.
  unfoldable pub slurp : List (Column S) → Cells S → Option (Cells S)
  unfolding extend
  slurp (c ∷ []) (cons x rest) = do l ← extend x rest; some (cons l nil)
  slurp (c ∷ d ∷ cs) (cons x row) = do tail ← slurp (d ∷ cs) row; some (cons x tail)
  slurp _ row = some row

  -- `_convert` on a row, where some column is a list; `none` is an exception.
  unfoldable pub convert : List (Column S) → Cells S → Option (Cells S)
  unfolding listify_columns slurp
  convert cs row =
      let out = listify_columns cs row in
      if ltb (length cs) (width row) && last_is_list cs then slurp cs out else some out

  -- `isinstance(element, type_)`
  unfoldable pub has_type : Column S → Cell S → Bool
  has_type list_column (listed l) = true
  has_type list_column (scalar x) = false
  has_type list_column (other x) = false
  has_type (column p) (listed l) = false
  has_type (column p) (scalar x) = p x
  has_type (column p) (other x) = p x

  unfoldable pub types_match : List (Column S) → Cells S → Bool
  unfolding has_type
  types_match (c ∷ cs) (cons x row) = has_type c x && types_match cs row
  types_match _ row = true

  -- `_validate_data` on a list: whether it raises no `DataValidationError`.
  unfoldable pub is_valid_row : List (Column S) → Cells S → Bool
  unfolding types_match
  is_valid_row cs row = (length cs == width row) && types_match cs row

module _ {S : Type 0} where
  abbrev has_key_of_type : Column S → Option (Cell S) → Bool
  has_key_of_type c none = false
  has_key_of_type c (some x) = has_type c x

  -- `_validate_data` on a dictionary.
  unfoldable pub is_valid_dict : Dict String (Column S) → Dict String (Cell S) → Bool
  unfolding has_type
  is_valid_dict [] item = true
  is_valid_dict ((key, c) ∷ expected) item =
      has_key_of_type c (get item key) && is_valid_dict expected item

-- One iteration over a validated stream: the items that it yields, and the number of the item that
-- the `DataValidationError` names, if one is raised.
pub record Pass (D : Type 0) : Type 0 where
  pub yielded : List D
  pub failed : Option ℕ

module _ {D : Type 0} (is_valid : D → Bool) where
  -- `validate` on the items of one iteration, from the number of the next item, which the closure
  -- keeps and which is 0 at first; also the number after it.
  unfoldable pub validate : ℕ → List D → Pass D × ℕ
  validate next [] = (record { yielded = []; failed = none }, next)
  validate next (x ∷ items) =
      let (rest, after) = validate (next + 1) items in
      if is_valid x
      then (record rest { yielded = x ∷ rest.yielded }, after)
      else (record { yielded = []; failed = some next }, next + 1)
