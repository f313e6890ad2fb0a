-- ===== src/Streams/Defs.antt =====
-- caikit/core/data_model/streams/data_stream.py: the combinators of `DataStream`. A stream is a function
-- that makes an iterator afresh, so it is modelled by what one iteration yields: a list of items,
-- and the exception that ends it, if one does.
use caikit.Common.{
  ℕ, zero, suc, Bool, Option, none, some, List, [], ◌∷◌, ◌++◌, length, get_elem?, leb, ltb,
  if◌then◌else◌, nat_eq, ◌==◌, filter, map,
}

pub data Failure : Type 0 where
  value_error index_error type_error : Failure

pub record Iteration {ℓ} (T : Type ℓ) : Type ℓ where
  pub items : List T
  pub failure : Option Failure

module _ {ℓ} {T : Type ℓ} where
  -- An iteration that ends normally.
  abbrev pub yields : List T → Iteration T
  yields xs = record { items = xs; failure = none }

  -- `yield x` before the rest of a generator.
  abbrev pub yield_then : T → Iteration T → Iteration T
  yield_then x it = record it { items = x ∷ it.items }

  -- A generator that goes on with `rest` when an inner iteration has ended.
  unfoldable pub then_yield : Iteration T → Iteration T → Iteration T
  then_yield a b = elim a.failure [ none ↦ record b { items = a.items ++ b.items } | some e ↦ a ]

  -- `from_iterable`, and `eager`, which iterates when it is called.
  unfoldable pub from_iterable : List T → Iteration T
  from_iterable xs = yields xs

  -- `chain` and `__add__`
  unfoldable pub chain : List (Iteration T) → Iteration T
  chain [] = yields []
  chain (s ∷ ss) = then_yield s (chain ss)

  -- `filter`
  unfoldable pub filter_stream : (T → Bool) → Iteration T → Iteration T
  filter_stream f s = record { items = filter f s.items; failure = s.failure }

  -- `peek`; `none` is the `IndexError`. A failure before the first item goes through.
  unfoldable pub peek : Iteration T → Option T
  peek s = get_elem? s.items 0

  -- `_length`
  unfoldable pub stream_length : Iteration T → ℕ
  stream_length s = length s.items

module _ {ℓ κ} {T : Type ℓ} {U : Type κ} where
  -- `map`, of a function that does not raise.
  unfoldable pub map_stream : (T → U) → Iteration T → Iteration U
  map_stream f s = record { items = map f s.items; failure = s.failure }

module _ {ℓ} {T : Type ℓ} where
  unfoldable pub flatten_items : List (Iteration T) → Option Failure → Iteration T
  flatten_items [] end = record { items = []; failure = end }
  flatten_items (s ∷ ss) end = then_yield s (flatten_items ss end)

  -- `flatten`
  unfoldable pub flatten : Iteration (Iteration T) → Iteration T
  unfolding flatten_items
  flatten s = flatten_items s.items s.failure

module _ {ℓ κ} {T : Type ℓ} {U : Type κ} where
  -- `zip` of two streams that do not fail: `zip_longest` with a sentinel, which raises when one
  -- stream ends before the other.
  unfoldable pub zip_items : List T → List U → Iteration (T × U)
  zip_items [] [] = yields []
  zip_items (x ∷ xs) (y ∷ ys) = yield_then (x, y) (zip_items xs ys)
  zip_items xs ys = record { items = []; failure = some value_error }

module _ {ℓ} {T : Type ℓ} where
  -- `train_test_split`: `draw n` is whether the `n`th number of the seeded generator is above
  -- `test_split`. Both generators start from the same seed.
  unfoldable pub train_items : (ℕ → Bool) → ℕ → List T → List T
  train_items draw n [] = []
  train_items draw n (x ∷ xs) =
      let rest = train_items draw (suc n) xs in if draw n then x ∷ rest else rest

  unfoldable pub test_items : (ℕ → Bool) → ℕ → List T → List T
  test_items draw n [] = []
  test_items draw n (x ∷ xs) =
      let rest = test_items draw (suc n) xs in if draw n then rest else x ∷ rest

  unfoldable pub train_test_split : (ℕ → Bool) → Iteration T → Iteration T × Iteration T
  unfolding train_items test_items
  train_test_split draw s = (
    record { items = train_items draw 0 s.items; failure = s.failure },
    record { items = test_items draw 0 s.items; failure = s.failure },
  )

  -- `buffer[idx] = e`
  unfoldable pub replace_at : List T → ℕ → T → List T
  replace_at [] i e = []
  replace_at (x ∷ xs) zero e = e ∷ xs
  replace_at (x ∷ xs) (suc i) e = x ∷ replace_at xs i e

  -- The loop of `shuffle`: the items that it yields, and the buffer that is left. `pick n` is the
  -- `n`th `random.randint(0, buffer_size - 1)`. A read out of range would be an `IndexError`.
  unfoldable pub shuffle_loop : ℕ → (ℕ → ℕ) → ℕ → List T → List T → Option (List T × List T)
  unfolding replace_at
  shuffle_loop buffer_size pick n buffer [] = some ([], buffer)
  shuffle_loop buffer_size pick n buffer (e ∷ es) =
      let filling = shuffle_loop buffer_size pick n (buffer ++ e ∷ []) es in
      let swapping = shuffle_loop buffer_size pick (suc n) (replace_at buffer (pick n) e) es in
      if ltb (length buffer) buffer_size then filling else elim (get_elem? buffer (pick n)) [
        | none ↦ none
        | some item ↦ elim swapping [ none ↦ none | some r ↦ some (item ∷ r.0, r.1) ]
      ]

  -- `shuffle` of a stream that does not fail. `shuffle_list` is `random.shuffle`. `none` is an
  -- exception: a buffer size of zero is refused.
  unfoldable pub shuffle : ℕ → (ℕ → ℕ) → (List T → List T) → List T → Option (List T)
  shuffle buffer_size pick shuffle_list xs =
      if buffer_size == 0
      then none
      else if leb (length xs) buffer_size
      then some (shuffle_list xs)
      else elim (shuffle_loop buffer_size pick 0 [] xs) [
        | none ↦ none
        | some r ↦ some (r.0 ++ shuffle_list r.1)
      ]
