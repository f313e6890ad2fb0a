-- ===== src/Batcher/Deliver.antt =====
-- caikit/runtime/model_management/batcher.py: the rest of a batch in `_batch_thread_run`. Invalid
-- requests are taken out and told, the others are run, and each is given its result.
use caikit.Common.{
  ℕ, zero, suc, String, Option, none, some, List, [], ◌∷◌, length, get_elem?, is_empty, ltb,
  if◌then◌else◌, nat_eq, ◌==◌,
}
use caikit.Common.Dict
use caikit.Common.Dict.{Dict}
use caikit.Batcher.Collate.{Request, collate}

module _ {ℓ} {A : Type ℓ} where
  -- `xs[:i] + xs[i + 1 :]`
  unfoldable pub remove_at : List A → ℕ → List A
  remove_at [] i = []
  remove_at (x ∷ xs) zero = xs
  remove_at (x ∷ xs) (suc i) = x ∷ remove_at xs i

-- What a waiting `run` finds in `_finished_tasks`. `R` is the type of a result, `E` that of the
-- exceptions of `run_batch`.
pub data TaskResult {ℓ} (R E : Type ℓ) : Type ℓ where
  value : R → TaskResult R E
  missing_arguments : List String → TaskResult R E
  assertion_error : TaskResult R E
  batch_error : E → TaskResult R E
  interrupted : TaskResult R E

-- What `run_batch` does: it returns a list, or raises an `Exception`. What only a `BaseException` such
-- as `SystemExit` does is left out.
pub data BatchOutcome {ℓ} (R E : Type ℓ) : Type ℓ where
  returned : List R → BatchOutcome R E
  raised : E → BatchOutcome R E

-- `_finished_tasks`, and the requests whose events are set, latest first.
pub record Board {ℓ} (R E : Type ℓ) : Type ℓ where
  pub finished : Dict ℕ (TaskResult R E)
  pub notified : List ℕ

module _ {ℓ} {E : Type ℓ} where
  -- `sorted(items, reverse=True, key=lambda x: x[0])`
  unfoldable pub insert_desc : ℕ → E → List (ℕ × E) → List (ℕ × E)
  insert_desc i e [] = (i, e) ∷ []
  insert_desc i e ((j, f) ∷ items) =
      if ltb i j then (j, f) ∷ insert_desc i e items else (i, e) ∷ (j, f) ∷ items

  unfoldable pub sort_desc : List (ℕ × E) → List (ℕ × E)
  unfolding insert_desc
  sort_desc [] = []
  sort_desc ((i, e) ∷ items) = insert_desc i e (sort_desc items)

module _ {ℓ} {R E : Type ℓ} where
  -- `_finished_tasks[req_id] = res; event.set()`
  unfoldable pub post : ℕ → TaskResult R E → Board R E → Board R E
  post req_id res b = record {
    finished = Dict.put b.finished req_id res;
    notified = req_id ∷ b.notified;
  }

module _ {ℓ} {V : Type ℓ} where
  -- `for kwarg_name, kwarg_vals in ...: batch_kwargs[kwarg_name] = ...`
  unfoldable pub drop_row : Dict String (List V) → ℕ → Dict String (List V)
  drop_row [] i = []
  drop_row ((name, vals) ∷ batch) i = (name, remove_at vals i) ∷ drop_row batch i

-- The batch and its arguments, while invalid requests are taken out.
pub record Pending {ℓ} (V R E : Type ℓ) : Type ℓ where
  pub current_batch : List (Request V)
  pub batch_kwargs : Dict String (List V)
  pub board : Board R E

module _ {ℓ} {V R E : Type ℓ} where
  -- `current_batch[invalid_idx]` raises an `IndexError` out of range: `none`.
  unfoldable pub reject_one : ℕ → List String → Pending V R E → Option (Pending V R E)
  unfolding post drop_row remove_at
  reject_one idx err p = elim (get_elem? p.current_batch idx) [
    | none ↦ none
    | some r ↦ some (record {
      current_batch = remove_at p.current_batch idx;
      batch_kwargs = drop_row p.batch_kwargs idx;
      board = post r.req_id (missing_arguments err) p.board;
    })
  ]

  unfoldable pub reject_all : List (ℕ × List String) → Pending V R E → Option (Pending V R E)
  reject_all [] p = some p
  reject_all ((idx, err) ∷ rest) p = elim (reject_one idx err p) [
    | none ↦ none
    | some p' ↦ reject_all rest p'
  ]

  -- `for i, (req_id, event, _) in enumerate(current_batch): ... = batch_res[i]`
  unfoldable pub post_results : List (Request V) → List R → Board R E → Board R E
  unfolding post
  post_results (r ∷ rs) (x ∷ xs) b = post_results rs xs (post r.req_id (value x) b)
  post_results rs xs b = b

  unfoldable pub post_error : List (Request V) → TaskResult R E → Board R E → Board R E
  unfolding post
  post_error [] err b = b
  post_error (r ∷ rs) err b = post_error rs err (post r.req_id err b)

  -- `assert len(batch_res) == len(current_batch)` raises inside the `try`.
  unfoldable pub finish : BatchOutcome R E → List (Request V) → Board R E → Board R E
  unfolding post_results post_error
  finish (returned xs) rs b =
      if length xs == length rs then post_results rs xs b else post_error rs assertion_error b
  finish (raised e) rs b = post_error rs (batch_error e) b

  module _ (py_none : V) (defaults : Dict String V)
      (run_batch : Dict String (List V) → BatchOutcome R E) where
    -- One whole batch.
    unfoldable pub process_batch : List (Request V) → Board R E → Option (Board R E)
    unfolding reject_all finish sort_desc
    process_batch rs b =
        let c = collate py_none defaults rs in
        elim (reject_all (sort_desc c.invalid_reqs)
          (record { current_batch = rs; batch_kwargs = c.batch_kwargs; board = b })) [
            | none ↦ none
            | some p ↦ some (
                if is_empty p.current_batch
                then p.board
                else finish (run_batch p.batch_kwargs) p.current_batch p.board)
          ]
