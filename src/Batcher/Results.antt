-- ===== src/Batcher/Results.antt =====
-- The results that batcher.py hands to the requests of one batch.
use caikit.Common.{
  ℕ, zero, suc, ◌≡◌, refl, ◌∙◌, String, Bool, true, false, ◌||◌, none, some, List, [], ◌∷◌,
  distinct, contains, length, get_elem?, is_empty, if◌then◌else◌, nat_eq, string_eq, arith,
}
use caikit.Common.Dict
use caikit.Common.Dict.{Dict}
use caikit.Batcher.Collate.{Request, collate}
use caikit.Batcher.Columns.{mentioned, column, all_distinct}
use caikit.Batcher.Answers.{ids, stored, woken, finish-told}
use caikit.Batcher.Ready.{survivors, invalid, start, reject_all-IsReady}
use caikit.Batcher.Deliver.{
  TaskResult, value, batch_error, BatchOutcome, returned, raised, Board, Pending, post, reject_all,
  post_results, post_error, finish, sort_desc, process_batch,
}

module _ {ℓ} {V : Type ℓ} where
  contains_of_get_elem? :
      (rs : List (Request V)) (p : ℕ) (r : Request V)
      → get_elem? rs p ≡ some r
      → contains r.req_id (ids rs) ≡ true
  contains_of_get_elem? [] p r h = cc
  contains_of_get_elem? (q ∷ rs) zero r h = ground arith
  contains_of_get_elem? (q ∷ rs) (suc p) r h = ground (arith, contains_of_get_elem? rs p r h)

module _ {ℓ} {V R E : Type ℓ} where
  get-post_results_other :
      (rs : List (Request V)) (xs : List R) (b : Board R E) (n : ℕ)
      → contains n (ids rs) ≡ false
      → Dict.get (post_results rs xs b).finished n ≡ Dict.get b.finished n
  unfolding post_results
  get-post_results_other [] xs b n h = refl
  get-post_results_other (r ∷ rs) [] b n h = refl
  get-post_results_other (r ∷ rs) (x ∷ xs) b n h = ground (
    arith,
    get-post_results_other rs xs (post r.req_id (value x) b) n,
    Dict.get-put b.finished r.req_id (value x) n,
  )

  get-post_results :
      (rs : List (Request V)) (xs : List R) (b : Board R E) (p : ℕ) (r : Request V) (x : R)
      → distinct (ids rs) ≡ true
      → get_elem? rs p ≡ some r
      → get_elem? xs p ≡ some x
      → Dict.get (post_results rs xs b).finished r.req_id ≡ some (value x)
  unfolding post_results
  get-post_results [] xs b p r x d h k = cc
  get-post_results (q ∷ rs) [] b p r x d h k = cc
  get-post_results (q ∷ rs) (y ∷ xs) b zero r x d h k = ground (
    arith,
    get-post_results_other rs xs (post q.req_id (value y) b) q.req_id,
    Dict.get-put b.finished q.req_id (value y) q.req_id,
  )
  get-post_results (q ∷ rs) (y ∷ xs) b (suc p) r x d h k =
      get-post_results rs xs (post q.req_id (value y) b) p r x (ground arith) h k

  get-post_error :
      (rs : List (Request V)) (err : TaskResult R E) (b : Board R E) (n : ℕ)
      → Dict.get (post_error rs err b).finished n
        ≡ (if contains n (ids rs) then some err else Dict.get b.finished n)
  unfolding post_error
  get-post_error [] err b n = refl
  get-post_error (r ∷ rs) err b n =
      ground (
        arith,
        get-post_error rs err (post r.req_id err b) n,
        Dict.get-put b.finished r.req_id err n,
      )

  -- If the requests that are not rejected have distinct ids and `run_batch` returns one result for
  -- each, every one of them is given the result at its own position; if `run_batch` raises, every
  -- one is given the exception.
  pub finish-values :
      (batch : List (Request V)) (told : Board R E) (p : ℕ) (r : Request V) (xs : List R) (x : R)
      (err : E)
      → distinct (ids batch) ≡ true
      → get_elem? batch p ≡ some r
      → length xs ≡ length batch
      → get_elem? xs p ≡ some x
      → (Dict.get (finish (returned xs) batch told).finished r.req_id ≡ some (value x))
        × (Dict.get (finish (raised err) batch told).finished r.req_id ≡ some (batch_error err))
  unfolding finish
  finish-values batch told p r xs x err u h len k = (
    ground (arith, len, get-post_results batch xs told p r x u h k),
    ground (
      arith,
      get-post_error batch (batch_error err) told r.req_id,
      contains_of_get_elem? batch p r h,
    ),
  )

module _ {ℓ} {V R E : Type ℓ} (py_none : V) (defaults : Dict String V)
    (run_batch : Dict String (List V) → BatchOutcome R E) (rs : List (Request V)) (b : Board R E)
    (d : all_distinct rs ≡ true) where
  ready-eq :
      (q : Pending V R E)
      → reject_all (sort_desc (invalid py_none defaults rs b d)) (start py_none defaults rs b d)
        ≡ some q
      → process_batch py_none defaults run_batch rs b
        ≡ some (
            if is_empty q.current_batch
            then q.board
            else finish (run_batch q.batch_kwargs) q.current_batch q.board)
  unfolding process_batch
  ready-eq q e = ground (arith, e)

  -- If the arguments of each request have distinct names, a batch is always processed to its end.
  -- Afterwards exactly the requests of the batch have, beside those that had one before, a result
  -- and a set event: none is lost, whatever `run_batch` does.
  pub process_batch-told :
      (b' : Board R E) × (process_batch py_none defaults run_batch rs b ≡ some b')
      × ((n : ℕ) → stored b' n ≡ (stored b n || contains n (ids rs)))
      × ((n : ℕ) → woken b' n ≡ (woken b n || contains n (ids rs)))
  process_batch-told =
      let (q, e, ready) = reject_all-IsReady py_none defaults rs b d in
      (
        (if is_empty q.current_batch
            then q.board
            else finish (run_batch q.batch_kwargs) q.current_batch q.board),
        ready-eq q e,
        (λ n.
            ended q.current_batch q.board (run_batch q.batch_kwargs) n
              (stored b n || contains n (ids rs)) (ready.told n)),
        (λ n.
            ended' q.current_batch q.board (run_batch q.batch_kwargs) n
              (woken b n || contains n (ids rs)) (ready.heard n)),
      )
    where
      ended :
          (batch : List (Request V)) (board : Board R E) (o : BatchOutcome R E) (n : ℕ)
          (before : Bool)
          → (stored board n || contains n (ids batch)) ≡ before
          → stored (if is_empty batch then board else finish o batch board) n ≡ before
      ended [] board o n before h = ground (arith, h)
      ended (r ∷ batch) board o n before h = (finish-told o (r ∷ batch) board n).0 ∙ h

      ended' :
          (batch : List (Request V)) (board : Board R E) (o : BatchOutcome R E) (n : ℕ)
          (before : Bool)
          → (woken board n || contains n (ids batch)) ≡ before
          → woken (if is_empty batch then board else finish o batch board) n ≡ before
      ended' [] board o n before h = ground (arith, h)
      ended' (r ∷ batch) board o n before h = (finish-told o (r ∷ batch) board n).1 ∙ h

  -- If the arguments of each request have distinct names, `run_batch` is called once with the
  -- requests that are not rejected, in order, and only if there are any: the list of an argument
  -- that any request of the batch has holds exactly their values, and the other arguments have no
  -- list.
  pub process_batch-call :
      (args : Dict String (List V)) × (told : Board R E) × (process_batch py_none defaults run_batch
          rs b
        ≡ some (
            if is_empty (survivors (collate py_none defaults rs).invalid_reqs rs)
            then told
            else finish
                (run_batch args)
                (survivors (collate py_none defaults rs).invalid_reqs rs)
                told))
      × ((k : String)
          → Dict.get args k ≡ (
              if mentioned k rs
              then some (
                  column py_none defaults k
                    (survivors (collate py_none defaults rs).invalid_reqs rs))
              else none))
  process_batch-call =
      let (q, e, ready) = reject_all-IsReady py_none defaults rs b d in
      (q.batch_kwargs, q.board, rw (← ready.batch) (ready-eq q e), ready.rows)
