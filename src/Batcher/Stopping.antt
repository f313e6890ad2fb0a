-- ===== src/Batcher/Stopping.antt =====
-- What becomes of queued requests in batcher.py: rounds of the thread, `stop`, and a late request.
use caikit.Common.{
  ℕ, ◌≡◌, refl, ap, String, Bool, true, false, ◌||◌, none, some, List, [], ◌∷◌, ◌++◌, contains,
  nat_eq, arith, ◌==◌, ◌⊎◌, inl, inr,
}
use caikit.Common.Dict.{Dict}
use caikit.Batcher.Collate.{Request}
use caikit.Batcher.Columns.{all_distinct}
use caikit.Batcher.Deliver.{interrupted, BatchOutcome, post_error}
use caikit.Batcher.Answers.{ids, stored, post_error-told}
use caikit.Batcher.Results.{process_batch-told}
use caikit.Batcher.Lifecycle.{
  dead, waiting, working, Machine, ensure_batch_thread, enqueue, begin_wait, send_batch, take_work,
  turn, stop,
}

module _ {ℓ} {V R E : Type ℓ} where
  -- The request is queued, in the batch, or has a result.
  abbrev pub accounted : Machine V R E → ℕ → Bool
  accounted s n = stored s.board n || contains n (ids s.current_batch) || contains n (ids s.input_q)

module _ {ℓ} {V : Type ℓ} where
  ids-append : (xs ys : List (Request V)) → ids (xs ++ ys) ≡ ids xs ++ ids ys
  ids-append [] ys = refl
  ids-append (x ∷ xs) ys = ap (◌∷◌ x.req_id) (ids-append xs ys)

  contains-concat :
      (xs : List (Request V)) (r : Request V) (n : ℕ)
      → contains n (ids (xs ++ r ∷ [])) ≡ (contains n (ids xs) || (r.req_id == n))
  contains-concat [] r n = ground arith
  contains-concat (x ∷ xs) r n = ground (arith, contains-concat xs r n)

  all_distinct-concat :
      (xs : List (Request V)) (r : Request V)
      → all_distinct xs ≡ true
      → all_distinct (r ∷ []) ≡ true
      → all_distinct (xs ++ r ∷ []) ≡ true
  all_distinct-concat [] r h k = k
  all_distinct-concat (x ∷ xs) r h k = ground (arith, all_distinct-concat xs r)

module _ {ℓ} {V R E : Type ℓ} (py_none : V) (defaults : Dict String V)
    (run_batch : Dict String (List V) → BatchOutcome R E) (batch_size : ℕ) where
  send_batch-accounted :
      (rs : List (Request V)) (s : Machine V R E) (n : ℕ)
      → all_distinct rs ≡ true
      → accounted (send_batch py_none defaults run_batch batch_size rs s) n
        ≡ (stored s.board n || contains n (ids rs) || contains n (ids s.input_q))
  unfolding send_batch
  send_batch-accounted rs s n d =
      let (b, e, told, heard) = process_batch-told py_none defaults run_batch rs s.board d in
      ground (arith, e, told n)

  take_work-accounted :
      (q : List (Request V)) (s : Machine V R E) (n : ℕ)
      → s.input_q ≡ q
      → all_distinct s.current_batch ≡ true
      → all_distinct q ≡ true
      → accounted (take_work py_none defaults run_batch batch_size q s) n ≡ accounted s n
  unfolding take_work
  take_work-accounted [] s n e d f = ground (arith, send_batch-accounted s.current_batch s n d)
  take_work-accounted (r ∷ rest) s n e d f = ground (
    arith,
    e,
    send_batch-accounted (s.current_batch ++ r ∷ []) (record s { input_q = rest }) n,
    all_distinct-concat s.current_batch r d,
    contains-concat s.current_batch r n,
  )

  -- If the arguments of each request have distinct names, a round of the batch thread loses no
  -- request and makes up none: a request is queued, in the batch or has a result afterwards exactly
  -- if it was before, also when the round aborts the batch because the stop event is set.
  pub turn-accounted :
      (s : Machine V R E) (n : ℕ)
      → all_distinct s.current_batch ≡ true
      → all_distinct s.input_q ≡ true
      → accounted (turn py_none defaults run_batch batch_size s) n ≡ accounted s n
  unfolding turn
  turn-accounted s n d f = ground (
    arith,
    take_work-accounted s.input_q s n refl d f,
    (post_error-told s.current_batch interrupted s.board n).0,
  )

  -- `stop` of a batcher whose thread works, or waits with an empty batch, ends the thread, empties
  -- the queue, and leaves a result for exactly the requests that were queued, in the batch or had
  -- one. The batcher does not start again.
  pub stop-drains :
      (s : Machine V R E)
      → (s.thread ≡ working) ⊎ ((s.thread ≡ waiting) × (s.current_batch ≡ []))
      → ((stop py_none defaults run_batch batch_size s).thread ≡ dead)
        × ((stop py_none defaults run_batch batch_size s).input_q ≡ [])
        × ((n : ℕ) → stored (stop py_none defaults run_batch batch_size s).board n ≡ accounted s n)
        × (ensure_batch_thread (stop py_none defaults run_batch batch_size s) ≡ none)
  unfolding stop post_error ensure_batch_thread
  stop-drains s (inl h) = (
    ground (arith, h),
    ground (arith, h),
    λ n. ground (
      arith,
      h,
      (post_error-told s.current_batch interrupted s.board n).0,
      (post_error-told s.input_q interrupted (post_error s.current_batch interrupted s.board) n).0,
    ),
    ground (arith, h),
  )
  stop-drains s (inr (h, e)) = (
    ground (arith, h),
    ground (arith, h),
    λ n. ground (arith, h, e, (post_error-told s.input_q interrupted s.board n).0),
    ground (arith, h),
  )

  -- A request that is queued after a round of the thread found neither queued requests nor a batch
  -- is stranded: `run` saw a live thread, the thread ends, and then `stop`, which empties the queue
  -- only beside a live thread, leaves the request in the queue and gives it no result.
  pub late-request-stranded :
      (s : Machine V R E) (r : Request V)
      → s.thread ≡ working
      → s.stop_event ≡ false
      → s.input_q ≡ []
      → s.current_batch ≡ []
      → stored s.board r.req_id ≡ false
      → let late = enqueue r (turn py_none defaults run_batch batch_size s) in
        (ensure_batch_thread s ≡ some s)
        × (late.thread ≡ dead)
        × (begin_wait r.req_id late ≡ late)
        × ((stop py_none defaults run_batch batch_size late).input_q ≡ r ∷ [])
        × (stored (stop py_none defaults run_batch batch_size late).board r.req_id ≡ false)
  unfolding turn ensure_batch_thread enqueue begin_wait stop
  late-request-stranded s r w n q c f = (
    ground (arith, w, n),
    ground (arith, n, q, c),
    ground (arith, n, q, c),
    ground (arith, n, q, c),
    ground (arith, n, q, c, f),
  )
