-- ===== src/Batcher/Lifecycle.antt =====
-- caikit/runtime/model_management/batcher.py: the request side (`run`), the batch thread and `stop`,
-- as steps on the shared state. A step is what runs between two points at which threads switch.
use caikit.Common.{
  ℕ, ◌+◌, String, Bool, true, false, Option, none, some, List, [], ◌∷◌, ◌++◌, length, is_empty,
  if◌then◌else◌, nat_eq, ◌==◌,
}
use caikit.Common.Dict
use caikit.Common.Dict.{Dict}
use caikit.Batcher.Collate.{Request}
use caikit.Batcher.Deliver.{TaskResult, interrupted, BatchOutcome, Board, post_error, process_batch}

-- `waiting` is the wait for `_ready_event` at the top of `_batch_thread_run`. A thread that has not
-- been started is not alive either.
pub data Thread : Type 0 where
  dead waiting working : Thread

pub record Machine {ℓ} (V R E : Type ℓ) : Type ℓ where
  pub input_q : List (Request V)
  pub current_batch : List (Request V)
  pub board : Board R E
  pub req_num : ℕ
  pub ready_event : Bool
  pub stop_event : Bool
  pub thread : Thread

module _ {ℓ} {V R E : Type ℓ} where
  unfoldable pub init : Machine V R E
  init = record {
    input_q = [];
    current_batch = [];
    board = record { finished = []; notified = [] };
    req_num = 0;
    ready_event = false;
    stop_event = false;
    thread = Thread.dead;
  }

  start_thread : Thread → Machine V R E → Machine V R E
  start_thread Thread.dead s = record s {
    current_batch = [];
    ready_event = false;
    thread = Thread.waiting;
  }
  start_thread _ s = s

  -- `none` is the `RuntimeError` that a stopped model cannot be restarted.
  unfoldable pub ensure_batch_thread : Machine V R E → Option (Machine V R E)
  unfolding start_thread
  ensure_batch_thread s = if s.stop_event then none else some (start_thread s.thread s)

  unfoldable pub next_req_id : Machine V R E → ℕ × Machine V R E
  next_req_id s = (s.req_num + 1, record s { req_num = s.req_num + 1 })

  -- `_input_q.put(...)` and `_ready_event.set()` of `run`.
  unfoldable pub enqueue : Request V → Machine V R E → Machine V R E
  enqueue r s = record s { input_q = s.input_q ++ r ∷ []; ready_event = true }

  -- The test before `event.wait()`: a stopped batcher answers the request itself.
  unfoldable pub begin_wait : ℕ → Machine V R E → Machine V R E
  begin_wait req_id s =
      if s.stop_event
      then record s {
        board = record s.board { finished = Dict.put s.board.finished req_id interrupted };
      }
      else s

  -- `_finished_tasks.pop(req_id)`
  unfoldable pub collect : ℕ → Machine V R E → Option (TaskResult R E) × Machine V R E
  collect req_id s = (
    Dict.get s.board.finished req_id,
    record s { board = record s.board { finished = Dict.remove s.board.finished req_id } },
  )

  -- The wait for `_ready_event` ends.
  unfoldable pub wake : Machine V R E → Machine V R E
  wake s = if s.ready_event then record s { current_batch = []; thread = Thread.working } else s

  -- The stop branch of the loop: every request of the batch is aborted.
  unfoldable pub abort_batch : Machine V R E → Machine V R E
  abort_batch s = record s {
    current_batch = [];
    board = post_error s.current_batch interrupted s.board;
    thread = Thread.dead;
  }

  module _ (py_none : V) (defaults : Dict String V)
      (run_batch : Dict String (List V) → BatchOutcome R E) (batch_size : ℕ) where
    -- A batch that raises outside of `run_batch` ends the thread.
    unfoldable pub send_batch : List (Request V) → Machine V R E → Machine V R E
    send_batch rs s = elim (process_batch py_none defaults run_batch rs s.board) [
      | none ↦ record s { current_batch = []; thread = Thread.dead }
      | some b ↦ record s { current_batch = []; board = b }
    ]

    unfoldable pub take_work : List (Request V) → Machine V R E → Machine V R E
    unfolding send_batch
    take_work [] s =
        if is_empty s.current_batch
        then record s { thread = Thread.dead }
        else send_batch s.current_batch s
    take_work (r ∷ rest) s =
        let batch = s.current_batch ++ r ∷ [] in
        if length batch == batch_size
        then send_batch batch (record s { input_q = rest })
        else record s { input_q = rest; current_batch = batch }

    -- One round of the thread's `while True`.
    unfoldable pub turn : Machine V R E → Machine V R E
    unfolding abort_batch take_work
    turn s = if s.stop_event then abort_batch s else take_work s.input_q s

    -- `stop` up to its `join`.
    unfoldable pub request_stop : Machine V R E → Machine V R E
    request_stop s = record s { stop_event = true; ready_event = true }

    -- A woken thread has a round; one that still waits does nothing.
    unfoldable pub run_woken : Thread → Machine V R E → Machine V R E
    unfolding turn
    run_woken Thread.working s = turn s
    run_woken _ s = s

    -- What the thread does while `stop` is in its `join`: a round with the stop event set is its last.
    unfoldable pub run_out : Thread → Machine V R E → Machine V R E
    unfolding wake run_woken
    run_out Thread.waiting s = run_woken ((wake s).thread) (wake s)
    run_out t s = run_woken t s

    -- The loop of `stop` that empties the input queue.
    unfoldable pub drain : Machine V R E → Machine V R E
    drain s = record s { input_q = []; board = post_error s.input_q interrupted s.board }

    -- `join` returns once the thread is dead. `stop` never comes past it beside a thread that waits.
    unfoldable pub join_and_drain : Thread → Machine V R E → Machine V R E
    unfolding drain
    join_and_drain Thread.dead s = drain s
    join_and_drain _ s = s

    stop_alive : Machine V R E → Machine V R E
    unfolding join_and_drain
    stop_alive s = join_and_drain s.thread s

    stop_thread : Thread → Machine V R E → Machine V R E
    unfolding request_stop run_out stop_alive
    stop_thread Thread.dead s = record s { stop_event = true }
    stop_thread t s = stop_alive (run_out t (request_stop s))

    -- `stop`, called from another thread than the batch thread, which would not join itself. The
    -- queue is emptied only if the thread was alive.
    unfoldable pub stop : Machine V R E → Machine V R E
    unfolding stop_thread
    stop s = stop_thread s.thread s
