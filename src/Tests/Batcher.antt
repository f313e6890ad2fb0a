-- ===== src/Tests/Batcher.antt =====
-- Examples for batcher.py.
use mathlib.Core.Option.{get_or}
use caikit.Common.{
  ℕ, ◌≡◌, refl, inl, ◌↔◌, String, Bool, true, false, ◌||◌, none, some, List, [], ◌∷◌, contains,
  is_empty, if◌then◌else◌, string_eq, nat_eq, ◌==◌,
}
use caikit.Common.Dict
use caikit.Common.Dict.{Dict}
use caikit.Batcher.Collate.{Request, collate}
use caikit.Batcher.Columns.{mentioned, column, collate-columns}
use caikit.Batcher.Lacking.{IsInvalidAt}
use caikit.Batcher.Invalid.{collate-invalid}
use caikit.Batcher.Answers.{ids, stored, woken}
use caikit.Batcher.Ready.{survivors}
use caikit.Batcher.Deliver.{BatchOutcome, returned, Board, finish, process_batch}
use caikit.Batcher.Results.{process_batch-told, process_batch-call}
use caikit.Batcher.Lifecycle.{Machine, dead, working, ensure_batch_thread, turn, stop}
use caikit.Batcher.Stopping.{accounted, turn-accounted, stop-drains}
use caikit.Batcher.Defaults.{Parameter}

abbrev default_kwargs : Dict String ℕ
default_kwargs = ("temperature", 7) ∷ []

-- The last request lacks the text.
abbrev requests : List (Request ℕ)
requests =
    record { req_id = 1; kwargs = ("text", 10) ∷ [] }
    ∷ record { req_id = 2; kwargs = ("text", 20) ∷ ("temperature", 3) ∷ [] }
    ∷ record { req_id = 3; kwargs = [] }
    ∷ []

abbrev good_requests : List (Request ℕ)
good_requests =
    record { req_id = 1; kwargs = ("text", 10) ∷ [] }
    ∷ record { req_id = 2; kwargs = ("text", 20) ∷ ("temperature", 3) ∷ [] }
    ∷ []

-- A model that answers with the texts.
abbrev echo : Dict String (List ℕ) → BatchOutcome ℕ String
echo args = returned (get_or (Dict.get args "text") [])

abbrev empty_board : Board ℕ String
empty_board = record { finished = []; notified = [] }

abbrev late_request : Request ℕ
late_request = record { req_id = 9; kwargs = [] }

abbrev busy : Machine ℕ ℕ String
busy = record {
  input_q = good_requests;
  current_batch = [];
  board = empty_board;
  req_num = 2;
  ready_event = true;
  stop_event = false;
  thread = working;
}

abbrev idle : Machine ℕ ℕ String
idle = record busy { input_q = [] }

collate-columns_example :
    Dict.get (collate 0 default_kwargs requests).batch_kwargs "text"
    ≡ (if mentioned "text" requests then some (column 0 default_kwargs "text" requests) else none)
collate-columns_example = collate-columns 0 default_kwargs requests "text" refl

collate-invalid_example :
    (Dict.has (collate 0 default_kwargs requests).invalid_reqs 2 ≡ true)
    ↔ IsInvalidAt default_kwargs requests 2
collate-invalid_example = collate-invalid 0 default_kwargs requests 2 refl

process_batch-told_example :
    (b' : Board ℕ String) × (process_batch 0 default_kwargs echo requests empty_board ≡ some b')
    × ((n : ℕ) → stored b' n ≡ (stored empty_board n || contains n (ids requests)))
    × ((n : ℕ) → woken b' n ≡ (woken empty_board n || contains n (ids requests)))
process_batch-told_example = process_batch-told 0 default_kwargs echo requests empty_board refl

process_batch-call_example :
    (args : Dict String (List ℕ)) × (told : Board ℕ String) × (process_batch 0 default_kwargs echo
        requests empty_board
      ≡ some (
          if is_empty (survivors (collate 0 default_kwargs requests).invalid_reqs requests)
          then told
          else finish
              (echo args)
              (survivors (collate 0 default_kwargs requests).invalid_reqs requests)
              told))
    × ((k : String)
        → Dict.get args k ≡ (
            if mentioned k requests
            then some (
                column 0 default_kwargs k
                  (survivors (collate 0 default_kwargs requests).invalid_reqs requests))
            else none))
process_batch-call_example = process_batch-call 0 default_kwargs echo requests empty_board refl

turn-accounted_example : accounted (turn 0 default_kwargs echo 2 busy) 1 ≡ accounted busy 1
turn-accounted_example = turn-accounted 0 default_kwargs echo 2 busy 1 refl refl

stop-drains_example :
    ((stop 0 default_kwargs echo 2 busy).thread ≡ dead)
    × ((stop 0 default_kwargs echo 2 busy).input_q ≡ [])
    × ((n : ℕ) → stored (stop 0 default_kwargs echo 2 busy).board n ≡ accounted busy n)
    × (ensure_batch_thread (stop 0 default_kwargs echo 2 busy) ≡ none)
stop-drains_example = stop-drains 0 default_kwargs echo 2 busy (inl refl)

-- 0 stands for a value that counts as false, 99 for the class that marks no default.
abbrev parameters : List (Parameter ℕ)
parameters =
    record { name = "text"; default = none }
    ∷ record { name = "temperature"; default = some 7 }
    ∷ record { name = "seed"; default = some 0 }
    ∷ []

abbrev nonzero : ℕ → Bool
nonzero n = if n == 0 then false else true
