-- ===== src/ModelManagement/LocalJobs.antt =====
-- caikit/core/model_management/local_job_base.py: background jobs and their retention. Times are numbers of
-- one clock, and a file system is the test for which paths exist.
use caikit.Common.{
  ℕ, ◌+◌, String, Bool, false, not, ◌&&◌, Option, none, some, List, [], ◌∷◌, if◌then◌else◌,
  string_eq, ◌==◌, ltb,
}
use caikit.Common.Dict
use caikit.Common.Dict.{Dict}

pub data JobStatus : Type 0 where
  canceled running errored completed queued : JobStatus

-- What `get_info` reads of the worker: a `DestroyableThread` or a `DestroyableProcess`.
pub record Worker : Type 0 where
  pub was_canceled : Bool
  pub is_alive : Bool
  pub threw : Bool
  pub ran : Bool

-- `LocalJobFuture`
pub record LocalJobFuture : Type 0 where
  pub worker : Worker
  pub save_path : Option String
  pub submission_time : ℕ
  pub completion_time : Option ℕ

-- `LocalJobBase`. `deleted` are the paths that were deleted, latest first.
pub record LocalJobs : Type 0 where
  pub retention_duration : Option ℕ
  pub futures : Dict String LocalJobFuture
  pub deleted : List String

-- The status that `get_info` reports.
unfoldable pub status : Worker → JobStatus
status w =
    if w.was_canceled
    then canceled
    else if w.is_alive
    then running
    else if w.threw
    then errored
    else if w.ran
    then completed
    else queued

-- `wait`, after the worker is joined at the time `now`. A time is never false.
unfoldable pub finish_wait : ℕ → LocalJobFuture → LocalJobFuture
finish_wait now f = elim f.completion_time [
  | none ↦ record f { completion_time = some now }
  | some t ↦ f
]

-- The condition for a future to be purged. It goes by the completion time that `wait` or the job's own
-- `run` has recorded in this process.
unfoldable pub expired : ℕ → ℕ → LocalJobFuture → Bool
expired retention now f = elim f.completion_time [ none ↦ false | some t ↦ ltb (t + retention) now ]

unfoldable pub purged_ids : ℕ → ℕ → Dict String LocalJobFuture → Dict String LocalJobFuture
unfolding expired
purged_ids retention now [] = []
purged_ids retention now ((fid, f) ∷ futures) =
    let rest = purged_ids retention now futures in
    if expired retention now f then (fid, f) ∷ rest else rest

module _ (exists : String → Bool) where
  -- `_delete_result`; an empty path counts as none.
  unfoldable pub delete_result : LocalJobFuture → List String → List String
  delete_result f deleted = elim f.save_path [
    | none ↦ deleted
    | some p ↦ if not (p == "") && exists p then p ∷ deleted else deleted
  ]

  unfoldable pub purge_each : Dict String LocalJobFuture → LocalJobs → LocalJobs
  unfolding delete_result
  purge_each [] j = j
  purge_each ((fid, f) ∷ ids) j =
      purge_each ids
        (record j { futures = Dict.remove j.futures fid; deleted = delete_result f j.deleted })

  -- `_purge_old_futures` at the time `now`
  unfoldable pub purge_old_futures : ℕ → LocalJobs → LocalJobs
  unfolding purge_each purged_ids
  purge_old_futures now j = elim j.retention_duration [
    | none ↦ j
    | some retention ↦ purge_each (purged_ids retention now j.futures) j
  ]

  -- `get_local_future`; `none` is the `CaikitCoreException` for an unknown id.
  unfoldable pub get_local_future : ℕ → String → LocalJobs → Option LocalJobFuture × LocalJobs
  get_local_future now job_id j =
      let purged = purge_old_futures now j in (Dict.get purged.futures job_id, purged)
