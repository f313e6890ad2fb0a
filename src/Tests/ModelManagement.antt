-- ===== src/Tests/ModelManagement.antt =====
-- Examples for local_job_base.py and multi_model_finder.py.
use caikit.Common.{
  List, ℕ, List, ◌≡◌, refl, String, Bool, true, false, none, some, [], ◌∷◌, if◌then◌else◌,
  string_eq, nat_eq, ◌==◌,
}
use caikit.Common.Dict
use caikit.ModelManagement.LocalJobs.{
  Worker, LocalJobFuture, LocalJobs, purge_old_futures, purged_ids, purge_each, expired, status,
  get_local_future,
}
use caikit.ModelManagement.Launching.{is_terminal, launch, is_launched, left_by, launch-protects}
use caikit.ModelManagement.Purging.{retained, get_local_future-retained}
use caikit.ModelManagement.Finders.{Attempt, found, unable, raised}

abbrev worker : Worker
worker = record { was_canceled = false; is_alive = false; threw = false; ran = true }

abbrev old_job : LocalJobFuture
old_job = record {
  worker = worker;
  save_path = some "/jobs/a";
  submission_time = 1;
  completion_time = some 5;
}

abbrev new_job : LocalJobFuture
new_job = record {
  worker = worker;
  save_path = some "/jobs/b";
  submission_time = 2;
  completion_time = some 90;
}

abbrev jobs : LocalJobs
jobs = record {
  retention_duration = some 20;
  futures = ("a", old_job) ∷ ("b", new_job) ∷ [];
  deleted = [];
}

abbrev everything : String → Bool
everything p = true

get_local_future-retained_example :
    ((get_local_future everything 100 "a" jobs).0
      ≡ retained (some 20) 100 (Dict.get jobs.futures "a"))
    × (Dict.get (get_local_future everything 100 "a" jobs).1.futures "b"
        ≡ retained (some 20) 100 (Dict.get jobs.futures "b"))
get_local_future-retained_example = get_local_future-retained everything 100 "a" "b" jobs refl

-- The finder 1 raises, 2 finds nothing, every other one finds its number.
abbrev attempt : ℕ → Attempt ℕ
attempt n = if n == 1 then raised else if n == 2 then unable else found n

abbrev configured : List String
configured = "local" ∷ "multi" ∷ []

abbrev priority : List String
priority = "local" ∷ []

abbrev running_worker : Worker
running_worker = record { was_canceled = false; is_alive = true; threw = false; ran = false }

abbrev running_job : LocalJobFuture
running_job = record {
  worker = running_worker;
  save_path = none;
  submission_time = 3;
  completion_time = none;
}

abbrev busy : LocalJobs
busy = record { retention_duration = some 20; futures = ("c", running_job) ∷ []; deleted = [] }

launch-protects_example :
    let after = launch everything 100 (some "d") "fresh" new_job (λ i. i) busy in
    (Dict.get after.jobs.futures "c" ≡ some running_job)
    × (Dict.get after.jobs.futures "d" ≡ (
        if is_launched "d" after.result
        then some new_job
        else Dict.get
            (left_by after.started (λ i. i) (purge_old_futures everything 100 busy)).futures
            "d"))
unfolding purge_old_futures purged_ids expired purge_each Dict.get is_terminal status
launch-protects_example =
    launch-protects everything 100 (some "d") "fresh" "c" "d" new_job running_job (λ i. i) busy
      (λ i h. h) refl refl
