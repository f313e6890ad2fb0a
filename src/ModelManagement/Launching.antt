-- ===== src/ModelManagement/Launching.antt =====
-- caikit/core/model_management/local_model_trainer.py and local_job_predictor.py: starting a background job.
-- The two start it in the same way, but for the id of a job that is given none.
use caikit.Common.{
  ℕ, ◌≡◌, refl, ap, ◌∙◌, String, Bool, true, false, not, Option, none, some, if◌then◌else◌,
  string_eq, ◌==◌, arith, nat_eq, text_eq, distinct,
}
use caikit.Common.Dict
use caikit.Common.Dict.{Dict, keys}
use caikit.ModelManagement.LocalJobs.{
  JobStatus, canceled, running, errored, completed, queued, LocalJobFuture, LocalJobs, status,
  purge_old_futures, get_local_future,
}
use caikit.ModelManagement.Purging.{retained, get-purge_old_futures, get_local_future-retained}

-- `JobStatus.is_terminal`
unfoldable pub is_terminal : JobStatus → Bool
is_terminal completed = true
is_terminal canceled = true
is_terminal errored = true
is_terminal running = false
is_terminal queued = false

-- The `ValueError`s of the two checks of the status.
pub data Launch : Type 0 where
  launched : String → Launch
  still_running : Launch
  id_collision : Launch

-- `started` is the job that was started, if one was.
pub record Launched : Type 0 where
  pub jobs : LocalJobs
  pub started : Option LocalJobFuture
  pub result : Launch

-- There is no current future, or its status is terminal.
unfoldable pub replaceable : Option LocalJobFuture → Bool
unfolding is_terminal
replaceable none = true
replaceable (some f) = is_terminal (status f.worker)

-- An external id that is not empty.
unfoldable pub given_id : Option String → Option String
given_id none = none
given_id (some id) = if id == "" then none else some id

unfoldable pub blocked : Option String → LocalJobs → Bool
unfolding replaceable
blocked none j = false
blocked (some id) j = not (replaceable (Dict.get j.futures id))

-- The part under the lock of the futures. The job of `new` was started when it was made.
unfoldable pub add_future : String → LocalJobFuture → LocalJobs → Launched
unfolding replaceable
add_future id new j =
    if replaceable (Dict.get j.futures id)
    then record {
      jobs = record j { futures = Dict.put j.futures id new };
      started = some new;
      result = launched id;
    }
    else record { jobs = j; started = some new; result = id_collision }

abbrev id_of : Option String → String → String
id_of none fresh_id = fresh_id
id_of (some id) fresh_id = id

-- The job was launched under the id.
abbrev pub is_launched : String → Launch → Bool
is_launched m (launched id) = id == m
is_launched m _ = false

-- The jobs at the lock: other threads come in between only if the first check let the job start.
abbrev pub left_by : Option LocalJobFuture → (LocalJobs → LocalJobs) → LocalJobs → LocalJobs
left_by none others j = j
left_by (some new) others j = others j

module _ (exists : String → Bool) where
  -- `train` and `predict`, at the time `now`. `fresh_id` is the id of a job that is given none, and
  -- `others` is what other threads do to the jobs between the first check and the lock.
  unfoldable pub launch :
      ℕ → Option String → String → LocalJobFuture → (LocalJobs → LocalJobs) → LocalJobs → Launched
  unfolding blocked add_future given_id
  launch now external_id fresh_id new others j =
      let purged = purge_old_futures exists now j in
      if blocked (given_id external_id) purged
      then record { jobs = purged; started = none; result = still_running }
      else add_future (id_of (given_id external_id) fresh_id) new (others purged)

  -- Starting a job keeps each entry that is left after the expired ones are purged and whose status
  -- is not terminal, if what other threads do between the first check and the lock keeps it. And it
  -- changes nothing else: any id but the one it is launched under has the entry that the purge and
  -- the other threads left it, or only the purge if no job is started.
  pub launch-protects :
      (now : ℕ) (external_id : Option String) (fresh_id k m : String) (new f : LocalJobFuture)
      (others : LocalJobs → LocalJobs) (j : LocalJobs)
      → ((i : LocalJobs) → Dict.get i.futures k ≡ some f → Dict.get (others i).futures k ≡ some f)
      → Dict.get (purge_old_futures exists now j).futures k ≡ some f
      → is_terminal (status f.worker) ≡ false
      → let after = launch now external_id fresh_id new others j in
        (Dict.get after.jobs.futures k ≡ some f)
        × (Dict.get after.jobs.futures m ≡ (
            if is_launched m after.result
            then some new
            else Dict.get
                (left_by after.started others (purge_old_futures exists now j)).futures
                m))
  unfolding launch add_future replaceable
  launch-protects now external_id fresh_id k m new f others j keep h t =
      let purged = purge_old_futures exists now j in
      let id = id_of (given_id external_id) fresh_id in
      (
        ground (
          arith,
          h,
          t,
          keep purged,
          Dict.get-put (others purged).futures id new k,
          string_eq.beq_iff id k,
        ),
        ground (arith, Dict.get-put (others purged).futures id new m),
      )

  -- If the ids of the jobs are distinct, a job that is given the id of one that is known and not
  -- forgotten, and whose status is not terminal, is not started; any other job with a given id is.
  pub launch-starts :
      (now : ℕ) (external_id : Option String) (fresh_id id : String) (new : LocalJobFuture)
      (others : LocalJobs → LocalJobs) (j : LocalJobs)
      → distinct (keys j.futures) ≡ true
      → given_id external_id ≡ some id
      → (launch now external_id fresh_id new others j).started ≡ (
          if replaceable (retained j.retention_duration now (Dict.get j.futures id))
          then some new
          else none)
  unfolding launch add_future blocked
  launch-starts now external_id fresh_id id new others j d g =
      ground (arith, g, get-purge_old_futures exists now j id d)

  retained-new :
      (retention : Option ℕ) (now : ℕ) (new : LocalJobFuture)
      → new.completion_time ≡ none
      → retained retention now (some new) ≡ some new
  retained-new none now new h = refl
  retained-new (some r) now new h = ground (arith, h)

  -- A job that was launched is found under its id whatever the time, if it has no recorded completion
  -- time.
  pub launch-found :
      (now later : ℕ) (external_id : Option String) (fresh_id id : String) (new : LocalJobFuture)
      (others : LocalJobs → LocalJobs) (j : LocalJobs)
      → distinct (keys (others (purge_old_futures exists now j)).futures) ≡ true
      → new.completion_time ≡ none
      → (launch now external_id fresh_id new others j).result ≡ launched id
      → (get_local_future exists later id (launch now external_id fresh_id new others j).jobs).0
        ≡ some new
  unfolding launch add_future
  launch-found now later external_id fresh_id id new others j d c h =
      let purged = purge_old_futures exists now j in
      let added = record (others purged) { futures = Dict.put (others purged).futures id new } in
      let same : (launch now external_id fresh_id new others j).jobs ≡ added = ground (arith, h) in
      let there : Dict.get added.futures id ≡ some new =
        ground (arith, Dict.get-put (others purged).futures id new id, string_eq.beq_iff id id) in
      ap (λ l. (get_local_future exists later id l).0) same
      ∙ (get_local_future-retained exists later id id added
          (Dict.distinct-put (others purged).futures id new d)).0
      ∙ ap (retained added.retention_duration later) there
      ∙ retained-new added.retention_duration later new c
