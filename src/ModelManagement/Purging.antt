-- ===== src/ModelManagement/Purging.antt =====
-- Which background jobs local_job_base.py forgets.
use caikit.Common.{
  ℕ, ◌-◌, leb, ◌≡◌, refl, String, Bool, true, false, not, ◌&&◌, ◌||◌, Option, none, some, [], ◌∷◌,
  if◌then◌else◌, string_eq, ◌==◌, nat_eq, contains, distinct, arith, Bool-cases, Option-cases, inl,
  inr,
}
use caikit.Common.Dict
use caikit.Common.Dict.{Dict, keys}
use caikit.ModelManagement.LocalJobs.{
  LocalJobFuture, LocalJobs, expired, purged_ids, delete_result, purge_each, purge_old_futures,
  get_local_future,
}

-- Whether a time, if there is one, is no more than the duration ago.
abbrev pub is_recent : ℕ → ℕ → Option ℕ → Bool
is_recent retention now none = true
is_recent retention now (some t) = leb (now - t) retention

-- What is left of a future: nothing, if it has a completion time that is longer ago than the duration.
abbrev pub retained : Option ℕ → ℕ → Option LocalJobFuture → Option LocalJobFuture
retained none now o = o
retained (some retention) now none = none
retained (some retention) now (some f) =
    if is_recent retention now f.completion_time then some f else none

expired_lem :
    (retention now : ℕ) (f : LocalJobFuture)
    → expired retention now f ≡ not (is_recent retention now f.completion_time)
unfolding expired
expired_lem retention now f = elim (Option-cases f.completion_time) [
  | inl e ↦ ground (arith, e)
  | inr (t, e) ↦ ground (arith, e)
]

-- The future leaves a result at the path.
abbrev pub leaves : (String → Bool) → String → LocalJobFuture → Bool
leaves exists p f = elim f.save_path [
  | none ↦ false
  | some q ↦ not (q == "") && exists q && (q == p)
]

-- The results of the futures that are expired.
abbrev pub is_purged : (String → Bool) → ℕ → ℕ → String → Dict String LocalJobFuture → Bool
is_purged exists retention now p [] = false
is_purged exists retention now p ((fid, f) ∷ futures) =
    (expired retention now f && leaves exists p f) || is_purged exists retention now p futures

has-purged_ids :
    (retention now : ℕ) (futures : Dict String LocalJobFuture) (k : String)
    → Dict.has futures k ≡ false
    → Dict.has (purged_ids retention now futures) k ≡ false
unfolding purged_ids Dict.has
has-purged_ids retention now [] k h = refl
has-purged_ids retention now ((fid, f) ∷ futures) k h =
    ground (arith, has-purged_ids retention now futures k)

unfoldable is_expired_at : ℕ → ℕ → Option LocalJobFuture → Bool
is_expired_at retention now none = false
is_expired_at retention now (some f) = expired retention now f

has-purged_ids-get :
    (retention now : ℕ) (futures : Dict String LocalJobFuture) (k : String)
    → distinct (keys futures) ≡ true
    → Dict.has (purged_ids retention now futures) k
      ≡ is_expired_at retention now (Dict.get futures k)
unfolding purged_ids Dict.has Dict.get is_expired_at
has-purged_ids-get retention now [] k h = refl
has-purged_ids-get retention now ((fid, f) ∷ futures) k h = ground (
  arith,
  has-purged_ids-get retention now futures k,
  has-purged_ids retention now futures k,
  string_eq.beq_iff fid k,
  Dict.contains-keys futures fid,
)

module _ (exists : String → Bool) where
  get-purge_each :
      (ids : Dict String LocalJobFuture) (j : LocalJobs) (k : String)
      → Dict.get (purge_each exists ids j).futures k
        ≡ (if Dict.has ids k then none else Dict.get j.futures k)
  unfolding purge_each Dict.has
  get-purge_each [] j k = refl
  get-purge_each ((fid, f) ∷ ids) j k = ground (
    arith,
    get-purge_each ids
        (record j {
          futures = Dict.remove j.futures fid;
          deleted = delete_result exists f j.deleted;
        })
        k,
    Dict.get-remove j.futures fid k,
  )

  deleted-purge_each :
      (retention now : ℕ) (futures : Dict String LocalJobFuture) (j : LocalJobs) (p : String)
      → contains p (purge_each exists (purged_ids retention now futures) j).deleted
        ≡ (is_purged exists retention now p futures || contains p j.deleted)
  unfolding purge_each purged_ids delete_result
  deleted-purge_each retention now [] j p = refl
  deleted-purge_each retention now ((fid, f) ∷ futures) j p =
      elim (Bool-cases (expired retention now f)) [
        | inl e ↦ ground (
          arith,
          e,
          deleted-purge_each retention now futures
              (record j {
                futures = Dict.remove j.futures fid;
                deleted = delete_result exists f j.deleted;
              })
              p,
        )
        | inr e ↦ ground (arith, e, deleted-purge_each retention now futures j p)
      ]

  pub get-purge_old_futures :
      (now : ℕ) (j : LocalJobs) (k : String)
      → distinct (keys j.futures) ≡ true
      → Dict.get (purge_old_futures exists now j).futures k
        ≡ retained j.retention_duration now (Dict.get j.futures k)
  unfolding purge_old_futures is_expired_at
  get-purge_old_futures now j k d = elim (Option-cases j.retention_duration) [
    | inl r ↦ ground (arith, r)
    | inr (retention, r) ↦ elim (Option-cases (Dict.get j.futures k)) [
      | inl e ↦ ground (
        arith,
        r,
        e,
        get-purge_each (purged_ids retention now j.futures) j k,
        has-purged_ids-get retention now j.futures k d,
      )
      | inr (f, e) ↦ ground (
        arith,
        r,
        e,
        get-purge_each (purged_ids retention now j.futures) j k,
        has-purged_ids-get retention now j.futures k d,
        expired_lem retention now f,
      )
    ]
  ]

  -- If the ids of the jobs are distinct, looking one up first forgets the jobs that have a recorded
  -- completion time which is longer ago than the retention duration, and no other: a known job is found
  -- exactly if it is not one of these. A job without a recorded completion time is never forgotten,
  -- whether or not it has ended, and without a retention duration nothing is.
  pub get_local_future-retained :
      (now : ℕ) (job_id k : String) (j : LocalJobs)
      → distinct (keys j.futures) ≡ true
      → ((get_local_future exists now job_id j).0
          ≡ retained j.retention_duration now (Dict.get j.futures job_id))
        × (Dict.get (get_local_future exists now job_id j).1.futures k
            ≡ retained j.retention_duration now (Dict.get j.futures k))
  unfolding get_local_future
  get_local_future-retained now job_id k j d =
      (get-purge_old_futures now j job_id d, get-purge_old_futures now j k d)

  -- With a retention duration, a purge deletes exactly the paths that exist and that an expired job
  -- has as its save path.
  pub purge_old_futures-deleted :
      (now retention : ℕ) (p : String) (j : LocalJobs)
      → j.retention_duration ≡ some retention
      → contains p (purge_old_futures exists now j).deleted
        ≡ (is_purged exists retention now p j.futures || contains p j.deleted)
  unfolding purge_old_futures
  purge_old_futures-deleted now retention p j r =
      ground (arith, r, deleted-purge_each retention now j.futures j p)
