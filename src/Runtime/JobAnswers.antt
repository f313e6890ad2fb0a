-- ===== src/Runtime/JobAnswers.antt =====
-- caikit/runtime/servicers: how the requests about background jobs end.
use caikit.Common.{◌≡◌, refl, ap, ◌∙◌, sym, Bool, true, false, Text, if◌then◌else◌, arith}
use caikit.ModelManagement.LocalJobs.{JobStatus, queued, running, completed, errored, canceled}
use caikit.Runtime.Statuses.{
  core_not_found, core_invalid_argument, core_connection_error, core_unauthorized, core_forbidden,
  core_unknown, core_fatal,
}
use caikit.Runtime.JobRpcs.{
  Attempt, returned, core_error, other_error, Rpc, reply, refused, crashed, JobInfo, StatusResponse,
  raise_from, Jobs, with_future, status_response, get_prediction_status, get_training_status,
  result_of, get_prediction_result, canceled_response, answer, after_cancel, cancel_training,
  cancel_prediction,
}

-- Whether the exception says that the job is not there.
abbrev pub is_not_found {ℓ} : {A : Type ℓ} → Attempt A → Bool
is_not_found (returned x) = false
is_not_found (core_error core_not_found) = true
is_not_found (core_error c) = false
is_not_found other_error = false

abbrev pub is_answer {ℓ} : {A : Type ℓ} → Rpc A → Bool
is_answer (reply x) = true
is_answer (refused c) = true
is_answer crashed = false

raise_from-answers {ℓ κ} :
    {A : Type ℓ} {B : Type κ} (f : A → Rpc B) (x : Attempt A)
    → ((a : A) → is_answer (f a) ≡ true)
    → is_answer (raise_from f x) ≡ true
unfolding raise_from
raise_from-answers f (returned a) h = h a
raise_from-answers f (core_error c) h = refl
raise_from-answers f other_error h = refl

raise_from-reply {ℓ κ} :
    {A : Type ℓ} {B : Type κ} (f : A → Rpc B) (x : Attempt A) (b : B)
    → raise_from f x ≡ reply b
    → (a : A) × (x ≡ returned a) × (f a ≡ reply b)
unfolding raise_from
raise_from-reply f (returned a) b h = (a, refl, h)
raise_from-reply f (core_error c) b h = absurd (ground arith)
raise_from-reply f other_error b h = absurd (ground arith)

module _ {ℓ} {Future Result Error Time W : Type ℓ} (jobs : Jobs Future Result Error Time W) where
  with_future-reply {κ} :
      {B : Type κ} (f : Future → W → Rpc B × W) (x : Attempt Future × W) (b : B) (w : W)
      → with_future jobs f x ≡ (reply b, w)
      → (future : Future) × (x.0 ≡ returned future) × (f future x.1 ≡ (reply b, w))
  unfolding with_future
  with_future-reply f (returned future, w') b w h = (future, refl, h)
  with_future-reply f (core_error c, w') b w h = absurd (ground arith)
  with_future-reply f (other_error, w') b w h = absurd (ground arith)

  result_of-reply :
      (future : Future) (w : W) (status : JobStatus) (r : Result)
      → result_of jobs future w status ≡ reply r
      → (status ≡ completed) × (jobs.result future w ≡ returned r)
  unfolding result_of
  result_of-reply future w completed r h =
      let (x, e, f) = raise_from-reply reply (jobs.result future w) r h in
      (refl, ground (arith, e, f))
  result_of-reply future w running r h = absurd (ground arith)
  result_of-reply future w canceled r h = absurd (ground arith)
  result_of-reply future w errored r h = absurd (ground arith)
  result_of-reply future w queued r h = absurd (ground arith)

  -- When the result of a job is given, then the job is found by its id, its status is `COMPLETED`,
  -- and the future has the result: for no other status one is given.
  pub get_prediction_result-reply :
      (id : Text) (w w' : W) (r : Result)
      → get_prediction_result jobs id w ≡ (reply r, w')
      → (future : Future) × (info : JobInfo Error Time) × (jobs.get_future id w
          ≡ (returned future, w'))
        × (jobs.get_info future w' ≡ returned info)
        × (info.status ≡ completed)
        × (jobs.result future w' ≡ returned r)
  unfolding get_prediction_result
  get_prediction_result-reply id w w' r h =
      let (future, e, k) = with_future-reply _ (jobs.get_future id w) r w' h in
      let v = (jobs.get_future id w).1 in
      let same = ap (λ x. x.1) k in
      let (info, i, g) =
        raise_from-reply (λ info. result_of jobs future v info.status) (jobs.get_info future v) r
          (ap (λ x. x.0) k) in
      let (c, q) = result_of-reply future v info.status r g in
      (
        future,
        info,
        ap (λ o. (o, v)) e ∙ ap (λ x. (returned future, x)) same,
        ap (jobs.get_info future) (sym same) ∙ i,
        c,
        ap (jobs.result future) (sym same) ∙ q,
      )

  -- Whether the job of a future turns out to be gone when it is canceled.
  abbrev pub gone_in : Future → Attempt (Unit {0}) × W → Bool
  gone_in future (returned u, w) = is_not_found (jobs.get_info future w)
  gone_in future (core_error c, w) = is_not_found {A = Future} (core_error c)
  gone_in future (other_error, w) = false

  answer-not_found :
      (future : Future) (gone gone' : Rpc (StatusResponse Time)) (x : Attempt (JobInfo Error Time))
      → answer jobs future gone x ≡ (if is_not_found x then gone else answer jobs future gone' x)
  unfolding answer
  answer-not_found future gone gone' (returned x) = refl
  answer-not_found future gone gone' (core_error core_not_found) = refl
  answer-not_found future gone gone' (core_error core_invalid_argument) = refl
  answer-not_found future gone gone' (core_error core_connection_error) = refl
  answer-not_found future gone gone' (core_error core_unauthorized) = refl
  answer-not_found future gone gone' (core_error core_forbidden) = refl
  answer-not_found future gone gone' (core_error core_unknown) = refl
  answer-not_found future gone gone' (core_error core_fatal) = refl
  answer-not_found future gone gone' other_error = refl

  after_cancel-not_found :
      (future : Future) (gone gone' : Rpc (StatusResponse Time)) (x : Attempt (Unit {0}) × W)
      → after_cancel jobs future gone x
        ≡ (if gone_in future x then (gone, x.1) else after_cancel jobs future gone' x)
  unfolding after_cancel
  after_cancel-not_found future gone gone' (returned u, w) =
      ground (arith, answer-not_found future gone gone' (jobs.get_info future w))
  after_cancel-not_found future gone gone' (core_error c, w) =
      ground (arith, answer-not_found future gone gone' (core_error c))
  after_cancel-not_found future gone gone' (other_error, w) =
      ground (arith, answer-not_found future gone gone' other_error)

  -- Canceling a prediction ends as canceling a training does, unless the job turns out to be gone:
  -- then the training is reported as canceled, and the request for the prediction crashes.
  pub cancel_prediction-cancel_training :
      (id : Text) (w w' : W) (future : Future)
      → jobs.get_future id w ≡ (returned future, w')
      → cancel_prediction jobs id w ≡ (
          if gone_in future (jobs.cancel future w')
          then (crashed, (jobs.cancel future w').1)
          else cancel_training jobs id w)
  unfolding cancel_prediction cancel_training with_future
  cancel_prediction-cancel_training id w w' future h = ground (
    arith,
    h,
    after_cancel-not_found future crashed (reply (canceled_response jobs id))
        (jobs.cancel future w'),
  )

  with_future-answers {κ} :
      {B : Type κ} (f : Future → W → Rpc B × W) (x : Attempt Future × W)
      → ((future : Future) (w : W) → is_answer (f future w).0 ≡ true)
      → is_answer (with_future jobs f x).0 ≡ true
  unfolding with_future
  with_future-answers f (returned future, w) h = h future w
  with_future-answers f (core_error c, w) h = refl
  with_future-answers f (other_error, w) h = refl

  result_of-answers :
      (future : Future) (w : W) (status : JobStatus)
      → is_answer (result_of jobs future w status) ≡ true
  unfolding result_of
  result_of-answers future w completed = raise_from-answers reply (jobs.result future w) (λ r. refl)
  result_of-answers future w running = refl
  result_of-answers future w canceled = refl
  result_of-answers future w errored = refl
  result_of-answers future w queued = refl

  answer-answers :
      (future : Future) (r : StatusResponse Time) (x : Attempt (JobInfo Error Time))
      → is_answer (answer jobs future (reply r) x) ≡ true
  unfolding answer
  answer-answers future r (returned x) = refl
  answer-answers future r (core_error core_not_found) = refl
  answer-answers future r (core_error core_invalid_argument) = refl
  answer-answers future r (core_error core_connection_error) = refl
  answer-answers future r (core_error core_unauthorized) = refl
  answer-answers future r (core_error core_forbidden) = refl
  answer-answers future r (core_error core_unknown) = refl
  answer-answers future r (core_error core_fatal) = refl
  answer-answers future r other_error = refl

  after_cancel-answers :
      (future : Future) (r : StatusResponse Time) (x : Attempt (Unit {0}) × W)
      → is_answer (after_cancel jobs future (reply r) x).0 ≡ true
  unfolding after_cancel
  after_cancel-answers future r (returned u, w) = answer-answers future r (jobs.get_info future w)
  after_cancel-answers future r (core_error c, w) = answer-answers future r (core_error c)
  after_cancel-answers future r (other_error, w) = answer-answers future r other_error

  -- Whatever the calls of the manager and the future raise, the requests for a status, for a result
  -- and for the cancellation of a training end with a response or with an exception of the runtime,
  -- which has a gRPC code.
  pub requests-answer :
      (id : Text) (w : W)
      → (is_answer (get_prediction_status jobs id w).0 ≡ true)
        × (is_answer (get_training_status jobs id w).0 ≡ true)
        × (is_answer (get_prediction_result jobs id w).0 ≡ true)
        × (is_answer (cancel_training jobs id w).0 ≡ true)
  unfolding get_prediction_status get_training_status get_prediction_result cancel_training
      status_response
  requests-answer id w = (
    with_future-answers _ (jobs.get_future id w)
        (λ future w'. raise_from-answers _ (jobs.get_info future w') (λ info. refl)),
    with_future-answers _ (jobs.get_future id w)
        (λ future w'. raise_from-answers _ (jobs.get_info future w') (λ info. refl)),
    with_future-answers _ (jobs.get_future id w) (λ future w'.
        raise_from-answers _ (jobs.get_info future w')
          (λ info. result_of-answers future w' info.status)),
    with_future-answers _ (jobs.get_future id w) (λ future w'.
        after_cancel-answers future (canceled_response jobs id) (jobs.cancel future w')),
  )
