-- ===== src/Concurrency/States.antt =====
-- The states that a thread of destroyable_thread.py reaches, and the status that a job reads off it.
use caikit.Common.{
  ◌≡◌, refl, ap, ◌∙◌, ◌⊎◌, Bool, true, false, ◌||◌, Option, none, some, if◌then◌else◌, arith,
  succeeds,
}
use caikit.Concurrency.Thread.{
  created, begun, working, finishing, ended, Outcome, returned, raised, destroyed_in,
  DestroyableThread, new_thread, is_alive, threw, canceled, start, enter, finish, exit, destroy,
  Step, starts, enters, returns, raises, interrupts, dies, exits, destroys, Reach, here, next,
}
use caikit.ModelManagement.LocalJobs.{
  Worker, JobStatus, canceled as canceled_status, completed, errored, status,
}

module _ {ℓ} {R E : Type ℓ} where
  -- What `get_info` reads of the thread.
  abbrev pub worker_of : DestroyableThread R E → Worker
  worker_of t = record {
    was_canceled = canceled t;
    is_alive = is_alive t;
    threw = threw t;
    ran = t.ran;
  }

  -- The outcome is known once the work has ended, an interruption needs `destroy`, and a thread that
  -- ends with no outcome was destroyed.
  abbrev caught : Option (Outcome R E) → Bool
  caught none = false
  caught (some (returned r)) = false
  caught (some (raised e)) = false
  caught (some destroyed_in) = true

  pub record IsSound (t : DestroyableThread R E) : Type ℓ where
    pub ran_outcome : t.ran ≡ succeeds t.outcome
    pub work_done_ran : t.work_done ≡ t.ran
    pub idle : (t.phase ≡ created) ⊎ (t.phase ≡ begun) → (t.started ≡ false) × (t.ran ≡ false)
    pub busy : t.phase ≡ working → (t.started ≡ true) × (t.ran ≡ false)
    pub closing : t.phase ≡ finishing → (t.started ≡ true) × (t.ran ≡ true)
    pub over : t.phase ≡ ended → (t.started ≡ t.ran) × ((t.ran || t.was_destroyed) ≡ true)
    pub asked : t.pending ≡ true → t.was_destroyed ≡ true
    pub interrupted : caught t.outcome ≡ true → t.was_destroyed ≡ true

  new_thread-IsSound : IsSound new_thread
  unfolding new_thread
  new_thread-IsSound = ground arith

  Step-IsSound : {t u : DestroyableThread R E} → Step t u → IsSound t → IsSound u
  unfolding start enter finish exit destroy is_alive
  Step-IsSound (starts t p) h = ground arith
  Step-IsSound (enters t p) h = ground arith
  Step-IsSound (returns t r p) h = ground arith
  Step-IsSound (raises t e p) h = ground arith
  Step-IsSound (interrupts t p q) h = ground arith
  Step-IsSound (dies t p q) h = ground arith
  Step-IsSound (exits t p) h = ground arith
  Step-IsSound (destroys t) h = ground arith

  pub Reach-IsSound : {s t : DestroyableThread R E} → IsSound s → Reach s t → IsSound t
  Reach-IsSound h here = h
  Reach-IsSound h (next r st) = Step-IsSound st (Reach-IsSound h r)

  -- The status of a thread that has ended.
  abbrev pub final_status : Bool → Option (Outcome R E) → JobStatus
  final_status d none = canceled_status
  final_status d (some (returned r)) = completed
  final_status d (some (raised e)) = if d then canceled_status else errored
  final_status d (some destroyed_in) = canceled_status

  ended-final :
      (t : DestroyableThread R E)
      → IsSound t
      → t.phase ≡ ended
      → status (worker_of t) ≡ final_status t.was_destroyed t.outcome
  unfolding status canceled threw is_alive
  ended-final t h p = ground arith

  Step-ended :
      {t u : DestroyableThread R E}
      → Step t u
      → t.phase ≡ ended
      → (u.phase ≡ ended) × (u.outcome ≡ t.outcome)
  unfolding destroy
  Step-ended (starts t p) q = absurd (ground arith)
  Step-ended (enters t p) q = absurd (ground arith)
  Step-ended (returns t r p) q = absurd (ground arith)
  Step-ended (raises t e p) q = absurd (ground arith)
  Step-ended (interrupts t p _) q = absurd (ground arith)
  Step-ended (dies t p _) q = absurd (ground arith)
  Step-ended (exits t p) q = absurd (ground arith)
  Step-ended (destroys t) q = (q, refl)

  Reach-ended :
      {t u : DestroyableThread R E}
      → t.phase ≡ ended
      → Reach t u
      → (u.phase ≡ ended) × (u.outcome ≡ t.outcome)
  Reach-ended p here = (p, refl)
  Reach-ended p (next r st) =
      let (q, e) = Reach-ended p r in let (q', e') = Step-ended st q in (q', e' ∙ e)

  -- Once a thread has ended, its outcome stays, whatever happens, and so does its status, but for
  -- one: a thread whose work returned is completed, also if it is destroyed at some time; one that
  -- was interrupted, or never worked, is canceled; and one whose work raised is errored until it is
  -- destroyed, and then canceled.
  pub status-ended :
      (t u : DestroyableThread R E)
      → Reach new_thread t
      → t.phase ≡ ended
      → Reach t u
      → (u.outcome ≡ t.outcome) × (status (worker_of u) ≡ final_status u.was_destroyed t.outcome)
  status-ended t u s p r =
      let (q, e) = Reach-ended p r in
      (
        e,
        ended-final u (Reach-IsSound (Reach-IsSound new_thread-IsSound s) r) q
            ∙ ap (final_status u.was_destroyed) e,
      )

  record IsRefused (t : DestroyableThread R E) : Type ℓ where
    gone : t.was_destroyed ≡ true
    fresh : t.started ≡ false
    silent : t.work_done ≡ false
    no_outcome : t.outcome ≡ none
    phase_known : (t.phase ≡ created) ⊎ ((t.phase ≡ begun) ⊎ (t.phase ≡ ended))

  Step-IsRefused : {t u : DestroyableThread R E} → Step t u → IsRefused t → IsRefused u
  unfolding start enter finish exit destroy
  Step-IsRefused (starts t p) h = ground arith
  Step-IsRefused (enters t p) h = ground arith
  Step-IsRefused (returns t r p) h = absurd (ground arith)
  Step-IsRefused (raises t e p) h = absurd (ground arith)
  Step-IsRefused (interrupts t p q) h = absurd (ground arith)
  Step-IsRefused (dies t p q) h = ground arith
  Step-IsRefused (exits t p) h = absurd (ground arith)
  Step-IsRefused (destroys t) h = ground arith

  Reach-IsRefused : {t u : DestroyableThread R E} → IsRefused t → Reach t u → IsRefused u
  Reach-IsRefused h here = h
  Reach-IsRefused h (next r st) = Step-IsRefused st (Reach-IsRefused h r)

  destroy-IsRefused : IsRefused (destroy new_thread)
  unfolding destroy new_thread is_alive
  destroy-IsRefused = ground arith

  refused-status :
      (t : DestroyableThread R E) → IsRefused t → status (worker_of t) ≡ canceled_status
  unfolding status canceled
  refused-status t h = ground arith

  -- A thread that is destroyed before it is started never works, whatever happens afterwards: its job
  -- is canceled, and it has no outcome. Its event for the end of the work is never set.
  pub destroy-silences :
      (u : DestroyableThread R E)
      → Reach (destroy new_thread) u
      → (u.outcome ≡ none) × (u.work_done ≡ false) × (status (worker_of u) ≡ canceled_status)
  destroy-silences u r =
      let h = Reach-IsRefused destroy-IsRefused r in (h.no_outcome, h.silent, refused-status u h)

  -- A job whose thread is destroyed while it works is canceled at once, and yet it may still become
  -- completed, since the work may catch the exception and return: then the job that was reported as
  -- canceled is reported as completed for good.
  pub destroy-not_final :
      (t : DestroyableThread R E) (r : R)
      → Reach new_thread t
      → t.phase ≡ working
      → (status (worker_of (destroy t)) ≡ canceled_status)
        × Reach (destroy t) (exit (finish (returned r) (destroy t)))
        × (status (worker_of (exit (finish (returned r) (destroy t)))) ≡ completed)
  unfolding destroy finish exit status canceled threw is_alive
  destroy-not_final t r s p =
      let h = Reach-IsSound new_thread-IsSound s in
      (
        ground (arith, h, p),
        next (next here (returns (destroy t) r p)) (exits (finish (returned r) (destroy t)) refl),
        ground (arith, h, p),
      )
