-- ===== src/Concurrency/Ends.antt =====
-- The status that a job reads off a process of destroyable_process.py, once it has ended.
use caikit.Common.{◌≡◌, refl, ap, ◌∙◌, true, false, none, some, arith}
use caikit.ModelManagement.LocalJobs.{status, canceled}
use caikit.ModelManagement.Launching.{is_terminal}
use caikit.Concurrency.Process.{
  memory_error, Process, new_process, ran, exit_error, error, threw, start, finish, end_by, destroy,
  Step, starts, finishes, destroys, Reach, here, next, process_worker,
}

module _ {ℓ} {E : Type ℓ} where
  pub record IsSound (p : Process E) : Type ℓ where
    pub live : p.is_alive ≡ true → p.started ≡ true
    pub gone : p.destroyed ≡ true → p.started ≡ false → p.canceled ≡ true
    pub fresh : p.started ≡ false → p.canceled ≡ false → (p.result ≡ none) × (p.exitcode ≡ none)

  new_process-IsSound : IsSound new_process
  unfolding new_process
  new_process-IsSound = ground arith

  Step-IsSound : {p q : Process E} → Step p q → IsSound p → IsSound q
  unfolding start finish destroy
  Step-IsSound (starts p s) h = ground arith
  Step-IsSound (finishes p code (some e) s) h = ground arith
  Step-IsSound (finishes p code none s) h = ground arith
  Step-IsSound (destroys p how) h = ground arith

  Reach-IsSound : {p q : Process E} → IsSound p → Reach p q → IsSound q
  Reach-IsSound h here = h
  Reach-IsSound h (next r s) = Step-IsSound s (Reach-IsSound h r)

  Step-final :
      {p q : Process E}
      → Step p q
      → IsSound p
      → is_terminal (status (process_worker p)) ≡ true
      → status (process_worker q) ≡ status (process_worker p)
  unfolding start finish destroy status is_terminal process_worker threw ran error exit_error
  Step-final (starts p s) h t = ground arith
  Step-final (finishes p code (some e) s) h t = ground arith
  Step-final (finishes p code none s) h t = ground arith
  Step-final (destroys p how) h t = ground arith

  -- Once the job of a process is canceled, completed or errored, it stays so, whatever happens.
  pub status-final :
      (p q : Process E)
      → Reach new_process p
      → is_terminal (status (process_worker p)) ≡ true
      → Reach p q
      → status (process_worker q) ≡ status (process_worker p)
  status-final p q s t here = refl
  status-final p q s t (next r st) =
      let same = status-final p _ s t r in
      Step-final st (Reach-IsSound (Reach-IsSound new_process-IsSound s) r)
        (ap is_terminal same ∙ t)
      ∙ same

  -- A process that is destroyed while it works, and does not end within the grace period, is killed:
  -- its job is canceled, and its error says that it ran out of memory.
  pub destroy-memory_error :
      (p : Process E)
      → Reach new_process p
      → p.is_alive ≡ true
      → p.result ≡ none
      → (status (process_worker (destroy none p)) ≡ canceled)
        × (error (destroy none p) ≡ some memory_error)
  unfolding destroy end_by error exit_error status process_worker
  destroy-memory_error p r a n =
      let h = Reach-IsSound new_process-IsSound r in (ground (arith, h, a), ground (arith, h, a, n))
