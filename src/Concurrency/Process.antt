-- ===== src/Concurrency/Process.antt =====
-- caikit/core/toolkit/concurrency/destroyable_process.py: a process that can be destroyed while it works.
use caikit.Common.{Bool, true, false, not, ◌&&◌, ◌||◌, Option, none, some, if◌then◌else◌, ◌≡◌}
use caikit.ModelManagement.LocalJobs.{Worker}

-- The exit code of a process, as far as it is looked at: `EX_OK`, one of `OOM_EXIT_CODES`, or another.
pub data ExitCode : Type 0 where
  clean out_of_memory failure : ExitCode

-- What `error` returns: an exception that the process sent, or one that the parent makes.
pub data ProcessError {ℓ} (E : Type ℓ) : Type ℓ where
  sent : E → ProcessError E
  never_started : ProcessError E
  memory_error : ProcessError E
  died : ProcessError E

-- `_DestroyableProcess`, with the result as far as it is an exception.
pub record Process {ℓ} (E : Type ℓ) : Type ℓ where
  pub started : Bool
  pub destroyed : Bool
  pub canceled : Bool
  pub is_alive : Bool
  pub exitcode : Option ExitCode
  pub result : Option (ProcessError E)
  pub completion_event : Bool

-- How `terminate`, `join` and `kill` end a process that is alive: with a code of its own within the
-- grace period, or else by a signal whose code is one of `OOM_EXIT_CODES`.
unfoldable pub end_by : Option ExitCode → ExitCode
end_by (some code) = code
end_by none = out_of_memory

module _ {ℓ} {E : Type ℓ} where
  unfoldable pub new_process : Process E
  new_process = record {
    started = false;
    destroyed = false;
    canceled = false;
    is_alive = false;
    exitcode = none;
    result = none;
    completion_event = false;
  }

  -- `ran`
  unfoldable pub ran : Process E → Bool
  ran p = p.started && not p.is_alive

  unfoldable pub exit_error : Bool → Option ExitCode → Option (ProcessError E)
  exit_error canceled none = none
  exit_error canceled (some clean) = none
  exit_error canceled (some out_of_memory) = some memory_error
  exit_error canceled (some failure) = if canceled then none else some died

  -- `error`
  unfoldable pub error : Process E → Option (ProcessError E)
  unfolding exit_error
  error p = elim p.result [ some e ↦ some e | none ↦ exit_error p.canceled p.exitcode ]

  -- `threw`
  unfoldable pub threw : Process E → Bool
  unfolding error
  threw p = elim (error p) [ some e ↦ true | none ↦ false ]

  -- `start`
  unfoldable pub start : Process E → Process E
  start p =
      if p.destroyed
      then record p { completion_event = true; result = some never_started }
      else record p { started = true; is_alive = true }

  -- The end of the process by itself, with the exception that it sends, if any.
  unfoldable pub finish : ExitCode → Option E → Process E → Process E
  finish code (some e) p = record p {
    is_alive = false;
    exitcode = some code;
    result = some (sent e);
    completion_event = true;
  }
  finish code none p = record p { is_alive = false; exitcode = some code; completion_event = true }

  -- `destroy`
  unfoldable pub destroy : Option ExitCode → Process E → Process E
  unfolding end_by
  destroy how p =
      let canceled = p.canceled || (p.is_alive || not p.started) in
      if p.started
      then record p {
        destroyed = true;
        canceled = canceled;
        is_alive = false;
        completion_event = true;
        exitcode = if p.is_alive then some (end_by how) else p.exitcode;
      }
      else record p { destroyed = true; canceled = canceled }

  -- What may happen to a process.
  pub data Step : Process E → Process E → Type ℓ where
    starts : (p : Process E) → p.started ≡ false → Step p (start p)
    finishes :
        (p : Process E) (code : ExitCode) (e : Option E)
        → p.is_alive ≡ true
        → Step p (finish code e p)
    destroys : (p : Process E) (how : Option ExitCode) → Step p (destroy how p)

  pub data Reach (p : Process E) : Process E → Type ℓ where
    here : Reach p p
    next : {q r : Process E} → Reach p q → Step q r → Reach p r

  -- What `get_info` of a job reads of the process.
  unfoldable pub process_worker : Process E → Worker
  unfolding threw ran
  process_worker p = record {
    was_canceled = p.canceled;
    is_alive = p.is_alive;
    threw = threw p;
    ran = ran p;
  }
