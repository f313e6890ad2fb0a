-- ===== src/Concurrency/Thread.antt =====
-- caikit/core/toolkit/concurrency/destroyable_thread.py: a thread that can be destroyed while it works.
use caikit.Common.{Bool, true, false, not, ◌&&◌, ◌||◌, Option, none, some, if◌then◌else◌, ◌≡◌}

-- Where the thread is. It is alive from its start on; `finishing` is between the end of the work and
-- the end of the thread.
pub data Phase : Type 0 where
  created begun working finishing ended : Phase

-- How the work ends: it returns a value of `R`, or raises an exception of `E`, or the exception that
-- `destroy` raises in the thread.
pub data Outcome {ℓ} (R E : Type ℓ) : Type ℓ where
  returned : R → Outcome R E
  raised : E → Outcome R E
  destroyed_in : Outcome R E

-- `DestroyableThread`. `pending` is an exception that `destroy` has asked for and that was not raised
-- yet; the outcome stands for the result, the exception and `threw`.
pub record DestroyableThread {ℓ} (R E : Type ℓ) : Type ℓ where
  pub phase : Phase
  pub started : Bool
  pub was_destroyed : Bool
  pub ran : Bool
  pub outcome : Option (Outcome R E)
  pub work_done : Bool
  pub pending : Bool

abbrev pub alive_in : Phase → Bool
alive_in created = false
alive_in begun = true
alive_in working = true
alive_in finishing = true
alive_in ended = false

module _ {ℓ} {R E : Type ℓ} where
  unfoldable pub new_thread : DestroyableThread R E
  new_thread = record {
    phase = created;
    started = false;
    was_destroyed = false;
    ran = false;
    outcome = none;
    work_done = false;
    pending = false;
  }

  -- `is_alive`
  unfoldable pub is_alive : DestroyableThread R E → Bool
  is_alive t = alive_in t.phase

  -- `threw`
  unfoldable pub threw : DestroyableThread R E → Bool
  threw t = elim t.outcome [
    | none ↦ false
    | some o ↦ elim o [ returned r ↦ false | raised e ↦ true | destroyed_in ↦ true ]
  ]

  -- `canceled`
  unfoldable pub canceled : DestroyableThread R E → Bool
  unfolding threw
  canceled t = t.was_destroyed && ((t.started && (threw t || not t.ran)) || not t.started)

  -- `start`, of `threading.Thread`
  unfoldable pub start : DestroyableThread R E → DestroyableThread R E
  start t = record t { phase = begun }

  -- The beginning of `run`: a destroyed thread raises before its `try`, which ends the thread.
  unfoldable pub enter : DestroyableThread R E → DestroyableThread R E
  enter t =
      if t.was_destroyed
      then record t { phase = ended }
      else record t { phase = working; started = true }

  -- The end of the work, with the `except` and the `finally` of `run` in one step: an exception that
  -- `destroy` raises inside of these is left out.
  unfoldable pub finish : Outcome R E → DestroyableThread R E → DestroyableThread R E
  finish o t = record t { phase = finishing; outcome = some o; ran = true; work_done = true }

  -- The end of the thread.
  unfoldable pub exit : DestroyableThread R E → DestroyableThread R E
  exit t = record t { phase = ended }

  -- `destroy`, which asks for an exception in a thread that is alive.
  unfoldable pub destroy : DestroyableThread R E → DestroyableThread R E
  unfolding is_alive
  destroy t = record t { was_destroyed = true; pending = is_alive t || t.pending }

  -- What may happen to a thread. The exception of `destroy` is raised in its work, or outside of the
  -- `try`, where it ends the thread; work that catches it goes on.
  pub data Step : DestroyableThread R E → DestroyableThread R E → Type ℓ where
    starts : (t : DestroyableThread R E) → t.phase ≡ created → Step t (start t)
    enters : (t : DestroyableThread R E) → t.phase ≡ begun → Step t (enter t)
    returns :
        (t : DestroyableThread R E) (r : R) → t.phase ≡ working → Step t (finish (returned r) t)
    raises : (t : DestroyableThread R E) (e : E) → t.phase ≡ working → Step t (finish (raised e) t)
    interrupts :
        (t : DestroyableThread R E)
        → t.phase ≡ working
        → t.pending ≡ true
        → Step t (finish destroyed_in t)
    dies : (t : DestroyableThread R E) → t.phase ≡ begun → t.pending ≡ true → Step t (exit t)
    exits : (t : DestroyableThread R E) → t.phase ≡ finishing → Step t (exit t)
    destroys : (t : DestroyableThread R E) → Step t (destroy t)

  pub data Reach (s : DestroyableThread R E) : DestroyableThread R E → Type ℓ where
    here : Reach s s
    next : {t u : DestroyableThread R E} → Reach s t → Step t u → Reach s u
