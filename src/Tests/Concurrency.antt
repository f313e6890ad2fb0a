-- ===== src/Tests/Concurrency.antt =====
-- Examples for destroyable_thread.py and destroyable_process.py.
use caikit.Common.{ℕ, ◌≡◌, refl, none}
use caikit.Concurrency.Thread.{
  returned, DestroyableThread, new_thread, start, enter, finish, exit, destroy, starts, enters,
  returns, exits, destroys, Reach, here, next,
}
use caikit.Concurrency.States.{worker_of, final_status, status-ended}
use caikit.ModelManagement.LocalJobs.{status}
use caikit.Concurrency.Process.{
  Process, failure, new_process, start as start_process, finish as finish_process,
  starts as starts_process, finishes, Reach as Reach_process, here as here_process,
  next as next_process,
}

abbrev working_thread : DestroyableThread ℕ ℕ
working_thread = enter (start new_thread)

abbrev ended_thread : DestroyableThread ℕ ℕ
ended_thread = exit (finish (returned 7) working_thread)

working_thread_reached : Reach (new_thread {R = ℕ} {E = ℕ}) working_thread
unfolding new_thread start enter
working_thread_reached = next (next here (starts new_thread refl)) (enters (start new_thread) refl)

ended_thread_reached : Reach (new_thread {R = ℕ} {E = ℕ}) ended_thread
unfolding new_thread start enter finish exit
ended_thread_reached =
    next (next working_thread_reached (returns working_thread 7 refl))
      (exits (finish (returned 7) working_thread) refl)

status-ended_example :
    ((destroy ended_thread).outcome ≡ ended_thread.outcome)
    × (status (worker_of (destroy ended_thread))
        ≡ final_status (destroy ended_thread).was_destroyed ended_thread.outcome)
unfolding exit
status-ended_example =
    status-ended ended_thread (destroy ended_thread) ended_thread_reached refl
      (next here (destroys ended_thread))

abbrev refused_thread : DestroyableThread ℕ ℕ
refused_thread = enter (start (destroy new_thread))

refused_thread_reached : Reach (destroy (new_thread {R = ℕ} {E = ℕ})) refused_thread
unfolding new_thread start destroy
refused_thread_reached =
    next (next here (starts (destroy new_thread) refl)) (enters (start (destroy new_thread)) refl)

abbrev finished_process : Process ℕ
finished_process = finish_process failure none (start_process new_process)

finished_process_reached : Reach_process (new_process {E = ℕ}) finished_process
unfolding new_process start_process
finished_process_reached =
    next_process (next_process here_process (starts_process new_process refl))
      (finishes (start_process new_process) failure none refl)
