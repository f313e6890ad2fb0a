-- ===== src/WorkManagement/Moves.antt =====
-- The moves of the watch thread of abortable_context.py, and the rounds of its loop.
use caikit.Common.{ℕ, ◌≡◌, refl, List, [], ◌∷◌, nat_eq, arith}
use caikit.WorkManagement.Defs.{
  Signal, shutdown, abort_of, World, WatchThread, unstarted, running, ended, kill_thread, handle,
  watch_from, watch, idle, take_signal, move, watching, step, run,
}

module _ (set_async_exc : ℕ → ℕ) where
  moves-watch_at :
      (th : WatchThread) (q : List Signal) (w : World)
      → w.thread ≡ th
      → w.queue ≡ q
      → (run set_async_exc
          (watching ∷ watching ∷ watching ∷ watching ∷ [])
          (record { world = w; aim = idle })).world
        ≡ watch set_async_exc w
  unfolding run step move take_signal watch watch_from handle kill_thread
  moves-watch_at unstarted q w r e = ground (arith, r)
  moves-watch_at ended q w r e = ground (arith, r)
  moves-watch_at running [] w r e = ground (arith, r, e)
  moves-watch_at running (shutdown ∷ q) w r e = ground (arith, r, e)
  moves-watch_at running (abort_of c ∷ q) w r e = ground (arith, r, e)

  -- Four moves that nothing comes between are a round of the watch loop.
  pub moves-watch :
      (w : World)
      → (run set_async_exc
          (watching ∷ watching ∷ watching ∷ watching ∷ [])
          (record { world = w; aim = idle })).world
        ≡ watch set_async_exc w
  moves-watch w = moves-watch_at w.thread w.queue w refl refl
