-- ===== src/WorkManagement/Defs.antt =====
-- caikit/runtime/work_management/abortable_context.py and rpc_aborter.py: the thread that interrupts the
-- work of terminated calls. Contexts, aborters and threads are named by numbers, a context's number
-- standing for its uuid. A step is what runs between two points at which threads switch.
use caikit.Common.{
  ℕ, suc, zero, Bool, true, not, Option, none, some, List, [], ◌∷◌, ◌++◌, if◌then◌else◌, nat_eq,
  ◌==◌, ◌||◌,
}
use caikit.Common.Dict
use caikit.Common.Dict.{Dict}

-- The entries of the interrupter's queue.
pub data Signal : Type 0 where
  shutdown : Signal
  abort_of : ℕ → Signal

-- `RpcAborter`
pub record RpcAborter : Type 0 where
  pub is_terminated : Bool
  pub context : Option ℕ

-- `_thread` of the interrupter: `None`, alive, or ended.
pub data WatchThread : Type 0 where
  unstarted running ended : WatchThread

-- `ThreadInterrupter`, with the aborters of the calls. `interrupted` are the threads for which
-- `PyThreadState_SetAsyncExc` took, latest first; the exception itself comes up later in the thread.
pub record World : Type 0 where
  pub queue : List Signal
  pub thread : WatchThread
  pub context_thread_map : Dict ℕ ℕ
  pub aborters : Dict ℕ RpcAborter
  pub interrupted : List ℕ

-- `ThreadInterrupter.start`: a thread that is alive is kept.
unfoldable pub start : World → World
start w = record w { thread = running }

unfoldable pub stop_thread : WatchThread → World → World
stop_thread ended w = w
stop_thread _ w = record w { queue = w.queue ++ shutdown ∷ [] }

-- `ThreadInterrupter.stop` up to its `join`, which on a thread never started is an `AttributeError`.
unfoldable pub stop : World → World
unfolding stop_thread
stop w = stop_thread w.thread w

unfoldable pub register : ℕ → ℕ → World → World
register context_id thread w = record w {
  context_thread_map = Dict.put w.context_thread_map context_id thread;
}

unfoldable pub unregister : ℕ → World → World
unregister context_id w = record w {
  context_thread_map = Dict.remove w.context_thread_map context_id;
}

unfoldable pub kill : ℕ → World → World
kill context_id w = record w { queue = w.queue ++ abort_of context_id ∷ [] }

-- `RpcAborter.__init__`: `callback_registered` is what the call's context says to `add_callback`.
unfoldable pub new_aborter : ℕ → Bool → World → World
new_aborter call callback_registered w = record w {
  aborters =
      Dict.put w.aborters call (record { is_terminated = not callback_registered; context = none });
}

unfoldable pub put_aborter : ℕ → RpcAborter → World → World
put_aborter call a w = record w { aborters = Dict.put w.aborters call a }

-- `RpcAborter.set_context`; `context.abort()` is a `kill`.
unfoldable pub set_context : ℕ → ℕ → World → World
unfolding kill put_aborter
set_context call context_id w = elim (Dict.get w.aborters call) [
  | none ↦ w
  | some a ↦
      let v = put_aborter call (record a { context = some context_id }) w in
      if a.is_terminated then kill context_id v else v
]

unfoldable pub unset_context : ℕ → World → World
unfolding put_aborter
unset_context call w = elim (Dict.get w.aborters call) [
  | none ↦ w
  | some a ↦ put_aborter call (record a { context = none }) w
]

-- `__rpc_terminated`
unfoldable pub rpc_terminated : ℕ → World → World
unfolding kill put_aborter
rpc_terminated call w = elim (Dict.get w.aborters call) [
  | none ↦ w
  | some a ↦
      let v = put_aborter call (record a { is_terminated = true }) w in
      elim a.context [ none ↦ v | some context_id ↦ kill context_id v ]
]

-- `AbortableContext.__enter__`, with an aborter and an interrupter.
unfoldable pub enter : ℕ → ℕ → ℕ → World → World
unfolding set_context register
enter call context_id thread w = register context_id thread (set_context call context_id w)

-- `AbortableContext.__exit__`
unfoldable pub exit : ℕ → ℕ → World → World
unfolding unregister unset_context
exit call context_id w = unset_context call (unregister context_id w)

-- What may happen, in any order: `setting` and `registering` are the two halves of `__enter__`, and
-- `watching` is one move of the watch thread.
pub data Event : Type 0 where
  starting stopping watching : Event
  calling : ℕ → Bool → Event
  terminating : ℕ → Event
  setting : ℕ → ℕ → Event
  registering : ℕ → ℕ → Event
  exiting : ℕ → ℕ → Event

-- Where the watch thread is in its loop: before `get`, before the thread of the context it got is
-- looked up, before `PyThreadState_SetAsyncExc` on what the look-up gave, and before `unregister`.
pub data Aim : Type 0 where
  idle : Aim
  taken : ℕ → Aim
  aimed : ℕ → Option ℕ → Aim
  shot : ℕ → Aim

pub record Scene : Type 0 where
  pub world : World
  pub aim : Aim

-- `set_async_exc` is `PyThreadState_SetAsyncExc`: how many thread states it changed.
module _ (set_async_exc : ℕ → ℕ) where
  -- `_kill_thread` after its look-up, its Boolean result left out, since no caller reads it. A thread
  -- identifier of 0 counts as false.
  unfoldable pub shoot : Option ℕ → World → World
  shoot none w = w
  shoot (some thread) w =
      if (thread == 0) || (set_async_exc thread == 0)
      then w
      else record w { interrupted = thread ∷ w.interrupted }

  -- `_kill_thread`, if no other thread runs meanwhile.
  unfoldable pub kill_thread : ℕ → World → World
  unfolding shoot
  kill_thread context_id w = shoot (Dict.get w.context_thread_map context_id) w

  unfoldable pub handle : Signal → World → World
  unfolding kill_thread unregister
  handle shutdown w = record w { thread = ended }
  handle (abort_of context_id) w = unregister context_id (kill_thread context_id w)

  unfoldable pub watch_from : List Signal → World → World
  unfolding handle
  watch_from [] w = w
  watch_from (s ∷ rest) w = handle s (record w { queue = rest })

  unfoldable pub watch_thread : WatchThread → World → World
  unfolding watch_from
  watch_thread running w = watch_from w.queue w
  watch_thread _ w = w

  -- One round of `_watch_loop`, if the thread is alive and no other runs meanwhile. On an empty queue
  -- it waits.
  unfoldable pub watch : World → World
  unfolding watch_thread
  watch w = watch_thread w.thread w

  unfoldable pub watch_many : ℕ → World → World
  unfolding watch
  watch_many zero w = w
  watch_many (suc n) w = watch_many n (watch w)

  -- `get` of the live watch thread.
  unfoldable pub take_signal : WatchThread → List Signal → World → Scene
  take_signal running (shutdown ∷ rest) w = record {
    world = record w { queue = rest; thread = ended };
    aim = idle;
  }
  take_signal running (abort_of c ∷ rest) w = record {
    world = record w { queue = rest };
    aim = taken c;
  }
  take_signal _ _ w = record { world = w; aim = idle }

  -- One move of the watch thread. Other threads may run between any two.
  unfoldable pub move : Aim → World → Scene
  unfolding take_signal shoot unregister
  move idle w = take_signal w.thread w.queue w
  move (taken c) w = record { world = w; aim = aimed c (Dict.get w.context_thread_map c) }
  move (aimed c found) w = record { world = shoot found w; aim = shot c }
  move (shot c) w = record { world = unregister c w; aim = idle }

  unfoldable pub step : Event → Scene → Scene
  unfolding start stop move new_aborter rpc_terminated set_context register exit
  step starting s = record s { world = start s.world }
  step stopping s = record s { world = stop s.world }
  step watching s = move s.aim s.world
  step (calling call ok) s = record s { world = new_aborter call ok s.world }
  step (terminating call) s = record s { world = rpc_terminated call s.world }
  step (setting call context_id) s = record s { world = set_context call context_id s.world }
  step (registering context_id thread) s = record s { world = register context_id thread s.world }
  step (exiting call context_id) s = record s { world = exit call context_id s.world }

  unfoldable pub run : List Event → Scene → Scene
  unfolding step
  run [] s = s
  run (e ∷ es) s = run es (step e s)
