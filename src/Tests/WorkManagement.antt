-- ===== src/Tests/WorkManagement.antt =====
-- Examples for abortable_context.py.
use caikit.Common.{ℕ, ◌≤◌, ◌≡◌, refl, true, some, [], ◌∷◌, contains, nat_eq, string_eq, arith}
use caikit.Common.Dict
use caikit.WorkManagement.Defs.{
  abort_of, RpcAborter, World, running, rpc_terminated, exit, shoot, unregister, unset_context,
  put_aborter, watch_many, watching, terminating, exiting, taken, Scene, move, step, run,
}
use caikit.WorkManagement.Interrupts.{rpc_terminated-interrupts}
use caikit.WorkManagement.Exits.{times, exit-spares}

abbrev one_thread : ℕ → ℕ
one_thread t = 1

abbrev aborter : RpcAborter
aborter = record { is_terminated = true; context = some 5 }

-- Call 1 works in the context 5 on the thread 70; the end of call 2 is queued.
abbrev working : World
working = record {
  queue = abort_of 6 ∷ [];
  thread = running;
  context_thread_map = (5, 70) ∷ [];
  aborters = (1, aborter) ∷ [];
  interrupted = [];
}

abbrev quiet : World
quiet = record working { queue = []; context_thread_map = [] }

rpc_terminated-interrupts_example :
    contains 70 (watch_many one_thread 2 (rpc_terminated 1 working)).interrupted ≡ true
unfolding Dict.get
rpc_terminated-interrupts_example =
    rpc_terminated-interrupts one_thread 1 5 70 aborter working refl refl refl refl refl refl refl

-- The watch thread has the signal of context 5 and has not looked its thread up.
abbrev scene : Scene
scene = record { world = working; aim = taken 5 }

exit-spares_example :
    times 70
      (run one_thread
        (terminating 1 ∷ watching ∷ watching ∷ watching ∷ [])
        (step one_thread (exiting 1 5) scene)).world.interrupted
    ≤ 0
unfolding Dict.get
exit-spares_example =
    exit-spares one_thread 1 5 70 scene (terminating 1 ∷ watching ∷ watching ∷ watching ∷ [])
      (λ d h. ground (arith, h)) refl

-- The thread is looked up, leaves its context, and is interrupted after that.
raced : (run one_thread (watching ∷ exiting 1 5 ∷ watching ∷ []) scene).world.interrupted ≡ 70 ∷ []
unfolding run step move exit shoot unregister unset_context put_aborter Dict.get Dict.remove
raced = refl
