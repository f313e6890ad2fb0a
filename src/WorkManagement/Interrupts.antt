-- ===== src/WorkManagement/Interrupts.antt =====
-- Which threads abortable_context.py interrupts, and which it does not.
use caikit.Common.{
  ℕ, suc, zero, ◌+◌, ◌≡◌, refl, ap, sym, ◌∙◌, Bool, true, false, ◌||◌, none, some, List, [], ◌∷◌,
  ◌++◌, if◌then◌else◌, nat_eq, ◌==◌, contains, length, length-append, arith, Bool-cases, inl, inr,
}
use caikit.Common.Dict
use caikit.Common.Dict.{Dict}
use caikit.WorkManagement.Defs.{
  Signal, shutdown, abort_of, RpcAborter, World, WatchThread, unstarted, running, ended, register,
  unregister, kill, put_aborter, set_context, rpc_terminated, enter, kill_thread, shoot, handle,
  watch_from, watch, watch_thread, watch_many,
}

-- The queue asks for the abortion of the context; it holds no shutdown signal.
abbrev pub is_queued : ℕ → List Signal → Bool
is_queued c [] = false
is_queued c (shutdown ∷ q) = is_queued c q
is_queued c (abort_of d ∷ q) = (d == c) || is_queued c q

abbrev pub no_shutdown : List Signal → Bool
no_shutdown [] = true
no_shutdown (shutdown ∷ q) = false
no_shutdown (abort_of d ∷ q) = no_shutdown q

is_queued-concat :
    (c d : ℕ) (q : List Signal) → is_queued c (q ++ abort_of d ∷ []) ≡ (is_queued c q || (d == c))
is_queued-concat c d [] = ground arith
is_queued-concat c d (shutdown ∷ q) = is_queued-concat c d q
is_queued-concat c d (abort_of e ∷ q) = ground (arith, is_queued-concat c d q)

no_shutdown-concat : (d : ℕ) (q : List Signal) → no_shutdown (q ++ abort_of d ∷ []) ≡ no_shutdown q
no_shutdown-concat d [] = refl
no_shutdown-concat d (shutdown ∷ q) = refl
no_shutdown-concat d (abort_of e ∷ q) = no_shutdown-concat d q

module _ (set_async_exc : ℕ → ℕ) where
  handle-keeps :
      (d t : ℕ) (w : World)
      → contains t w.interrupted ≡ true
      → contains t (handle set_async_exc (abort_of d) w).interrupted ≡ true
  unfolding handle kill_thread shoot unregister
  handle-keeps d t w h = ground arith

  handle-interrupts :
      (c t : ℕ) (w : World)
      → Dict.get w.context_thread_map c ≡ some t
      → (t == 0) ≡ false
      → (set_async_exc t == 0) ≡ false
      → contains t (handle set_async_exc (abort_of c) w).interrupted ≡ true
  unfolding handle kill_thread shoot unregister
  handle-interrupts c t w h p q = ground (arith, h)

  get-handle :
      (c d : ℕ) (w : World)
      → Dict.get (handle set_async_exc (abort_of d) w).context_thread_map c
        ≡ (if d == c then none else Dict.get w.context_thread_map c)
  unfolding handle kill_thread shoot unregister
  get-handle c d w = ground (arith, Dict.get-remove w.context_thread_map d c)

  handle-rest :
      (d : ℕ) (w : World)
      → ((handle set_async_exc (abort_of d) w).queue ≡ w.queue)
        × ((handle set_async_exc (abort_of d) w).thread ≡ w.thread)
  unfolding handle kill_thread shoot unregister
  handle-rest d w = (ground arith, ground arith)

  watch-running :
      (s : Signal) (q : List Signal) (w : World)
      → w.thread ≡ running
      → w.queue ≡ s ∷ q
      → watch set_async_exc w ≡ handle set_async_exc s (record w { queue = q })
  unfolding watch watch_from
  watch-running s q w r e = ground (arith, r, e)

  watch_many-keeps :
      (q : List Signal) (t : ℕ) (w : World)
      → w.thread ≡ running
      → w.queue ≡ q
      → no_shutdown q ≡ true
      → contains t w.interrupted ≡ true
      → contains t (watch_many set_async_exc (length q) w).interrupted ≡ true
  unfolding watch_many
  watch_many-keeps [] t w r e n h = h
  watch_many-keeps (shutdown ∷ q) t w r e n h = absurd (cc n)
  watch_many-keeps (abort_of d ∷ q) t w r e n h =
      let v = record w { queue = q } in
      let (left, alive) = handle-rest d v in
      ap (λ u. contains t (watch_many set_async_exc (length q) u).interrupted)
        (watch-running (abort_of d) q w r e)
      ∙ (watch_many-keeps q t (handle set_async_exc (abort_of d) v) (alive ∙ r) left n
          (handle-keeps d t v h))

  -- A live watch thread interrupts the thread of a registered context whose abortion is asked for in
  -- its queue, within as many rounds as the queue has signals, if none of them is a shutdown.
  pub watch_many-interrupts :
      (q : List Signal) (c t : ℕ) (w : World)
      → w.thread ≡ running
      → w.queue ≡ q
      → no_shutdown q ≡ true
      → is_queued c q ≡ true
      → Dict.get w.context_thread_map c ≡ some t
      → (t == 0) ≡ false
      → (set_async_exc t == 0) ≡ false
      → contains t (watch_many set_async_exc (length q) w).interrupted ≡ true
  unfolding watch_many
  watch_many-interrupts [] c t w r e n h g p z = absurd (cc h)
  watch_many-interrupts (shutdown ∷ q) c t w r e n h g p z = absurd (cc n)
  watch_many-interrupts (abort_of d ∷ q) c t w r e n h g p z =
      let v = record w { queue = q } in
      let (left, alive) = handle-rest d v in
      let next = handle set_async_exc (abort_of d) v in
      ap (λ u. contains t (watch_many set_async_exc (length q) u).interrupted)
        (watch-running (abort_of d) q w r e)
      ∙ (elim (Bool-cases (d == c)) [
        | inl same ↦
            let here : contains t next.interrupted ≡ true =
              handle-interrupts d t v (ground (arith, same, g)) p z in
            watch_many-keeps q t next (alive ∙ r) left n here
        | inr other ↦
            watch_many-interrupts q c t next (alive ∙ r) left n (ground (arith, h, other))
              (get-handle c d v ∙ ground (arith, other, g)) p z
      ])

  -- When a call is terminated while its context is set and its thread registered, the thread is
  -- interrupted once the live watch thread has worked off its queue, if that holds no shutdown
  -- signal, the thread's identifier is not 0 and the interpreter knows the thread.
  pub rpc_terminated-interrupts :
      (call c t : ℕ) (a : RpcAborter) (w : World)
      → w.thread ≡ running
      → no_shutdown w.queue ≡ true
      → Dict.get w.aborters call ≡ some a
      → a.context ≡ some c
      → Dict.get w.context_thread_map c ≡ some t
      → (t == 0) ≡ false
      → (set_async_exc t == 0) ≡ false
      → contains t
          (watch_many set_async_exc (length w.queue + 1) (rpc_terminated call w)).interrupted
        ≡ true
  unfolding rpc_terminated kill put_aborter
  rpc_terminated-interrupts call c t a w r n h k g p z =
      rw (sym (length-append w.queue (abort_of c ∷ []))) (
        watch_many-interrupts (w.queue ++ abort_of c ∷ []) c t (rpc_terminated call w)
          (ground (arith, h, k, r)) (ground (arith, h, k)) (no_shutdown-concat c w.queue ∙ n)
          (ground (arith, is_queued-concat c c w.queue)) (ground (arith, h, k, g)) p z)

  -- A context that is entered after its call was terminated has its thread interrupted once the
  -- live watch thread has worked off its queue, if the watch thread takes no signal during
  -- `__enter__`, the queue holds no shutdown signal, the thread's identifier is not 0 and the
  -- interpreter knows the thread.
  pub enter-interrupts :
      (call c t : ℕ) (a : RpcAborter) (w : World)
      → w.thread ≡ running
      → no_shutdown w.queue ≡ true
      → Dict.get w.aborters call ≡ some a
      → a.is_terminated ≡ true
      → (t == 0) ≡ false
      → (set_async_exc t == 0) ≡ false
      → contains t (watch_many set_async_exc (length w.queue + 1) (enter call c t w)).interrupted
        ≡ true
  unfolding enter set_context register kill put_aborter
  enter-interrupts call c t a w r n h k p z = rw (sym (length-append w.queue (abort_of c ∷ []))) (
      watch_many-interrupts (w.queue ++ abort_of c ∷ []) c t (enter call c t w)
        (ground (arith, h, k, r)) (ground (arith, h, k)) (no_shutdown-concat c w.queue ∙ n)
        (ground (arith, is_queued-concat c c w.queue))
        (ground (arith, h, k, Dict.get-put w.context_thread_map c t c)) p z)

  watch-idle : (th : WatchThread) (w : World) → w.queue ≡ [] → watch_thread set_async_exc th w ≡ w
  unfolding watch_thread watch_from
  watch-idle unstarted w e = refl
  watch-idle running w e = ground (arith, e)
  watch-idle ended w e = refl

  watch_many-idle : (n : ℕ) (w : World) → w.queue ≡ [] → watch_many set_async_exc n w ≡ w
  unfolding watch_many watch
  watch_many-idle zero w e = refl
  watch_many-idle (suc n) w e =
      ap (watch_many set_async_exc n) (watch-idle w.thread w e) ∙ watch_many-idle n w e

  -- `__enter__` sets the context before it registers the thread. If the queue is empty and the
  -- watch thread takes the signal of a terminated call between the two, the abortion is lost: the
  -- thread is registered afterwards, and however often the watch thread then runs, it interrupts no
  -- thread.
  pub enter-abort_lost :
      (call c t : ℕ) (a : RpcAborter) (w : World) (n : ℕ)
      → w.thread ≡ running
      → w.queue ≡ []
      → Dict.get w.aborters call ≡ some a
      → a.is_terminated ≡ true
      → Dict.get w.context_thread_map c ≡ none
      → let late = register c t (watch set_async_exc (set_context call c w)) in
        (Dict.get late.context_thread_map c ≡ some t)
        × ((watch_many set_async_exc n late).interrupted ≡ w.interrupted)
  unfolding set_context register kill put_aborter watch watch_from handle kill_thread shoot
      unregister
  enter-abort_lost call c t a w n r e h k g =
      let v = record w {
        queue = [];
        context_thread_map = Dict.put (Dict.remove w.context_thread_map c) c t;
        aborters = Dict.put w.aborters call (record a { context = some c });
      } in
      let late : register c t (watch set_async_exc (set_context call c w)) ≡ v =
        ground (arith, r, e, h, k, g) in
      (
        ap (λ u. Dict.get u.context_thread_map c) late
            ∙ ground (arith, Dict.get-put (Dict.remove w.context_thread_map c) c t c),
        ap (λ u. (watch_many set_async_exc n u).interrupted) late
            ∙ ap (λ u. u.interrupted) (watch_many-idle n v refl),
      )
