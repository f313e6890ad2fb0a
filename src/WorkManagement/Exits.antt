-- ===== src/WorkManagement/Exits.antt =====
-- Threads that have left their contexts in abortable_context.py.
use caikit.Common.{
  ℕ, ◌+◌, ◌≤◌, suc, ◌≡◌, refl, ap, sym, ◌∙◌, Bool, false, ◌||◌, none, some, List, [], ◌∷◌,
  if◌then◌else◌, nat_eq, ◌==◌, arith, Bool-cases, Option-cases, inl, inr,
}
use caikit.Common.Dict
use caikit.Common.Dict.{Dict}
use caikit.WorkManagement.Defs.{
  Signal, shutdown, abort_of, World, WatchThread, unstarted, running, ended, start, stop,
  stop_thread, register, unregister, kill, new_aborter, put_aborter, set_context, unset_context,
  rpc_terminated, exit, shoot, Aim, idle, taken, aimed, shot, Scene, take_signal, move, Event,
  starting, stopping, watching, calling, terminating, setting, registering, exiting, step, run,
}

-- How often the thread was interrupted.
abbrev pub times : ℕ → List ℕ → ℕ
times t [] = 0
times t (u ∷ us) = if u == t then suc (times t us) else times t us

-- No context of the thread is registered.
abbrev pub IsFree : ℕ → World → Type 0
IsFree t w = (c : ℕ) → Dict.get w.context_thread_map c ≡ some t → ⊥

-- Some event of the list registers the thread.
abbrev pub registers : ℕ → List Event → Bool
registers t [] = false
registers t (registering c u ∷ es) = (u == t) || registers t es
registers t (_ ∷ es) = registers t es

-- The thread is free, and was interrupted as often as in another state.
abbrev IsSpared : ℕ → World → World → Type 0
IsSpared t w v = IsFree t v × (times t v.interrupted ≡ times t w.interrupted)

stop-spares : (th : WatchThread) (t : ℕ) (w : World) → IsFree t w → IsSpared t w (stop_thread th w)
unfolding stop_thread
stop-spares unstarted t w f = (f, refl)
stop-spares running t w f = (f, refl)
stop-spares ended t w f = (f, refl)

set_context-same :
    (call c : ℕ) (w : World)
    → ((set_context call c w).context_thread_map ≡ w.context_thread_map)
      × ((set_context call c w).interrupted ≡ w.interrupted)
unfolding set_context kill put_aborter
set_context-same call c w = (ground arith, ground arith)

unset_context-same :
    (call : ℕ) (w : World)
    → ((unset_context call w).context_thread_map ≡ w.context_thread_map)
      × ((unset_context call w).interrupted ≡ w.interrupted)
unfolding unset_context put_aborter
unset_context-same call w = (ground arith, ground arith)

rpc_terminated-same :
    (call : ℕ) (w : World)
    → ((rpc_terminated call w).context_thread_map ≡ w.context_thread_map)
      × ((rpc_terminated call w).interrupted ≡ w.interrupted)
unfolding rpc_terminated kill put_aborter
rpc_terminated-same call w = (ground arith, ground arith)

IsSpared-of_same :
    (t : ℕ) (w v : World)
    → (v.context_thread_map ≡ w.context_thread_map) × (v.interrupted ≡ w.interrupted)
    → IsFree t w
    → IsSpared t w v
IsSpared-of_same t w v (m, i) f =
    ((λ c h. f c (ap (λ d. Dict.get d c) (sym m) ∙ h)), ap (times t) i)

-- Taking a context out of the map spares the threads.
unregister-spares : (t d : ℕ) (w : World) → IsFree t w → IsFree t (unregister d w)
unfolding unregister
unregister-spares t d w f = λ c h. elim (Bool-cases (d == c)) [
  | inl e ↦ absurd (ground (arith, Dict.get-remove w.context_thread_map d c, e, h))
  | inr e ↦ f c (ground (arith, Dict.get-remove w.context_thread_map d c, e, h))
]

register-spares :
    (t c u : ℕ) (w : World) → (u == t) ≡ false → IsFree t w → IsFree t (register c u w)
unfolding register
register-spares t c u w n f = λ d h. elim (Bool-cases (c == d)) [
  | inl e ↦ absurd (ground (arith, Dict.get-put w.context_thread_map c u d, e, h, n))
  | inr e ↦ f d (ground (arith, Dict.get-put w.context_thread_map c u d, e, h))
]

-- 1 if the watch thread has looked the thread up and not yet interrupted it.
abbrev pub late : ℕ → Aim → ℕ
late t (aimed c (some u)) = if u == t then 1 else 0
late t _ = 0

-- How often the thread was interrupted, with the interruption that is under way.
abbrev due : ℕ → Scene → ℕ
due t s = times t s.world.interrupted + late t s.aim

-- The thread is free, and no further interruption of it is due.
abbrev IsSparing : ℕ → Scene → Scene → Type 0
IsSparing t s v = IsFree t v.world × (due t v ≤ due t s)

sparing :
    (t : ℕ) (s : Scene) (w : World) → IsSpared t s.world w → IsSparing t s (record s { world = w })
sparing t s w (f, k) = (f, ground (arith, k))

module _ (set_async_exc : ℕ → ℕ) where
  take_signal-spares :
      (th : WatchThread) (q : List Signal) (t : ℕ) (w : World)
      → IsFree t w
      → IsSparing t (record { world = w; aim = idle }) (take_signal set_async_exc th q w)
  unfolding take_signal
  take_signal-spares running [] t w f = (f, ground arith)
  take_signal-spares running (shutdown ∷ q) t w f = (f, ground arith)
  take_signal-spares running (abort_of c ∷ q) t w f = (f, ground arith)
  take_signal-spares unstarted q t w f = (f, ground arith)
  take_signal-spares ended q t w f = (f, ground arith)

  move-spares :
      (a : Aim) (t : ℕ) (w : World)
      → IsFree t w
      → IsSparing t (record { world = w; aim = a }) (move set_async_exc a w)
  unfolding move shoot
  move-spares idle t w f = take_signal-spares w.thread w.queue t w f
  move-spares (taken c) t w f = (
    f,
    elim (Option-cases (Dict.get w.context_thread_map c)) [
      | inl e ↦ ground (arith, e)
      | inr (u, e) ↦ elim (Bool-cases (u == t)) [
        | inl k ↦ absurd (f c (ground (arith, e, k)))
        | inr k ↦ ground (arith, e, k)
      ]
    ],
  )
  move-spares (aimed c none) t w f = (f, ground arith)
  move-spares (aimed c (some u)) t w f = (λ d h. f d (ground (arith, h)), ground arith)
  move-spares (shot c) t w f = (unregister-spares t c w f, unfold unregister in ground arith)

  step-spares :
      (e : Event) (t : ℕ) (s : Scene)
      → registers t (e ∷ []) ≡ false
      → IsFree t s.world
      → IsSparing t s (step set_async_exc e s)
  unfolding step start stop new_aborter exit
  step-spares starting t s n f = (f, ground arith)
  step-spares stopping t s n f = sparing t s (stop s.world) (stop-spares s.world.thread t s.world f)
  step-spares watching t s n f = move-spares s.aim t s.world f
  step-spares (calling call ok) t s n f = (f, ground arith)
  step-spares (terminating call) t s n f = sparing t s (rpc_terminated call s.world) (
      IsSpared-of_same t s.world (rpc_terminated call s.world) (rpc_terminated-same call s.world) f)
  step-spares (setting call c) t s n f =
      sparing t s (set_context call c s.world) (
        IsSpared-of_same t s.world (set_context call c s.world) (set_context-same call c s.world) f)
  step-spares (registering c u) t s n f =
      (register-spares t c u s.world (ground arith) f, unfold register in ground arith)
  step-spares (exiting call c) t s n f =
      let v = unregister c s.world in
      sparing t s (exit call c s.world) (
        IsSpared-of_same t v (unset_context call v) (unset_context-same call v)
          (unregister-spares t c s.world f))

  registers-split :
      (e : Event) (es : List Event) (t : ℕ)
      → registers t (e ∷ es) ≡ false
      → (registers t (e ∷ []) ≡ false) × (registers t es ≡ false)
  registers-split starting es t n = (refl, n)
  registers-split stopping es t n = (refl, n)
  registers-split watching es t n = (refl, n)
  registers-split (calling call ok) es t n = (refl, n)
  registers-split (terminating call) es t n = (refl, n)
  registers-split (setting call c) es t n = (refl, n)
  registers-split (registering c u) es t n = (ground arith, ground arith)
  registers-split (exiting call c) es t n = (refl, n)

  run-spares :
      (es : List Event) (t : ℕ) (s : Scene)
      → registers t es ≡ false
      → IsFree t s.world
      → due t (run set_async_exc es s) ≤ due t s
  unfolding run
  run-spares [] t s n f = ground arith
  run-spares (e ∷ es) t s n f =
      let (here, there) = registers-split e es t n in
      let (g, k) = step-spares e t s here f in
      let rest = run-spares es t (step set_async_exc e s) there g in omega (arith, k, rest)

  -- Once a thread has left the only context that it is registered for, it is not interrupted any more,
  -- whatever happens in whatever order, until it is registered again: not by signals that are still
  -- queued for the context, nor by a late end of its call, nor by a watch thread that has the
  -- context's signal already. The one exception is a watch thread that looked the thread up before:
  -- it may still interrupt the thread once. To interrupt is to ask for the
  -- exception: one that was asked for before may still come up.
  pub exit-spares :
      (call c t : ℕ) (s : Scene) (es : List Event)
      → ((d : ℕ) → Dict.get s.world.context_thread_map d ≡ some t → d ≡ c)
      → registers t es ≡ false
      → times t (run set_async_exc es (step set_async_exc (exiting call c) s)).world.interrupted
        ≤ times t s.world.interrupted + late t s.aim
  unfolding step
  exit-spares call c t s es only n =
      let v = unregister c s.world in
      let left : IsFree t v = λ d h.
        unfold unregister in
        elim (Bool-cases (c == d)) [
          | inl e ↦ absurd (ground (arith, Dict.get-remove s.world.context_thread_map c d, e, h))
          | inr e ↦ absurd (
              ground (
                arith,
                only d (ground (arith, Dict.get-remove s.world.context_thread_map c d, e, h)),
                e,
              ))
        ] in
      let (free, k) =
        IsSpared-of_same t v (unset_context call v) (unset_context-same call v) left in
      let same : times t (unset_context call v).interrupted ≡ times t s.world.interrupted =
        k ∙ unfold unregister in refl in
      unfold exit in
      let done = run-spares es t (record s { world = unset_context call v }) n free in
      omega (arith, done, same)
