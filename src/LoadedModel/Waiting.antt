-- ===== src/LoadedModel/Waiting.antt =====
-- Waiting on the handle of loaded_model.py: retries, failure, and the size that is set once.
use caikit.Common.{
  ℕ, zero, suc, ◌+◌, ◌-◌, ◌<◌, ◌≤◌, ◌≡◌, none, some, arith, Option-cases, inl, inr, if◌then◌else◌,
  nat_eq,
}
use native.Mathlib.Nat.{add-suc, suc-add, add-zero}
use caikit.LoadedModel.Defs.{
  LoadOutcome, loaded, failed, LoadedModel, retry, keep, settle, wait, size, has_size, set_size,
}

module _ {ℓ} {M E : Type ℓ} (futures : ℕ → LoadOutcome M E) where
  -- The `k` futures from the number `n` on all fail.
  abbrev pub AllFail : ℕ → ℕ → Type ℓ
  AllFail n k = (i : ℕ) → i < k → (e : E) × (futures (n + i) ≡ failed e)

  fail_here : (n k : ℕ) → AllFail n (suc k) → (e : E) × (futures n ≡ failed e)
  fail_here n k h = let (e, p) = h 0 (omega arith) in (e, rw add-zero at p)

  fail_later : (n k : ℕ) → AllFail n (suc k) → AllFail (suc n) k
  fail_later n k h = λ i lt. let (e, p) = h (suc i) (omega arith) in (e, rw (suc-add, ← add-suc) p)

  retry_success :
      (r n k : ℕ) (x : M)
      → k ≤ r
      → AllFail n k
      → futures (n + k) ≡ loaded x
      → retry futures r n ≡ (n + k, r - k, loaded x)
  unfolding retry
  retry_success zero n zero x le h q = ground (arith, q, add-zero n)
  retry_success zero n (suc k) x le h q = absurd (omega arith)
  retry_success (suc r) n zero x le h q = ground (arith, q, add-zero n)
  retry_success (suc r) n (suc k) x le h q =
      let (e, p) = fail_here n k h in
      ground (
        arith,
        p,
        add-suc n k,
        suc-add n k,
        q,
        retry_success r (suc n) k x (omega arith) (fail_later n k h),
      )

  retry_failure :
      (r n : ℕ) (e : E)
      → AllFail n r
      → futures (n + r) ≡ failed e
      → retry futures r n ≡ (n + r, 0, failed e)
  unfolding retry
  retry_failure zero n e h q = ground (arith, q, add-zero n)
  retry_failure (suc r) n e h q =
      let (e', p) = fail_here n r h in
      ground (arith, p, add-suc n r, suc-add n r, q, retry_failure r (suc n) e (fail_later n r h))

  -- A wait on a handle without a model ends with the first load that succeeds, if the first load or
  -- one of its retries does: the handle then holds that model and has used one retry for each
  -- failed load, and no failure is reported.
  pub wait-first_success :
      (m : LoadedModel M) (k : ℕ) (x : M)
      → m.model ≡ none
      → k ≤ m.retries
      → AllFail m.attempt k
      → futures (m.attempt + k) ≡ loaded x
      → wait futures m
        ≡ (record m { attempt = m.attempt + k; retries = m.retries - k; model = some x }, none)
  unfolding wait
  wait-first_success m k x u le h q =
      ground (arith, u, retry_success m.retries m.attempt k x le h q)

  -- A wait on a handle without a model whose first load and retries all fail reports the exception
  -- of the last one, holds no model, and has no retry left.
  pub wait-AllFail :
      (m : LoadedModel M) (e : E)
      → m.model ≡ none
      → AllFail m.attempt m.retries
      → futures (m.attempt + m.retries) ≡ failed e
      → wait futures m ≡ (record m { attempt = m.attempt + m.retries; retries = 0 }, some e)
  unfolding wait
  wait-AllFail m e u h q = ground (arith, u, retry_failure m.retries m.attempt e h q)

  settle-holds :
      (m m' : LoadedModel M) (t : ℕ × ℕ × LoadOutcome M E)
      → settle futures m t ≡ (m', none)
      → (x : M) × (m'.model ≡ some x)
  unfolding settle keep
  settle-holds m m' (n, r, loaded x) h = (x, ground (arith, h))
  settle-holds m m' (n, r, failed e) h = absurd (ground arith)

  wait-holds : (m m' : LoadedModel M) → wait futures m ≡ (m', none) → (x : M) × (m'.model ≡ some x)
  unfolding wait
  wait-holds m m' h = elim (Option-cases m.model) [
    | inl u ↦ settle-holds m m' (retry futures m.retries m.attempt) (ground (arith, u, h))
    | inr (x, u) ↦ (x, ground (arith, u, h))
  ]

  -- After a wait that reported no failure the handle holds a model, and a second wait changes
  -- nothing: it asks for no further load.
  pub wait-wait :
      (m m' : LoadedModel M)
      → wait futures m ≡ (m', none)
      → ((x : M) × (m'.model ≡ some x)) × (wait futures m' ≡ (m', none))
  unfolding wait
  wait-wait m m' h = let (x, u) = wait-holds m m' h in ((x, u), ground (arith, u))

module _ {ℓ} {M : Type ℓ} where
  -- A positive size stays: it is what `size` returns whatever sizes are set later. A size of zero,
  -- and one not set, is replaced.
  pub size-set_size :
      (m : LoadedModel M) (n : ℕ) → size (set_size n m) ≡ (if has_size m then size m else n)
  unfolding size set_size has_size
  size-set_size m n = ground arith
