-- ===== src/Common/Dict.antt =====
-- Python's `dict`: an association list in insertion order. Writing to a key that is there keeps
-- its place, a new key goes to the end.
use mathlib.Core.Path.{◌≡◌, refl}
use mathlib.Core.Bool.{Bool, true, false, not, ◌||◌, ◌&&◌}
use mathlib.Core.List.{List, [], ◌∷◌}
use mathlib.Core.Logic.{inl, inr}
use mathlib.Core.Option.{Option, none, some}
use native.Mathlib.Omega.{arith}
use caikit.Common.Tests.{if◌then◌else◌, Eq, ◌==◌, Bool-cases}
use caikit.Common.Lists.{contains, distinct}

abbrev pub Dict {ℓ κ} : Type ℓ → Type κ → Type (ℓ ⊔ κ)
Dict K V = List (K × V)

module _ {ℓ κ} {K : Type ℓ} {V : Type κ} where
  -- `d.keys()`
  abbrev pub keys : Dict K V → List K
  keys [] = []
  keys ((k, v) ∷ d) = k ∷ keys d

module _ {ℓ κ} {K : Type ℓ} {V : Type κ} ⦃e : Eq K⦄ where
  -- `d.get(k)`
  unfoldable pub get : Dict K V → K → Option V
  get [] k = none
  get ((j, v) ∷ d) k = if j == k then some v else get d k

  -- `k in d`
  unfoldable pub has : Dict K V → K → Bool
  has [] k = false
  has ((j, v) ∷ d) k = (j == k) || has d k

  -- `d[k] = v`
  unfoldable pub put : Dict K V → K → V → Dict K V
  put [] k v = (k, v) ∷ []
  put ((j, w) ∷ d) k v = if j == k then (j, v) ∷ d else (j, w) ∷ put d k v

  -- `d.pop(k, None)`, `del d[k]`
  unfoldable pub remove : Dict K V → K → Dict K V
  remove [] k = []
  remove ((j, w) ∷ d) k = let rest = remove d k in if j == k then rest else (j, w) ∷ rest

  pub get-put :
      (d : Dict K V) (k : K) (v : V) (j : K)
      → get (put d k v) j ≡ (if k == j then some v else get d j)
  unfolding get put
  get-put [] k v j = refl
  get-put ((i, w) ∷ d) k v j =
      ground (arith, e.beq_iff i k, e.beq_iff i j, e.beq_iff k j, get-put d k v j)

  pub has-put : (d : Dict K V) (k : K) (v : V) (j : K) → has (put d k v) j ≡ ((k == j) || has d j)
  unfolding has put
  has-put [] k v j = refl
  has-put ((i, w) ∷ d) k v j =
      ground (arith, e.beq_iff i k, e.beq_iff i j, e.beq_iff k j, has-put d k v j)

  pub get-remove :
      (d : Dict K V) (k j : K) → get (remove d k) j ≡ (if k == j then none else get d j)
  unfolding get remove
  get-remove [] k j = ground arith
  get-remove ((i, w) ∷ d) k j =
      ground (arith, e.beq_iff i k, e.beq_iff i j, e.beq_iff k j, get-remove d k j)

  pub has-remove : (d : Dict K V) (k j : K) → has (remove d k) j ≡ (not (k == j) && has d j)
  unfolding has remove
  has-remove [] k j = ground arith
  has-remove ((i, w) ∷ d) k j =
      ground (arith, e.beq_iff i k, e.beq_iff i j, e.beq_iff k j, has-remove d k j)

  pub get-eq-none : (d : Dict K V) (k : K) → has d k ≡ false → get d k ≡ none
  unfolding get has
  get-eq-none [] k h = refl
  get-eq-none ((j, v) ∷ d) k h = ground (arith, get-eq-none d k)

  pub has_of_get : (d : Dict K V) (k : K) (v : V) → get d k ≡ some v → has d k ≡ true
  unfolding get has
  has_of_get [] k v h = ground arith
  has_of_get ((j, w) ∷ d) k v h = ground (arith, has_of_get d k v)

  pub get_of_has : (d : Dict K V) (k : K) → has d k ≡ true → (v : V) × (get d k ≡ some v)
  unfolding get has
  get_of_has [] k h = absurd (ground arith)
  get_of_has ((j, w) ∷ d) k h = elim (Bool-cases (j == k)) [
    | inl p ↦ (w, ground arith)
    | inr p ↦ let (v, q) = get_of_has d k (ground arith) in (v, ground arith)
  ]

  pub contains-keys : (d : Dict K V) (k : K) → contains k (keys d) ≡ has d k
  unfolding has
  contains-keys [] k = refl
  contains-keys ((j, v) ∷ d) k = ground (arith, contains-keys d k)

  pub distinct-put :
      (d : Dict K V) (k : K) (v : V) → distinct (keys d) ≡ true → distinct (keys (put d k v)) ≡ true
  unfolding put has
  distinct-put [] k v h = refl
  distinct-put ((j, w) ∷ d) k v h = ground (
    arith,
    distinct-put d k v,
    contains-keys (put d k v) j,
    contains-keys d j,
    has-put d k v j,
    e.beq_iff k j,
    e.beq_iff j k,
  )

  -- Writing what is there changes nothing.
  pub put_self : (d : Dict K V) (k : K) (v : V) → get d k ≡ some v → put d k v ≡ d
  unfolding get put
  put_self [] k v h = absurd (ground (arith, h))
  put_self ((j, w) ∷ d) k v h = ground (arith, h, put_self d k v)

pub ruleset dict_laws = (get-put, has-put, get-remove, has-remove)
