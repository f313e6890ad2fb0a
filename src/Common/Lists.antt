-- ===== src/Common/Lists.antt =====
-- Lists measured and indexed by native numbers, under the library's names.
use Prim.Native.Nat.{ℕ, zero, suc, ◌+◌, ◌<◌}
use mathlib.Core.Path.{◌≡◌, refl, ap}
use mathlib.Core.Bool.{Bool, true, false, not, ◌||◌, ◌&&◌}
use mathlib.Core.List.{List, [], ◌∷◌, ◌++◌}
use mathlib.Core.Option.{Option, none, some}
use native.Mathlib.Omega.{arith}
use caikit.Common.Tests.{if◌then◌else◌, ltb, nat_eq, beq_refl, Eq, ◌==◌}

module _ {ℓ} {A : Type ℓ} where
  abbrev pub length : List A → ℕ
  length [] = 0
  length (x ∷ xs) = suc (length xs)

  abbrev pub get_elem? : List A → ℕ → Option A
  get_elem? [] i = none
  get_elem? (x ∷ xs) zero = some x
  get_elem? (x ∷ xs) (suc i) = get_elem? xs i

  abbrev pub replicate : ℕ → A → List A
  replicate zero a = []
  replicate (suc n) a = a ∷ replicate n a

  -- `[x for x in xs if p(x)]`
  abbrev pub filter : (A → Bool) → List A → List A
  filter p [] = []
  filter p (x ∷ xs) = let rest = filter p xs in if p x then x ∷ rest else rest

  abbrev pub any : (A → Bool) → List A → Bool
  any p [] = false
  any p (x ∷ xs) = p x || any p xs

  abbrev pub all : (A → Bool) → List A → Bool
  all p [] = true
  all p (x ∷ xs) = p x && all p xs

  pub length-append : (xs ys : List A) → length (xs ++ ys) ≡ length xs + length ys
  length-append [] ys = omega arith
  length-append (x ∷ xs) ys = omega (arith, length-append xs ys)

  pub any-append : (p : A → Bool) (xs ys : List A) → any p (xs ++ ys) ≡ (any p xs || any p ys)
  any-append p [] ys = refl
  any-append p (x ∷ xs) ys = ground (arith, any-append p xs ys)

  pub filter-append :
      (p : A → Bool) (xs ys : List A) → filter p (xs ++ ys) ≡ filter p xs ++ filter p ys
  filter-append p [] ys = refl
  filter-append p (x ∷ xs) ys = ground (arith, filter-append p xs ys)

  pub replicate-append : (n : ℕ) (a : A) → replicate n a ++ a ∷ [] ≡ replicate (suc n) a
  replicate-append zero a = refl
  replicate-append (suc n) a = ap (◌∷◌ a) (replicate-append n a)

  pub get_elem?-concat :
      (xs : List A) (x : A) (j : ℕ)
      → get_elem? (xs ++ x ∷ []) j
        ≡ (if ltb j (length xs) then get_elem? xs j else if j == length xs then some x else none)
  get_elem?-concat [] x zero = refl
  get_elem?-concat [] x (suc j) = ground arith
  get_elem?-concat (y ∷ xs) x zero = ground arith
  get_elem?-concat (y ∷ xs) x (suc j) = ground (arith, get_elem?-concat xs x j)

  pub get_elem?_of_lt : (xs : List A) (j : ℕ) → j < length xs → (x : A) × (get_elem? xs j ≡ some x)
  get_elem?_of_lt [] j h = elim h [ ]
  get_elem?_of_lt (x ∷ xs) zero h = (x, refl)
  get_elem?_of_lt (x ∷ xs) (suc j) h = get_elem?_of_lt xs j (omega arith)

  pub lt_of_get_elem? : (xs : List A) (j : ℕ) (x : A) → get_elem? xs j ≡ some x → j < length xs
  lt_of_get_elem? [] j x h = cc
  lt_of_get_elem? (y ∷ xs) zero x h = omega arith
  lt_of_get_elem? (y ∷ xs) (suc j) x h = omega (arith, lt_of_get_elem? xs j x h)

  pub any_of_get_elem? :
      (p : A → Bool) (xs : List A) (j : ℕ) (x : A)
      → get_elem? xs j ≡ some x
      → p x ≡ true
      → any p xs ≡ true
  any_of_get_elem? p [] j x h q = cc
  any_of_get_elem? p (y ∷ xs) zero x h q = ground arith
  any_of_get_elem? p (y ∷ xs) (suc j) x h q = ground (arith, any_of_get_elem? p xs j x)

  abbrev pub is_empty : List A → Bool
  is_empty [] = true
  is_empty (x ∷ xs) = false

module _ {ℓ} {A : Type ℓ} ⦃e : Eq A⦄ where
  -- `a in xs`
  abbrev pub contains : A → List A → Bool
  contains a [] = false
  contains a (x ∷ xs) = (x == a) || contains a xs

  -- No element stands twice.
  abbrev pub distinct : List A → Bool
  distinct [] = true
  distinct (x ∷ xs) = not (contains x xs) && distinct xs

  pub contains-append :
      (a : A) (xs ys : List A) → contains a (xs ++ ys) ≡ (contains a xs || contains a ys)
  contains-append a [] ys = refl
  contains-append a (x ∷ xs) ys = ground (arith, contains-append a xs ys)

  pub contains-filter :
      (p : A → Bool) (a : A) (xs : List A) → contains a (filter p xs) ≡ (p a && contains a xs)
  contains-filter p a [] = ground arith
  contains-filter p a (x ∷ xs) = ground (arith, contains-filter p a xs, e.beq_iff x a)

  pub contains_of_not-is_empty :
      (xs : List A) → is_empty xs ≡ false → (a : A) × (contains a xs ≡ true)
  contains_of_not-is_empty [] h = absurd (ground arith)
  contains_of_not-is_empty (x ∷ xs) h = (x, ground (arith, beq_refl x))

  pub not-is_empty_of_contains : (xs : List A) (a : A) → contains a xs ≡ true → is_empty xs ≡ false
  not-is_empty_of_contains [] a h = ground arith
  not-is_empty_of_contains (x ∷ xs) a h = refl
