-- ===== src/Common/Paths.antt =====
-- Paths of POSIX, as `os.path` reads them.
use Prim.Native.Nat.{ℕ}
use mathlib.Core.Path.{◌≡◌, refl, ap, sym, ◌∙◌}
use mathlib.Core.Bool.{Bool, true, false, ◌&&◌}
use mathlib.Core.List.{List, [], ◌∷◌, ◌++◌}
use mathlib.Core.Logic.{inl, inr, ◌↔◌}
use native.Mathlib.Omega.{arith}
use caikit.Common.Tests.{Eq, ◌==◌, nat_eq, if◌then◌else◌, Bool-cases}
use caikit.Common.Texts.{Text, text_eq, text_beq_iff}

abbrev pub path_beq : List Text → List Text → Bool
path_beq [] [] = true
path_beq (x ∷ p) (y ∷ q) = (x == y) && path_beq p q
path_beq _ _ = false

pub path_beq_iff : (p q : List Text) → (path_beq p q ≡ true) ↔ (p ≡ q)
path_beq_iff [] [] = ground arith
path_beq_iff (x ∷ p) [] = ground arith
path_beq_iff [] (y ∷ q) = ground arith
path_beq_iff (x ∷ p) (y ∷ q) = ground (arith, text_beq_iff x y, path_beq_iff p q)

instance abbrev pub path_eq : Eq (List Text)
path_eq = record { beq_iff = path_beq_iff; beq = path_beq }

-- `os.path.isabs`
abbrev pub is_abs : Text → Bool
is_abs [] = false
is_abs (c ∷ s) = c == b'/'

abbrev pub ends_in_sep : Text → Bool
ends_in_sep [] = false
ends_in_sep (c ∷ []) = c == b'/'
ends_in_sep (c ∷ d ∷ s) = ends_in_sep (d ∷ s)

-- `os.path.join` of two paths.
unfoldable pub join : Text → Text → Text
join a b = if is_abs b then b else elim a [
  | [] ↦ b
  | c ∷ s ↦ if ends_in_sep (c ∷ s) then (c ∷ s) ++ b else (c ∷ s) ++ b'/' ∷ b
]

-- The parts of a path but for those that are empty or `.`.
abbrev pub emit : Text → List Text
emit [] = []
emit (c ∷ s) = if (c ∷ s) == (b'.' ∷ []) then [] else (c ∷ s) ∷ []

abbrev pub parts_from : Text → Text → List Text
parts_from part [] = emit part
parts_from part (c ∷ s) =
    let here = parts_from [] s in
    let there = parts_from (part ++ c ∷ []) s in if c == b'/' then emit part ++ here else there

abbrev pub parts : Text → List Text
parts p = parts_from [] p

-- The longest common beginning of two lists of parts (`os.path.commonpath`).
unfoldable pub common_parts : List Text → List Text → List Text
common_parts (x ∷ xs) (y ∷ ys) = let rest = common_parts xs ys in if x == y then x ∷ rest else []
common_parts xs ys = []

append_nil {ℓ} : {A : Type ℓ} (l : List A) → (l ++ []) ≡ l
append_nil [] = refl
append_nil (x ∷ l) = ap (λ k. x ∷ k) (append_nil l)

append_assoc {ℓ} : {A : Type ℓ} (k l m : List A) → ((k ++ l) ++ m) ≡ (k ++ (l ++ m))
append_assoc [] l m = refl
append_assoc (x ∷ k) l m = ap (λ n. x ∷ n) (append_assoc k l m)

parts_from-sep :
    (part a b : Text) → parts_from part (a ++ b'/' ∷ b) ≡ (parts_from part a ++ parts b)
parts_from-sep part [] b = refl
parts_from-sep part (c ∷ a) b = elim (Bool-cases (c == b'/')) [
  | inl e ↦ rw e (
      ap (λ l. emit part ++ l) (parts_from-sep [] a b)
      ∙ sym (append_assoc (emit part) (parts a) (parts b)))
  | inr e ↦ rw e (parts_from-sep (part ++ c ∷ []) a b)
]

parts_from-ended :
    (part a b : Text)
    → ends_in_sep a ≡ true
    → parts_from part (a ++ b) ≡ (parts_from part a ++ parts b)
parts_from-ended part [] b h = absurd (ground arith)
parts_from-ended part (c ∷ []) b h = rw h (ap (λ l. l ++ parts b) (sym (append_nil (emit part))))
parts_from-ended part (c ∷ d ∷ a) b h = elim (Bool-cases (c == b'/')) [
  | inl e ↦ rw e (
      ap (λ l. emit part ++ l) (parts_from-ended [] (d ∷ a) b h)
      ∙ sym (append_assoc (emit part) (parts (d ∷ a)) (parts b)))
  | inr e ↦ rw e (parts_from-ended (part ++ c ∷ []) (d ∷ a) b h)
]

-- The parts of a relative path come after those of the path that it is joined to.
pub parts-join : (a b : Text) → is_abs b ≡ false → parts (join a b) ≡ (parts a ++ parts b)
unfolding join
parts-join [] b h = rw h refl
parts-join (c ∷ a) b h = elim (Bool-cases (ends_in_sep (c ∷ a))) [
  | inl e ↦ rw (h, e) (parts_from-ended [] (c ∷ a) b e)
  | inr e ↦ rw (h, e) (parts_from-sep [] (c ∷ a) b)
]

pub is_abs-join : (c : ℕ) (a b : Text) → is_abs b ≡ false → is_abs (join (c ∷ a) b) ≡ is_abs (c ∷ a)
unfolding join
is_abs-join c a b h = elim (Bool-cases (ends_in_sep (c ∷ a))) [
  | inl e ↦ rw (h, e) refl
  | inr e ↦ rw (h, e) refl
]
