-- ===== src/Tests/Augmentors.antt =====
-- Examples for caikit/core/augmentors.
use caikit.Common.{ℕ, ◌+◌, ◌≡◌, refl, false, Option, some, List, [], ◌∷◌}
use mathlib.Core.List.{Permᴰ}
use mathlib.Core.List.Permᴰ
use caikit.Augmentors.Schemes.{Scheme, apply_all, execute}
use caikit.Augmentors.Orders.{IsOrder, execute-applies_all}

-- The augmentor `n` adds `n`; the state counts the calls.
abbrev add : ℕ → ℕ → ℕ → Option ℕ × ℕ
add n x w = (some (n + x), w + 1)

abbrev flip : List ℕ → ℕ → List ℕ × ℕ
flip [] w = ([], w)
flip (i ∷ []) w = (i ∷ [], w)
flip (i ∷ j ∷ l) w = (j ∷ i ∷ l, w)

flip-Perm : (l : List ℕ) (w : ℕ) → Permᴰ l (flip l w).0
flip-Perm [] w = Permᴰ.nil
flip-Perm (i ∷ []) w = Permᴰ.refl (i ∷ [])
flip-Perm (i ∷ j ∷ l) w = Permᴰ.swap refl refl

abbrev scheme : Scheme ℕ
scheme = record { preserve_order = false; augmentors = 5 ∷ 7 ∷ []; current_order = 0 ∷ 1 ∷ [] }

execute-applies_all_example :
    (augs : List ℕ) × (v : ℕ) × Permᴰ scheme.augmentors augs
    × ((execute add flip scheme 1 0).0 ≡ apply_all add augs 1 v)
    × IsOrder add (execute add flip scheme 1 0).1
execute-applies_all_example =
    execute-applies_all add flip flip-Perm scheme 1 0 (Permᴰ.refl (0 ∷ 1 ∷ []))
