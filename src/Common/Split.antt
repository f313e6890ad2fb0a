-- ===== src/Common/Split.antt =====
-- Splitting texts.
use mathlib.Core.List.{List, [], ◌∷◌}
use Prim.Native.Nat.{ℕ}
use caikit.Common.Tests.{◌==◌, nat_eq, if◌then◌else◌}
use caikit.Common.Texts.{Text}

-- One more character before the parts; no parts are one empty part.
unfoldable pub put_char : ℕ → ℕ → List Text → List Text
put_char sep c [] = if c == sep then [] ∷ [] ∷ [] else (c ∷ []) ∷ []
put_char sep c (part ∷ parts) = if c == sep then [] ∷ part ∷ parts else (c ∷ part) ∷ parts

-- `s.split(sep)` for a separator of one character
unfoldable pub split : ℕ → Text → List Text
unfolding put_char
split sep [] = [] ∷ []
split sep (c ∷ s) = put_char sep c (split sep s)
