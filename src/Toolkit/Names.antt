-- ===== src/Toolkit/Names.antt =====
-- caikit/core/toolkit/name_tools.py, on ASCII texts.
use caikit.Common.{
  ℕ, ◌+◌, ◌-◌, Text, Bool, true, false, not, ◌&&◌, List, [], ◌∷◌, ◌++◌, leb, ◌==◌, nat_eq,
  if◌then◌else◌, Bool-cases, beq→eq, inl, inr, ◌≡◌, refl, ap, sym, ◌∙◌, arith,
}
use caikit.Common.Split.{put_char, split}

unfoldable pub is_upper : ℕ → Bool
is_upper c = leb b'A' c && leb c b'Z'

unfoldable pub is_lower : ℕ → Bool
is_lower c = leb b'a' c && leb c b'z'

-- `c.upper()` and `c.lower()` of one character
unfoldable pub upper : ℕ → ℕ
upper c = if is_lower c then c - 32 else c

unfoldable pub lower : ℕ → ℕ
lower c = if is_upper c then c + 32 else c

-- `part[0].upper() + part[1:]`, and nothing for an empty part
unfoldable pub capitalise : Text → Text
capitalise [] = []
capitalise (c ∷ part) = upper c ∷ part

unfoldable pub join_parts : List Text → Text
unfolding capitalise
join_parts [] = []
join_parts (part ∷ parts) = capitalise part ++ join_parts parts

unfoldable pub snake_to_upper_camel : Text → Text
unfolding join_parts split
snake_to_upper_camel s = join_parts (split b'_' s)

-- The separator goes before each upper-case letter but one at the start.
unfoldable pub separate : ℕ → Bool → Text → Text
separate sep first [] = []
separate sep first (c ∷ s) =
    let rest = lower c ∷ separate sep false s in
    if is_upper c && not first then sep ∷ rest else rest

unfoldable pub camel_to_snake_case : Text → Bool → Text
unfolding separate
camel_to_snake_case s kebab_case = separate (if kebab_case then b'-' else b'_') true s

-- Parts of at least one character with a lower-case letter first and no upper-case letter, with a
-- `_` between each two; the flag says that a part starts.
unfoldable pub is_snake : Bool → Text → Bool
is_snake true [] = false
is_snake false [] = true
is_snake true (c ∷ s) = is_lower c && is_snake false s
is_snake false (c ∷ s) = not (is_upper c) && is_snake (c == b'_') s

-- `snake_to_upper_camel` character by character.
camel_from : Bool → Text → Text
camel_from start [] = []
camel_from true (c ∷ s) =
    let next = camel_from true s in
    let rest = upper c ∷ camel_from false s in if c == b'_' then next else rest
camel_from false (c ∷ s) =
    let next = camel_from true s in
    let rest = c ∷ camel_from false s in if c == b'_' then next else rest

tail_parts : List Text → Text
tail_parts [] = []
tail_parts (part ∷ parts) = part ++ join_parts parts

-- Whether a character starts a part and whether it is `_`, and the parts after it.
part_step :
    (c : ℕ) (s : Text) (ps : List Text)
    → (camel_from true s ≡ join_parts ps) × (camel_from false s ≡ tail_parts ps)
    → (camel_from true (c ∷ s) ≡ join_parts (put_char b'_' c ps))
      × (camel_from false (c ∷ s) ≡ tail_parts (put_char b'_' c ps))
unfolding camel_from join_parts tail_parts put_char capitalise
part_step c s [] (h, k) = elim (Bool-cases (c == b'_')) [
  | inl e ↦ rw e (h, h)
  | inr e ↦ rw e (ap (λ t. upper c ∷ t) k, ap (λ t. c ∷ t) k)
]
part_step c s (p ∷ ps) (h, k) = elim (Bool-cases (c == b'_')) [
  | inl e ↦ rw e (h, h)
  | inr e ↦ rw e (ap (λ t. upper c ∷ t) k, ap (λ t. c ∷ t) k)
]

camel_from-split :
    (s : Text)
    → (camel_from true s ≡ join_parts (split b'_' s))
      × (camel_from false s ≡ tail_parts (split b'_' s))
unfolding split tail_parts join_parts camel_from
camel_from-split [] = (refl, refl)
camel_from-split (c ∷ s) = part_step c s (split b'_' s) (camel_from-split s)

and_second : (a b : Bool) → (a && b) ≡ true → b ≡ true
and_second true b h = h
and_second false b h = absurd (ground arith)

lower_of_not_upper : (c : ℕ) → is_upper c ≡ false → lower c ≡ c
unfolding lower
lower_of_not_upper c h = rw h refl

is_upper-upper : (c : ℕ) → is_lower c ≡ true → is_upper (upper c) ≡ true
unfolding is_upper upper is_lower
is_upper-upper c h = ground arith

lower-upper : (c : ℕ) → is_lower c ≡ true → lower (upper c) ≡ c
unfolding is_upper upper is_lower lower
lower-upper c h = ground arith

lower_no_separator : (c : ℕ) → is_lower c ≡ true → (c == b'_') ≡ false
unfolding is_lower
lower_no_separator c h = ground arith

-- Back again, from the start of a part that is not the first, and from within a part.
separate-camel_from :
    (start : Bool) (s : Text)
    → is_snake start s ≡ true
    → separate b'_' false (camel_from start s) ≡ (if start then b'_' ∷ s else s)
unfolding camel_from separate is_snake
separate-camel_from true [] h = absurd (ground arith)
separate-camel_from false [] h = refl
separate-camel_from true (c ∷ s) h =
    ground
      (arith, is_upper-upper c, lower-upper c, lower_no_separator c, separate-camel_from false s)
separate-camel_from false (c ∷ s) h = elim (Bool-cases (c == b'_')) [
  | inl e ↦ rw e (
      separate-camel_from true s
        (ap (λ b. is_snake b s) (sym e) ∙ and_second (not (is_upper c)) (is_snake (c == b'_') s) h)
      ∙ ap (λ d. d ∷ s) (sym (beq→eq e)))
  | inr e ↦ ground (arith, lower_of_not_upper c, separate-camel_from false s)
]

separate-camel_from_first :
    (s : Text) → is_snake true s ≡ true → separate b'_' true (camel_from true s) ≡ s
unfolding camel_from separate is_snake
separate-camel_from_first [] h = absurd (ground arith)
separate-camel_from_first (c ∷ s) h =
    ground (arith, lower-upper c, lower_no_separator c, separate-camel_from false s)

-- A snake-case name survives the way to camel case and back: for names whose parts each start with a
-- lower-case letter and have no upper-case one, with single underscores between the parts,
-- `camel_to_snake_case` undoes `snake_to_upper_camel`.
pub snake-camel-snake :
    (s : Text) → is_snake true s ≡ true → camel_to_snake_case (snake_to_upper_camel s) false ≡ s
unfolding camel_to_snake_case snake_to_upper_camel
snake-camel-snake s h =
    ap (λ t. separate b'_' true t) (sym (camel_from-split s).0) ∙ separate-camel_from_first s h
