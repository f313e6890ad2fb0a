-- ===== src/Streams/Shuffling.antt =====
-- The items that `shuffle` of data_stream.py yields.
use caikit.Common.{
  ℕ, zero, suc, ◌+◌, ◌<◌, ◌≤◌, ◌≡◌, refl, ap, ◌∙◌, Bool, false, some, List, [], ◌∷◌, ◌++◌, length,
  get_elem?, leb, ltb, nat_eq, ◌==◌, filter, arith, length-append, filter-append, Bool-cases, inl,
  inr, get_elem?_of_lt,
}
use caikit.Streams.Defs.{replace_at, shuffle_loop, shuffle}

module _ {ℓ} {T : Type ℓ} where
  -- How many items pass a test.
  abbrev pub count : (T → Bool) → List T → ℕ
  count p xs = length (filter p xs)

  count-append : (p : T → Bool) (xs ys : List T) → count p (xs ++ ys) ≡ count p xs + count p ys
  count-append p xs ys =
      ap length (filter-append p xs ys) ∙ length-append (filter p xs) (filter p ys)

  length-replace_at : (xs : List T) (i : ℕ) (e : T) → length (replace_at xs i e) ≡ length xs
  unfolding replace_at
  length-replace_at [] i e = refl
  length-replace_at (x ∷ xs) zero e = refl
  length-replace_at (x ∷ xs) (suc i) e = ap suc (length-replace_at xs i e)

  count-replace_at :
      (p : T → Bool) (xs : List T) (i : ℕ) (e item : T)
      → get_elem? xs i ≡ some item
      → count p (replace_at xs i e) + count p (item ∷ []) ≡ count p xs + count p (e ∷ [])
  unfolding replace_at
  count-replace_at p [] i e item h = cc
  count-replace_at p (x ∷ xs) zero e item h = ground arith
  count-replace_at p (x ∷ xs) (suc i) e item h = ground (arith, count-replace_at p xs i e item)

  module _ (buffer_size : ℕ) (pick : ℕ → ℕ) (in_range : (n : ℕ) → pick n < buffer_size) where
    -- The loop never reads out of the buffer, and neither loses nor doubles an item.
    loop-items :
        (es : List T) (n : ℕ) (buffer : List T)
        → length buffer ≤ buffer_size
        → (out : List T) × (rest : List T) × (shuffle_loop buffer_size pick n buffer es
            ≡ some (out, rest))
          × ((p : T → Bool) → count p out + count p rest ≡ count p buffer + count p es)
    unfolding shuffle_loop
    loop-items [] n buffer h = ([], buffer, refl, λ p. omega arith)
    loop-items (e ∷ es) n buffer h = elim (Bool-cases (ltb (length buffer) buffer_size)) [
      | inl t ↦
          let (out, rest, run, kept) =
            loop-items es n (buffer ++ e ∷ []) (ground (arith, length-append buffer (e ∷ []))) in
          (
            out,
            rest,
            ground (arith, t, run),
            λ p. ground (arith, kept p, count-append p buffer (e ∷ [])),
          )
      | inr t ↦
          let (item, at) = get_elem?_of_lt buffer (pick n) (ground (arith, in_range n)) in
          let (out, rest, run, kept) =
            loop-items es (suc n) (replace_at buffer (pick n) e)
              (ground (arith, length-replace_at buffer (pick n) e)) in
          (
            item ∷ out,
            rest,
            ground (arith, t, at, run),
            λ p. ground (arith, kept p, count-replace_at p buffer (pick n) e item at),
          )
    ]

    -- If the random indices are below the buffer size and `random.shuffle` permutes its list, a
    -- shuffle yields the items of the stream, each as often as the stream has it, and never reads
    -- out of its buffer.
    pub shuffle-items :
        (shuffle_list : List T → List T)
        → ((ys : List T) (p : T → Bool) → count p (shuffle_list ys) ≡ count p ys)
        → (xs : List T)
        → (ys : List T) × (shuffle buffer_size pick shuffle_list xs ≡ some ys)
          × ((p : T → Bool) → count p ys ≡ count p xs)
    unfolding shuffle
    shuffle-items shuffle_list fair xs =
        let positive : (buffer_size == 0) ≡ false = ground (arith, in_range 0) in
        elim (Bool-cases (leb (length xs) buffer_size)) [
          | inl t ↦ (shuffle_list xs, ground (arith, positive, t), λ p. fair xs p)
          | inr t ↦
              let (out, rest, run, kept) = loop-items xs 0 [] (omega arith) in
              (
                out ++ shuffle_list rest,
                ground (arith, positive, t, run),
                λ p. ground (arith, kept p, fair rest p, count-append p out (shuffle_list rest)),
              )
        ]
