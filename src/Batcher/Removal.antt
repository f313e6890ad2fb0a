-- ===== src/Batcher/Removal.antt =====
-- Taking the invalid requests out of a batch backwards, index by index, in batcher.py.
use caikit.Common.{
  ℕ, zero, suc, ◌+◌, ◌≤◌, ◌≡◌, refl, ◌∙◌, Bool, true, false, ◌&&◌, ◌||◌, some, List, [], ◌∷◌,
  distinct, ltb, if◌then◌else◌, nat_eq, string_eq, arith, ◌==◌,
}
use caikit.Common.Dict
use caikit.Common.Dict.{Dict, keys}
use caikit.Batcher.Deliver.{remove_at, insert_desc, sort_desc}

module _ {ℓ} {A : Type ℓ} where
  -- The elements, numbered from `i`, whose numbers are not bad.
  abbrev pub keep_from : ℕ → (ℕ → Bool) → List A → List A
  keep_from i bad [] = []
  keep_from i bad (x ∷ xs) = let rest = keep_from (suc i) bad xs in if bad i then rest else x ∷ rest

  keep_from_all :
      (i : ℕ) (bad : ℕ → Bool) (xs : List A)
      → ((j : ℕ) → i ≤ j → bad j ≡ false)
      → keep_from i bad xs ≡ xs
  keep_from_all i bad [] h = refl
  keep_from_all i bad (x ∷ xs) h =
      ground (arith, h i, keep_from_all (suc i) bad xs (λ j le. h j (omega arith)))

  keep_from-remove_at :
      (i m : ℕ) (bad worse : ℕ → Bool) (xs : List A)
      → ((j : ℕ) → i + m ≤ j → bad j ≡ false)
      → ((j : ℕ) → worse j ≡ ((i + m == j) || bad j))
      → keep_from i bad (remove_at xs m) ≡ keep_from i worse xs
  unfolding remove_at
  keep_from-remove_at i m bad worse [] h w = refl
  keep_from-remove_at i zero bad worse (x ∷ xs) h w = ground (
    arith,
    w i,
    keep_from_all i bad xs (λ j le. h j (omega arith)),
    keep_from_all (suc i) worse xs (λ j le. ground (arith, w j, h j (omega arith))),
  )
  keep_from-remove_at i (suc m) bad worse (x ∷ xs) h w = ground (
    arith,
    w i,
    keep_from-remove_at (suc i) m bad worse xs (λ j le. h j (omega arith))
        (λ j. ground (arith, w j)),
  )

module _ {ℓ} {E : Type ℓ} where
  abbrev below : ℕ → List (ℕ × E) → Bool
  below m [] = true
  below m ((i, e) ∷ items) = ltb i m && below m items

  abbrev pub descends : List (ℕ × E) → Bool
  descends [] = true
  descends ((i, e) ∷ items) = below i items && descends items

  pub has_above :
      (m : ℕ) (items : List (ℕ × E)) (j : ℕ)
      → below m items ≡ true
      → m ≤ j
      → Dict.has items j ≡ false
  unfolding Dict.has
  has_above m [] j h le = refl
  has_above m ((i, e) ∷ items) j h le = ground (arith, has_above m items j)

  below_mono :
      (m n : ℕ) (items : List (ℕ × E)) → below m items ≡ true → m ≤ n → below n items ≡ true
  below_mono m n [] h le = refl
  below_mono m n ((i, e) ∷ items) h le = ground (arith, below_mono m n items)

  below-insert_desc :
      (m i : ℕ) (e : E) (items : List (ℕ × E))
      → below m (insert_desc i e items) ≡ (ltb i m && below m items)
  unfolding insert_desc
  below-insert_desc m i e [] = refl
  below-insert_desc m i e ((j, f) ∷ items) = ground (arith, below-insert_desc m i e items)

  has-insert_desc :
      (i : ℕ) (e : E) (items : List (ℕ × E)) (j : ℕ)
      → Dict.has (insert_desc i e items) j ≡ ((i == j) || Dict.has items j)
  unfolding insert_desc Dict.has
  has-insert_desc i e [] j = refl
  has-insert_desc i e ((k, f) ∷ items) j = ground (arith, has-insert_desc i e items j)

  insert_desc-descends :
      (i : ℕ) (e : E) (items : List (ℕ × E))
      → descends items ≡ true
      → Dict.has items i ≡ false
      → descends (insert_desc i e items) ≡ true
  unfolding insert_desc Dict.has
  insert_desc-descends i e [] d h = refl
  insert_desc-descends i e ((j, f) ∷ items) d h =
      ground
        (arith, insert_desc-descends i e items, below-insert_desc j i e items, below_mono j i items)

  get-insert_desc :
      (i : ℕ) (e : E) (items : List (ℕ × E)) (j : ℕ)
      → Dict.has items i ≡ false
      → Dict.get (insert_desc i e items) j ≡ (if i == j then some e else Dict.get items j)
  unfolding insert_desc Dict.has Dict.get
  get-insert_desc i e [] j h = refl
  get-insert_desc i e ((k, f) ∷ items) j h = ground (arith, get-insert_desc i e items j)

  pub has-sort_desc :
      (items : List (ℕ × E)) (j : ℕ) → Dict.has (sort_desc items) j ≡ Dict.has items j
  unfolding sort_desc Dict.has
  has-sort_desc [] j = refl
  has-sort_desc ((i, e) ∷ items) j =
      ground (arith, has-insert_desc i e (sort_desc items) j, has-sort_desc items j)

  pub sort_desc-descends :
      (items : List (ℕ × E)) → distinct (keys items) ≡ true → descends (sort_desc items) ≡ true
  unfolding sort_desc
  sort_desc-descends [] h = refl
  sort_desc-descends ((i, e) ∷ items) h = ground (
    arith,
    insert_desc-descends i e (sort_desc items),
    sort_desc-descends items,
    has-sort_desc items i,
    Dict.contains-keys items i,
  )

  pub get-sort_desc :
      (items : List (ℕ × E)) (j : ℕ)
      → distinct (keys items) ≡ true
      → Dict.get (sort_desc items) j ≡ Dict.get items j
  unfolding sort_desc Dict.get
  get-sort_desc [] j h = refl
  get-sort_desc ((i, e) ∷ items) j h = ground (
    arith,
    get-insert_desc i e (sort_desc items) j,
    get-sort_desc items j,
    has-sort_desc items i,
    Dict.contains-keys items i,
  )

  -- `for idx, _ in items: xs = xs[:idx] + xs[idx + 1 :]`
  abbrev pub remove_each {κ} : {A : Type κ} → List (ℕ × E) → List A → List A
  remove_each [] xs = xs
  remove_each ((i, e) ∷ items) xs = remove_each items (remove_at xs i)

  pub remove_each-keep {κ} :
      {A : Type κ} (items : List (ℕ × E)) (xs : List A)
      → descends items ≡ true
      → remove_each items xs ≡ keep_from 0 (λ j. Dict.has items j) xs
  unfolding Dict.has
  remove_each-keep [] xs d = cc (keep_from_all 0 (λ j. false) xs (λ j le. refl))
  remove_each-keep ((i, e) ∷ items) xs d =
      remove_each-keep items (remove_at xs i) (ground arith)
      ∙ keep_from-remove_at 0 i (λ j. Dict.has items j) (λ j. (i == j) || Dict.has items j) xs
          (λ j le. has_above i items j (ground arith) (omega arith)) (λ j. ground arith)
