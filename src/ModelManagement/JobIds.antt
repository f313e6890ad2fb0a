-- ===== src/ModelManagement/JobIds.antt =====
-- caikit/core/model_management/job_base.py and caikit/core/toolkit/reversible_hasher.py: the ids of jobs.
use mathlib.Core.Option.{get_or}
use caikit.Common.{
  ℕ, ◌≡◌, refl, ap, ◌∙◌, Bool, true, false, none, some, List, [], ◌∷◌, ◌++◌, map, if◌then◌else◌,
  nat_eq, ◌==◌, Text, codes, take_until, contains, distinct, length, arith, Bool-cases, inl, inr,
}
use caikit.Common.Dict
use caikit.Common.Dict.{Dict}

-- `_CHARSET`: the letters, the digits, the dash and the underscore of ASCII.
unfoldable pub charset : Text
charset = codes "abcdefghijklmnopqrstuvwxyzABCDEFGHIJKLMNOPQRSTUVWXYZ0123456789-_"

-- `dict(zip(keys, values))` of distinct keys.
unfoldable pub zip_dict : List ℕ → List ℕ → Dict ℕ ℕ
zip_dict (k ∷ ks) (v ∷ vs) = (k, v) ∷ zip_dict ks vs
zip_dict ks vs = []

-- `MAP.get(ch, ch)`
unfoldable pub translate : Dict ℕ ℕ → ℕ → ℕ
translate d c = get_or (Dict.get d c) c

-- `ReversibleHasher`; `shuffled` is `_SHUFFLED`, the character set in the order of a seeded shuffle.
module _ (shuffled : List ℕ) where
  unfoldable pub hash : Text → Text
  unfolding translate zip_dict
  hash = map (translate (zip_dict charset shuffled))

  unfoldable pub reverse_hash : Text → Text
  unfolding translate zip_dict
  reverse_hash = map (translate (zip_dict shuffled charset))

  -- The id of `JobFutureBase.__init__`.
  unfoldable pub job_id : Text → Text → Bool → Text
  job_id future_name future_id use_reversible_hash =
      if use_reversible_hash then hash future_name ++ b':' ∷ future_id else future_id

  -- `get_job_name`
  unfoldable pub get_job_name : Text → Text
  get_job_name id = reverse_hash (take_until b':' id)

-- Two lists are shuffles of each other, as far as a translation needs it.
pub record IsShuffle (xs ys : List ℕ) : Type 0 where
  pub same_length : length xs ≡ length ys
  pub distinct_left : distinct xs ≡ true
  pub distinct_right : distinct ys ≡ true
  pub same_members : (c : ℕ) → contains c xs ≡ contains c ys

-- What a zipped dict sends to, is sent back by the other one.
zip_dict-back :
    (xs ys : List ℕ) (c : ℕ)
    → length xs ≡ length ys
    → distinct ys ≡ true
    → contains c xs ≡ true
    → (d : ℕ) × (Dict.get (zip_dict xs ys) c ≡ some d)
      × (contains d ys ≡ true)
      × (Dict.get (zip_dict ys xs) d ≡ some c)
unfolding zip_dict Dict.get
zip_dict-back [] ys c l h m = cc
zip_dict-back (x ∷ xs) [] c l h m = absurd (ground arith)
zip_dict-back (x ∷ xs) (y ∷ ys) c l h m = elim (Bool-cases (x == c)) [
  | inl e ↦ (y, ground (arith, e), ground arith, ground (arith, e))
  | inr e ↦
      let (d, g, k, b) = zip_dict-back xs ys c (ground arith) (ground arith) (ground arith) in
      (d, ground (arith, e, g), ground (arith, k), ground (arith, b, k))
]

zip_dict-none :
    (xs ys : List ℕ) (c : ℕ) → contains c xs ≡ false → Dict.get (zip_dict xs ys) c ≡ none
unfolding zip_dict Dict.get
zip_dict-none [] [] c m = refl
zip_dict-none [] (y ∷ ys) c m = refl
zip_dict-none (x ∷ xs) [] c m = refl
zip_dict-none (x ∷ xs) (y ∷ ys) c m = ground (arith, zip_dict-none xs ys c)

translate-translate :
    (xs ys : List ℕ) (c : ℕ)
    → IsShuffle xs ys
    → translate (zip_dict ys xs) (translate (zip_dict xs ys) c) ≡ c
unfolding translate
translate-translate xs ys c s = elim (Bool-cases (contains c xs)) [
  | inl m ↦
      let (d, g, k, b) = zip_dict-back xs ys c s.same_length s.distinct_right m in
      ground (arith, g, b)
  | inr m ↦ ground (arith, zip_dict-none xs ys c m, zip_dict-none ys xs c, s.same_members c)
]

-- The colon is no character of the set, and nothing else is translated to it.
translate-colon :
    (xs ys : List ℕ) (sep c : ℕ)
    → IsShuffle xs ys
    → contains sep xs ≡ false
    → (translate (zip_dict xs ys) c == sep) ≡ (c == sep)
unfolding translate
translate-colon xs ys sep c s n = elim (Bool-cases (contains c xs)) [
  | inl m ↦
      let (d, g, k, b) = zip_dict-back xs ys c s.same_length s.distinct_right m in
      elim (Bool-cases (d == sep)) [
        | inl e ↦ absurd (ground (arith, e, k, s.same_members sep, n))
        | inr e ↦ elim (Bool-cases (c == sep)) [
          | inl f ↦ absurd (ground (arith, f, m, n))
          | inr f ↦ ground (arith, g, e, f)
        ]
      ]
  | inr m ↦ ground (arith, zip_dict-none xs ys c m)
]

translate_all_back :
    (xs ys : List ℕ) (t : Text)
    → IsShuffle xs ys
    → map (translate (zip_dict ys xs)) (map (translate (zip_dict xs ys)) t) ≡ t
translate_all_back xs ys [] s = refl
translate_all_back xs ys (c ∷ t) s =
    cc (translate-translate xs ys c s, translate_all_back xs ys t s)

take_until-map :
    (xs ys : List ℕ) (sep : ℕ) (name rest : Text)
    → IsShuffle xs ys
    → contains sep xs ≡ false
    → take_until sep (map (translate (zip_dict xs ys)) name ++ sep ∷ rest)
      ≡ map (translate (zip_dict xs ys)) (take_until sep name)
take_until-map xs ys sep [] rest s n = ground arith
take_until-map xs ys sep (c ∷ name) rest s n =
    ground (arith, take_until-map xs ys sep name rest s n, translate-colon xs ys sep c s n)

colon_free : contains b':' charset ≡ false
unfolding charset
colon_free = refl

module _ (shuffled : List ℕ) (s : IsShuffle charset shuffled) where
  -- Reversing a hash gives the text back, whatever characters it has.
  pub reverse_hash-hash : (t : Text) → reverse_hash shuffled (hash shuffled t) ≡ t
  unfolding hash reverse_hash
  reverse_hash-hash t = translate_all_back charset shuffled t s

  take_until-hash :
      (name rest : Text)
      → take_until b':' (hash shuffled name ++ b':' ∷ rest) ≡ hash shuffled (take_until b':' name)
  unfolding hash
  take_until-hash name rest = take_until-map charset shuffled b':' name rest s colon_free

  -- If the shuffle permutes the character set, the name of the component that made a job is read back
  -- from the id, up to the first colon of the name: a name without a colon comes back whole,
  -- whatever the id has after it.
  pub get_job_name-job_id :
      (name future_id : Text)
      → get_job_name shuffled (job_id shuffled name future_id true) ≡ take_until b':' name
  unfolding get_job_name job_id
  get_job_name-job_id name future_id =
      ap (reverse_hash shuffled) (take_until-hash name future_id)
      ∙ reverse_hash-hash (take_until b':' name)
