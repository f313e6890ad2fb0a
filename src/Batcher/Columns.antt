-- ===== src/Batcher/Columns.antt =====
-- The lists of arguments that batcher.py collects.
use mathlib.Core.Option.{get_or}
use mathlib.Core.List.{append-nil, append_assoc}
use native.Mathlib.Numerals.{add-one}
use caikit.Common.{
  ℕ, ◌≡◌, refl, ap, ◌∙◌, String, Bool, true, false, not, ◌&&◌, Option, none, some, List, [], ◌∷◌,
  ◌++◌, any, all, replicate, contains, distinct, length, leb, if◌then◌else◌, arith, string_eq,
  contains-filter, any-append, length-append,
}
use caikit.Common.Dict
use caikit.Common.Dict.{Dict, keys}
use caikit.Batcher.Collate.{
  Request, Collated, append_value, append_all, new_kwargs, missing_kwargs, default_of, fill_new,
  fill_missing, collate_step, collate_from, collate,
}

module _ {ℓ} {V : Type ℓ} where
  -- What a request adds to the list of an argument.
  abbrev extend : Option (List V) → Option V → Option (List V)
  extend o none = o
  extend o (some v) = some (get_or o [] ++ v ∷ [])

  get-append_all :
      (batch : Dict String (List V)) (kwargs : Dict String V) (k : String)
      → distinct (keys kwargs) ≡ true
      → Dict.get (append_all batch kwargs) k ≡ extend (Dict.get batch k) (Dict.get kwargs k)
  unfolding append_all append_value Dict.get
  get-append_all batch [] k h = refl
  get-append_all batch ((j, v) ∷ kwargs) k h = ground (
    arith,
    get-append_all (append_value batch j v) kwargs k,
    Dict.get-put batch j (get_or (Dict.get batch j) [] ++ v ∷ []) k,
    string_eq.beq_iff j k,
    Dict.contains-keys kwargs j,
    Dict.get-eq-none kwargs j,
  )

  -- Python dicts have distinct keys.
  abbrev pub all_distinct : List (Request V) → Bool
  all_distinct = all (λ r. distinct (keys r.kwargs))

  -- Some request of the list has the argument.
  abbrev pub mentioned : String → List (Request V) → Bool
  mentioned k = any (λ r. Dict.has r.kwargs k)

module _ {ℓ} {V : Type ℓ} where
  pub contains-new :
      (batch : Dict String (List V)) (kwargs : Dict String V) (k : String)
      → contains k (new_kwargs batch kwargs) ≡ (not (Dict.has batch k) && Dict.has kwargs k)
  unfolding new_kwargs
  contains-new batch kwargs k =
      contains-filter (λ j. not (Dict.has batch j)) k (keys kwargs)
      ∙ ap (λ b. not (Dict.has batch k) && b) (Dict.contains-keys kwargs k)

  pub contains-missing :
      (batch : Dict String (List V)) (kwargs : Dict String V) (k : String)
      → contains k (missing_kwargs batch kwargs) ≡ (not (Dict.has kwargs k) && Dict.has batch k)
  unfolding missing_kwargs
  contains-missing batch kwargs k =
      contains-filter (λ j. not (Dict.has kwargs j)) k (keys batch)
      ∙ ap (λ b. not (Dict.has kwargs k) && b) (Dict.contains-keys batch k)

module _ {ℓ} {V : Type ℓ} (py_none : V) (defaults : Dict String V) where
  -- The value of an argument in a request: its own, else the default.
  abbrev pub cell : Dict String V → String → V
  cell kwargs k = get_or (Dict.get kwargs k) (default_of py_none defaults k)

  abbrev pub column : String → List (Request V) → List V
  column k [] = []
  column k (r ∷ rs) = cell r.kwargs k ∷ column k rs

  get-fill_new :
      (i : ℕ) (ks : List String) (batch : Dict String (List V)) (k : String)
      → Dict.get (fill_new py_none defaults i ks batch) k ≡ (
          if contains k ks
          then some (replicate i (default_of py_none defaults k))
          else Dict.get batch k)
  unfolding fill_new
  get-fill_new i [] batch k = refl
  get-fill_new i (j ∷ ks) batch k = ground (
    arith,
    get-fill_new i ks (Dict.put batch j (replicate i (default_of py_none defaults j))) k,
    Dict.get-put batch j (replicate i (default_of py_none defaults j)) k,
    string_eq.beq_iff j k,
  )

  get-fill_missing :
      (ks : List String) (kwargs : Dict String V) (k : String)
      → Dict.get (fill_missing py_none defaults ks kwargs) k
        ≡ (if contains k ks then some (default_of py_none defaults k) else Dict.get kwargs k)
  unfolding fill_missing
  get-fill_missing [] kwargs k = refl
  get-fill_missing (j ∷ ks) kwargs k = ground (
    arith,
    get-fill_missing ks (Dict.put kwargs j (default_of py_none defaults j)) k,
    Dict.get-put kwargs j (default_of py_none defaults j) k,
    string_eq.beq_iff j k,
  )

  distinct-fill_missing :
      (ks : List String) (kwargs : Dict String V)
      → distinct (keys kwargs) ≡ true
      → distinct (keys (fill_missing py_none defaults ks kwargs)) ≡ true
  unfolding fill_missing
  distinct-fill_missing [] kwargs h = h
  distinct-fill_missing (j ∷ ks) kwargs h =
      distinct-fill_missing ks (Dict.put kwargs j (default_of py_none defaults j))
        (Dict.distinct-put kwargs j (default_of py_none defaults j) h)

  -- One request extends the list of each argument that the batch or the request has.
  pub get-collate_step :
      (i : ℕ) (c : Collated V) (kwargs : Dict String V) (k : String)
      → distinct (keys kwargs) ≡ true
      → Dict.get (collate_step py_none defaults i c kwargs).batch_kwargs k ≡ (
          if Dict.has c.batch_kwargs k
          then some (get_or (Dict.get c.batch_kwargs k) [] ++ cell kwargs k ∷ [])
          else if Dict.has kwargs k
          then some (replicate i (default_of py_none defaults k) ++ cell kwargs k ∷ [])
          else none)
  unfolding collate_step
  get-collate_step i c kwargs k h =
      let batch = c.batch_kwargs in
      let missing = missing_kwargs batch kwargs in
      let new = new_kwargs batch kwargs in
      let filled = if leb 1 i then fill_new py_none defaults i new batch else batch in
      ground (
        arith,
        get-append_all filled (fill_missing py_none defaults missing kwargs) k,
        distinct-fill_missing missing kwargs h,
        get-fill_missing missing kwargs k,
        get-fill_new i new batch k,
        contains-new batch kwargs k,
        contains-missing batch kwargs k,
        Dict.get-eq-none batch k,
        Dict.get-eq-none kwargs k,
        Dict.get_of_has batch k,
        Dict.get_of_has kwargs k,
      )

  column-append :
      (k : String) (xs ys : List (Request V)) → column k (xs ++ ys) ≡ column k xs ++ column k ys
  column-append k [] ys = refl
  column-append k (x ∷ xs) ys = ap (◌∷◌ (cell x.kwargs k)) (column-append k xs ys)

  -- A list whose requests all lack an argument has the default in every row.
  column-unmentioned :
      (k : String) (rs : List (Request V))
      → mentioned k rs ≡ false
      → column k rs ≡ replicate (length rs) (default_of py_none defaults k)
  column-unmentioned k [] h = refl
  column-unmentioned k (r ∷ rs) h =
      ground (arith, column-unmentioned k rs, Dict.get-eq-none r.kwargs k)

  -- The batch after the requests `done`.
  abbrev pub rows : List (Request V) → String → Option (List V)
  rows done k = if mentioned k done then some (column k done) else none

  pub rows-step :
      (done : List (Request V)) (r : Request V) (c : Collated V) (k : String)
      → distinct (keys r.kwargs) ≡ true
      → Dict.get c.batch_kwargs k ≡ rows done k
      → Dict.get (collate_step py_none defaults (length done) c r.kwargs).batch_kwargs k
        ≡ rows (done ++ r ∷ []) k
  rows-step done r c k d h = ground (
    arith,
    get-collate_step (length done) c r.kwargs k d,
    column-append k done (r ∷ []),
    column-unmentioned k done,
    any-append (λ (q : Request V). Dict.has q.kwargs k) done (r ∷ []),
    Dict.get_of_has c.batch_kwargs k,
    Dict.has_of_get c.batch_kwargs k (column k done),
  )

  collate_from-rows :
      (rs done : List (Request V)) (c : Collated V)
      → all_distinct rs ≡ true
      → ((k : String) → Dict.get c.batch_kwargs k ≡ rows done k)
      → (k : String)
      → Dict.get (collate_from py_none defaults (length done) c rs).batch_kwargs k
        ≡ rows (done ++ rs) k
  unfolding collate_from
  collate_from-rows [] done c d h k = rw append-nil (h k)
  collate_from-rows (r ∷ rs) done c d h k =
      let next = collate_step py_none defaults (length done) c r.kwargs in
      cc (
        collate_from-rows rs (done ++ r ∷ []) next (ground arith)
            (λ j. rows-step done r c j (ground arith) (h j)) k,
        append_assoc done (r ∷ []) rs,
        length-append done (r ∷ []),
        add-one (length done),
      )

  -- If the arguments of each request have distinct names, then after the collection the list of an
  -- argument has one entry for each request, in order: the request's own value, or the default
  -- where the request lacks the argument. The arguments that no request has have no list.
  pub collate-columns :
      (rs : List (Request V)) (k : String)
      → all_distinct rs ≡ true
      → Dict.get (collate py_none defaults rs).batch_kwargs k
        ≡ (if mentioned k rs then some (column k rs) else none)
  unfolding collate
  collate-columns rs k d =
      collate_from-rows rs [] (record { batch_kwargs = []; invalid_reqs = [] }) d
        (λ j. unfold Dict.get in refl) k
