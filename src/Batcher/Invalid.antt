-- ===== src/Batcher/Invalid.antt =====
-- Which requests batcher.py rejects.
use mathlib.Core.List.{append-nil, append_assoc}
use native.Mathlib.Numerals.{add-one}
use caikit.Common.{
  ℕ, ◌≡◌, refl, ◌↔◌, String, true, List, [], ◌∷◌, ◌++◌, distinct, length, arith, string_eq, nat_eq,
  length-append,
}
use caikit.Common.Dict
use caikit.Common.Dict.{Dict, keys}
use caikit.Batcher.Collate.{Request, Collated, collate_step, collate_from, collate}
use caikit.Batcher.Columns.{column, mentioned, all_distinct, rows, rows-step}
use caikit.Batcher.Lacking.{IsInvalidAt, sound, complete}

-- What the loop keeps: the batch has the lists of the requests so far, and the invalid ones are known.
pub record IsCollated {ℓ} {V : Type ℓ} (py_none : V) (defaults : Dict String V)
    (done : List (Request V)) (c : Collated V) : Type ℓ where
  pub batch : (k : String) → Dict.get c.batch_kwargs k ≡ rows py_none defaults done k
  pub invalid : (j : ℕ) → (Dict.has c.invalid_reqs j ≡ true) ↔ IsInvalidAt defaults done j

module _ {ℓ} {V : Type ℓ} (py_none : V) (defaults : Dict String V) where
  known_of_rows :
      (done : List (Request V)) (c : Collated V)
      → ((k : String) → Dict.get c.batch_kwargs k ≡ rows py_none defaults done k)
      → (k : String) → Dict.has c.batch_kwargs k ≡ mentioned k done
  known_of_rows done c h k = ground (
    arith,
    h k,
    Dict.get_of_has c.batch_kwargs k,
    Dict.has_of_get c.batch_kwargs k (column py_none defaults k done),
  )

  step-IsCollated :
      (done : List (Request V)) (r : Request V) (c : Collated V)
      → distinct (keys r.kwargs) ≡ true
      → IsCollated py_none defaults done c
      → IsCollated py_none defaults
          (done ++ r ∷ [])
          (collate_step py_none defaults (length done) c r.kwargs)
  step-IsCollated done r c d h = record {
    batch = λ k. rows-step py_none defaults done r c k d (h.batch k);
    invalid = λ j.
        let known = known_of_rows done c h.batch in
        unfold collate_step in
        (
          sound defaults done r c known j (h.invalid j).0,
          complete defaults done r c known j (h.invalid j).1,
        );
  }

  collate_from-IsCollated :
      (rs done : List (Request V)) (c : Collated V)
      → all_distinct rs ≡ true
      → IsCollated py_none defaults done c
      → IsCollated py_none defaults (done ++ rs) (collate_from py_none defaults (length done) c rs)
  unfolding collate_from
  collate_from-IsCollated [] done c d h = rw append-nil h
  collate_from-IsCollated (r ∷ rs) done c d h =
      let next = collate_step py_none defaults (length done) c r.kwargs in
      let rest =
        collate_from-IsCollated rs (done ++ r ∷ []) next (ground arith)
          (step-IsCollated done r c (ground arith) h) in
      rw (append_assoc, length-append, add-one) at rest

  empty-IsCollated :
      IsCollated py_none defaults [] (record { batch_kwargs = []; invalid_reqs = [] })
  empty-IsCollated = record {
    batch = λ k. unfold Dict.get in refl;
    invalid = λ j. unfold Dict.has in (λ h. absurd (cc h), λ h. absurd (cc h.1));
  }

  pub collate-IsCollated :
      (rs : List (Request V))
      → all_distinct rs ≡ true
      → IsCollated py_none defaults rs (collate py_none defaults rs)
  unfolding collate
  collate-IsCollated rs d =
      collate_from-IsCollated rs [] (record { batch_kwargs = []; invalid_reqs = [] }) d
        empty-IsCollated

  -- If the arguments of each request have distinct names, the requests marked invalid are exactly
  -- those that lack an argument which another request of the batch has and which has no default,
  -- wherever in the batch that request stands.
  pub collate-invalid :
      (rs : List (Request V)) (j : ℕ)
      → all_distinct rs ≡ true
      → (Dict.has (collate py_none defaults rs).invalid_reqs j ≡ true) ↔ IsInvalidAt defaults rs j
  collate-invalid rs j d = (collate-IsCollated rs d).invalid j
