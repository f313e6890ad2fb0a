-- ===== src/Batcher/Ready.antt =====
-- The state in which batcher.py calls `run_batch`.
use caikit.Common.{
  ℕ, zero, suc, ◌<◌, ◌≡◌, refl, ap, ◌∙◌, sym, String, Bool, true, not, ◌&&◌, ◌||◌, none, some, List,
  [], ◌∷◌, distinct, contains, length, is_empty, leb, if◌then◌else◌, nat_eq, string_eq, arith,
  lt_of_get_elem?,
}
use mathlib.Core.Path.{fun_ext}
use caikit.Common.Dict
use caikit.Common.Dict.{Dict, keys}
use caikit.Batcher.Collate.{
  Request, Collated, collate, collate_from, collate_step, invalid_after, mark_range,
  without_default,
}
use caikit.Batcher.Columns.{mentioned, column, all_distinct, collate-columns}
use caikit.Batcher.Invalid.{collate-invalid}
use caikit.Batcher.Answers.{ids, stored, woken, reject_all-shape}
use caikit.Batcher.Deliver.{Board, Pending, reject_all, sort_desc}
use caikit.Batcher.Removal.{
  keep_from, remove_each, remove_each-keep, has-sort_desc, sort_desc-descends,
}

-- The requests at the positions that are not marked.
abbrev pub survivors {ℓ} : {A : Type ℓ} → Dict ℕ (List String) → List A → List A
survivors invalid = keep_from 0 (λ j. Dict.has invalid j)

distinct-mark_range :
    (i : ℕ) (err : List String) (reqs : Dict ℕ (List String))
    → distinct (keys reqs) ≡ true
    → distinct (keys (mark_range i err reqs)) ≡ true
unfolding mark_range
distinct-mark_range zero err reqs h = h
distinct-mark_range (suc i) err reqs h =
    Dict.distinct-put (mark_range i err reqs) i err (distinct-mark_range i err reqs h)

module _ {ℓ} {V : Type ℓ} (py_none : V) (defaults : Dict String V) where
  distinct-invalid_after :
      (i : ℕ) (new missing : List String) (reqs : Dict ℕ (List String))
      → distinct (keys reqs) ≡ true
      → distinct (keys (invalid_after defaults i new missing reqs)) ≡ true
  unfolding invalid_after
  distinct-invalid_after i new missing reqs h =
      let before =
        if leb 1 i && not (is_empty (without_default defaults new))
        then mark_range i (without_default defaults new) reqs
        else reqs in
      ground (
        arith,
        distinct-mark_range i (without_default defaults new) reqs h,
        Dict.distinct-put before i (without_default defaults missing),
      )

  distinct-collate_from :
      (rs : List (Request V)) (i : ℕ) (c : Collated V)
      → distinct (keys c.invalid_reqs) ≡ true
      → distinct (keys (collate_from py_none defaults i c rs).invalid_reqs) ≡ true
  unfolding collate_from collate_step
  distinct-collate_from [] i c h = h
  distinct-collate_from (r ∷ rs) i c h =
      distinct-collate_from rs (suc i) (collate_step py_none defaults i c r.kwargs)
        (distinct-invalid_after i _ _ c.invalid_reqs h)

  pub distinct-invalid :
      (rs : List (Request V)) → distinct (keys (collate py_none defaults rs).invalid_reqs) ≡ true
  unfolding collate
  distinct-invalid rs =
      distinct-collate_from rs 0 (record { batch_kwargs = []; invalid_reqs = [] }) refl

  pub column-keep_from :
      (k : String) (i : ℕ) (bad : ℕ → Bool) (rs : List (Request V))
      → keep_from i bad (column py_none defaults k rs)
        ≡ column py_none defaults k (keep_from i bad rs)
  column-keep_from k i bad [] = refl
  column-keep_from k i bad (r ∷ rs) = ground (arith, column-keep_from k (suc i) bad rs)

module _ {ℓ} {V R E : Type ℓ} (py_none : V) (defaults : Dict String V) (rs : List (Request V))
    (b : Board R E) (d : all_distinct rs ≡ true) where
  abbrev pub invalid : Dict ℕ (List String)
  invalid = (collate py_none defaults rs).invalid_reqs

  -- The state in which `run_batch` is called.
  pub record IsReady (q : Pending V R E) : Type ℓ where
    pub batch : q.current_batch ≡ survivors invalid rs
    pub rows :
        (k : String)
        → Dict.get q.batch_kwargs k ≡ (
            if mentioned k rs
            then some (column py_none defaults k (survivors invalid rs))
            else none)
    pub told :
        (n : ℕ)
        → (stored q.board n || contains n (ids q.current_batch))
          ≡ (stored b n || contains n (ids rs))
    pub heard :
        (n : ℕ)
        → (woken q.board n || contains n (ids q.current_batch)) ≡ (woken b n || contains n (ids rs))

  abbrev pub start : Pending V R E
  start = record {
    current_batch = rs;
    batch_kwargs = (collate py_none defaults rs).batch_kwargs;
    board = b;
  }

  invalid-fits : (j : ℕ) → Dict.has (sort_desc invalid) j ≡ true → j < length rs
  invalid-fits j h =
      let (r, at, lacks) =
        (collate-invalid py_none defaults rs j d).0 (sym (has-sort_desc invalid j) ∙ h) in
      lt_of_get_elem? rs j r at

  remove-survivors :
      {A : Type ℓ} (xs : List A) → remove_each (sort_desc invalid) xs ≡ survivors invalid xs
  remove-survivors xs =
      remove_each-keep (sort_desc invalid) xs
        (sort_desc-descends invalid (distinct-invalid py_none defaults rs))
      ∙ ap (λ bad. keep_from 0 bad xs) (fun_ext (has-sort_desc invalid))

  pub reject_all-IsReady :
      (q : Pending V R E) × (reject_all (sort_desc invalid) start ≡ some q) × IsReady q
  reject_all-IsReady =
      let (q, e, c, k, s, w) =
        reject_all-shape (sort_desc invalid) start
          (sort_desc-descends invalid (distinct-invalid py_none defaults rs)) invalid-fits in
      (
        q,
        e,
        record {
          batch = c ∙ remove-survivors rs;
          rows = λ j. ground (
            arith,
            k j,
            collate-columns py_none defaults rs j d,
            remove-survivors (column py_none defaults j rs),
            column-keep_from py_none defaults j 0 (λ i. Dict.has invalid i) rs,
          );
          told = s;
          heard = w;
        },
      )
