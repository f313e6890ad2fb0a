-- ===== src/Batcher/Lacking.antt =====
-- What one more request of a batch shows about the requests before it in batcher.py.
use caikit.Common.{
  ℕ, zero, suc, ◌<◌, ◌≡◌, sym, inl, inr, String, true, false, not, ◌&&◌, ◌||◌, some, List, [], ◌∷◌,
  ◌++◌, contains, length, get_elem?, is_empty, leb, ltb, if◌then◌else◌, arith, string_eq, nat_eq,
  ◌==◌, Bool-cases, contains-filter, any-append, get_elem?-concat, get_elem?_of_lt, lt_of_get_elem?,
  any_of_get_elem?, contains_of_not-is_empty, not-is_empty_of_contains,
}
use caikit.Common.Dict
use caikit.Common.Dict.{Dict, keys}
use caikit.Batcher.Collate.{
  Request, Collated, mark_range, new_kwargs, missing_kwargs, without_default, invalid_after,
}
use caikit.Batcher.Columns.{mentioned, contains-new, contains-missing}

has-mark_range :
    (i : ℕ) (err : List String) (reqs : Dict ℕ (List String)) (j : ℕ)
    → Dict.has (mark_range i err reqs) j ≡ (ltb j i || Dict.has reqs j)
unfolding mark_range
has-mark_range zero err reqs j = ground arith
has-mark_range (suc i) err reqs j =
    ground (arith, Dict.has-put (mark_range i err reqs) i err j, has-mark_range i err reqs j)

module _ {ℓ} {V : Type ℓ} (defaults : Dict String V) where
  -- The request lacks an argument that another request of the batch has, and that has no default.
  abbrev pub Lacks : List (Request V) → Dict String V → Type 0
  Lacks rs kwargs =
      (k : String) × (mentioned k rs ≡ true)
      × (Dict.has kwargs k ≡ false)
      × (Dict.has defaults k ≡ false)

  -- Position `j` holds a request that lacks a required argument.
  abbrev pub IsInvalidAt : List (Request V) → ℕ → Type ℓ
  IsInvalidAt rs j = (r : Request V) × (get_elem? rs j ≡ some r) × Lacks rs r.kwargs

  contains-without_default :
      (ks : List String) (k : String)
      → contains k (without_default defaults ks) ≡ (not (Dict.has defaults k) && contains k ks)
  unfolding without_default
  contains-without_default ks k = contains-filter (λ j. not (Dict.has defaults j)) k ks

  has-invalid_after :
      (i : ℕ) (new missing : List String) (reqs : Dict ℕ (List String)) (j : ℕ)
      → Dict.has (invalid_after defaults i new missing reqs) j ≡ (
          (not (is_empty (without_default defaults new)) && ltb j i)
          || (not (is_empty (without_default defaults missing)) && i == j)
          || Dict.has reqs j)
  unfolding invalid_after
  has-invalid_after i new missing reqs j =
      let before =
        if leb 1 i && not (is_empty (without_default defaults new))
        then mark_range i (without_default defaults new) reqs
        else reqs in
      ground (
        arith,
        has-mark_range i (without_default defaults new) reqs j,
        Dict.has-put before i (without_default defaults missing) j,
      )

  module _ (done : List (Request V)) (r : Request V) (c : Collated V) where
    abbrev new : List String
    new = new_kwargs c.batch_kwargs r.kwargs

    abbrev missing : List String
    missing = missing_kwargs c.batch_kwargs r.kwargs

    module _ (known : (k : String) → Dict.has c.batch_kwargs k ≡ mentioned k done) where
      mentioned-concat :
          (k : String) → mentioned k (done ++ r ∷ []) ≡ (mentioned k done || Dict.has r.kwargs k)
      mentioned-concat k =
          ground (arith, any-append (λ (q : Request V). Dict.has q.kwargs k) done (r ∷ []))

      -- A new argument without a default shows every earlier request to be invalid.
      new-Lacks :
          (j : ℕ)
          → is_empty (without_default defaults new) ≡ false
          → j < length done
          → IsInvalidAt (done ++ r ∷ []) j
      new-Lacks j h lt =
          let (k, in_new) = contains_of_not-is_empty (without_default defaults new) h in
          let (q, at) = get_elem?_of_lt done j lt in
          (
            q,
            ground (arith, get_elem?-concat done r j),
            (
              k,
              ground (
                arith,
                mentioned-concat k,
                contains-without_default new k,
                contains-new c.batch_kwargs r.kwargs k,
              ),
              ground (
                arith,
                contains-without_default new k,
                contains-new c.batch_kwargs r.kwargs k,
                known k,
                any_of_get_elem? (λ (p : Request V). Dict.has p.kwargs k) done j q,
              ),
              ground (arith, contains-without_default new k),
            ),
          )

      missing-Lacks :
          is_empty (without_default defaults missing) ≡ false
          → IsInvalidAt (done ++ r ∷ []) (length done)
      missing-Lacks h =
          let (k, in_missing) = contains_of_not-is_empty (without_default defaults missing) h in
          (
            r,
            ground (arith, get_elem?-concat done r (length done)),
            (
              k,
              ground (
                arith,
                mentioned-concat k,
                known k,
                contains-without_default missing k,
                contains-missing c.batch_kwargs r.kwargs k,
              ),
              ground (
                arith,
                contains-without_default missing k,
                contains-missing c.batch_kwargs r.kwargs k,
              ),
              ground (arith, contains-without_default missing k),
            ),
          )

      Lacks-mono : (kwargs : Dict String V) → Lacks done kwargs → Lacks (done ++ r ∷ []) kwargs
      Lacks-mono kwargs (k, m, n, d) = (k, ground (arith, mentioned-concat k), n, d)

      -- What one more request adds to the invalid requests.
      pub sound :
          (j : ℕ)
          → (Dict.has c.invalid_reqs j ≡ true → IsInvalidAt done j)
          → Dict.has (invalid_after defaults (length done) new missing c.invalid_reqs) j ≡ true
          → IsInvalidAt (done ++ r ∷ []) j
      sound j old h = elim (Bool-cases (Dict.has c.invalid_reqs j)) [
        | inl e ↦
            let (q, at, lacks) = old e in
            (
              q,
              ground (arith, get_elem?-concat done r j, lt_of_get_elem? done j q),
              Lacks-mono q.kwargs lacks,
            )
        | inr e ↦ elim (Bool-cases (is_empty (without_default defaults new))) [
          | inl f ↦
              late j (ground (arith, has-invalid_after (length done) new missing c.invalid_reqs j))
                (ground (arith, has-invalid_after (length done) new missing c.invalid_reqs j))
          | inr f ↦ elim (Bool-cases (ltb j (length done))) [
            | inl g ↦ new-Lacks j f (ground arith)
            | inr g ↦
                late j
                  (ground (arith, has-invalid_after (length done) new missing c.invalid_reqs j))
                  (ground (arith, has-invalid_after (length done) new missing c.invalid_reqs j))
          ]
        ]
      ]
        where
          late :
              (j : ℕ)
              → is_empty (without_default defaults missing) ≡ false
              → length done ≡ j
              → IsInvalidAt (done ++ r ∷ []) j
          late j f g = rw (sym g) (missing-Lacks f)

      pub complete :
          (j : ℕ)
          → (IsInvalidAt done j → Dict.has c.invalid_reqs j ≡ true)
          → IsInvalidAt (done ++ r ∷ []) j
          → Dict.has (invalid_after defaults (length done) new missing c.invalid_reqs) j ≡ true
      complete j old (q, at, (k, m, n, d)) = elim (Bool-cases (ltb j (length done))) [
        | inl g ↦ elim (Bool-cases (mentioned k done)) [
          | inl e ↦
              let at' : get_elem? done j ≡ some q = ground (arith, get_elem?-concat done r j) in
              ground (
                arith,
                old (q, at', (k, e, n, d)),
                has-invalid_after (length done) new missing c.invalid_reqs j,
              )
          | inr e ↦ ground (
            arith,
            has-invalid_after (length done) new missing c.invalid_reqs j,
            not-is_empty_of_contains (without_default defaults new) k,
            contains-without_default new k,
            contains-new c.batch_kwargs r.kwargs k,
            known k,
            mentioned-concat k,
          )
        ]
        | inr g ↦
            let same : (length done ≡ j) × (q ≡ r) = (
              ground (arith, get_elem?-concat done r j),
              ground (arith, get_elem?-concat done r j),
            ) in
            let absent : Dict.has r.kwargs k ≡ false = cc (same.1, n) in
            ground (
              arith,
              same.0,
              has-invalid_after (length done) new missing c.invalid_reqs j,
              not-is_empty_of_contains (without_default defaults missing) k,
              contains-without_default missing k,
              contains-missing c.batch_kwargs r.kwargs k,
              known k,
              mentioned-concat k,
            )
      ]
