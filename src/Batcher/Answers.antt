-- ===== src/Batcher/Answers.antt =====
-- What the requests of one batch of batcher.py are told.
use caikit.Common.{
  ℕ, zero, suc, ◌+◌, ◌<◌, ◌≡◌, refl, String, Bool, true, ◌||◌, Option, none, some, List, [], ◌∷◌,
  contains, length, get_elem?, nat_eq, string_eq, arith, ◌==◌, Bool-cases, Option-cases, inl, inr,
  get_elem?_of_lt,
}
use mathlib.Core.Option
use caikit.Common.Dict
use caikit.Common.Dict.{Dict, keys}
use caikit.Batcher.Collate.{Request}
use caikit.Batcher.Deliver.{
  TaskResult, value, missing_arguments, assertion_error, batch_error, BatchOutcome, returned,
  raised, Board, Pending, post, remove_at, drop_row, reject_one, reject_all, post_results,
  post_error, finish,
}
use caikit.Batcher.Removal.{descends, has_above, remove_each}

module _ {ℓ} {V : Type ℓ} where
  abbrev pub ids : List (Request V) → List ℕ
  ids [] = []
  ids (r ∷ rs) = r.req_id ∷ ids rs

  contains-remove_at :
      (rs : List (Request V)) (i : ℕ) (r : Request V) (n : ℕ)
      → get_elem? rs i ≡ some r
      → contains n (ids rs) ≡ ((r.req_id == n) || contains n (ids (remove_at rs i)))
  unfolding remove_at
  contains-remove_at [] i r n h = cc
  contains-remove_at (q ∷ rs) zero r n h = ground arith
  contains-remove_at (q ∷ rs) (suc i) r n h = ground (arith, contains-remove_at rs i r n)

  length-remove_at :
      (rs : List (Request V)) (i : ℕ) → i < length rs → length (remove_at rs i) + 1 ≡ length rs
  unfolding remove_at
  length-remove_at [] i h = elim h [ ]
  length-remove_at (q ∷ rs) zero h = omega arith
  length-remove_at (q ∷ rs) (suc i) h = omega (arith, length-remove_at rs i)

  get-drop_row :
      (batch : Dict String (List V)) (i : ℕ) (k : String)
      → Dict.get (drop_row batch i) k ≡ Option.map (λ vals. remove_at vals i) (Dict.get batch k)
  unfolding drop_row Dict.get
  get-drop_row [] i k = refl
  get-drop_row ((j, vals) ∷ batch) i k = ground (arith, get-drop_row batch i k)

module _ {ℓ} {V : Type ℓ} where
  -- The indices that are left fit the batch that is left.
  fits_after :
      (i : ℕ) (err : List String) (items : List (ℕ × List String)) (rs : List (Request V))
      → descends ((i, err) ∷ items) ≡ true
      → ((j : ℕ) → Dict.has ((i, err) ∷ items) j ≡ true → j < length rs)
      → (i < length rs) × ((j : ℕ) → Dict.has items j ≡ true → j < length (remove_at rs i))
  unfolding Dict.has
  fits_after i err items rs d h =
      let lt : i < length rs = h i (ground arith) in
      (lt, λ j e. ground (arith, has_above i items j, length-remove_at rs i))

module _ {ℓ} {A B C : Type ℓ} where
  map-map :
      (f : B → C) (g : A → B) (o : Option A)
      → Option.map f (Option.map g o) ≡ Option.map (λ x. f (g x)) o
  map-map f g none = refl
  map-map f g (some x) = refl

module _ {ℓ} {R E : Type ℓ} where
  -- The request has a result and its event is set.
  abbrev pub stored : Board R E → ℕ → Bool
  stored b n = Dict.has b.finished n

  abbrev pub woken : Board R E → ℕ → Bool
  woken b n = contains n b.notified

module _ {ℓ} {V R E : Type ℓ} where
  post_results-told :
      (rs : List (Request V)) (xs : List R) (b : Board R E) (n : ℕ)
      → length xs ≡ length rs
      → (stored (post_results rs xs b) n ≡ (stored b n || contains n (ids rs)))
        × (woken (post_results rs xs b) n ≡ (woken b n || contains n (ids rs)))
  unfolding post_results
  post_results-told [] [] b n h = (ground arith, ground arith)
  post_results-told [] (x ∷ xs) b n h = absurd (omega arith)
  post_results-told (r ∷ rs) [] b n h = absurd (omega arith)
  post_results-told (r ∷ rs) (x ∷ xs) b n h =
      let (p, q) = post_results-told rs xs (post r.req_id (value x) b) n (omega arith) in
      (ground (arith, p, Dict.has-put b.finished r.req_id (value x) n), ground (arith, q))

  pub post_error-told :
      (rs : List (Request V)) (err : TaskResult R E) (b : Board R E) (n : ℕ)
      → (stored (post_error rs err b) n ≡ (stored b n || contains n (ids rs)))
        × (woken (post_error rs err b) n ≡ (woken b n || contains n (ids rs)))
  unfolding post_error
  post_error-told [] err b n = (ground arith, ground arith)
  post_error-told (r ∷ rs) err b n =
      let (p, q) = post_error-told rs err (post r.req_id err b) n in
      (ground (arith, p, Dict.has-put b.finished r.req_id err n), ground (arith, q))

  pub finish-told :
      (o : BatchOutcome R E) (rs : List (Request V)) (b : Board R E) (n : ℕ)
      → (stored (finish o rs b) n ≡ (stored b n || contains n (ids rs)))
        × (woken (finish o rs b) n ≡ (woken b n || contains n (ids rs)))
  unfolding finish
  finish-told (returned xs) rs b n = elim (Bool-cases (length xs == length rs)) [
    | inl e ↦ rw e (post_results-told rs xs b n (ground arith))
    | inr e ↦ rw e (post_error-told rs assertion_error b n)
  ]
  finish-told (raised e) rs b n = post_error-told rs (batch_error e) b n

  abbrev rejected : Pending V R E → ℕ → List String → Request V → Pending V R E
  rejected p i err r = record {
    current_batch = remove_at p.current_batch i;
    batch_kwargs = drop_row p.batch_kwargs i;
    board = post r.req_id (missing_arguments err) p.board;
  }

  -- The rejections never run out of range, and they take the same rows out of the batch and of
  -- each list of arguments.
  pub reject_all-shape :
      (items : List (ℕ × List String)) (p : Pending V R E)
      → descends items ≡ true
      → ((j : ℕ) → Dict.has items j ≡ true → j < length p.current_batch)
      → (q : Pending V R E) × (reject_all items p ≡ some q)
        × (q.current_batch ≡ remove_each items p.current_batch)
        × ((k : String)
            → Dict.get q.batch_kwargs k
              ≡ Option.map (remove_each items) (Dict.get p.batch_kwargs k))
        × ((n : ℕ)
            → (stored q.board n || contains n (ids q.current_batch))
              ≡ (stored p.board n || contains n (ids p.current_batch)))
        × ((n : ℕ)
            → (woken q.board n || contains n (ids q.current_batch))
              ≡ (woken p.board n || contains n (ids p.current_batch)))
  unfolding reject_all reject_one
  reject_all-shape [] p d h = (p, refl, refl, (λ k. ground arith), (λ n. refl), (λ n. refl))
  reject_all-shape ((i, err) ∷ items) p d h = elim (Option-cases (get_elem? p.current_batch i)) [
    | inl e ↦
        let (r, at) =
          get_elem?_of_lt p.current_batch i (fits_after i err items p.current_batch d h).0 in
        absurd (cc at)
    | inr (r, at) ↦
        let (q, e, c, k, s, w) =
          reject_all-shape items (rejected p i err r) (ground arith)
            (fits_after i err items p.current_batch d h).1 in
        (
          q,
          rw (at, reject_all) e,
          c,
          (λ j.
              rw (k j, get-drop_row)
                (map-map (remove_each items) (λ vals. remove_at vals i)
                  (Dict.get p.batch_kwargs j))),
          (λ n. ground (
            arith,
            s n,
            contains-remove_at p.current_batch i r n,
            Dict.has-put p.board.finished r.req_id (missing_arguments err) n,
          )),
          (λ n. ground (arith, w n, contains-remove_at p.current_batch i r n)),
        )
  ]
