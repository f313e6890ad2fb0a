-- ===== src/Configuration/Merged.antt =====
-- What `merge_configs` leaves under each key, and when it raises.
use caikit.Common.{
  String, Bool, true, false, not, ◌||◌, Option, none, some, ◌>>=◌, ◌==◌, string_eq, succeeds,
  Bool-cases, Option-cases, ◌≡◌, refl, ap, ◌∙◌, inl, inr, arith,
}
use caikit.Configuration.Values.{
  Value, null, flag, number, text, sequence, mapping, Entries, end, entry, get, put, has, get-put,
  get-eq-none, distinct_keys, distinct_value,
}
use caikit.Configuration.Merging.{merge_entries, merge_at}

succeeds-bind :
    {A B : Type 0} (o : Option A) (f : A → B) → succeeds (o >>= λ a. some (f a)) ≡ succeeds o
succeeds-bind none f = refl
succeeds-bind (some a) f = refl

module _ {N : Type 0} where
  -- A list of overrides for a dictionary, or overrides for a list, at a place that both have.
  unfoldable mutual
    pub clashes : Entries N → Entries N → Bool
    clashes base end = false
    clashes base (entry k v rest) = clash_at (get base k) v || clashes base rest

    pub clash_at : Option (Value N) → Value N → Bool
    clash_at (some (sequence bs)) (mapping end) = false
    clash_at (some (sequence bs)) (mapping (entry k v d)) = true
    clash_at (some (mapping b)) (sequence vs) = true
    clash_at (some (mapping b)) (mapping d) = clashes b d
    clash_at _ _ = false

  -- A key that the overrides lack does not count.
  clashes-put :
      (b : Entries N) (k : String) (v : Value N) (o : Entries N)
      → has o k ≡ false
      → clashes (put b k v) o ≡ clashes b o
  unfolding clashes has
  clashes-put b k v end h = refl
  clashes-put b k v (entry j w o) h =
      ground
        (arith, get-put b k v j, string_eq.beq_iff k j, string_eq.beq_iff j k, clashes-put b k v o)

  merge_entries-step :
      (b : Entries N) (k : String) (v : Value N) (o : Entries N) (x : Option (Value N))
      → merge_at (get b k) v ≡ x
      → succeeds (merge_entries b (entry k v o)) ≡ succeeds (x >>= λ w. merge_entries (put b k w) o)
  unfolding merge_entries
  merge_entries-step b k v o x e = rw e refl

  entries_step :
      (b : Entries N) (k : String) (v : Value N) (o : Entries N)
      → has o k ≡ false
      → (x : Option (Value N)) → merge_at (get b k) v ≡ x
      → succeeds x ≡ not (clash_at (get b k) v)
      → ((w : Value N) → succeeds (merge_entries (put b k w) o) ≡ not (clashes (put b k w) o))
      → succeeds (merge_entries b (entry k v o)) ≡ not (clash_at (get b k) v || clashes b o)
  entries_step b k v o h none e p q = merge_entries-step b k v o none e ∙ cases _ _ p
    where
      cases : (c d : Bool) → false ≡ not c → false ≡ not (c || d)
      cases true d z = refl
      cases false d z = absurd (ground arith)
  entries_step b k v o h (some w) e p q =
      merge_entries-step b k v o (some w) e ∙ q w ∙ ap not (clashes-put b k w o h) ∙ cases _ _ p
    where
      cases : (c d : Bool) → true ≡ not c → not d ≡ not (c || d)
      cases true d z = absurd (ground arith)
      cases false d z = refl

  mutual
    unfolding merge_entries clashes distinct_keys

    merge_entries-clashes :
        (b o : Entries N)
        → distinct_keys o ≡ true
        → succeeds (merge_entries b o) ≡ not (clashes b o)
    merge_entries-clashes b end h = refl
    merge_entries-clashes b (entry k v o) h =
        entries_step b k v o (ground arith) (merge_at (get b k) v) refl
          (merge_at-clashes (get b k) v (ground arith))
          (λ w. merge_entries-clashes (put b k w) o (ground arith))

    merge_at-clashes :
        (x : Option (Value N)) (v : Value N)
        → distinct_value v ≡ true
        → succeeds (merge_at x v) ≡ not (clash_at x v)
    merge_at-clashes (some (mapping b)) (mapping d) h =
        succeeds-bind (merge_entries b d) mapping ∙ merge_entries-clashes b d h
    merge_at-clashes (some (mapping b)) (sequence vs) h = refl
    merge_at-clashes (some (mapping b)) null h = refl
    merge_at-clashes (some (mapping b)) (flag c) h = refl
    merge_at-clashes (some (mapping b)) (number n) h = refl
    merge_at-clashes (some (mapping b)) (text t) h = refl
    merge_at-clashes (some (sequence bs)) (mapping end) h = refl
    merge_at-clashes (some (sequence bs)) (mapping (entry k v d)) h = refl
    merge_at-clashes (some (sequence bs)) (sequence vs) h = refl
    merge_at-clashes (some (sequence bs)) null h = refl
    merge_at-clashes (some (sequence bs)) (flag c) h = refl
    merge_at-clashes (some (sequence bs)) (number n) h = refl
    merge_at-clashes (some (sequence bs)) (text t) h = refl
    merge_at-clashes (some null) v h = refl
    merge_at-clashes (some (flag c)) v h = refl
    merge_at-clashes (some (number n)) v h = refl
    merge_at-clashes (some (text t)) v h = refl
    merge_at-clashes none v h = refl

  -- A deep merge of overrides with distinct keys succeeds exactly when the two do not clash: it raises
  -- if and only if some place that both have, under dictionaries of both, holds a list in one and a
  -- dictionary in the other, the dictionary of the overrides not being empty.
  pub merge_entries-succeeds :
      (base overrides : Entries N)
      → distinct_keys overrides ≡ true
      → succeeds (merge_entries base overrides) ≡ not (clashes base overrides)
  merge_entries-succeeds base overrides h = merge_entries-clashes base overrides h

  -- What a key has after the merge, from what it has in the base and in the overrides.
  abbrev pub at_key : Option (Value N) → Option (Value N) → Option (Value N)
  at_key b none = b
  at_key b (some v) = merge_at b v

  abbrev pub key_succeeds : Option (Value N) → Option (Value N) → Bool
  key_succeeds b none = true
  key_succeeds b (some v) = succeeds (merge_at b v)

  key_step :
      (b : Entries N) (j : String) (v w : Value N) (o m : Entries N) (k : String)
      → has o j ≡ false
      → merge_at (get b j) v ≡ some w
      → get m k ≡ at_key (get (put b j w) k) (get o k)
      → key_succeeds (get (put b j w) k) (get o k) ≡ true
      → (get m k ≡ at_key (get b k) (get (entry j v o) k))
        × (key_succeeds (get b k) (get (entry j v o) k) ≡ true)
  unfolding get
  key_step b j v w o m k h e p q = elim (Bool-cases (j == k)) [
    | inl s ↦ ground (arith, get-put b j w k, string_eq.beq_iff j k, get-eq-none o j)
    | inr s ↦ ground (arith, get-put b j w k, string_eq.beq_iff j k)
  ]

  -- The merge as seen at one key: the order of the overrides does not matter.
  pub get-merge_entries :
      (b o m : Entries N) (k : String)
      → distinct_keys o ≡ true
      → merge_entries b o ≡ some m
      → (get m k ≡ at_key (get b k) (get o k)) × (key_succeeds (get b k) (get o k) ≡ true)
  unfolding merge_entries distinct_keys get
  get-merge_entries b end m k d e = ground arith
  get-merge_entries b (entry j v o) m k d e = elim (Option-cases (merge_at (get b j) v)) [
    | inl f ↦ absurd (ground arith)
    | inr (w, f) ↦
        let r = get-merge_entries (put b j w) o m k (ground arith) (ground arith) in
        key_step b j v w o m k (ground arith) f (r.0) (r.1)
  ]
