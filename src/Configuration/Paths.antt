-- ===== src/Configuration/Paths.antt =====
-- What `merge_configs` leaves along a path of keys.
use caikit.Common.{
  String, Bool, true, false, Option, none, some, ◌>>=◌, List, [], ◌∷◌, Option-cases, ◌≡◌, refl, ap,
  ◌∙◌, sym, inl, inr, arith,
}
use caikit.Configuration.Values.{
  Value, null, flag, number, text, sequence, mapping, Entries, end, entry, concat, get,
  distinct_keys, distinct_value, distinct-get,
}
use caikit.Configuration.Merging.{merge_entries, merge_at}
use caikit.Configuration.Merged.{at_key, key_succeeds, get-merge_entries}

module _ {N : Type 0} where
  -- `cfg.k.j...` through dictionaries; the first key stands apart.
  unfoldable pub find : Entries N → String → List String → Option (Value N)
  find d k [] = get d k
  find d k (j ∷ p) = elim (get d k) [
    | none ↦ none
    | some null ↦ none
    | some (flag b) ↦ none
    | some (number n) ↦ none
    | some (text t) ↦ none
    | some (sequence vs) ↦ none
    | some (mapping e) ↦ find e j p
  ]

  -- Whether the overrides say something at the path that is no dictionary, or nothing on the way to
  -- it: each of them is a dictionary, up to the path's end or to a key that they lack.
  unfoldable pub decides : Entries N → String → List String → Bool
  decides d k [] = elim (get d k) [ some (mapping e) ↦ false | _ ↦ true ]
  decides d k (j ∷ p) = elim (get d k) [
    | none ↦ true
    | some null ↦ false
    | some (flag b) ↦ false
    | some (number n) ↦ false
    | some (text t) ↦ false
    | some (sequence vs) ↦ false
    | some (mapping e) ↦ decides e j p
  ]

  -- A list goes before the list of the base, any other value takes its place, and the base's value
  -- stays where there is no other.
  abbrev pub merged : Option (Value N) → Option (Value N) → Option (Value N)
  merged b none = b
  merged (some (sequence bs)) (some (sequence vs)) = some (sequence (concat vs bs))
  merged b (some v) = some v

  merged-none : (y : Option (Value N)) → y ≡ merged none y
  merged-none none = refl
  merged-none (some v) = refl

  find_end : (j : String) (p : List String) → find end j p ≡ none
  unfolding find get
  find_end j [] = refl
  find_end j (k ∷ p) = refl

  abbrev is_mapping : Option (Value N) → Bool
  is_mapping (some (mapping d)) = true
  is_mapping _ = false

  merge_at-merged :
      (x y : Option (Value N))
      → is_mapping y ≡ false
      → key_succeeds x y ≡ true
      → at_key x y ≡ merged x y
  unfolding merge_at
  merge_at-merged x none h g = refl
  merge_at-merged x (some (mapping d)) h g = absurd (ground arith)
  merge_at-merged none (some v) h g = refl
  merge_at-merged (some null) (some v) h g = refl
  merge_at-merged (some (flag b)) (some v) h g = refl
  merge_at-merged (some (number n)) (some v) h g = refl
  merge_at-merged (some (text t)) (some v) h g = refl
  merge_at-merged (some (sequence bs)) (some (sequence vs)) h g = refl
  merge_at-merged (some (sequence bs)) (some null) h g = refl
  merge_at-merged (some (sequence bs)) (some (flag b)) h g = refl
  merge_at-merged (some (sequence bs)) (some (number n)) h g = refl
  merge_at-merged (some (sequence bs)) (some (text t)) h g = refl
  merge_at-merged (some (mapping b)) (some (sequence vs)) h g = absurd (ground arith)
  merge_at-merged (some (mapping b)) (some null) h g = refl
  merge_at-merged (some (mapping b)) (some (flag c)) h g = refl
  merge_at-merged (some (mapping b)) (some (number n)) h g = refl
  merge_at-merged (some (mapping b)) (some (text t)) h g = refl

  decides-not_mapping :
      (o : Entries N) (k : String) → decides o k [] ≡ true → is_mapping (get o k) ≡ false
  unfolding decides
  decides-not_mapping o k h = cases (get o k) h
    where
      cases :
          (y : Option (Value N))
          → (elim y [ some (mapping e) ↦ false | _ ↦ true ]) ≡ true
          → is_mapping y ≡ false
      cases none z = refl
      cases (some null) z = refl
      cases (some (flag b)) z = refl
      cases (some (number n)) z = refl
      cases (some (text t)) z = refl
      cases (some (sequence vs)) z = refl
      cases (some (mapping e)) z = absurd (ground arith)

  -- The values under a key of the merge, of the base and of the overrides, and what `find` and `decides`
  -- make of them below that key.
  abbrev below : Option (Value N) → String → List String → Option (Value N)
  below (some (mapping e)) j p = find e j p
  below _ j p = none

  abbrev decides_below : Option (Value N) → String → List String → Bool
  decides_below none j p = true
  decides_below (some (mapping e)) j p = decides e j p
  decides_below _ j p = false

  find-below :
      (d : Entries N) (k j : String) (p : List String) → find d k (j ∷ p) ≡ below (get d k) j p
  unfolding find
  find-below d k j p = cases (get d k)
    where
      cases :
          (x : Option (Value N))
          → (elim x [
            | none ↦ none
            | some null ↦ none
            | some (flag b) ↦ none
            | some (number n) ↦ none
            | some (text t) ↦ none
            | some (sequence vs) ↦ none
            | some (mapping e) ↦ find e j p
          ])
            ≡ below x j p
      cases none = refl
      cases (some null) = refl
      cases (some (flag b)) = refl
      cases (some (number n)) = refl
      cases (some (text t)) = refl
      cases (some (sequence vs)) = refl
      cases (some (mapping e)) = refl

  decides-below :
      (d : Entries N) (k j : String) (p : List String)
      → decides d k (j ∷ p) ≡ decides_below (get d k) j p
  unfolding decides
  decides-below d k j p = cases (get d k)
    where
      cases :
          (x : Option (Value N))
          → (elim x [
            | none ↦ true
            | some null ↦ false
            | some (flag b) ↦ false
            | some (number n) ↦ false
            | some (text t) ↦ false
            | some (sequence vs) ↦ false
            | some (mapping e) ↦ decides e j p
          ])
            ≡ decides_below x j p
      cases none = refl
      cases (some null) = refl
      cases (some (flag b)) = refl
      cases (some (number n)) = refl
      cases (some (text t)) = refl
      cases (some (sequence vs)) = refl
      cases (some (mapping e)) = refl

  abbrev distinct_below : Option (Value N) → Bool
  distinct_below none = true
  distinct_below (some v) = distinct_value v

  -- One key of the path, given what the merge does below it.
  below-merge :
      (j : String) (p : List String)
      → ((b o m : Entries N)
          → distinct_keys o ≡ true
          → merge_entries b o ≡ some m
          → decides o j p ≡ true
          → find m j p ≡ merged (find b j p) (find o j p))
      → (x y : Option (Value N)) → distinct_below y ≡ true
      → key_succeeds x y ≡ true
      → decides_below y j p ≡ true
      → below (at_key x y) j p ≡ merged (below x j p) (below y j p)
  unfolding merge_at distinct_keys
  below-merge j p ih x none d s t = refl
  below-merge j p ih x (some null) d s t = absurd (ground arith)
  below-merge j p ih x (some (flag b)) d s t = absurd (ground arith)
  below-merge j p ih x (some (number n)) d s t = absurd (ground arith)
  below-merge j p ih x (some (text c)) d s t = absurd (ground arith)
  below-merge j p ih x (some (sequence vs)) d s t = absurd (ground arith)
  below-merge j p ih none (some (mapping o)) d s t = merged-none (find o j p)
  below-merge j p ih (some null) (some (mapping o)) d s t = merged-none (find o j p)
  below-merge j p ih (some (flag b)) (some (mapping o)) d s t = merged-none (find o j p)
  below-merge j p ih (some (number n)) (some (mapping o)) d s t = merged-none (find o j p)
  below-merge j p ih (some (text c)) (some (mapping o)) d s t = merged-none (find o j p)
  below-merge j p ih (some (sequence bs)) (some (mapping end)) d s t =
      sym (ap (merged none) (find_end j p))
  below-merge j p ih (some (sequence bs)) (some (mapping (entry k v o))) d s t =
      absurd (ground arith)
  below-merge j p ih (some (mapping b)) (some (mapping o)) d s t =
      elim (Option-cases (merge_entries b o)) [
        | inl e ↦ absurd (ground arith)
        | inr (m, e) ↦
            ap (λ r. below r j p) (ap (λ q. q >>= λ c. some (mapping c)) e) ∙ ih b o m d e t
      ]

  distinct_get-below :
      (o : Entries N) (k : String) → distinct_keys o ≡ true → distinct_below (get o k) ≡ true
  distinct_get-below o k h = elim (Option-cases (get o k)) [
    | inl e ↦ ap distinct_below e
    | inr (v, e) ↦ ap distinct_below e ∙ distinct-get o k v h e
  ]

  -- After a deep merge that succeeds, of overrides in which no key stands twice, a path of keys
  -- at which the overrides settle the matter leads to what the two have there: the value of the
  -- overrides, put before the list of the base if both are lists, or the base's value where the
  -- overrides have none.
  pub find-merge_entries :
      (base overrides result : Entries N) (k : String) (path : List String)
      → distinct_keys overrides ≡ true
      → merge_entries base overrides ≡ some result
      → decides overrides k path ≡ true
      → find result k path ≡ merged (find base k path) (find overrides k path)
  unfolding find
  find-merge_entries b o m k [] d e t =
      let r = get-merge_entries b o m k d e in
      r.0 ∙ merge_at-merged (get b k) (get o k) (decides-not_mapping o k t) (r.1)
  find-merge_entries b o m k (j ∷ p) d e t =
      let r = get-merge_entries b o m k d e in
      find-below m k j p
      ∙ ap (λ z. below z j p) (r.0)
      ∙ below-merge j p (λ b' o' m'. find-merge_entries b' o' m' j p) (get b k) (get o k)
          (distinct_get-below o k d) (r.1) (sym (decides-below o k j p) ∙ t)
      ∙ sym (λ i. merged (find-below b k j p i) (find-below o k j p i))
