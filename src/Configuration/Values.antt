-- ===== src/Configuration/Values.antt =====
-- The values of a configuration: what YAML gives, a dictionary being in insertion order.
use caikit.Common.{
  Text, String, Bool, true, false, not, ◌&&◌, ◌||◌, Option, none, some, ◌==◌, string_eq,
  if◌then◌else◌, ◌≡◌, refl, arith,
}

-- `N` is the type of the numbers.
mutual
  pub data Value (N : Type 0) : Type 0 where
    null : Value N
    flag : Bool → Value N
    number : N → Value N
    text : Text → Value N
    sequence : Values N → Value N
    mapping : Entries N → Value N

  pub data Values (N : Type 0) : Type 0 where
    nil : Values N
    cons : Value N → Values N → Values N

  pub data Entries (N : Type 0) : Type 0 where
    end : Entries N
    entry : String → Value N → Entries N → Entries N

module _ {N : Type 0} where
  -- `a + b` on lists
  unfoldable pub concat : Values N → Values N → Values N
  concat nil b = b
  concat (cons v a) b = cons v (concat a b)

  -- `d.get(k)`
  unfoldable pub get : Entries N → String → Option (Value N)
  get end k = none
  get (entry j v d) k = if j == k then some v else get d k

  -- `k in d`
  unfoldable pub has : Entries N → String → Bool
  has end k = false
  has (entry j v d) k = (j == k) || has d k

  -- `d[k] = v`
  unfoldable pub put : Entries N → String → Value N → Entries N
  put end k v = entry k v end
  put (entry j w d) k v = if j == k then entry j v d else entry j w (put d k v)

  -- No key stands twice, as in every Python dictionary, at any depth of dictionaries.
  unfoldable mutual
    pub distinct_value : Value N → Bool
    distinct_value null = true
    distinct_value (flag b) = true
    distinct_value (number n) = true
    distinct_value (text t) = true
    distinct_value (sequence vs) = true
    distinct_value (mapping d) = distinct_keys d

    pub distinct_keys : Entries N → Bool
    distinct_keys end = true
    distinct_keys (entry k v d) = not (has d k) && distinct_value v && distinct_keys d

  pub get-put :
      (d : Entries N) (k : String) (v : Value N) (j : String)
      → get (put d k v) j ≡ (if k == j then some v else get d j)
  unfolding get put
  get-put end k v j = refl
  get-put (entry i w d) k v j =
      ground (
        arith,
        string_eq.beq_iff i k,
        string_eq.beq_iff i j,
        string_eq.beq_iff k j,
        get-put d k v j,
      )

  pub get-eq-none : (d : Entries N) (k : String) → has d k ≡ false → get d k ≡ none
  unfolding get has
  get-eq-none end k h = refl
  get-eq-none (entry j v d) k h = ground (arith, get-eq-none d k)

  pub distinct-get :
      (d : Entries N) (k : String) (v : Value N)
      → distinct_keys d ≡ true
      → get d k ≡ some v
      → distinct_value v ≡ true
  unfolding get distinct_keys
  distinct-get end k v h g = absurd (ground arith)
  distinct-get (entry j w d) k v h g = ground (arith, distinct-get d k v)
