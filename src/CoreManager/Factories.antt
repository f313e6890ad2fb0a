-- ===== src/CoreManager/Factories.antt =====
-- caikit/core/toolkit/factory.py: making components from their configuration, by the names of their types.
use caikit.Common.{
  ◌≡◌, ◌⊎◌, sym, refl, Option, none, some, [], ◌∷◌, Text, text_eq, text_beq_iff, arith, Bool-cases,
  Option-cases, inl, inr, if◌then◌else◌, Eq, ◌==◌, beq→eq, beq_refl, ◌&&◌, Bool, true, nat_eq,
}
use mathlib.Core.Path.{subst}
use caikit.Common.Dict
use caikit.Common.Dict.{Dict}
use caikit.CoreManager.Components.{Outcome, ok, value_error, file_not_found, other_error, then_do}

-- The configuration of an instance.
pub record InstanceConfig {ℓ} (G : Type ℓ) : Type ℓ where
  pub type_name : Option Text
  pub config : Option G
  pub import_class : Option Text

-- What the import of a class by the names of its module and itself gives.
pub data Imported {ℓ} (Cls : Type ℓ) : Type ℓ where
  found : Cls → Imported Cls
  not_constructible : Imported Cls
  no_module : Imported Cls
  no_class : Imported Cls

-- `s.rsplit(".", 1)`: the last dot divides the text. `none` is a text with no dot.
abbrev pub rsplit_dot : Text → Option (Text × Text)
rsplit_dot [] = none
rsplit_dot (c ∷ s) = elim (rsplit_dot s) [
  | some (a, b) ↦ some (c ∷ a, b)
  | none ↦ if c == b'.' then some ([], s) else none
]

-- The classes have names; `make` is the call of a class.
module _ {ℓ} {Cls : Type ℓ} ⦃classes : Eq Cls⦄ (name : Cls → Text) where
  -- The dict `_registered_types` is the state of a factory.
  -- `register`
  unfoldable pub register : Cls → Dict Text Cls → Outcome (Unit {0}) × Dict Text Cls
  register c types = elim (Dict.get types (name c)) [
    | none ↦ (ok tt, Dict.put types (name c) c)
    | some d ↦ if d == c then (ok tt, Dict.put types (name c) c) else (value_error, types)
  ]

  -- Each class stands under its own name.
  abbrev pub all_named : Dict Text Cls → Bool
  all_named [] = true
  all_named ((t, c) ∷ types) = (name c == t) && all_named types

  abbrev pub IsNamed : Dict Text Cls → Type 0
  IsNamed types = all_named types ≡ true

  register-keeps :
      (c : Cls) (types : Dict Text Cls) (t : Text) (d : Cls)
      → Dict.get types t ≡ some d
      → Dict.get (register c types).1 t ≡ some d
  unfolding register
  register-keeps c types t d h = elim (Option-cases (Dict.get types (name c))) [
    | inl e ↦ ground (arith, e, h, Dict.get-put types (name c) c t, text_beq_iff (name c) t)
    | inr (x, e) ↦ elim (Bool-cases (x == c)) [
      | inl b ↦
          let same = beq→eq {a = x} {b = c} b in
          ground (arith, e, b, same, h, Dict.get-put types (name c) c t, text_beq_iff (name c) t)
      | inr b ↦ ground (arith, e, b, h)
    ]
  ]

  put-IsNamed :
      (c : Cls) (types : Dict Text Cls) → IsNamed types → IsNamed (Dict.put types (name c) c)
  unfolding Dict.put
  put-IsNamed c [] n = rw (beq_refl (name c)) refl
  put-IsNamed c ((t, d) ∷ types) n =
      ground (arith, n, put-IsNamed c types, text_beq_iff t (name c), text_beq_iff (name c) t)

  register-types :
      (c : Cls) (types : Dict Text Cls)
      → ((register c types).1 ≡ Dict.put types (name c) c) ⊎ ((register c types).1 ≡ types)
  unfolding register
  register-types c types = elim (Option-cases (Dict.get types (name c))) [
    | inl e ↦ inl (ground (arith, e))
    | inr (x, e) ↦ elim (Bool-cases (x == c)) [
      | inl b ↦ inl (ground (arith, e, b))
      | inr b ↦ inr (ground (arith, e, b))
    ]
  ]

  register-IsNamed :
      (c : Cls) (types : Dict Text Cls) → IsNamed types → IsNamed (register c types).1
  register-IsNamed c types n = elim (register-types c types) [
    | inl e ↦ subst IsNamed (sym e) (put-IsNamed c types n)
    | inr e ↦ subst IsNamed (sym e) n
  ]

  module _ {G Inst : Type ℓ} (empty : G) (make : Cls → G → Text → Outcome Inst) where
    unfoldable given_or : Option G → G
    given_or none = empty
    given_or (some g) = g

    unfoldable instance_name_of : Option Text → Cls → Text
    instance_name_of none c = name c
    instance_name_of (some []) c = name c
    instance_name_of (some (x ∷ xs)) c = x ∷ xs

    -- `Factory.construct`; a type that is not given is not registered.
    unfoldable pub construct : InstanceConfig G → Option Text → Dict Text Cls → Outcome Inst
    unfolding given_or instance_name_of
    construct g instance_name types = elim g.type_name [
      | none ↦ value_error
      | some t ↦ elim (Dict.get types t) [
        | none ↦ value_error
        | some c ↦ make c (given_or g.config) (instance_name_of instance_name c)
      ]
    ]

    module _ (import : Text → Text → Imported Cls) where
      unfoldable register_imported :
          Imported Cls → Dict Text Cls → Outcome (Unit {0}) × Dict Text Cls
      unfolding register
      register_imported (found c) types = register c types
      register_imported not_constructible types = (other_error, types)
      register_imported no_module types = (value_error, types)
      register_imported no_class types = (value_error, types)

      unfoldable import_named :
          Option (Text × Text) → Dict Text Cls → Outcome (Unit {0}) × Dict Text Cls
      unfolding register_imported
      import_named none types = (value_error, types)
      import_named (some (m, c)) types = register_imported (import m c) types

      unfoldable import_first : Option Text → Dict Text Cls → Outcome (Unit {0}) × Dict Text Cls
      unfolding import_named
      import_first none types = (ok tt, types)
      import_first (some []) types = (ok tt, types)
      import_first (some (x ∷ xs)) types = import_named (rsplit_dot (x ∷ xs)) types

      -- `ImportableFactory.construct`
      unfoldable pub import_construct :
          InstanceConfig G → Option Text → Dict Text Cls → Outcome Inst × Dict Text Cls
      unfolding import_first construct
      import_construct g instance_name types =
          then_do (import_first g.import_class types)
            (λ done types'. (construct g instance_name types', types'))

      -- What holds of the types as they are and of what `register` leaves holds of what the import leaves.
      register_imported-induct {κ} :
          (P : Dict Text Cls → Type κ) (types : Dict Text Cls)
          → P types
          → ((c : Cls) → P (register c types).1)
          → (found_class : Imported Cls) → P (register_imported found_class types).1
      unfolding register_imported
      register_imported-induct P types p r (found c) = r c
      register_imported-induct P types p r not_constructible = p
      register_imported-induct P types p r no_module = p
      register_imported-induct P types p r no_class = p

      import_named-induct {κ} :
          (P : Dict Text Cls → Type κ) (types : Dict Text Cls)
          → P types
          → ((c : Cls) → P (register c types).1)
          → (o : Option (Text × Text)) → P (import_named o types).1
      unfolding import_named
      import_named-induct P types p r none = p
      import_named-induct P types p r (some (m, c)) =
          register_imported-induct P types p r (import m c)

      import_first-induct {κ} :
          (P : Dict Text Cls → Type κ) (types : Dict Text Cls)
          → P types
          → ((c : Cls) → P (register c types).1)
          → (o : Option Text) → P (import_first o types).1
      unfolding import_first
      import_first-induct P types p r none = p
      import_first-induct P types p r (some []) = p
      import_first-induct P types p r (some (x ∷ xs)) =
          import_named-induct P types p r (rsplit_dot (x ∷ xs))

      then_construct :
          (g : InstanceConfig G) (instance_name : Option Text)
          (x : Outcome (Unit {0}) × Dict Text Cls)
          → (then_do x (λ done types'. (construct g instance_name types', types'))).1 ≡ x.1
      then_construct g instance_name (ok u, types) = refl
      then_construct g instance_name (value_error, types) = refl
      then_construct g instance_name (file_not_found, types) = refl
      then_construct g instance_name (other_error, types) = refl

      -- However the construction of an instance ends: if each class stood under its own name, then
      -- each does, and a name that stood for a class still stands for it.
      pub import_construct-keeps :
          (g : InstanceConfig G) (instance_name : Option Text) (types : Dict Text Cls) (t : Text)
          (d : Cls)
          → IsNamed types
          → Dict.get types t ≡ some d
          → IsNamed (import_construct g instance_name types).1
            × (Dict.get (import_construct g instance_name types).1 t ≡ some d)
      unfolding import_construct
      import_construct-keeps g instance_name types t d n h =
          let same = sym (then_construct g instance_name (import_first g.import_class types)) in
          (
            subst IsNamed same (
                import_first-induct IsNamed types n (λ c. register-IsNamed c types n)
                  g.import_class),
            subst (λ e. Dict.get e t ≡ some d) same
                (import_first-induct (λ e. Dict.get e t ≡ some d) types h
                  (λ c. register-keeps c types t d h) g.import_class),
          )
