-- ===== src/Base/Assoc.antt =====
-- A Go map with string keys, as an association list: the first entry of a key is its value.
use mathlib.Core.Path.{◌≡◌, refl}
use mathlib.Core.List.{List, [], ◌∷◌}
use mathlib.Core.Option.{Option, none, some}
use native.Mathlib.Omega.{arith}
use go_platform.Base.Tests.{if◌then◌else◌}
use go_platform.Base.Text.{GoString, str_eq, str_eq_iff}

module _ {κ} {A : Type κ} where
  unfoldable pub lookup : GoString → List (GoString × A) → Option A
  lookup key [] = none
  lookup key ((name, a) ∷ rest) = if str_eq name key then some a else lookup key rest

  -- `delete(m, key)`
  unfoldable pub delete : GoString → List (GoString × A) → List (GoString × A)
  delete key [] = []
  delete key ((name, a) ∷ rest) =
      let left = delete key rest in if str_eq name key then left else (name, a) ∷ left

  unfoldable pub keys_of : List (GoString × A) → List GoString
  keys_of [] = []
  keys_of ((name, a) ∷ rest) = name ∷ keys_of rest

  -- `m[key] = a`
  unfoldable pub insert : GoString → A → List (GoString × A) → List (GoString × A)
  insert key a [] = (key, a) ∷ []
  insert key a ((name, old) ∷ rest) =
      if str_eq name key then (key, a) ∷ rest else (name, old) ∷ insert key a rest

  pub lookup-delete :
      (key other : GoString) (m : List (GoString × A))
      → lookup other (delete key m) ≡ (if str_eq key other then none else lookup other m)
  unfolding lookup delete
  lookup-delete key other [] = ground arith
  lookup-delete key other ((name, a) ∷ rest) = ground (
    arith,
    lookup-delete key other rest,
    str_eq_iff key other,
    str_eq_iff name key,
    str_eq_iff name other,
  )

  pub lookup-insert :
      (key other : GoString) (a : A) (m : List (GoString × A))
      → lookup other (insert key a m) ≡ (if str_eq key other then some a else lookup other m)
  unfolding lookup insert
  lookup-insert key other a [] = refl
  lookup-insert key other a ((name, old) ∷ rest) = ground (
    arith,
    lookup-insert key other a rest,
    str_eq_iff key other,
    str_eq_iff name key,
    str_eq_iff name other,
  )
