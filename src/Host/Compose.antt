-- ===== src/Host/Compose.antt =====
-- `New` of module.go, which composes the modules into one host.
pub mod Owned
use go_platform.Base.{GoString, List, [], ◌∷◌, Option, none, some, lookup}

-- A module, as far as `New` reads it.
pub record Module : Type 0 where
  pub name : GoString
  pub declared : List GoString

-- Why `New` refuses: no modules, or a prefix with the modules that claim it.
pub data NewError : Type 0 where
  no_modules : NewError
  claimed : (path first second : GoString) → NewError

-- What the loop over the prefixes comes to: the owners so far, or the refusal.
pub data Owners : Type 0 where
  owners : List (GoString × GoString) → Owners
  conflict : NewError → Owners

-- The loop over the prefixes of one module.
unfoldable pub own_prefixes : GoString → List GoString → List (GoString × GoString) → Owners
own_prefixes name [] owner = owners owner
own_prefixes name (p ∷ ps) owner =
    let rest = own_prefixes name ps ((p, name) ∷ owner) in
    elim (lookup p owner) [ some by ↦ conflict (claimed p by name) | none ↦ rest ]

unfoldable pub then_own : Owners → (List (GoString × GoString) → Owners) → Owners
then_own (conflict e) next = conflict e
then_own (owners o) next = next o

-- The loop over the modules.
unfoldable pub own_modules : List Module → List (GoString × GoString) → Owners
unfolding then_own own_prefixes
own_modules [] owner = owners owner
own_modules (m ∷ ms) owner = then_own (own_prefixes m.name m.declared owner) (own_modules ms)

unfoldable pub error_of : Owners → Option NewError
error_of (owners o) = none
error_of (conflict e) = some e

-- `New`, as far as it can fail.
unfoldable pub new_host : List Module → Option NewError
unfolding own_modules error_of
new_host [] = some no_modules
new_host (m ∷ ms) = error_of (own_modules (m ∷ ms) [])
