-- ===== src/Host/Prefixes.antt =====
-- The prefixes of module.go: `Prefixes`, of those that the modules declare, and `OpenPrefixes`.
pub mod Covered
use go_platform.Base.{
  GoString, Bool, true, false, ◌&&◌, ◌||◌, not, List, [], ◌∷◌, ◌++◌, Option, none, some, lit,
  str_eq, has_prefix, any, if◌then◌else◌,
}

-- `strings.HasPrefix(p+"/", q+"/")`: the path `p` is `q` or lies under it.
unfoldable pub lies_under : GoString → GoString → Bool
lies_under p q = has_prefix (p ++ lit "/") (q ++ lit "/")

-- The inner loop of `Prefixes`.
unfoldable pub covered : List GoString → GoString → Bool
covered all_prefixes p = any (λ q. not (str_eq q p) && lies_under p q) all_prefixes

unfoldable pub uncovered : List GoString → List GoString → List GoString
uncovered all_prefixes [] = []
uncovered all_prefixes (p ∷ ps) =
    let rest = uncovered all_prefixes ps in if covered all_prefixes p then rest else p ∷ rest

-- `Prefixes`, over the prefixes of the modules in the order of their registration.
unfoldable pub prefixes : List GoString → List GoString
prefixes all_prefixes = uncovered all_prefixes all_prefixes

-- A route of the database reaches a prefix: it lies on it, above it or under it.
unfoldable pub reaches : GoString → GoString → Bool
reaches p route =
    str_eq route p || has_prefix route (p ++ lit "/") || has_prefix p (route ++ lit "/")

unfoldable pub is_open : List GoString → List GoString → GoString → Bool
is_open routes always p = any (λ a. str_eq p a) always || any (reaches p) routes

unfoldable pub split_open :
    List GoString → List GoString → List GoString → List GoString × List GoString
split_open routes always [] = ([], [])
split_open routes always (p ∷ ps) =
    let (open_ones, closed) = split_open routes always ps in
    if is_open routes always p then (p ∷ open_ones, closed) else (open_ones, p ∷ closed)

-- `OpenPrefixes`, of the paths of the routes; `none` is the nil of the direct road.
unfoldable pub open_prefixes :
    List GoString → Option (List GoString) → List GoString → List GoString × List GoString
open_prefixes ps none always = (ps, [])
open_prefixes ps (some routes) always = split_open routes always ps
