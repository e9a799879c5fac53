-- ===== src/Base/Text/Split.antt =====
-- `strings.Split` at one byte, on texts that are joined by it.
use Prim.Native.Nat.{ℕ}
use mathlib.Core.Path.{◌≡◌, refl}
use mathlib.Core.Bool.{false}
use mathlib.Core.List.{List, [], ◌∷◌, ◌++◌}
use native.Mathlib.Omega.{arith}
use go_platform.Base.Tests.{◌==◌, if◌then◌else◌}
use go_platform.Base.Lists.{All}
use go_platform.Base.Text.Order.{GoString}

-- `strings.Split(s, sep)` at a separator of one byte.
unfoldable pub split_at : ℕ → GoString → List GoString
split_at sep [] = [] ∷ []
split_at sep (c ∷ s) = elim (split_at sep s) [
  | [] ↦ []
  | part ∷ parts ↦ if c == sep then [] ∷ part ∷ parts else (c ∷ part) ∷ parts
]

abbrev pub Lacks : ℕ → GoString → Type 0
Lacks sep = All (λ c. (c == sep) ≡ false)

-- The result of `split_at` has a first part.
unfoldable pub head_part : List GoString → GoString
head_part [] = []
head_part (p ∷ ps) = p

unfoldable pub tail_parts : List GoString → List GoString
tail_parts [] = []
tail_parts (p ∷ ps) = ps

pub split_at-shape :
    (sep : ℕ) (s : GoString)
    → split_at sep s ≡ head_part (split_at sep s) ∷ tail_parts (split_at sep s)
unfolding split_at head_part tail_parts
split_at-shape sep [] = refl
split_at-shape sep (c ∷ s) = ground (arith, split_at-shape sep s)

pub split_at-one : (sep : ℕ) (a : GoString) → Lacks sep a → split_at sep a ≡ a ∷ []
unfolding split_at
split_at-one sep [] h = refl
split_at-one sep (c ∷ a) (ne, h) = rw (split_at-one sep a h) (rw ne)

pub split_at-append :
    (sep : ℕ) (a s : GoString) → Lacks sep a → split_at sep (a ++ sep ∷ s) ≡ a ∷ split_at sep s
unfolding split_at
split_at-append sep [] s h = ground (arith, split_at-shape sep s)
split_at-append sep (c ∷ a) s (ne, h) = rw (split_at-append sep a s h) (rw ne)
