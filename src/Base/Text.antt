-- ===== src/Base/Text.antt =====
-- Go strings as their bytes. `lit` is a string literal (ASCII), shut so that tactics see a name.
mod Order
mod Space
mod Split
pub use Order.*
pub use Split.*
unfoldable pub use Split.{split_at}
unfoldable pub use Space.{
  is_space, is_space2, is_space3, space_width, space_width_back, strip, trim_space,
}
unfoldable pub use Order.{GoString, str_le, insert_sorted, sort_strings}
use Prim.Native.Nat.{ℕ}
use Prim.Native.Char.{code}
use Prim.Native.String.{String}
use mathlib.Core.Path.{◌≡◌, refl}
use mathlib.Core.Logic.{◌↔◌}
use mathlib.Core.Bool.{Bool, true, false, ◌&&◌, ◌||◌}
use mathlib.Core.List.{List, [], ◌∷◌, ◌++◌}
use mathlib.Core.Option.{Option, none, some}
use native.Mathlib.Omega.{arith}
use go_platform.Base.Tests.{leb, ◌==◌, if◌then◌else◌, is_some}

-- A string literal of the source (ASCII, so its code points are its bytes).
unfoldable pub lit : String → GoString
lit String.[] = []
lit (String.◌∷◌ c s) = code c ∷ lit s

unfoldable pub str_eq : GoString → GoString → Bool
str_eq [] [] = true
str_eq [] (y ∷ t) = false
str_eq (x ∷ s) [] = false
str_eq (x ∷ s) (y ∷ t) = x == y && str_eq s t

pub str_eq_sound : (s t : GoString) → str_eq s t ≡ true → s ≡ t
unfolding str_eq
str_eq_sound [] [] h = refl
str_eq_sound [] (y ∷ t) h = cc
str_eq_sound (x ∷ s) [] h = cc
str_eq_sound (x ∷ s) (y ∷ t) h = ground (arith, str_eq_sound s t)

pub str_eq_refl : (s : GoString) → str_eq s s ≡ true
unfolding str_eq
str_eq_refl [] = refl
str_eq_refl (x ∷ s) = ground (arith, str_eq_refl s)

pub str_eq_iff : (s t : GoString) → (str_eq s t ≡ true) ↔ (s ≡ t)
str_eq_iff s t = (str_eq_sound s t, λ e. rw e (str_eq_refl t))

-- `strings.CutPrefix`: what follows the prefix.
unfoldable pub cut_prefix : GoString → GoString → Option GoString
cut_prefix [] s = some s
cut_prefix (p ∷ ps) [] = none
cut_prefix (p ∷ ps) (c ∷ s) = if p == c then cut_prefix ps s else none

-- `strings.HasPrefix(s, p)`.
unfoldable pub has_prefix : GoString → GoString → Bool
unfolding cut_prefix
has_prefix s p = is_some (cut_prefix p s)

-- `strings.TrimPrefix(s, p)`.
unfoldable pub trim_prefix : GoString → GoString → GoString
unfolding cut_prefix
trim_prefix s p = elim (cut_prefix p s) [ none ↦ s | some rest ↦ rest ]

pub cut_prefix-append : (p s : GoString) → cut_prefix p (p ++ s) ≡ some s
unfolding cut_prefix
cut_prefix-append [] s = refl
cut_prefix-append (c ∷ p) s = ground (arith, cut_prefix-append p s)

pub cut_prefix_sound : (p s rest : GoString) → cut_prefix p s ≡ some rest → s ≡ p ++ rest
unfolding cut_prefix
cut_prefix_sound [] s rest h = ground arith
cut_prefix_sound (c ∷ p) [] rest h = cc
cut_prefix_sound (c ∷ p) (d ∷ s) rest h = ground (arith, cut_prefix_sound p s rest)

-- The part before the first `c`, and the rest with it: `strings.Cut` by one byte.
unfoldable pub span : (ℕ → Bool) → GoString → GoString × GoString
span p [] = ([], [])
span p (c ∷ s) = let (front, back) = span p s in if p c then (c ∷ front, back) else ([], c ∷ s)

unfoldable pub is_digit : ℕ → Bool
is_digit c = leb b'0' c && leb c b'9'

unfoldable pub is_lower : ℕ → Bool
is_lower c = leb b'a' c && leb c b'z'
