-- ===== src/Base/Text/Space.antt =====
-- `strings.TrimSpace`, which is `bytes.TrimSpace` on the same bytes: white space in UTF-8 is cut at
-- both ends.
use Prim.Native.Nat.{ℕ, zero, suc}
use mathlib.Core.Bool.{Bool, ◌&&◌, ◌||◌}
use mathlib.Core.List.{[], ◌∷◌, reverse}
use go_platform.Base.Tests.{leb, ◌==◌, if◌then◌else◌}
use go_platform.Base.Text.Order.{GoString}

-- \t \n \v \f \r and the blank
unfoldable pub is_space : ℕ → Bool
is_space c = c == 32 || leb 9 c && leb c 13

-- U+0085 and U+00A0
unfoldable pub is_space2 : ℕ → ℕ → Bool
is_space2 a b = a == 0xc2 && (b == 0x85 || b == 0xa0)

-- U+1680, U+2000 to U+200A, U+2028, U+2029, U+202F, U+205F, U+3000
unfoldable pub is_space3 : ℕ → ℕ → ℕ → Bool
is_space3 a b c =
    a == 0xe1 && b == 0x9a && c == 0x80
    || a == 0xe2 && b == 0x80 && (leb 0x80 c && leb c 0x8a || c == 0xa8 || c == 0xa9 || c == 0xaf)
    || a == 0xe2 && b == 0x81 && c == 0x9f
    || a == 0xe3 && b == 0x80 && c == 0x80

-- How many bytes the white space at the head takes, 0 where there is none.
unfoldable pub space_width : GoString → ℕ
space_width (a ∷ b ∷ c ∷ s) =
    if is_space a then 1 else if is_space2 a b then 2 else if is_space3 a b c then 3 else 0
space_width (a ∷ b ∷ []) = if is_space a then 1 else if is_space2 a b then 2 else 0
space_width (a ∷ []) = if is_space a then 1 else 0
space_width [] = 0

-- The same at the end of a text, of which the last byte comes first.
unfoldable pub space_width_back : GoString → ℕ
space_width_back (c ∷ b ∷ a ∷ s) =
    if is_space c then 1 else if is_space2 b c then 2 else if is_space3 a b c then 3 else 0
space_width_back (c ∷ b ∷ []) = if is_space c then 1 else if is_space2 b c then 2 else 0
space_width_back (c ∷ []) = if is_space c then 1 else 0
space_width_back [] = 0

-- Cuts `pending` bytes, and then white space as long as there is some.
unfoldable pub strip : (GoString → ℕ) → ℕ → GoString → GoString
strip width pending [] = []
strip width (suc n) (c ∷ s) = strip width n s
strip width zero (c ∷ s) = elim (width (c ∷ s)) [ zero ↦ c ∷ s | suc n ↦ strip width n s ]

unfoldable pub trim_space : GoString → GoString
trim_space s = reverse (strip space_width_back 0 (reverse (strip space_width 0 s)))
