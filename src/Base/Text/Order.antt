-- ===== src/Base/Text/Order.antt =====
-- The order of Go strings, by bytes, and `sort.Strings`.
use Prim.Native.Nat.{ℕ}
use mathlib.Core.Path.{◌≡◌, refl, ◌∙◌, ap₂}
use mathlib.Core.Logic.{◌⊎◌, inl, inr}
use mathlib.Core.Bool.{Bool, true, false}
use mathlib.Core.List.{List, [], ◌∷◌, Permᴰ}
use native.Mathlib.Omega.{arith}
use go_platform.Base.Tests.{ltb, ◌==◌, if◌then◌else◌}

abbrev pub GoString : Type 0
GoString = List ℕ

unfoldable pub str_le : GoString → GoString → Bool
str_le [] t = true
str_le (x ∷ s) [] = false
str_le (x ∷ s) (y ∷ t) = if x == y then str_le s t else ltb x y

pub str_le_total : (s t : GoString) → (str_le s t ≡ true) ⊎ (str_le t s ≡ true)
unfolding str_le
str_le_total [] t = inl refl
str_le_total (x ∷ s) [] = inr refl
str_le_total (x ∷ s) (y ∷ t) = ground (arith, str_le_total s t)

pub str_le_antisymm : (s t : GoString) → str_le s t ≡ true → str_le t s ≡ true → s ≡ t
unfolding str_le
str_le_antisymm [] [] h k = refl
str_le_antisymm [] (y ∷ t) h k = cc
str_le_antisymm (x ∷ s) [] h k = cc
str_le_antisymm (x ∷ s) (y ∷ t) h k = ground (arith, str_le_antisymm s t)

pub str_le_trans : (s t u : GoString) → str_le s t ≡ true → str_le t u ≡ true → str_le s u ≡ true
unfolding str_le
str_le_trans [] t u h k = refl
str_le_trans (x ∷ s) [] u h k = cc
str_le_trans (x ∷ s) (y ∷ t) [] h k = cc
str_le_trans (x ∷ s) (y ∷ t) (z ∷ u) h k = ground (arith, str_le_trans s t u)

unfoldable pub insert_sorted : GoString → List GoString → List GoString
insert_sorted k [] = k ∷ []
insert_sorted k (x ∷ xs) = if str_le k x then k ∷ x ∷ xs else x ∷ insert_sorted k xs

-- `sort.Strings`.
unfoldable pub sort_strings : List GoString → List GoString
unfolding insert_sorted str_le
sort_strings [] = []
sort_strings (k ∷ ks) = insert_sorted k (sort_strings ks)

pub insert_sorted_comm :
    (a b : GoString) (l : List GoString)
    → insert_sorted a (insert_sorted b l) ≡ insert_sorted b (insert_sorted a l)
unfolding insert_sorted
insert_sorted_comm a b [] = ground (arith, str_le_total a b, str_le_antisymm a b)
insert_sorted_comm a b (x ∷ xs) = ground (
  arith,
  str_le_total a b,
  str_le_antisymm a b,
  str_le_total a x,
  str_le_total b x,
  str_le_trans a b x,
  str_le_trans b a x,
  insert_sorted_comm a b xs,
)

pub sort_strings-perm : {xs ys : List GoString} → Permᴰ xs ys → sort_strings xs ≡ sort_strings ys
unfolding sort_strings
sort_strings-perm Permᴰ.nil = refl
sort_strings-perm (Permᴰ.cons e p) = cc (e, sort_strings-perm p)
sort_strings-perm (Permᴰ.swap {a} {b} {l} e f) =
    insert_sorted_comm a b (sort_strings l)
    ∙ ap₂ (λ x y. insert_sorted x (insert_sorted y (sort_strings l))) f e
sort_strings-perm (Permᴰ.trans p q) = sort_strings-perm p ∙ sort_strings-perm q
