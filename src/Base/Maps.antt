-- ===== src/Base/Maps.antt =====
-- What a Go map is for a reader: a list of entries with distinct keys, whose order does not matter.
use mathlib.Core.Path.{◌≡◌, refl, sym, ◌∙◌, ap, ap₂, subst}
use mathlib.Core.Logic.{◌≢◌}
use mathlib.Core.List.{List, [], ◌∷◌, Permᴰ}
use mathlib.Core.Option.{some}
use native.Mathlib.Omega.{arith}
use go_platform.Base.Tests.{if◌then◌else◌}
use go_platform.Base.Lists.{All}
use go_platform.Base.Text.{GoString, str_eq, str_eq_iff}
use go_platform.Base.Assoc.{lookup, keys_of}

abbrev pub Map : Type 0 → Type 0
Map V = List (GoString × V)

-- No name of the list is `k`.
abbrev pub Absent : GoString → List GoString → Type 0
Absent k = All (λ j. j ≢ k)

-- A Go map has each key once.
abbrev pub IsDistinct : List GoString → Type 0
IsDistinct [] = Unit
IsDistinct (k ∷ ks) = Absent k ks × IsDistinct ks

pub All-perm : (P : GoString → Type 0) {xs ys : List GoString} → Permᴰ xs ys → All P xs → All P ys
All-perm P Permᴰ.nil h = h
All-perm P (Permᴰ.cons e p) h = (subst P e h.0, All-perm P p h.1)
All-perm P (Permᴰ.swap e f) h = (subst P f h.1.0, (subst P e h.0, h.1.1))
All-perm P (Permᴰ.trans p q) h = All-perm P q (All-perm P p h)

IsDistinct-swap :
    (a b : GoString) (l : List GoString) → IsDistinct (a ∷ b ∷ l) → IsDistinct (b ∷ a ∷ l)
IsDistinct-swap a b l ((ne, ha), (hb, d)) = ((λ e. ne (sym e), hb), (ha, d))

pub IsDistinct-perm : {xs ys : List GoString} → Permᴰ xs ys → IsDistinct xs → IsDistinct ys
IsDistinct-perm Permᴰ.nil h = h
IsDistinct-perm (Permᴰ.cons {a} {b} {l₁} e p) h =
    (All-perm (λ j. j ≢ b) p (subst (λ k. Absent k l₁) e h.0), IsDistinct-perm p h.1)
IsDistinct-perm (Permᴰ.swap {a} {b} {l} e f) h =
    subst IsDistinct (ap₂ (λ x y. x ∷ y ∷ l) f e) (IsDistinct-swap a b l h)
IsDistinct-perm (Permᴰ.trans p q) h = IsDistinct-perm q (IsDistinct-perm p h)

module _ {V : Type 0} where
  pub keys_of-perm : {v w : Map V} → Permᴰ v w → Permᴰ (keys_of v) (keys_of w)
  unfolding keys_of
  keys_of-perm Permᴰ.nil = Permᴰ.nil
  keys_of-perm (Permᴰ.cons e p) = Permᴰ.cons (ap (λ x. x.0) e) (keys_of-perm p)
  keys_of-perm (Permᴰ.swap e f) = Permᴰ.swap (ap (λ x. x.0) e) (ap (λ x. x.0) f)
  keys_of-perm (Permᴰ.trans p q) = Permᴰ.trans (keys_of-perm p) (keys_of-perm q)

  lookup-swap :
      (k : GoString) (a b : GoString × V) (v : Map V)
      → a.0 ≢ b.0
      → lookup k (a ∷ b ∷ v) ≡ lookup k (b ∷ a ∷ v)
  unfolding lookup
  lookup-swap k a b v h = ground (arith, str_eq_iff a.0 k, str_eq_iff b.0 k)

  pub lookup-perm :
      (k : GoString) {v w : Map V} → Permᴰ v w → IsDistinct (keys_of v) → lookup k v ≡ lookup k w
  unfolding lookup keys_of
  lookup-perm k Permᴰ.nil h = refl
  lookup-perm k (Permᴰ.cons {a} {b} {l₁} e p) h =
      ap (λ x. lookup k (x ∷ l₁)) e
      ∙ ap (λ o. if str_eq b.0 k then some b.1 else o) (lookup-perm k p h.1)
  lookup-perm k (Permᴰ.swap {a} {b} {l} e f) h =
      lookup-swap k a b l (λ same. h.0.0 (sym same)) ∙ ap₂ (λ x y. lookup k (x ∷ y ∷ l)) f e
  lookup-perm k (Permᴰ.trans p q) h =
      lookup-perm k p h ∙ lookup-perm k q (IsDistinct-perm (keys_of-perm p) h)

  pub lookup-other :
      (j k : GoString) (x : V) (v : Map V) → j ≢ k → lookup j ((k, x) ∷ v) ≡ lookup j v
  unfolding lookup
  lookup-other j k x v h = ground (arith, str_eq_iff k j)
