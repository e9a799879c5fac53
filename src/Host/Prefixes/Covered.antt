-- ===== src/Host/Prefixes/Covered.antt =====
-- `Prefixes` of module.go, by the prefixes that are left out.
use mathlib.Core.List.{append_assoc, append-nil}
use go_platform.Base.{
  GoString, ℕ, zero, suc, ◌+◌, ◌<◌, Bool, true, false, ◌&&◌, not, List, [], ◌∷◌, ◌++◌, ◌≡◌, refl,
  sym, ◌∙◌, ap, inl, inr, arith, lit, str_eq, str_eq_iff, str_eq_refl, has_prefix, cut_prefix,
  cut_prefix-append, cut_prefix_sound, any, length, length-append, Bool-cases, Option-cases,
  is_some,
}
use go_platform.Host.Prefixes.{lies_under, covered, uncovered, prefixes}

any-found :
    (f : GoString → Bool) (xs : List GoString)
    → any f xs ≡ true
    → (x : GoString) × (any (str_eq x) xs ≡ true) × (f x ≡ true)
any-found f [] h = cc
any-found f (x ∷ xs) h = elim (Bool-cases (f x)) [
  | inl here ↦ (x, ground (arith, str_eq_refl x), here)
  | inr other ↦ let (y, there, holds) = any-found f xs (ground arith) in (y, ground arith, holds)
]

any-holds :
    (f : GoString → Bool) (x : GoString) (xs : List GoString)
    → any (str_eq x) xs ≡ true
    → f x ≡ true
    → any f xs ≡ true
any-holds f x [] there h = cc
any-holds f x (y ∷ xs) there h = elim (Bool-cases (str_eq x y)) [
  | inl same ↦ (let e = ap f ((str_eq_iff x y).0 same) in ground arith)
  | inr other ↦ (let later = any-holds f x xs (ground arith) h in ground arith)
]

-- What stands behind the prefix.
under-rest :
    (p q : GoString)
    → lies_under p q ≡ true
    → (rest : GoString) × (p ++ lit "/" ≡ q ++ lit "/" ++ rest)
unfolding lies_under has_prefix
under-rest p q h = elim (Option-cases (cut_prefix (q ++ lit "/") (p ++ lit "/"))) [
  | inl missed ↦ absurd (ground arith)
  | inr (rest, found) ↦ (rest, cut_prefix_sound (q ++ lit "/") (p ++ lit "/") rest found)
]

under-of_rest : (p q rest : GoString) → p ++ lit "/" ≡ q ++ lit "/" ++ rest → lies_under p q ≡ true
unfolding lies_under has_prefix
under-of_rest p q rest e =
    ap (λ t. is_some (cut_prefix (q ++ lit "/") t)) e
    ∙ ap is_some (cut_prefix-append (q ++ lit "/") rest)

under_refl : (p : GoString) → lies_under p p ≡ true
under_refl p = under-of_rest p p [] (sym (append-nil (p ++ lit "/")))

under_trans :
    (p q r : GoString) → lies_under p q ≡ true → lies_under q r ≡ true → lies_under p r ≡ true
under_trans p q r h k =
    let (rest, e) = under-rest p q h in
    let (rest', e') = under-rest q r k in
    under-of_rest p r (rest' ++ rest)
      (e ∙ ap (λ t. t ++ rest) e' ∙ append_assoc (r ++ lit "/") rest' rest)

same-behind : (p q : GoString) → p ++ lit "/" ≡ q ++ lit "/" → p ≡ q
unfolding lit
same-behind [] [] e = refl
same-behind [] (d ∷ []) e = absurd (ground arith)
same-behind [] (d ∷ d' ∷ q) e = absurd (ground arith)
same-behind (c ∷ []) [] e = absurd (ground arith)
same-behind (c ∷ c' ∷ p) [] e = absurd (ground arith)
same-behind (c ∷ p) (d ∷ q) e = ground (arith, same-behind p q)

length-slash : (p : GoString) → length (p ++ lit "/") ≡ length p + 1
unfolding lit
length-slash p = length-append p (b'/' ∷ [])

longer :
    (p q rest : GoString)
    → str_eq q p ≡ false
    → p ++ lit "/" ≡ q ++ lit "/" ++ rest
    → length q < length p
longer p q [] differs e =
    let same = same-behind p q (e ∙ append-nil (q ++ lit "/")) in
    absurd (ground (arith, str_eq_iff q p))
longer p q (c ∷ rest) differs e =
    let sizes = ap (λ t. length t) e ∙ length-append (q ++ lit "/") (c ∷ rest) in
    omega (arith, length-slash p, length-slash q, sizes)

-- A prefix that another one covers is longer.
under-length : (p q : GoString) → str_eq q p ≡ false → lies_under p q ≡ true → length q < length p
under-length p q differs h = let (rest, e) = under-rest p q h in longer p q rest differs e

uncovered-holds :
    (all_prefixes ps : List GoString) (p : GoString)
    → any (str_eq p) ps ≡ true
    → covered all_prefixes p ≡ false
    → any (str_eq p) (uncovered all_prefixes ps) ≡ true
unfolding uncovered
uncovered-holds all_prefixes [] p there free = there
uncovered-holds all_prefixes (q ∷ ps) p there free = elim (Bool-cases (str_eq p q)) [
  | inl same ↦ (let e = ap (covered all_prefixes) ((str_eq_iff p q).0 same) in ground arith)
  | inr other ↦ let later = uncovered-holds all_prefixes ps p (ground arith) free in ground arith
]

announced :
    (all_prefixes : List GoString) (n : ℕ) (p : GoString)
    → length p < n
    → any (str_eq p) all_prefixes ≡ true
    → any (lies_under p) (prefixes all_prefixes) ≡ true
unfolding prefixes covered
announced all_prefixes zero p h there = absurd (omega arith)
announced all_prefixes (suc n) p h there = elim (Bool-cases (covered all_prefixes p)) [
  | inr free ↦
      any-holds (lies_under p) p _ (uncovered-holds all_prefixes all_prefixes p there free)
        (under_refl p)
  | inl hidden ↦
      let (q, declared, holds) =
        any-found (λ q. not (str_eq q p) && lies_under p q) all_prefixes hidden in
      let under : lies_under p q ≡ true = ground arith in
      let shorter = under-length p q (ground arith) under in
      let (r, out, above) =
        any-found (lies_under q) _ (announced all_prefixes n q (omega (arith, shorter)) declared) in
      any-holds (lies_under p) r _ out (under_trans p q r under above)
]

-- Every prefix that a module declares is announced to the gateway, or lies under one that is.
pub prefixes-lies_under :
    (all_prefixes : List GoString) (p : GoString)
    → any (str_eq p) all_prefixes ≡ true
    → any (lies_under p) (prefixes all_prefixes) ≡ true
prefixes-lies_under all_prefixes p there =
    announced all_prefixes (suc (length p)) p (omega arith) there
