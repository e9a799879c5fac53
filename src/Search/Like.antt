-- ===== src/Search/Like.antt =====
-- `EscapeLike` of lib/entity/search.go, by what PostgreSQL's LIKE makes of the escaped term.
use mathlib.Core.Path.{transport, transport⁻¹, subst}
use mathlib.Core.List.{append-nil}
use go_platform.Base.{
  GoString, ℕ, Bool, true, false, [], ◌∷◌, ◌++◌, map, ◌≡◌, refl, sym, ap, ◌∙◌, ◌↔◌, ◌==◌,
  if◌then◌else◌, Bool-cases, inl, inr,
}
use go_platform.Search.{escape_like}

-- LIKE with the backslash as escape character, up to a fold of case: `%` is any text, `_` any one
-- byte, a byte behind a backslash is itself. `escaped` says that a backslash was just read.
module _ (fold : ℕ → ℕ) where
  -- The text begins with a byte that is `c` up to case, and goes on as `rest` says.
  abbrev pub Literal : ℕ → (GoString → Type 0) → GoString → Type 0
  Literal c rest s = (d : ℕ) × (s' : GoString) × (s ≡ d ∷ s') × (fold d ≡ fold c) × rest s'

  abbrev pub Like : Bool → GoString → GoString → Type 0
  Like false [] s = s ≡ []
  Like true [] s = ⊥
  Like true (c ∷ p) s = Literal c (Like false p) s
  Like false (c ∷ p) s =
      if c == 92
      then Like true p s
      else if c == b'%'
      then ((front : GoString) × (back : GoString) × (s ≡ front ++ back) × Like false p back)
      else if c == b'_'
      then ((d : ℕ) × (back : GoString) × (s ≡ d ∷ back) × Like false p back)
      else Literal c (Like false p) s

  -- The text begins with the term up to case, and the rest satisfies `Q`.
  abbrev pub Begins : GoString → (GoString → Type 0) → GoString → Type 0
  Begins t Q s =
      (front : GoString) × (back : GoString) × (s ≡ front ++ back)
      × (map fold front ≡ map fold t)
      × Q back

  Like-step :
      (c : ℕ) (t p s : GoString)
      → Like false (escape_like (c ∷ t) ++ p) s ≡ Literal c (Like false (escape_like t ++ p)) s
  unfolding escape_like
  Like-step c t p s = elim (Bool-cases (c == 92)) [
    | inl slash ↦ rw slash refl
    | inr no_slash ↦ elim (Bool-cases (c == b'%')) [
      | inl percent ↦ rw (no_slash, percent) refl
      | inr no_percent ↦ elim (Bool-cases (c == b'_')) [
        | inl under ↦ rw (no_slash, no_percent, under) refl
        | inr no_under ↦
            rw (no_slash, no_percent, no_under) (rw (no_slash, no_percent, no_under) refl)
      ]
    ]
  ]

  Begins-of_Like :
      (t p s : GoString) → Like false (escape_like t ++ p) s → Begins t (Like false p) s
  Begins-of_Like [] p s h = ([], s, refl, refl, unfold escape_like in h)
  Begins-of_Like (c ∷ t) p s h =
      let (d, s', split, same, h') = transport (Like-step c t p s) h in
      let (front, back, split', same', rest) = Begins-of_Like t p s' h' in
      (d ∷ front, back, split ∙ ap (λ x. d ∷ x) split', cc (same, same'), rest)

  Like-of_Begins :
      (t p s : GoString) → Begins t (Like false p) s → Like false (escape_like t ++ p) s
  Like-of_Begins [] p s ([], back, split, same, rest) =
      unfold escape_like in subst (Like false p) (sym split) rest
  Like-of_Begins [] p s (d ∷ front, back, split, same, rest) = absurd (cc)
  Like-of_Begins (c ∷ t) p s ([], back, split, same, rest) = absurd (cc)
  Like-of_Begins (c ∷ t) p s (d ∷ front, back, split, same, rest) =
      transport⁻¹ (Like-step c t p s) (
        d,
        front ++ back,
        split,
        cc,
        Like-of_Begins t p (front ++ back) (front, back, refl, cc, rest),
      )

  -- The text holds the term somewhere, up to case.
  abbrev pub Holds : GoString → GoString → Type 0
  Holds t s =
      (front : GoString) × (mid : GoString) × (s ≡ front ++ mid) × Begins t (λ back. Unit) mid

-- A text is LIKE the pattern `%term%` that a search sends exactly when it holds the term byte for
-- byte (up to the fold of case): no byte of the term is a wildcard or an escape any more.
pub escape_like-Holds :
    (fold : ℕ → ℕ) (t s : GoString)
    → Like fold false (b'%' ∷ escape_like t ++ b'%' ∷ []) s ↔ Holds fold t s
escape_like-Holds fold t s = (
  λ (front, mid, split, h).
      let (word, back, split', same, _) = Begins-of_Like fold t (b'%' ∷ []) mid h in
      (front, mid, split, (word, back, split', same, tt)),
  λ (front, mid, split, (word, back, split', same, _)). (
    front,
    mid,
    split,
    Like-of_Begins fold t (b'%' ∷ []) mid
        (word, back, split', same, (back, [], sym (append-nil back), refl)),
  ),
)
