-- ===== src/Problem/Challenge.antt =====
-- The bytes of the challenge of a 401 in lib/problem/problem.go.
use go_platform.Base.{
  GoString, ℕ, ◌≤◌, true, [], ◌∷◌, ◌++◌, ◌≡◌, refl, arith, lit, all, All, All-append, Bool-cases,
  inl, inr,
}
use go_platform.Problem.{Problem, describable_byte, describable, challenge}

-- A byte that may stand in a header value: visible ASCII or a blank.
abbrev pub IsVisible : ℕ → Type 0
IsVisible c = (0x20 ≤ c) × (c ≤ 0x7e)

describable-IsVisible : (s : GoString) → all describable_byte s ≡ true → All IsVisible s
unfolding describable_byte
describable-IsVisible [] h = tt
describable-IsVisible (c ∷ s) h =
    ((ground arith, ground arith), describable-IsVisible s (ground arith))

bearer-IsVisible : All IsVisible (lit "Bearer")
unfolding lit
bearer-IsVisible = omega arith

invalid-IsVisible : All IsVisible (lit "Bearer error=\"invalid_token\"")
unfolding lit
invalid-IsVisible = omega arith

description-IsVisible : All IsVisible (lit ", error_description=\"")
unfolding lit
description-IsVisible = omega arith

quote-IsVisible : All IsVisible (lit "\"")
unfolding lit
quote-IsVisible = omega arith

all_of_describable : (s : GoString) → describable s ≡ true → all describable_byte s ≡ true
unfolding describable
all_of_describable [] h = refl
all_of_describable (c ∷ s) h = h

described :
    (detail : GoString)
    → describable detail ≡ true
    → All IsVisible (
        lit "Bearer error=\"invalid_token\""
        ++ (lit ", error_description=\"" ++ (detail ++ lit "\"")))
described detail h = All-append IsVisible _ _ invalid-IsVisible (
    All-append IsVisible _ _ description-IsVisible (
      All-append IsVisible detail _ (describable-IsVisible detail (all_of_describable detail h))
        quote-IsVisible))

-- Whatever the detail of the problem, its challenge holds visible ASCII bytes and blanks only.
pub challenge-IsVisible : (p : Problem) → All IsVisible (challenge p)
unfolding challenge
challenge-IsVisible p = elim (Bool-cases p.no_credentials) [
  | inl bare ↦ rw bare bearer-IsVisible
  | inr held ↦ elim (Bool-cases (describable p.detail)) [
    | inl fits ↦ rw (held, fits) (described p.detail fits)
    | inr other ↦ rw (held, other) invalid-IsVisible
  ]
]
