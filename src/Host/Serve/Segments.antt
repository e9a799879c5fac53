-- ===== src/Host/Serve/Segments.antt =====
-- The segments that `path.Clean` keeps of a path of module.go.
use mathlib.Core.List.{append_assoc}
use go_platform.Base.{
  GoString, ℕ, Bool, true, false, ◌&&◌, ◌||◌, not, List, [], ◌∷◌, ◌++◌, ◌≡◌, refl, sym, ap, ◌∙◌,
  arith, lit, str_eq, str_eq_iff, split_at, split_at-append, split_at-one, split_at-shape, Lacks,
  All, ◌==◌, if◌then◌else◌, Bool-cases, inl, inr,
}
use go_platform.Host.Serve.{
  keep_segment, keep_segments, slashed, cleaned, clean, ends_slash, with_slash, canonical,
}

-- A segment that `path.Clean` keeps.
abbrev pub is_kept : GoString → Bool
is_kept s = not (str_eq s [] || str_eq s (lit ".") || str_eq s (lit ".."))

-- Every segment is kept, but that the last one may be empty.
abbrev pub is_plain : List GoString → Bool
is_plain [] = true
is_plain (s ∷ []) = str_eq s [] || is_kept s
is_plain (s ∷ t ∷ ss) = is_kept s && is_plain (t ∷ ss)

abbrev pub IsKept : GoString → Type 0
IsKept s = Lacks b'/' s × (is_kept s ≡ true)

-- The parts of a text that is split at slashes have none.
pub split_at-Lacks : (s : GoString) → All (Lacks b'/') (split_at b'/' s)
unfolding split_at
split_at-Lacks [] = (tt, tt)
split_at-Lacks (c ∷ s) = with_byte c (split_at b'/' s) (split_at-Lacks s)
  where
    with_byte :
        (c : ℕ) (parts : List GoString)
        → All (Lacks b'/') parts
        → All (Lacks b'/') (elim parts [
          | [] ↦ []
          | part ∷ parts' ↦ if c == b'/' then [] ∷ part ∷ parts' else (c ∷ part) ∷ parts'
        ])
    with_byte c [] h = tt
    with_byte c (part ∷ parts) (h, hs) = elim (Bool-cases (c == b'/')) [
      | inl e ↦ rw e (tt, (h, hs))
      | inr e ↦ rw e ((e, h), hs)
    ]

keep_segment-IsKept :
    (kept : List GoString) (s : GoString)
    → All IsKept kept
    → Lacks b'/' s
    → All IsKept (keep_segment kept s)
unfolding keep_segment
keep_segment-IsKept kept s h lacks = elim (Bool-cases (str_eq s [] || str_eq s (lit "."))) [
  | inl e ↦ rw e h
  | inr e ↦ elim (Bool-cases (str_eq s (lit ".."))) [
    | inl up ↦ rw e (rw up (popped kept h))
    | inr new' ↦ rw e (rw new' ((lacks, ground arith), h))
  ]
]
  where
    popped :
        (kept : List GoString) → All IsKept kept → All IsKept (elim kept [ [] ↦ [] | k ∷ ks ↦ ks ])
    popped [] h = tt
    popped (k ∷ ks) (h, hs) = hs

pub keep_segments-IsKept :
    (kept segments : List GoString)
    → All IsKept kept
    → All (Lacks b'/') segments
    → All IsKept (keep_segments kept segments)
unfolding keep_segments
keep_segments-IsKept kept [] h hs = h
keep_segments-IsKept kept (s ∷ ss) h (lacks, hs) =
    keep_segments-IsKept (keep_segment kept s) ss (keep_segment-IsKept kept s h lacks) hs

-- The segments of a path that begins with a slash.
abbrev pub is_plain_path : GoString → Bool
is_plain_path [] = false
is_plain_path (c ∷ rest) = is_plain (split_at b'/' rest)

plain-cons :
    (k r : GoString)
    → IsKept k
    → is_plain (split_at b'/' r) ≡ true
    → is_plain (split_at b'/' (k ++ b'/' ∷ r)) ≡ true
plain-cons k r (lacks, kept) h =
    rw (split_at-append b'/' k r lacks)
      (rw (split_at-shape b'/' r) (ground (arith, ap is_plain (sym (split_at-shape b'/' r)) ∙ h)))

-- A path that begins with kept segments is plain where the rest is.
slashed-plain :
    (kept : List GoString) (r : GoString)
    → All IsKept kept
    → is_plain (split_at b'/' r) ≡ true
    → is_plain_path (slashed kept ++ b'/' ∷ r) ≡ true
unfolding slashed
slashed-plain [] r h plain = plain
slashed-plain (k ∷ ks) r (h, hs) plain =
    ap is_plain_path (append_assoc (slashed ks) (b'/' ∷ k) (b'/' ∷ r))
    ∙ slashed-plain ks (k ++ b'/' ∷ r) hs (plain-cons k r h plain)

one-plain : (k : GoString) → IsKept k → is_plain (split_at b'/' k) ≡ true
one-plain k (lacks, kept) = rw (split_at-one b'/' k lacks) (ground arith)

empty-plain : is_plain (split_at b'/' []) ≡ true
unfolding split_at str_eq
empty-plain = refl

pub root-ends : ends_slash (lit "/") ≡ true
unfolding ends_slash lit
root-ends = refl

-- What `path.Clean` makes of a path is plain, and stays so with the slash that it had.
kept-plain :
    (kept : List GoString) (had : Bool)
    → All IsKept kept
    → is_plain_path (with_slash had (cleaned kept)) ≡ true
unfolding with_slash cleaned lit split_at slashed
kept-plain [] false h = empty-plain
kept-plain [] true h = rw root-ends empty-plain
kept-plain (k ∷ ks) had (h, hs) = elim (Bool-cases (had && not (ends_slash (slashed (k ∷ ks))))) [
  | inl e ↦ rw e (slashed-plain (k ∷ ks) [] (h, hs) empty-plain)
  | inr e ↦ rw e (slashed-plain ks k hs (one-plain k h))
]

pub canonical-plain : (p : GoString) → canonical p ≡ true → is_plain_path p ≡ true
unfolding canonical clean
canonical-plain [] h = cc
canonical-plain (c ∷ rest) h =
    let kept = keep_segments [] (split_at b'/' rest) in
    let had = ends_slash (c ∷ rest) in
    let good = keep_segments-IsKept [] (split_at b'/' rest) tt (split_at-Lacks rest) in
    ap is_plain_path
      (sym ((str_eq_iff (with_slash had (cleaned kept)) (c ∷ rest)).0 (ground arith)))
    ∙ kept-plain kept had good
