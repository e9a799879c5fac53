-- ===== src/Host/Serve/Canonical.antt =====
-- `canonical` of module.go, by the segments of a path.
use mathlib.Core.List.{append_assoc, append-nil}
use go_platform.Base.{
  GoString, ℕ, Bool, true, false, List, [], ◌∷◌, ◌++◌, ◌≡◌, ◌↔◌, refl, sym, ap, ◌∙◌, arith, lit,
  str_eq, str_eq_iff, split_at, Lacks, All, ◌==◌, if◌then◌else◌, Bool-cases, ◌⊎◌, inl, inr,
}
use go_platform.Host.Serve.{
  keep_segment, keep_segments, slashed, cleaned, clean, ends_slash, with_slash, canonical,
}
use go_platform.Host.Serve.Segments.{
  is_kept, is_plain, IsKept, is_plain_path, split_at-Lacks, keep_segments-IsKept, canonical-plain,
  root-ends,
}

-- Segments, each behind a slash.
abbrev rendered : List GoString → GoString
rendered [] = []
rendered (s ∷ ss) = b'/' ∷ (s ++ rendered ss)

rendered-split : (s : GoString) → rendered (split_at b'/' s) ≡ b'/' ∷ s
unfolding split_at
rendered-split [] = refl
rendered-split (c ∷ s) = with_byte (split_at b'/' s) (rendered-split s)
  where
    with_byte :
        (parts : List GoString)
        → rendered parts ≡ b'/' ∷ s
        → rendered (elim parts [
          | [] ↦ []
          | part ∷ parts' ↦ if c == b'/' then [] ∷ part ∷ parts' else (c ∷ part) ∷ parts'
        ])
          ≡ b'/' ∷ c ∷ s
    with_byte [] h = absurd (cc h)
    with_byte (part ∷ parts) h = ground (arith, h)

-- The slash behind which nothing follows.
abbrev last_slash : List GoString → GoString
last_slash [] = []
last_slash (s ∷ []) = if str_eq s [] then b'/' ∷ [] else []
last_slash (s ∷ t ∷ ss) = last_slash (t ∷ ss)

keep_segment-kept :
    (kept : List GoString) (s : GoString) → is_kept s ≡ true → keep_segment kept s ≡ s ∷ kept
unfolding keep_segment
keep_segment-kept kept s h = ground arith

last-empty :
    (kept : List GoString)
    → slashed (keep_segment kept []) ++ last_slash ([] ∷ []) ≡ slashed kept ++ b'/' ∷ []
unfolding keep_segment str_eq
last-empty kept = refl

keep_segments-plain :
    (kept segments : List GoString)
    → is_plain segments ≡ true
    → slashed (keep_segments kept segments) ++ last_slash segments
      ≡ slashed kept ++ rendered segments
unfolding keep_segments slashed
keep_segments-plain kept [] h = refl
keep_segments-plain kept (s ∷ []) h = elim (Bool-cases (str_eq s [])) [
  | inl e ↦ rw ((str_eq_iff s []).0 e) (last-empty kept)
  | inr e ↦ rw (keep_segment-kept kept s (ground arith)) (
      rw e (
        append-nil (slashed kept ++ b'/' ∷ s)
        ∙ ap (λ x. slashed kept ++ b'/' ∷ x) (sym (append-nil s))))
]
keep_segments-plain kept (s ∷ t ∷ ss) h = rw (keep_segment-kept kept s (ground arith)) (
    keep_segments-plain (s ∷ kept) (t ∷ ss) (ground arith)
    ∙ append_assoc (slashed kept) (b'/' ∷ s) (rendered (t ∷ ss)))

ends-append : (x : GoString) (c : ℕ) (s : GoString) → ends_slash (x ++ c ∷ s) ≡ ends_slash (c ∷ s)
unfolding ends_slash
ends-append [] c s = refl
ends-append (d ∷ []) c s = refl
ends-append (d ∷ e ∷ x) c s = ends-append (e ∷ x) c s

ends-kept : (d : ℕ) (s : GoString) → Lacks b'/' (d ∷ s) → ends_slash (d ∷ s) ≡ false
unfolding ends_slash
ends-kept d [] (h, hs) = h
ends-kept d (e ∷ s) (h, hs) = ends-kept e s hs

last_slash-cases :
    (segments : List GoString) → (last_slash segments ≡ []) ⊎ (last_slash segments ≡ b'/' ∷ [])
last_slash-cases [] = inl refl
last_slash-cases (s ∷ []) = elim (Bool-cases (str_eq s [])) [
  | inl e ↦ inr (rw e refl)
  | inr e ↦ inl (rw e refl)
]
last_slash-cases (s ∷ t ∷ ss) = last_slash-cases (t ∷ ss)

kept-ends : (k : GoString) (x : GoString) → IsKept k → ends_slash (x ++ b'/' ∷ k) ≡ false
unfolding ends_slash str_eq
kept-ends [] x (lacks, kept) = absurd (cc kept)
kept-ends (d ∷ s) x (lacks, kept) = ends-append x b'/' (d ∷ s) ∙ ends-kept d s lacks

with_slash-closes :
    (kept : List GoString) (t rest : GoString)
    → All IsKept kept
    → slashed kept ++ t ≡ b'/' ∷ rest
    → (t ≡ []) ⊎ (t ≡ b'/' ∷ [])
    → with_slash (ends_slash (b'/' ∷ rest)) (cleaned kept) ≡ b'/' ∷ rest
unfolding with_slash cleaned slashed lit ends_slash
with_slash-closes [] t rest h e (inl none') = absurd (cc none')
with_slash-closes [] t rest h e (inr one) = ground (arith, root-ends)
with_slash-closes (k ∷ ks) t rest (h, hs) e (inl none') =
    let path = slashed ks ++ b'/' ∷ k in
    let same : path ≡ b'/' ∷ rest = sym (append-nil path) ∙ ap (λ x. path ++ x) (sym none') ∙ e in
    let open' = sym (ap ends_slash same) ∙ kept-ends k (slashed ks) h in rw open' same
with_slash-closes (k ∷ ks) t rest (h, hs) e (inr one) =
    let path = slashed ks ++ b'/' ∷ k in
    let same : path ++ b'/' ∷ [] ≡ b'/' ∷ rest = ap (λ x. path ++ x) (sym one) ∙ e in
    let closed = sym (ap ends_slash same) ∙ ends-append path b'/' [] in
    rw closed (rw (kept-ends k (slashed ks) h) same)

plain-canonical :
    (rest : GoString) → is_plain (split_at b'/' rest) ≡ true → canonical (b'/' ∷ rest) ≡ true
unfolding canonical clean slashed
plain-canonical rest h =
    let kept = keep_segments [] (split_at b'/' rest) in
    let good = keep_segments-IsKept [] (split_at b'/' rest) tt (split_at-Lacks rest) in
    let same = keep_segments-plain [] (split_at b'/' rest) h ∙ rendered-split rest in
    (str_eq_iff (with_slash (ends_slash (b'/' ∷ rest)) (cleaned kept)) (b'/' ∷ rest)).1 (
      with_slash-closes kept (last_slash (split_at b'/' rest)) rest good same
        (last_slash-cases (split_at b'/' rest)))

abbrev pub is_rooted : GoString → Bool
is_rooted [] = false
is_rooted (c ∷ rest) = c == b'/'

-- A path is canonical exactly when it begins with a slash, and no segment behind that is `.` or `..`, and
-- none is empty but the last one.
pub canonical_iff :
    (p : GoString) → (canonical p ≡ true) ↔ ((is_rooted p ≡ true) × (is_plain_path p ≡ true))
unfolding canonical
canonical_iff [] = (λ h. cc, λ h. cc)
canonical_iff (c ∷ rest) = (
  λ h. (ground arith, canonical-plain (c ∷ rest) h),
  λ (rooted, plain).
      let same : c ≡ b'/' = ground arith in
      ap (λ x. canonical (x ∷ rest)) same ∙ plain-canonical rest plain,
)
