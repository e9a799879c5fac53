-- ===== src/Admin/Users/Redacted.antt =====
-- `redact` of admin/users.go: what is left of a body in the journal.
use go_platform.Base.{
  GoString, Bool, false, ◌||◌, Option, none, some, ◌≡◌, refl, ◌⊎◌, inl, inr, arith, lit, str_eq,
  str_eq_iff, lookup, lookup-insert, if◌then◌else◌, Map, Option-cases, Bool-cases,
}
use go_platform.Admin.Users.{Users, stars, hide, hide_all, has_secret}
use go_platform.Admin.Users.Steps.{redact}

-- A value that there is becomes stars.
abbrev pub starred : Option GoString → Option GoString
starred none = none
starred (some v) = some stars

abbrev pub is_secret : GoString → Bool
is_secret k = str_eq (lit "password") k || str_eq (lit "old") k || str_eq (lit "new") k

lookup-hide :
    (s k : GoString) (m : Map GoString)
    → lookup k (hide s m) ≡ (if str_eq s k then starred (lookup k m) else lookup k m)
unfolding hide
lookup-hide s k m = elim (Option-cases (lookup s m)) [
  | inl h ↦ ground (arith, str_eq_iff s k)
  | inr (v, h) ↦ ground (arith, str_eq_iff s k, lookup-insert s k stars m)
]

-- The text of the journal is that of a map with the keys of the body.
abbrev pub IsHidden : Map GoString → Map GoString → Type 0
IsHidden m n =
    (k : GoString) → lookup k n ≡ (if is_secret k then starred (lookup k m) else lookup k m)

hide_all-IsHidden : (m : Map GoString) → IsHidden m (hide_all m)
unfolding hide_all
hide_all-IsHidden m k =
    let first = lookup-hide (lit "password") k m in
    let second = lookup-hide (lit "old") k (hide (lit "password") m) in
    let third = lookup-hide (lit "new") k (hide (lit "old") (hide (lit "password") m)) in
    elim (Option-cases (lookup k m)) [ inl h ↦ ground arith | inr (v, h) ↦ ground arith ]

no_secret-IsHidden : (m : Map GoString) → has_secret m ≡ false → IsHidden m m
unfolding has_secret
no_secret-IsHidden m h k = elim (Option-cases (lookup k m)) [
  | inl e ↦ ground arith
  | inr (v, e) ↦
      ground
        (arith, str_eq_iff (lit "password") k, str_eq_iff (lit "old") k, str_eq_iff (lit "new") k)
]

-- What is journalled of a body is the body where it is no JSON object; else it is the body or the text of
-- a map, and this map has the keys of the body with their values, but stars for the value of `password`,
-- `old` and `new`.
pub redact-IsHidden :
    {V W : Type 0} (u : Users V W) (raw : GoString)
    → ((u.read_map raw ≡ none) × (redact u raw ≡ raw))
      ⊎ ((m n : Map GoString) × (u.read_map raw ≡ some m)
          × IsHidden m n
          × (((redact u raw ≡ raw) × (n ≡ m)) ⊎ (redact u raw ≡ u.write_map n)))
unfolding redact
redact-IsHidden u raw = elim (Option-cases (u.read_map raw)) [
  | inl h ↦ inl (h, ground arith)
  | inr (m, h) ↦ elim (Bool-cases (has_secret m)) [
    | inl secret ↦ inr (m, hide_all m, h, hide_all-IsHidden m, inr (ground arith))
    | inr plain ↦ inr (m, m, h, no_secret-IsHidden m plain, inl (ground arith, refl))
  ]
]
