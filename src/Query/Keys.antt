-- ===== src/Query/Keys.antt =====
-- `Parse` of lib/query/query.go, by the order and the names of the parameters.
use mathlib.Core.Path.{fun_ext}
use go_platform.Base.{
  GoString, true, false, List, [], ◌∷◌, ◌++◌, ◌≡◌, refl, ◌∙◌, ap, ◌≢◌, inl, inr, arith, lit,
  Bool-cases, Option-cases, some, str_eq, str_eq_iff, str_eq_refl, span, is_lower, sort_strings,
  sort_strings-perm, Absent, IsDistinct, keys_of-perm, lookup-perm, lookup-other, insert_sorted,
  str_le, keys_of, lookup, last?, Permᴰ, has_prefix, cut_prefix, cut_prefix_sound,
}
use go_platform.Query.{
  Params, Result, ok, ◌>>=◌, is_reserved, family, parameter, Values, last_value, parse_keys,
  no_params, parse,
}

-- Two runs agree on a name of one value and on what follows it.
parse_keys-cons :
    (v w : Values) (k : GoString) (ks ls : List GoString) (p : Params)
    → lookup k v ≡ lookup k w
    → ((p' : Params) → parse_keys v p' ks ≡ parse_keys w p' ls)
    → parse_keys v p (k ∷ ks) ≡ parse_keys w p (k ∷ ls)
unfolding parse_keys
parse_keys-cons v w k ks ls p same rest = rw same (
    ap
      (λ (next : Params → Result Params).
        last_value (lookup k w) >>= λ val. parameter p k val >>= next)
      (fun_ext rest))

parse_keys-eq :
    (v w : Values) (ks : List GoString) (p : Params)
    → ((k : GoString) → lookup k v ≡ lookup k w)
    → parse_keys v p ks ≡ parse_keys w p ks
parse_keys-eq v w [] p same = unfold parse_keys in refl
parse_keys-eq v w (k ∷ ks) p same =
    parse_keys-cons v w k ks ks p (same k) (λ p'. parse_keys-eq v w ks p' same)

-- The result of `Parse` does not depend on the order in which the map of the parameters is
-- walked: two orders of the same distinct names give the same translation, or the same refusal.
pub parse-perm : (v w : Values) → Permᴰ v w → IsDistinct (keys_of v) → parse v ≡ parse w
unfolding parse
parse-perm v w p d =
    parse_keys-eq v w (sort_strings (keys_of v)) no_params (λ k. lookup-perm k p d)
    ∙ ap (λ ks. parse_keys w no_params ks) (sort_strings-perm (keys_of-perm p))

module _ (k : GoString) (h : is_reserved (family k) ≡ false) where
  str_eq-foreign : (s : GoString) → is_reserved (family s) ≡ true → str_eq k s ≡ false
  str_eq-foreign s r = elim (Bool-cases (str_eq k s)) [
    | inl same ↦
        absurd (let e : k ≡ s = (str_eq_iff k s).0 same in cc (ap (λ x. is_reserved (family x)) e))
    | inr other ↦ other
  ]

  has_prefix-foreign :
      (s : GoString)
      → ((rest : GoString) → is_reserved (family (s ++ rest)) ≡ true)
      → has_prefix k s ≡ false
  unfolding has_prefix
  has_prefix-foreign s r = elim (Option-cases (cut_prefix s k)) [
    | inl missed ↦ rw missed
    | inr (rest, cut) ↦
        absurd
          (let e = cut_prefix_sound s k rest cut in cc (ap (λ x. is_reserved (family x)) e, r rest))
  ]

reserved_families :
    (is_reserved (family (lit "sort")) ≡ true)
    × (is_reserved (family (lit "fields")) ≡ true)
    × (is_reserved (family (lit "filter")) ≡ true)
    × (is_reserved (family (lit "page")) ≡ true)
    × ((rest : GoString) → is_reserved (family (lit "filter[" ++ rest)) ≡ true)
    × ((rest : GoString) → is_reserved (family (lit "page[" ++ rest)) ≡ true)
unfolding is_reserved family lit span is_lower
reserved_families = (refl, refl, refl, refl, λ rest. refl, λ rest. refl)

-- A name whose family is not made of a-z only takes none of the cases of the `switch`.
parameter-foreign :
    (p : Params) (k val : GoString) → is_reserved (family k) ≡ false → parameter p k val ≡ ok p
unfolding parameter
parameter-foreign p k val h =
    let (sort, fields, filter, page, filters, pages) = reserved_families in
    ground (
      arith,
      str_eq-foreign k h (lit "sort") sort,
      str_eq-foreign k h (lit "fields") fields,
      str_eq-foreign k h (lit "filter") filter,
      str_eq-foreign k h (lit "page") page,
      has_prefix-foreign k h (lit "filter[") filters,
      has_prefix-foreign k h (lit "page[") pages,
    )

module _ (k : GoString) (vals : List GoString) (val : GoString) (v : Values)
    (valued : last? vals ≡ some val) (foreign : is_reserved (family k) ≡ false) where
  parse_keys-skip :
      (ks : List GoString) (p : Params)
      → Absent k ks
      → parse_keys ((k, vals) ∷ v) p ks ≡ parse_keys v p ks
  unfolding parse_keys
  parse_keys-skip [] p h = refl
  parse_keys-skip (j ∷ ks) p (ne, h) =
      parse_keys-cons ((k, vals) ∷ v) v j ks ks p (lookup-other j k vals v ne)
        (λ p'. parse_keys-skip ks p' h)

  parse_keys-foreign :
      (ks : List GoString) (p : Params)
      → parse_keys ((k, vals) ∷ v) p (k ∷ ks) ≡ parse_keys ((k, vals) ∷ v) p ks
  unfolding parse_keys lookup last_value
  parse_keys-foreign ks p =
      rw (str_eq_refl k) (rw (valued, last_value) (rw (parameter-foreign p k val foreign)))

  parse_keys-insert_sorted :
      (ks : List GoString) (p : Params)
      → Absent k ks
      → parse_keys ((k, vals) ∷ v) p (insert_sorted k ks) ≡ parse_keys v p ks
  unfolding insert_sorted
  parse_keys-insert_sorted [] p h = parse_keys-foreign [] p ∙ parse_keys-skip [] p tt
  parse_keys-insert_sorted (j ∷ ks) p h = elim (Bool-cases (str_le k j)) [
    | inl first ↦ rw first (parse_keys-foreign (j ∷ ks) p ∙ parse_keys-skip (j ∷ ks) p h)
    | inr later ↦ rw later (
        parse_keys-cons ((k, vals) ∷ v) v j (insert_sorted k ks) ks p (lookup-other j k vals v h.0)
          (λ p'. parse_keys-insert_sorted ks p' h.1))
  ]

Absent-insert_sorted :
    (k j : GoString) (ks : List GoString) → j ≢ k → Absent k ks → Absent k (insert_sorted j ks)
unfolding insert_sorted
Absent-insert_sorted k j [] ne h = (ne, tt)
Absent-insert_sorted k j (i ∷ ks) ne (n, h) = elim (Bool-cases (str_le j i)) [
  | inl first ↦ rw first (ne, (n, h))
  | inr later ↦ rw later (n, Absent-insert_sorted k j ks ne h)
]

Absent-sort_strings : (k : GoString) (ks : List GoString) → Absent k ks → Absent k (sort_strings ks)
unfolding sort_strings
Absent-sort_strings k [] h = tt
Absent-sort_strings k (j ∷ ks) (ne, h) = Absent-insert_sorted k j _ ne (Absent-sort_strings k ks h)

-- A parameter whose name has a family with any byte outside a-z (or none) is the client's own:
-- wherever it stands, and whatever its values, it changes nothing of the result of `Parse`.
pub parse-foreign :
    (k : GoString) (vals : List GoString) (val : GoString) (v : Values)
    → last? vals ≡ some val
    → is_reserved (family k) ≡ false
    → Absent k (keys_of v)
    → parse ((k, vals) ∷ v) ≡ parse v
unfolding parse keys_of sort_strings
parse-foreign k vals val v valued foreign h =
    parse_keys-insert_sorted k vals val v valued foreign (sort_strings (keys_of v)) no_params
      (Absent-sort_strings k (keys_of v) h)
