-- ===== src/Query/Sound.antt =====
-- What `Parse` of lib/query/query.go has checked of the query that it returns.
use mathlib.Core.Path.{subst}
use go_platform.Base.{
  GoString, ◌≤◌, true, List, [], ◌∷◌, ◌++◌, ◌≡◌, refl, ◌⊎◌, inl, inr, arith, lit, All, All-append,
  Bool-cases, Option-cases, split_at, sort_strings, keys_of, lookup,
}
use go_platform.Query.{
  Condition, Params, Result, ok, KeyMatch, >>=-eq-ok, is_ident, find_key, condition, page,
  direction, order_entry, field_entry, entries, sort_parameter, fields_parameter, filter_parameter,
  bracket_parameter, parameter, Values, last_value, parse_keys, no_params, parse,
}

abbrev pub IsIdent : GoString → Type 0
IsIdent s = is_ident s ≡ true

-- An element of the order: an identifier, a blank and a direction.
abbrev pub IsOrder : GoString → Type 0
IsOrder e =
    (f : GoString) × IsIdent f
    × ((e ≡ f ++ (lit " " ++ lit "ASC")) ⊎ (e ≡ f ++ (lit " " ++ lit "DESC")))

pub record IsAccepted (p : Params) : Type 0 where
  pub limit_min : 1 ≤ p.limit
  pub limit_max : p.limit ≤ 1000
  pub search : All (λ c. IsIdent c.field) p.search
  pub order_by : All IsOrder p.order_by
  pub fields : All IsIdent p.fields

entries-All :
    (P : GoString → Type 0) (entry : GoString → Result GoString)
    → ((f e : GoString) → entry f ≡ ok e → P e)
    → (fs es : List GoString) → entries entry fs ≡ ok es
    → All P es
unfolding entries
entries-All P entry sound [] es h = (let same : [] ≡ es = cc h in subst (All P) same tt)
entries-All P entry sound (f ∷ fs) es h =
    let (e, first, h') = >>=-eq-ok (entry f) _ h in
    let (es', later, done) = >>=-eq-ok (entries entry fs) _ h' in
    let same : e ∷ es' ≡ es = cc done in
    subst (All P) same (sound f e first, entries-All P entry sound fs es' later)

direction-cases : (f : GoString) → ((direction f).0 ≡ lit "ASC") ⊎ ((direction f).0 ≡ lit "DESC")
unfolding direction
direction-cases [] = inl refl
direction-cases (c ∷ s) = ground arith

order_entry-IsOrder : (f e : GoString) → order_entry f ≡ ok e → IsOrder e
unfolding order_entry
order_entry-IsOrder f e h = elim (Bool-cases (is_ident (direction f).1)) [
  | inl named ↦ ((direction f).1, named, ground (arith, direction-cases f))
  | inr other ↦ absurd (ground arith)
]

field_entry-IsIdent : (f e : GoString) → field_entry f ≡ ok e → IsIdent e
unfolding field_entry
field_entry-IsIdent f e h = ground arith

condition-IsIdent :
    (field op val : GoString) (c : Condition) → condition field op val ≡ ok c → IsIdent c.field
unfolding condition
condition-IsIdent field op val c h = ground arith

module _ (p p' : Params) (v : IsAccepted p) where
  page-IsAccepted : (k val : GoString) → page p k val ≡ ok p' → IsAccepted p'
  unfolding page
  page-IsAccepted k val h = ground arith

  sort_parameter-IsAccepted : (val : GoString) → sort_parameter p val ≡ ok p' → IsAccepted p'
  unfolding sort_parameter
  sort_parameter-IsAccepted val h =
      let (es, made, done) = >>=-eq-ok (entries order_entry (split_at b',' val)) _ h in
      let same : record p { order_by = p.order_by ++ es } ≡ p' = cc done in
      subst IsAccepted same (record {
        limit_min = v.limit_min;
        limit_max = v.limit_max;
        search = v.search;
        order_by =
            All-append IsOrder p.order_by es v.order_by
              (entries-All IsOrder order_entry order_entry-IsOrder _ es made);
        fields = v.fields;
      })

  fields_parameter-IsAccepted : (val : GoString) → fields_parameter p val ≡ ok p' → IsAccepted p'
  unfolding fields_parameter
  fields_parameter-IsAccepted val h =
      let (es, made, done) = >>=-eq-ok (entries field_entry (split_at b',' val)) _ h in
      let same : record p { fields = p.fields ++ es } ≡ p' = cc done in
      subst IsAccepted same (record {
        limit_min = v.limit_min;
        limit_max = v.limit_max;
        search = v.search;
        order_by = v.order_by;
        fields =
            All-append IsIdent p.fields es v.fields
              (entries-All IsIdent field_entry field_entry-IsIdent _ es made);
      })

  filter_parameter-IsAccepted :
      (m : KeyMatch) (val : GoString) → filter_parameter p m val ≡ ok p' → IsAccepted p'
  unfolding filter_parameter
  filter_parameter-IsAccepted m val h =
      let (c, made, done) = >>=-eq-ok (condition m.name m.op val) _ h in
      let same : record p { search = p.search ++ c ∷ [] } ≡ p' = cc done in
      subst IsAccepted same (record {
        limit_min = v.limit_min;
        limit_max = v.limit_max;
        search =
            All-append (λ d. IsIdent d.field) p.search (c ∷ []) v.search
              (condition-IsIdent m.name m.op val c made, tt);
        order_by = v.order_by;
        fields = v.fields;
      })

  bracket_parameter-IsAccepted :
      (k val : GoString) → bracket_parameter p k val ≡ ok p' → IsAccepted p'
  unfolding bracket_parameter
  bracket_parameter-IsAccepted k val h = elim (Option-cases (find_key k)) [
    | inl missed ↦ absurd (ground arith)
    | inr (m, e) ↦ elim (Bool-cases m.is_page) [
      | inl yes_page ↦ page-IsAccepted m.name val (ground arith)
      | inr no_page ↦ filter_parameter-IsAccepted m val (ground arith)
    ]
  ]

  parameter-IsAccepted : (k val : GoString) → parameter p k val ≡ ok p' → IsAccepted p'
  unfolding parameter
  parameter-IsAccepted k val h = ground (
    arith,
    sort_parameter-IsAccepted val,
    fields_parameter-IsAccepted val,
    bracket_parameter-IsAccepted k val,
  )

parse_keys-IsAccepted :
    (v : Values) (ks : List GoString) (p p' : Params)
    → IsAccepted p
    → parse_keys v p ks ≡ ok p'
    → IsAccepted p'
unfolding parse_keys
parse_keys-IsAccepted v [] p p' a h = (let same : p ≡ p' = cc h in subst IsAccepted same a)
parse_keys-IsAccepted v (k ∷ ks) p p' a h =
    let (val, taken, h') = >>=-eq-ok (last_value (lookup k v)) _ h in
    let (p1, made, h'') = >>=-eq-ok (parameter p k val) _ h' in
    parse_keys-IsAccepted v ks p1 p' (parameter-IsAccepted p p1 a k val made) h''

-- Whatever the parameters, a query that `Parse` accepts has a limit of 1 to 1000, filters and
-- selected fields whose names are identifiers, and an order whose every element is an identifier
-- with ` ASC` or ` DESC`.
pub parse-IsAccepted : (v : Values) (p : Params) → parse v ≡ ok p → IsAccepted p
unfolding parse
parse-IsAccepted v p h =
    parse_keys-IsAccepted v (sort_strings (keys_of v)) no_params p (omega arith) h
