-- ===== src/Query/Tests.antt =====
-- Runs of `Parse` at concrete queries, and the theorems about it at inputs where they apply.
use go_platform.Base.{
  [], ◌∷◌, ◌≡◌, refl, lit, cut_prefix, has_prefix, split_at, span, str_eq, is_digit, is_lower,
  lookup, keys_of, sort_strings, insert_sorted, str_le, false, IsDistinct, Absent, Permᴰ,
}
use go_platform.Query.{
  Params, QueryError, ok, err, ident_start, ident_byte, is_ident, is_reserved, bracketed, match_op,
  match_rest, find_key, operators, condition, digits_value, atoi, page, direction, order_entry,
  field_entry, entries, family, parameter, Values, last_value, parse_keys, parse, sort_parameter,
  fields_parameter, filter_parameter, bracket_parameter,
}
use go_platform.Query.Sound.{IsAccepted, parse-IsAccepted}
use go_platform.Query.Keys.{parse-perm}

query : Unit {0}
unfolding lit cut_prefix has_prefix split_at span str_eq is_digit is_lower lookup keys_of
    sort_strings insert_sorted str_le ident_start ident_byte is_ident is_reserved bracketed match_op
    match_rest find_key operators condition digits_value atoi page direction order_entry field_entry
    entries family parameter last_value parse_keys parse sort_parameter fields_parameter
    filter_parameter bracket_parameter
query = tt

abbrev request : Values
request =
    (lit "sort", lit "-created,name" ∷ [])
    ∷ (lit "page[limit]", lit "50" ∷ [])
    ∷ (lit "filter[state][in]", lit "a,b" ∷ [])
    ∷ (lit "utm_source", lit "x" ∷ [])
    ∷ []

abbrev translated : Params
translated = record {
  search =
      record { field = lit "state"; compare = []; value = []; val_arr = lit "a" ∷ lit "b" ∷ [] }
      ∷ [];
  order_by = lit "created DESC" ∷ lit "name ASC" ∷ [];
  fields = [];
  limit = 50;
  offset = 0;
}

parse-request : parse request ≡ ok translated
unfolding query
parse-request = refl

parse_refusals :
    (parse ((lit "limit", lit "5" ∷ []) ∷ []) ≡ err (QueryError.unknown_parameter (lit "limit")))
    × (parse ((lit "page[limit]", lit "1001" ∷ []) ∷ []) ≡ err QueryError.bad_limit)
    × (parse ((lit "filter[a;b]", lit "1" ∷ []) ∷ [])
        ≡ err (QueryError.bad_filter_field (lit "a;b")))
    × (parse ((lit "filter[a][zz]", lit "1" ∷ []) ∷ [])
        ≡ err (QueryError.unknown_operator (lit "zz")))
unfolding query
parse_refusals = (refl, refl, refl, refl)

request-accepted : parse request ≡ ok translated
unfolding query
request-accepted = refl

parse-IsAccepted_example : IsAccepted translated
parse-IsAccepted_example = parse-IsAccepted request translated request-accepted

abbrev two : Values
two = (lit "sort", lit "name" ∷ []) ∷ (lit "page[limit]", lit "5" ∷ []) ∷ []

abbrev two_swapped : Values
two_swapped = (lit "page[limit]", lit "5" ∷ []) ∷ (lit "sort", lit "name" ∷ []) ∷ []

two-IsDistinct : IsDistinct (keys_of two)
unfolding query
two-IsDistinct = ((λ e. absurd (cc e), tt), (tt, tt))

parse-perm_example : parse two ≡ parse two_swapped
parse-perm_example = parse-perm two two_swapped (Permᴰ.swap refl refl) two-IsDistinct

tracker-foreign : is_reserved (family (lit "utm_source")) ≡ false
unfolding query
tracker-foreign = refl

tracker-Absent : Absent (lit "utm_source") (keys_of two)
unfolding query
tracker-Absent = (λ e. absurd (cc e), (λ e. absurd (cc e), tt))
