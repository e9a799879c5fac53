-- ===== src/Query.antt =====
-- lib/query/query.go: the list parameters of /api/v2 translated into the arguments of api.sql().
-- The regular expressions of the source are matchers by recursion on the bytes.
pub mod Sound
pub mod Keys
mod Tests
pub use go_platform.Base.{Fallible, ok, err, ◌>>=◌, ◌>>◌, >>=-eq-ok}
use go_platform.Base.{
  ◌≡◌, refl, GoString, ℕ, ◌+◌, ◌*◌, ◌-◌, ◌^◌, Bool, true, false, ◌&&◌, ◌||◌, not, List, [], ◌∷◌,
  ◌++◌, Option, none, some, lit, cut_prefix, has_prefix, split_at, span, str_eq, is_digit, is_lower,
  leb, ltb, ◌==◌, if◌then◌else◌, all, last?, lookup, keys_of, sort_strings,
}

abbrev pub default_limit : ℕ
default_limit = 500

abbrev pub max_limit : ℕ
max_limit = 1000

-- One element of the search array.
pub record Condition : Type 0 where
  pub field : GoString
  pub compare : GoString
  pub value : GoString
  pub val_arr : List GoString

-- The translated request; the two numbers are never negative (`page` refuses them).
pub record Params : Type 0 where
  pub search : List Condition
  pub order_by : List GoString
  pub fields : List GoString
  pub limit : ℕ
  pub offset : ℕ

-- The refusals, one constructor for each message, and the panic of `vals[len(vals)-1]` on a
-- parameter with no value.
pub data QueryError : Type 0 where
  bad_sort_field bad_field bad_filter_field needs_key bad_parameter : GoString → QueryError
  unknown_parameter unknown_page_key unknown_operator : GoString → QueryError
  bad_limit bad_offset no_value : QueryError

abbrev pub Result {ℓ} : Type ℓ → Type ℓ
Result = Fallible QueryError

-- `ident`, `^[a-z_][a-z0-9_]*$`
unfoldable pub ident_start : ℕ → Bool
ident_start c = is_lower c || c == b'_'

unfoldable pub ident_byte : ℕ → Bool
ident_byte c = is_lower c || is_digit c || c == b'_'

unfoldable pub is_ident : GoString → Bool
is_ident [] = false
is_ident (c ∷ s) = ident_start c && all ident_byte s

-- `reserved`, `^[a-z]+$`
unfoldable pub is_reserved : GoString → Bool
is_reserved [] = false
is_reserved (c ∷ s) = all is_lower (c ∷ s)

-- A match of `key`, `^(filter|page)\[([^\]]+)\](?:\[([^\]]+)\])?$`: whether the first group is
-- `page`, the second group, and the third, "" where it did not take part.
pub record KeyMatch : Type 0 where
  pub is_page : Bool
  pub name : GoString
  pub op : GoString

-- `[^\]]+` and the bracket behind it.
unfoldable pub bracketed : GoString → Option (GoString × GoString)
bracketed s =
    let (name, rest) = span (λ c. not (c == b']')) s in
    elim rest [ [] ↦ none | _ ∷ rest' ↦ if str_eq name [] then none else some (name, rest') ]

-- `(?:\[([^\]]+)\])?$`
unfoldable pub match_op : GoString → Option GoString
match_op [] = some []
match_op (c ∷ s) =
    if c == b'['
    then elim (bracketed s) [
      | none ↦ none
      | some (op, rest) ↦ if str_eq rest [] then some op else none
    ]
    else none

unfoldable pub match_rest : Bool → GoString → Option KeyMatch
match_rest is_page s = elim (bracketed s) [
  | none ↦ none
  | some (name, rest) ↦ elim (match_op rest) [
    | none ↦ none
    | some op ↦ some (record { is_page = is_page; name = name; op = op })
  ]
]

unfoldable pub find_key : GoString → Option KeyMatch
find_key k = elim (cut_prefix (lit "filter[") k) [
  | some rest ↦ match_rest false rest
  | none ↦ elim (cut_prefix (lit "page[") k) [ some rest ↦ match_rest true rest | none ↦ none ]
]

-- The map `operators`.
unfoldable pub operators : List (GoString × GoString)
operators =
    (lit "eq", lit "EQL")
    ∷ (lit "ne", lit "NEQ")
    ∷ (lit "lt", lit "LSS")
    ∷ (lit "lte", lit "LEQ")
    ∷ (lit "gt", lit "GTR")
    ∷ (lit "gte", lit "GEQ")
    ∷ (lit "like", lit "LKE")
    ∷ (lit "ilike", lit "IKE")
    ∷ (lit "in", [])
    ∷ (lit "null", [])
    ∷ []

abbrev pub condition_of : GoString → GoString → GoString → List GoString → Result Condition
condition_of field compare value arr =
    ok (record { field = field; compare = compare; value = value; val_arr = arr })

unfoldable pub condition : GoString → GoString → GoString → Result Condition
condition field op val =
    let op' = if str_eq op [] then lit "eq" else op in
    let made = condition_of field in
    if not (is_ident field) then err (bad_filter_field field) else elim (lookup op' operators) [
      | none ↦ err (unknown_operator op')
      | some cmp ↦
          if str_eq op' (lit "in")
          then made [] [] (split_at b',' val)
          else if str_eq op' (lit "null")
          then (if str_eq val (lit "true") then made (lit "ISN") [] [] else made (lit "INN") [] [])
          else made cmp val []
    ]

-- A decimal number, `none` at a byte that is no digit.
unfoldable pub digits_value : ℕ → GoString → Option ℕ
digits_value n [] = some n
digits_value n (c ∷ s) = if is_digit c then digits_value (n * 10 + (c - b'0')) s else none

-- `strconv.Atoi`: an optional sign, at least one digit, the range of a 64-bit int. A negative
-- number is refused by both callers, so it is `none` beside what does not parse; -0 is 0.
unfoldable pub atoi : GoString → Option ℕ
atoi [] = none
atoi (c ∷ s) =
    let number = if c == b'+' || c == b'-' then s else c ∷ s in
    if str_eq number [] then none else elim (digits_value 0 number) [
      | none ↦ none
      | some n ↦ if ltb (2 ^ 63 - 1) n || (c == b'-' && ltb 0 n) then none else some n
    ]

-- `(*Params).page`
unfoldable pub page : Params → GoString → GoString → Result Params
page p k val =
    if str_eq k (lit "limit")
    then (elim (atoi val) [
      | none ↦ err bad_limit
      | some n ↦ if ltb n 1 || ltb max_limit n then err bad_limit else ok (record p { limit = n })
    ])
    else if str_eq k (lit "offset")
    then (elim (atoi val) [ none ↦ err bad_offset | some n ↦ ok (record p { offset = n }) ])
    else err (unknown_page_key k)

-- The direction of an element of `sort` and its field.
unfoldable pub direction : GoString → GoString × GoString
direction [] = (lit "ASC", [])
direction (c ∷ rest) = if c == b'-' then (lit "DESC", rest) else (lit "ASC", c ∷ rest)

unfoldable pub order_entry : GoString → Result GoString
order_entry f =
    let (dir, name) = direction f in
    if is_ident name then ok (name ++ (lit " " ++ dir)) else err (bad_sort_field name)

unfoldable pub field_entry : GoString → Result GoString
field_entry f = if is_ident f then ok f else err (bad_field f)

-- The loops over the elements of `sort` and of `fields`: the first refusal ends the loop.
unfoldable pub entries : (GoString → Result GoString) → List GoString → Result (List GoString)
entries entry [] = ok []
entries entry (f ∷ fs) = do e ← entry f; es ← entries entry fs; ok (e ∷ es)

-- The part of a parameter's name before the first "[".
unfoldable pub family : GoString → GoString
family k = (span (λ c. not (c == b'[')) k).0

-- The cases `sort`, `fields` and `filter[…]`, `page[…]` of the `switch` of `Parse`.
unfoldable pub sort_parameter : Params → GoString → Result Params
sort_parameter p val = do
  es ← entries order_entry (split_at b',' val)
  ok (record p { order_by = p.order_by ++ es })

unfoldable pub fields_parameter : Params → GoString → Result Params
fields_parameter p val = do
  es ← entries field_entry (split_at b',' val)
  ok (record p { fields = p.fields ++ es })

unfoldable pub filter_parameter : Params → KeyMatch → GoString → Result Params
filter_parameter p m val = do
  c ← condition m.name m.op val
  ok (record p { search = p.search ++ c ∷ [] })

unfoldable pub bracket_parameter : Params → GoString → GoString → Result Params
bracket_parameter p k val = elim (find_key k) [
  | none ↦ err (bad_parameter k)
  | some m ↦ if m.is_page then page p m.name val else filter_parameter p m val
]

-- The `switch` of `Parse` for one parameter `k` with its last value.
unfoldable pub parameter : Params → GoString → GoString → Result Params
parameter p k val =
    if str_eq k (lit "sort")
    then sort_parameter p val
    else if str_eq k (lit "fields")
    then fields_parameter p val
    else if str_eq k (lit "filter") || str_eq k (lit "page")
    then err (needs_key k)
    else if has_prefix k (lit "filter[") || has_prefix k (lit "page[")
    then bracket_parameter p k val
    else if is_reserved (family k)
    then err (unknown_parameter k)
    else ok p

-- `url.Values`: a map from names to their values.
abbrev pub Values : Type 0
Values = List (GoString × List GoString)

unfoldable pub last_value : Option (List GoString) → Result GoString
last_value none = err no_value
last_value (some vals) = elim (last? vals) [ none ↦ err no_value | some val ↦ ok val ]

-- The loop of `Parse` over the sorted names.
unfoldable pub parse_keys : Values → Params → List GoString → Result Params
parse_keys v p [] = ok p
parse_keys v p (k ∷ ks) = do
  val ← last_value (lookup k v)
  p' ← parameter p k val
  parse_keys v p' ks

abbrev pub no_params : Params
no_params = record { search = []; order_by = []; fields = []; limit = default_limit; offset = 0 }

unfoldable pub parse : Values → Result Params
parse v = parse_keys v no_params (sort_strings (keys_of v))
