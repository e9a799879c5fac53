-- ===== src/Pgtx/Call.antt =====
-- lib/pgtx/call.go: the text of a direct call of a function of schema api, with values of any type.
pub mod Text
pub mod Values
pub use go_platform.Base.{Fallible, ok, err, ◌>>=◌, ◌>>◌, >>=-eq-ok}
use go_platform.Base.{
  GoString, ℕ, suc, zero, ◌+◌, ◌/◌, ◌%◌, Bool, true, false, ◌&&◌, not, List, [], ◌∷◌, ◌++◌, map,
  Option, none, some, ◌≡◌, refl, lit, str_eq, trim_prefix, any, all, ltb, if◌then◌else◌, lookup,
  keys_of, sort_strings, Map,
}
use go_platform.Query.{is_ident}

-- An argument: a bare `[]byte`, a value, or a `Typed` value with the SQL type it is pinned to.
pub data Arg (V : Type 0) : Type 0 where
  bytes : V → Arg V
  value : V → Arg V
  typed : V → GoString → Arg V

pub data CallError : Type 0 where
  not_a_function not_a_parameter bare_bytes not_a_type : GoString → CallError
  no_argument : CallError

abbrev pub Result {ℓ} : Type ℓ → Type ℓ
Result = Fallible CallError

-- The map `sqlTypes`.
unfoldable pub sql_types : List GoString
sql_types =
    lit "uuid"
    ∷ lit "text"
    ∷ lit "integer"
    ∷ lit "bigint"
    ∷ lit "smallint"
    ∷ lit "numeric"
    ∷ lit "boolean"
    ∷ lit "date"
    ∷ lit "timestamp"
    ∷ lit "timestamptz"
    ∷ lit "json"
    ∷ lit "jsonb"
    ∷ []

unfoldable pub is_sql_type : GoString → Bool
is_sql_type t = any (str_eq t) sql_types

-- The decimal text of a number that is at most the fuel.
unfoldable pub decimal_from : ℕ → ℕ → GoString → GoString
decimal_from zero n acc = acc
decimal_from (suc fuel) n acc =
    let digit = n % 10 + 48 in
    let rest = decimal_from fuel (n / 10) (digit ∷ acc) in if ltb n 10 then digit ∷ acc else rest

unfoldable pub decimal : ℕ → GoString
decimal n = decimal_from (suc n) n []

-- `fmt.Sprintf("p%s => $%d%s", k, i+1, cast)`
unfoldable pub part_of : GoString → ℕ → GoString → GoString
part_of k i cast = lit "p" ++ (k ++ (lit " => $" ++ (decimal (i + 1) ++ cast)))

-- `strings.Join(parts, ", ")`
unfoldable pub join : List GoString → GoString
join [] = []
join (p ∷ []) = p
join (p ∷ q ∷ ps) = p ++ (lit ", " ++ join (q ∷ ps))

-- The name of a function of schema api, with or without the schema.
unfoldable pub function_name : GoString → Result GoString
function_name fn =
    let name = trim_prefix fn (lit "api.") in
    if is_ident name then ok name else err (not_a_function fn)

-- The loop over the keys as they come.
unfoldable pub check_keys : List GoString → Result (Unit {0})
check_keys [] = ok tt
check_keys (k ∷ ks) = if is_ident k then check_keys ks else err (not_a_parameter k)

unfoldable pub sql_text : GoString → List GoString → GoString
sql_text name parts =
    lit "SELECT to_json(t) FROM api." ++ (name ++ (lit "(" ++ (join parts ++ lit ") t")))

module _ {V : Type 0} where
  -- `v` and `cast` of one argument.
  unfoldable pub bind_arg : GoString → Arg V → Result (V × GoString)
  bind_arg k (bytes v) = err (bare_bytes k)
  bind_arg k (value v) = ok (v, [])
  bind_arg k (typed v t) = if is_sql_type t then ok (v, lit "::" ++ t) else err (not_a_type t)

  unfoldable pub find_arg : GoString → Map (Arg V) → Result (Arg V)
  find_arg k args = elim (lookup k args) [ none ↦ err no_argument | some a ↦ ok a ]

  -- The loop over the sorted keys.
  unfoldable pub bind_args : Map (Arg V) → ℕ → List GoString → Result (List GoString × List V)
  bind_args args i [] = ok ([], [])
  bind_args args i (k ∷ ks) = do
    a ← find_arg k args
    b ← bind_arg k a
    rest ← bind_args args (i + 1) ks
    ok (part_of k i b.1 ∷ rest.0, b.0 ∷ rest.1)

  -- `callSQL`
  unfoldable pub call_sql : GoString → Map (Arg V) → Result (GoString × List V)
  call_sql fn args = do
    name ← function_name fn
    check_keys (keys_of args)
    bound ← bind_args args 0 (sort_strings (keys_of args))
    ok (sql_text name bound.0, bound.1)
