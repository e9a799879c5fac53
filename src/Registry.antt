-- ===== src/Registry.antt =====
-- registry/registry.go: the tree of keys and typed values over a transaction. JSON, the numbers of JSON,
-- the functions of schema api and the values of their arguments are parameters.
pub mod Handlers
pub mod Typed
pub mod Written
mod Tests
use go_platform.Base.{
  GoString, ℕ, Bool, true, false, ◌&&◌, ◌||◌, not, List, [], ◌∷◌, ◌++◌, Option, none, some, lit,
  str_eq, if◌then◌else◌, Map, uuid_match, ℤ,
}
use go_platform.Problem.{Problem}
use go_platform.Query.{Values}
use go_platform.Rest.Row.{Result, ok, err, validation, RowId, Decoded, Called}
use go_platform.Rest.Many.{Texts}
use go_platform.Entity.Args.{values_of, first_of_values}

-- `q.Get(name)`
unfoldable pub get_value : Values → GoString → GoString
get_value q name = first_of_values (values_of name q)

unfoldable pub and_then : {A B : Type 0} → Result A → (A → Result B) → Result B
and_then (err p) f = err p
and_then (ok a) f = f a

-- `uuidParam`
unfoldable pub uuid_param : Values → GoString → Result (Option GoString)
unfolding get_value
uuid_param q name =
    let v = get_value q name in
    if str_eq v []
    then ok none
    else if uuid_match v
    then ok (some v)
    else err (validation (name ++ lit " must be a UUID"))

-- `textParam`
unfoldable pub text_param : Values → GoString → Option GoString
text_param q name = let v = get_value q name in if str_eq v [] then none else some v

-- `keyRef`
unfoldable pub key_ref : Values → Result (GoString × Option GoString)
key_ref q =
    let key = get_value q (lit "key") in
    if str_eq key []
    then err (validation (lit "key is required (CURRENT_CONFIG or CURRENT_USER)"))
    else ok (key, text_param q (lit "subkey"))

-- `keyRef` and the name of a value.
unfoldable pub named_key : Values → Result ((GoString × Option GoString) × GoString)
named_key q = and_then (key_ref q) (λ ref.
    let name = get_value q (lit "name") in
    if str_eq name [] then err (validation (lit "name is required")) else ok (ref, name))

-- A JSON value, over the numbers `F` of JSON.
pub data JsonValue (F : Type 0) : Type 0 where
  null composite : JsonValue F
  boolean : Bool → JsonValue F
  number : F → JsonValue F
  string : GoString → JsonValue F

-- What pgx sends.
pub data Sendable : Type 0 where
  int : ℤ → Sendable
  text : GoString → Sendable
  flag : Bool → Sendable

-- `variantTypes`: the code of a type and the SQL type that its values are pinned to.
pub record VariantType : Type 0 where
  pub code : ℕ
  pub sql : GoString

unfoldable pub variant_of : GoString → Option VariantType
variant_of name =
    if str_eq name (lit "integer")
    then some (record { code = 0; sql = lit "integer" })
    else if str_eq name (lit "numeric")
    then some (record { code = 1; sql = lit "numeric" })
    else if str_eq name (lit "datetime")
    then some (record { code = 2; sql = lit "timestamp" })
    else if str_eq name (lit "string")
    then some (record { code = 3; sql = lit "text" })
    else if str_eq name (lit "boolean")
    then some (record { code = 4; sql = lit "boolean" })
    else none

-- `valueBody`
pub record ValueBody : Type 0 where
  pub id : Option GoString
  pub key : Option GoString
  pub subkey : Option GoString
  pub value_name : GoString
  pub type_name : GoString
  pub value : GoString

-- What the module is given. `as_int` is the integer of a number whose conversion to int64 and back is
-- the number; `float_text` is `FormatFloat`.
pub record Registry (F V W : Type 0) : Type 0 where
  pub id_value : RowId → V
  pub text_value : Option GoString → V
  pub code_value : ℕ → V
  pub typed_value : Sendable → GoString → V
  pub parse_value : GoString → Option (JsonValue F)
  pub as_int : F → Option ℤ
  pub float_text : F → GoString
  pub read_value : GoString → Decoded ValueBody
  pub no_value : ValueBody
  pub scalar_of : GoString → Option GoString
  pub written_text : GoString → GoString → GoString → GoString
  pub texts : Texts
  pub api : GoString → Map V → W → Called W

unfoldable pub is_blank : Option GoString → Bool
is_blank none = true
is_blank (some s) = str_eq s []

unfoldable pub is_bad_id : Option GoString → Bool
is_bad_id none = false
is_bad_id (some s) = not (uuid_match s)

unfoldable pub is_given : Option GoString → Bool
is_given none = false
is_given (some s) = true

-- The `switch` of `write`.
unfoldable pub check_write : ValueBody → Result VariantType
check_write b =
    if str_eq b.value_name []
    then err (validation (lit "name is required"))
    else if not (is_given b.id) && is_blank b.key
    then err (validation (lit "id of the key, or key and subkey, is required"))
    else if is_bad_id b.id
    then err (validation (lit "id must be a UUID"))
    else elim (variant_of b.type_name) [
      | none ↦
          err (validation (lit "type must be one of integer, numeric, datetime, string, boolean"))
      | some t ↦ ok t
    ]

module _ {F V W : Type 0} (g : Registry F V W) where
  unfoldable pub integer_of : JsonValue F → Result Sendable
  integer_of (number f) = elim (g.as_int f) [
    | none ↦ err (validation (lit "value must be an integer"))
    | some n ↦ ok (int n)
  ]
  integer_of other = err (validation (lit "value must be an integer"))

  unfoldable pub numeric_of : JsonValue F → Result Sendable
  numeric_of (number f) = ok (text (g.float_text f))
  numeric_of (string s) = ok (text s)
  numeric_of other = err (validation (lit "value must be a number"))

  unfoldable pub boolean_of : JsonValue F → Result Sendable
  boolean_of (boolean b) = ok (flag b)
  boolean_of other = err (validation (lit "value must be a boolean"))

  unfoldable pub string_of : JsonValue F → Result Sendable
  string_of (string s) = ok (text s)
  string_of other = err (validation (lit "value must be a string"))

  -- The `switch` of `typed`.
  unfoldable pub typed_as : GoString → JsonValue F → Result Sendable
  typed_as name v =
      if str_eq name (lit "integer")
      then integer_of v
      else if str_eq name (lit "numeric")
      then numeric_of v
      else if str_eq name (lit "boolean")
      then boolean_of v
      else string_of v

  unfoldable pub typed_value_of : GoString → Option (JsonValue F) → Result Sendable
  typed_value_of name none = err (validation (lit "value is required"))
  typed_value_of name (some null) = err (validation (lit "value is required"))
  typed_value_of name (some v) = typed_as name v

  -- `typed`
  unfoldable pub typed : ValueBody → Result Sendable
  typed b = typed_value_of b.type_name (g.parse_value b.value)
