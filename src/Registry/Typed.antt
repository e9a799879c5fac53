-- ===== src/Registry/Typed.antt =====
-- The typed values of registry/registry.go: what is sent for a type.
use go_platform.Base.{
  GoString, Bool, true, false, [], Option, none, some, ◌≡◌, ◌≢◌, refl, sym, ap, ◌∙◌, inl, inr, ◌⊎◌,
  arith, lit, str_eq, not, ◌&&◌, str_eq_iff, Bool-cases, ℤ, uuid_match, Option-cases,
}
use go_platform.Rest.Row.{ok}
use go_platform.Registry.{
  JsonValue, null, composite, boolean, number, string, Sendable, int, text, flag, VariantType,
  variant_of, ValueBody, Registry, is_blank, is_bad_id, is_given, check_write, integer_of,
  numeric_of, boolean_of, string_of, typed_as, typed_value_of, typed,
}

-- What a body has to be: a name, a key by its UUID or by its alias, and a type of the five.
abbrev pub IsAddressed : ValueBody → Type 0
IsAddressed b =
    (b.value_name ≢ [])
    × (((id : GoString) × (b.id ≡ some id) × (uuid_match id ≡ true))
        ⊎ ((b.id ≡ none) × ((key : GoString) × (b.key ≡ some key) × (key ≢ []))))

addressed-of :
    (name : GoString) (id key : Option GoString)
    → str_eq name [] ≡ false
    → (not (is_given id) && is_blank key) ≡ false
    → is_bad_id id ≡ false
    → ((name ≢ [])
        × (((i : GoString) × (id ≡ some i) × (uuid_match i ≡ true))
            ⊎ ((id ≡ none) × ((k : GoString) × (key ≡ some k) × (k ≢ [])))))
unfolding is_given is_blank is_bad_id
addressed-of name (some i) key named placed good =
    (λ (e : name ≡ []). ground (arith, str_eq_iff name []), inl (i, refl, ground arith))
addressed-of name none none named placed good = absurd (ground arith)
addressed-of name none (some k) named placed good = (
  λ (e : name ≡ []). ground (arith, str_eq_iff name []),
  inr (refl, (k, refl, λ (e : k ≡ []). ground (arith, str_eq_iff k []))),
)

pub check_write-IsAddressed :
    (b : ValueBody) (t : VariantType)
    → check_write b ≡ ok t
    → IsAddressed b × (variant_of b.type_name ≡ some t)
unfolding check_write
check_write-IsAddressed b t h = (
  addressed-of b.value_name b.id b.key (ground arith) (ground arith) (ground arith),
  ground arith,
)

boolean_variant : variant_of (lit "boolean") ≡ some (record { code = 4; sql = lit "boolean" })
unfolding variant_of lit str_eq
boolean_variant = refl

boolean-sql :
    (name : GoString) (t : VariantType)
    → name ≡ lit "boolean"
    → variant_of name ≡ some t
    → t.sql ≡ lit "boolean"
boolean-sql name t e known =
    let same : some t ≡ some (record { code = 4; sql = lit "boolean" }) =
      sym known ∙ ap variant_of e ∙ boolean_variant in
    ground arith

module _ {F V W : Type 0} (g : Registry F V W) where
  abbrev IsInteger : JsonValue F → Sendable → Type 0
  IsInteger j v = (f : F) × (n : ℤ) × (j ≡ number f) × (g.as_int f ≡ some n) × (v ≡ int n)

  abbrev IsNumeric : JsonValue F → Sendable → Type 0
  IsNumeric j v =
      ((f : F) × (j ≡ number f) × (v ≡ text (g.float_text f)))
      ⊎ ((s : GoString) × (j ≡ string s) × (v ≡ text s))

  abbrev IsFlag : JsonValue F → Sendable → Type 0
  IsFlag j v = (b : Bool) × (j ≡ boolean b) × (v ≡ flag b)

  abbrev IsText : JsonValue F → Sendable → Type 0
  IsText j v = (s : GoString) × (j ≡ string s) × (v ≡ text s)

  -- A value of JSON is sent as `v` under the SQL type.
  abbrev pub Fits : GoString → JsonValue F → Sendable → Type 0
  Fits sql j v =
      ((sql ≡ lit "integer") × IsInteger j v)
      ⊎ (((sql ≡ lit "numeric") × IsNumeric j v)
          ⊎ (((sql ≡ lit "boolean") × IsFlag j v)
              ⊎ (((sql ≡ lit "text") ⊎ (sql ≡ lit "timestamp")) × IsText j v)))

  integer_of-IsInteger : (j : JsonValue F) (v : Sendable) → integer_of g j ≡ ok v → IsInteger j v
  unfolding integer_of
  integer_of-IsInteger (number f) v h = elim (Option-cases (g.as_int f)) [
    | inl e ↦ absurd (ground arith)
    | inr (n, e) ↦ (f, n, refl, e, ground arith)
  ]
  integer_of-IsInteger null v h = cc
  integer_of-IsInteger composite v h = cc
  integer_of-IsInteger (boolean b) v h = cc
  integer_of-IsInteger (string s) v h = cc

  numeric_of-IsNumeric : (j : JsonValue F) (v : Sendable) → numeric_of g j ≡ ok v → IsNumeric j v
  unfolding numeric_of
  numeric_of-IsNumeric (number f) v h = inl (f, refl, cc)
  numeric_of-IsNumeric (string s) v h = inr (s, refl, cc)
  numeric_of-IsNumeric null v h = cc
  numeric_of-IsNumeric composite v h = cc
  numeric_of-IsNumeric (boolean b) v h = cc

  boolean_of-IsFlag : (j : JsonValue F) (v : Sendable) → boolean_of g j ≡ ok v → IsFlag j v
  unfolding boolean_of
  boolean_of-IsFlag (boolean b) v h = (b, refl, cc)
  boolean_of-IsFlag (number f) v h = cc
  boolean_of-IsFlag (string s) v h = cc
  boolean_of-IsFlag null v h = cc
  boolean_of-IsFlag composite v h = cc

  string_of-IsText : (j : JsonValue F) (v : Sendable) → string_of g j ≡ ok v → IsText j v
  unfolding string_of
  string_of-IsText (string s) v h = (s, refl, cc)
  string_of-IsText (number f) v h = cc
  string_of-IsText (boolean b) v h = cc
  string_of-IsText null v h = cc
  string_of-IsText composite v h = cc

  typed_as-Fits :
      (name : GoString) (t : VariantType) (j : JsonValue F) (v : Sendable)
      → variant_of name ≡ some t
      → typed_as g name j ≡ ok v
      → Fits t.sql j v
  unfolding typed_as variant_of
  typed_as-Fits name t j v known h = elim (Bool-cases (str_eq name (lit "integer"))) [
    | inl a ↦ inl (ground arith, integer_of-IsInteger j v (ground arith))
    | inr a ↦ elim (Bool-cases (str_eq name (lit "numeric"))) [
      | inl b ↦ inr (inl (ground arith, numeric_of-IsNumeric j v (ground arith)))
      | inr b ↦ elim (Bool-cases (str_eq name (lit "boolean"))) [
        | inl c ↦ inr (
            inr (
              inl (
                boolean-sql name t ((str_eq_iff name (lit "boolean")).0 c) known,
                boolean_of-IsFlag j v (ground arith),
              )))
        | inr c ↦ inr (inr (inr (ground arith, string_of-IsText j v (ground arith))))
      ]
    ]
  ]

  typed_value-Fits :
      (name : GoString) (t : VariantType) (o : Option (JsonValue F)) (v : Sendable)
      → variant_of name ≡ some t
      → typed_value_of g name o ≡ ok v
      → (j : JsonValue F) × (o ≡ some j) × Fits t.sql j v
  unfolding typed_value_of
  typed_value-Fits name t none v known h = cc
  typed_value-Fits name t (some null) v known h = cc
  typed_value-Fits name t (some composite) v known h =
      (composite, refl, typed_as-Fits name t composite v known h)
  typed_value-Fits name t (some (boolean b)) v known h =
      (boolean b, refl, typed_as-Fits name t (boolean b) v known h)
  typed_value-Fits name t (some (number f)) v known h =
      (number f, refl, typed_as-Fits name t (number f) v known h)
  typed_value-Fits name t (some (string s)) v known h =
      (string s, refl, typed_as-Fits name t (string s) v known h)

  -- A value that is accepted fits the SQL type of its type.
  pub typed-Fits :
      (b : ValueBody) (t : VariantType) (v : Sendable)
      → variant_of b.type_name ≡ some t
      → typed g b ≡ ok v
      → (j : JsonValue F) × (g.parse_value b.value ≡ some j) × Fits t.sql j v
  unfolding typed
  typed-Fits b t v known h = typed_value-Fits b.type_name t (g.parse_value b.value) v known h
