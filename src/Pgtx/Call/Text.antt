-- ===== src/Pgtx/Call/Text.antt =====
-- The bytes of the text that `callSQL` of lib/pgtx/call.go makes.
use mathlib.Core.Path.{subst}
use go_platform.Base.{
  GoString, ℕ, suc, zero, ◌+◌, ◌/◌, ◌%◌, Bool, true, ◌&&◌, ◌||◌, List, [], ◌∷◌, ◌++◌, ◌≡◌, refl,
  arith, lit, str_eq, str_eq_sound, any, all, All, leb, ◌==◌, Map, keys_of, sort_strings,
  trim_prefix, insert_sorted, str_le, is_lower, is_digit, Bool-cases, inl, inr,
}
use go_platform.Query.{is_ident, ident_start, ident_byte}
use go_platform.Pgtx.Call.{
  Arg, ok, >>=-eq-ok, sql_types, is_sql_type, decimal_from, decimal, part_of, join, function_name,
  check_keys, sql_text, bind_arg, bytes, value, typed, find_arg, bind_args, call_sql,
}

-- Letters, digits, and ` _$=>:,.()`: no quote, no semicolon, no backslash, no comment sign.
unfoldable pub is_sql_byte : ℕ → Bool
is_sql_byte c =
    leb b'a' c && leb c b'z'
    || leb b'A' c && leb c b'Z'
    || leb b'0' c && leb c b'9'
    || c == 32
    || c == b'_'
    || c == b'$'
    || c == b'='
    || c == b'>'
    || c == b':'
    || c == b','
    || c == b'.'
    || c == b'('
    || c == b')'

abbrev pub IsSql : GoString → Type 0
IsSql s = all is_sql_byte s ≡ true

IsSql-append : (s t : GoString) → IsSql s → IsSql t → IsSql (s ++ t)
IsSql-append [] t h k = k
IsSql-append (c ∷ s) t h k = ground (arith, IsSql-append s t)

ident_byte-IsSql : (c : ℕ) → ident_byte c ≡ true → is_sql_byte c ≡ true
unfolding ident_byte is_lower is_digit is_sql_byte
ident_byte-IsSql c h = ground arith

ident_start-ident_byte : (c : ℕ) → ident_start c ≡ true → ident_byte c ≡ true
unfolding ident_start ident_byte
ident_start-ident_byte c h = ground arith

all_ident-IsSql : (s : GoString) → all ident_byte s ≡ true → IsSql s
all_ident-IsSql [] h = refl
all_ident-IsSql (c ∷ s) h = ground (arith, ident_byte-IsSql c, all_ident-IsSql s)

is_ident-IsSql : (s : GoString) → is_ident s ≡ true → IsSql s
unfolding is_ident
is_ident-IsSql [] h = refl
is_ident-IsSql (c ∷ s) h =
    ground (arith, ident_byte-IsSql c, ident_start-ident_byte c, all_ident-IsSql s)

any-IsSql :
    (t : GoString) (types : List GoString)
    → all (λ u. all is_sql_byte u) types ≡ true
    → any (str_eq t) types ≡ true
    → IsSql t
any-IsSql t [] h e = absurd (cc)
any-IsSql t (u ∷ types) h e = elim (Bool-cases (str_eq t u)) [
  | inl same ↦ rw (str_eq_sound t u same) (ground arith)
  | inr other ↦ any-IsSql t types (ground arith) (ground arith)
]

is_sql_type-IsSql : (t : GoString) → is_sql_type t ≡ true → IsSql t
unfolding is_sql_type
is_sql_type-IsSql t h = any-IsSql t sql_types (unfold sql_types lit is_sql_byte in refl) h

digit-IsSql : (n : ℕ) → is_sql_byte (n % 10 + 48) ≡ true
unfolding is_sql_byte
digit-IsSql n = ground arith

decimal_from-IsSql : (fuel n : ℕ) (acc : GoString) → IsSql acc → IsSql (decimal_from fuel n acc)
unfolding decimal_from
decimal_from-IsSql zero n acc h = h
decimal_from-IsSql (suc fuel) n acc h =
    ground (arith, digit-IsSql n, decimal_from-IsSql fuel (n / 10) ((n % 10 + 48) ∷ acc))

part_of-IsSql :
    (k : GoString) (i : ℕ) (cast : GoString) → IsSql k → IsSql cast → IsSql (part_of k i cast)
unfolding part_of decimal
part_of-IsSql k i cast hk hc = IsSql-append (lit "p") _ (unfold lit is_sql_byte in refl) (
    IsSql-append k _ hk (
      IsSql-append (lit " => $") _ (unfold lit is_sql_byte in refl) (
        IsSql-append (decimal_from (suc (i + 1)) (i + 1) []) cast
          (decimal_from-IsSql (suc (i + 1)) (i + 1) [] refl) hc)))

join-IsSql : (parts : List GoString) → All IsSql parts → IsSql (join parts)
unfolding join
join-IsSql [] h = refl
join-IsSql (p ∷ []) h = h.0
join-IsSql (p ∷ q ∷ ps) h =
    IsSql-append p _ h.0
      (IsSql-append (lit ", ") _ (unfold lit is_sql_byte in refl) (join-IsSql (q ∷ ps) h.1))

sql_text-IsSql :
    (name : GoString) (parts : List GoString)
    → IsSql name
    → All IsSql parts
    → IsSql (sql_text name parts)
unfolding sql_text
sql_text-IsSql name parts hn hp =
    IsSql-append (lit "SELECT to_json(t) FROM api.") _ (unfold lit is_sql_byte in refl) (
      IsSql-append name _ hn (
        IsSql-append (lit "(") _ (unfold lit is_sql_byte in refl) (
          IsSql-append (join parts) (lit ") t") (join-IsSql parts hp)
            (unfold lit is_sql_byte in refl))))

function_name-IsSql : (fn name : GoString) → function_name fn ≡ ok name → IsSql name
unfolding function_name
function_name-IsSql fn name h = elim (Bool-cases (is_ident (trim_prefix fn (lit "api.")))) [
  | inl named ↦
      let same : trim_prefix fn (lit "api.") ≡ name = ground arith in
      subst IsSql same (is_ident-IsSql _ named)
  | inr other ↦ absurd (ground arith)
]

check_keys-IsSql : (ks : List GoString) → check_keys ks ≡ ok tt → All IsSql ks
unfolding check_keys
check_keys-IsSql [] h = tt
check_keys-IsSql (k ∷ ks) h = elim (Bool-cases (is_ident k)) [
  | inl named ↦ (is_ident-IsSql k named, check_keys-IsSql ks (ground arith))
  | inr other ↦ absurd (ground arith)
]

All-insert_sorted :
    (P : GoString → Type 0) (k : GoString) (ks : List GoString)
    → P k
    → All P ks
    → All P (insert_sorted k ks)
unfolding insert_sorted
All-insert_sorted P k [] h hs = (h, tt)
All-insert_sorted P k (j ∷ ks) h hs = elim (Bool-cases (str_le k j)) [
  | inl first ↦ rw first (h, hs)
  | inr later ↦ rw later (hs.0, All-insert_sorted P k ks h hs.1)
]

All-sort_strings : (P : GoString → Type 0) (ks : List GoString) → All P ks → All P (sort_strings ks)
unfolding sort_strings
All-sort_strings P [] h = tt
All-sort_strings P (k ∷ ks) h = All-insert_sorted P k _ h.0 (All-sort_strings P ks h.1)

module _ {V : Type 0} where
  bind_arg-IsSql : (k : GoString) (a : Arg V) (b : V × GoString) → bind_arg k a ≡ ok b → IsSql b.1
  unfolding bind_arg
  bind_arg-IsSql k (bytes v) b h = absurd (cc)
  bind_arg-IsSql k (value v) b h =
      let same : ◌≡◌ {A = V × GoString} (v, []) b = cc h in subst (λ x. IsSql x.1) same refl
  bind_arg-IsSql k (typed v t) b h = elim (Bool-cases (is_sql_type t)) [
    | inr other ↦ absurd (ground arith)
    | inl known ↦
        let same : ◌≡◌ {A = V × GoString} (v, lit "::" ++ t) b = ground arith in
        subst (λ x. IsSql x.1) same
          (IsSql-append (lit "::") t (unfold lit is_sql_byte in refl) (is_sql_type-IsSql t known))
  ]

  bind_args-IsSql :
      (args : Map (Arg V)) (i : ℕ) (ks : List GoString) (bound : List GoString × List V)
      → All IsSql ks
      → bind_args args i ks ≡ ok bound
      → All IsSql bound.0
  unfolding bind_args
  bind_args-IsSql args i [] bound h e =
      let same : ◌≡◌ {A = List GoString × List V} ([], []) bound = cc e in
      subst (λ x. All IsSql x.0) same tt
  bind_args-IsSql args i (k ∷ ks) bound h e =
      let (a, found, e1) = >>=-eq-ok (find_arg k args) _ e in
      let (b, bound_one, e2) = >>=-eq-ok (bind_arg k a) _ e1 in
      let (rest, bound_rest, e3) = >>=-eq-ok (bind_args args (i + 1) ks) _ e2 in
      let same : ◌≡◌ {A = List GoString × List V} (part_of k i b.1 ∷ rest.0, b.0 ∷ rest.1) bound =
        cc e3 in
      subst (λ x. All IsSql x.0) same
        (
          part_of-IsSql k i b.1 h.0 (bind_arg-IsSql k a b bound_one),
          bind_args-IsSql args (i + 1) ks rest h.1 bound_rest,
        )

-- Whatever the function's name, the arguments' names and the types that they are pinned to, the
-- text of an accepted call holds letters, digits, blanks and `_ $ = > : , . ( )` only.
pub call_sql-IsSql :
    {V : Type 0} (fn : GoString) (args : Map (Arg V)) (sql : GoString) (vals : List V)
    → call_sql fn args ≡ ok (sql, vals)
    → IsSql sql
unfolding call_sql
call_sql-IsSql {V} fn args sql vals h =
    let (name, named, h1) = >>=-eq-ok (function_name fn) _ h in
    let (_, checked, h2) = >>=-eq-ok (check_keys (keys_of args)) _ h1 in
    let (bound, made, h3) = >>=-eq-ok (bind_args args 0 (sort_strings (keys_of args))) _ h2 in
    let same : sql_text name bound.0 ≡ sql = cc h3 in
    subst IsSql same (
      sql_text-IsSql name bound.0 (function_name-IsSql fn name named) (
        bind_args-IsSql args 0 (sort_strings (keys_of args)) bound
          (All-sort_strings IsSql (keys_of args) (check_keys-IsSql (keys_of args) (checked))) made))
