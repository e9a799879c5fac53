-- ===== src/Pgtx/Call/Values.antt =====
-- The values and the order of the arguments of `callSQL` of lib/pgtx/call.go.
use go_platform.Base.{
  GoString, ℕ, ◌+◌, true, List, [], ◌∷◌, map, ◌≡◌, refl, ap, arith, Map, lookup, keys_of,
  sort_strings, sort_strings-perm, Permᴰ, All, All-perm, IsDistinct, keys_of-perm, lookup-perm,
  Bool-cases, inl, inr,
}
use go_platform.Query.{is_ident}
use go_platform.Pgtx.Call.{
  Arg, Result, ok, err, ◌>>=◌, ◌>>◌, >>=-eq-ok, part_of, function_name, check_keys, sql_text,
  bind_arg, bytes, value, typed, find_arg, bind_args, call_sql,
}

module _ {V W : Type 0} (g : V → W) where
  -- The same argument with another value.
  abbrev pub map_arg : Arg V → Arg W
  map_arg (bytes v) = bytes (g v)
  map_arg (value v) = value (g v)
  map_arg (typed v t) = typed (g v) t

  abbrev pub map_args : Map (Arg V) → Map (Arg W)
  map_args [] = []
  map_args ((k, a) ∷ args) = (k, map_arg a) ∷ map_args args

  -- The text and the values changed by `g`.
  abbrev pub map_call : Result (GoString × List V) → Result (GoString × List W)
  map_call (ok (sql, vals)) = ok (sql, map g vals)
  map_call (err e) = err e

  abbrev map_bound : Result (List GoString × List V) → Result (List GoString × List W)
  map_bound (ok (parts, vals)) = ok (parts, map g vals)
  map_bound (err e) = err e

  abbrev map_found : Result (Arg V) → Result (Arg W)
  map_found (ok a) = ok (map_arg a)
  map_found (err e) = err e

  abbrev map_one : Result (V × GoString) → Result (W × GoString)
  map_one (ok (v, cast)) = ok (g v, cast)
  map_one (err e) = err e

  keys_of-map_args : (args : Map (Arg V)) → keys_of (map_args args) ≡ keys_of args
  unfolding keys_of
  keys_of-map_args [] = refl
  keys_of-map_args ((k, a) ∷ args) = ap (λ ks. k ∷ ks) (keys_of-map_args args)

  find_arg-map_args :
      (k : GoString) (args : Map (Arg V)) → find_arg k (map_args args) ≡ map_found (find_arg k args)
  unfolding find_arg lookup
  find_arg-map_args k [] = refl
  find_arg-map_args k ((j, a) ∷ args) = ground (arith, find_arg-map_args k args)

  bind_arg-map_arg : (k : GoString) (a : Arg V) → bind_arg k (map_arg a) ≡ map_one (bind_arg k a)
  unfolding bind_arg
  bind_arg-map_arg k (bytes v) = refl
  bind_arg-map_arg k (value v) = refl
  bind_arg-map_arg k (typed v t) = ground arith

  -- One round of the loop, once its argument and the rest are computed.
  one_bound :
      (k : GoString) (i : ℕ) (b : Result (V × GoString)) (rest : Result (List GoString × List V))
      → (map_one b >>= λ x. map_bound rest >>= λ y. ok (part_of k i x.1 ∷ y.0, x.0 ∷ y.1))
        ≡ map_bound (b >>= λ x. rest >>= λ y. ok (part_of k i x.1 ∷ y.0, x.0 ∷ y.1))
  one_bound k i (err e) rest = refl
  one_bound k i (ok b) (err e) = refl
  one_bound k i (ok b) (ok y) = refl

  one_found :
      (k : GoString) (i : ℕ) (r : Result (Arg V)) (rest : Result (List GoString × List V))
      → (map_found r >>= λ a.
          bind_arg k a >>= λ x. map_bound rest >>= λ y. ok (part_of k i x.1 ∷ y.0, x.0 ∷ y.1))
        ≡ map_bound
            (r >>= λ a. bind_arg k a >>= λ x. rest >>= λ y. ok (part_of k i x.1 ∷ y.0, x.0 ∷ y.1))
  one_found k i (err e) rest = refl
  one_found k i (ok a) rest = rw (bind_arg-map_arg k a) (one_bound k i (bind_arg k a) rest)

  whole_call :
      (name : Result GoString) (keys : Result (Unit {0})) (bound : Result (List GoString × List V))
      → (name >>= λ n. keys >> (map_bound bound >>= λ y. ok (sql_text n y.0, y.1)))
        ≡ map_call (name >>= λ n. keys >> (bound >>= λ y. ok (sql_text n y.0, y.1)))
  whole_call (err e) keys bound = refl
  whole_call (ok n) (err e) bound = refl
  whole_call (ok n) (ok _) (err e) = refl
  whole_call (ok n) (ok _) (ok y) = refl

  bind_args-map_args :
      (args : Map (Arg V)) (i : ℕ) (ks : List GoString)
      → bind_args (map_args args) i ks ≡ map_bound (bind_args args i ks)
  unfolding bind_args
  bind_args-map_args args i [] = refl
  bind_args-map_args args i (k ∷ ks) = rw (find_arg-map_args k args) (
      rw (bind_args-map_args args (i + 1) ks)
        (one_found k i (find_arg k args) (bind_args args (i + 1) ks)))

-- Changing the values of a call, and neither its keys nor the types they are pinned to, changes
-- neither the text nor a refusal, and the values stand in the same places.
pub call_sql-map_args :
    {V W : Type 0} (g : V → W) (fn : GoString) (args : Map (Arg V))
    → call_sql fn (map_args g args) ≡ map_call g (call_sql fn args)
unfolding call_sql
call_sql-map_args g fn args = rw (keys_of-map_args g args) (
    rw (bind_args-map_args g args 0 (sort_strings (keys_of args))) (
      whole_call g (function_name fn) (check_keys (keys_of args))
        (bind_args args 0 (sort_strings (keys_of args)))))

module _ {V : Type 0} where
  bind_args-eq :
      (args brgs : Map (Arg V)) (i : ℕ) (ks : List GoString)
      → ((k : GoString) → lookup k args ≡ lookup k brgs)
      → bind_args args i ks ≡ bind_args brgs i ks
  unfolding bind_args find_arg
  bind_args-eq args brgs i [] same = refl
  bind_args-eq args brgs i (k ∷ ks) same =
      rw (same k, find_arg) (rw (bind_args-eq args brgs (i + 1) ks same) refl)

check_keys-All : (ks : List GoString) → check_keys ks ≡ ok tt → All (λ k. is_ident k ≡ true) ks
unfolding check_keys
check_keys-All [] h = tt
check_keys-All (k ∷ ks) h = elim (Bool-cases (is_ident k)) [
  | inl named ↦ (named, check_keys-All ks (ground arith))
  | inr other ↦ absurd (ground arith)
]

check_keys_of_All : (ks : List GoString) → All (λ k. is_ident k ≡ true) ks → check_keys ks ≡ ok tt
unfolding check_keys
check_keys_of_All [] h = refl
check_keys_of_All (k ∷ ks) h = rw h.0 (check_keys_of_All ks h.1)

-- An accepted call has the same text and the same values whatever the order in which the map of
-- its arguments is walked.
pub call_sql-perm :
    {V : Type 0} (fn : GoString) (args brgs : Map (Arg V)) (sql : GoString) (vals : List V)
    → Permᴰ args brgs
    → IsDistinct (keys_of args)
    → call_sql fn args ≡ ok (sql, vals)
    → call_sql fn brgs ≡ ok (sql, vals)
unfolding call_sql
call_sql-perm fn args brgs sql vals p d h =
    let (name, named, h1) = >>=-eq-ok (function_name fn) _ h in
    let (_, checked, h2) = >>=-eq-ok (check_keys (keys_of args)) _ h1 in
    let again = check_keys_of_All (keys_of brgs) (
      All-perm (λ k. is_ident k ≡ true) (keys_of-perm p) (check_keys-All (keys_of args) checked)) in
    rw named (
      rw again (
        rw (← sort_strings-perm (keys_of-perm p)) (
          rw (← bind_args-eq args brgs 0 (sort_strings (keys_of args)) (λ k. lookup-perm k p d))
            h2)))
