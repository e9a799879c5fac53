-- ===== src/Pgtx/Explain/Laws.antt =====
-- The status of a refusal of lib/pgtx, and its wording of an internal error.
use go_platform.Base.{
  GoString, ℕ, Bool, false, ◌&&◌, ◌||◌, Option, none, some, ◌≡◌, refl, arith, lit, str_eq,
  has_prefix, if◌then◌else◌, Map,
}
use go_platform.Problem.{parse_message, status_of_code, from_code, new}
use go_platform.Pgtx.Explain.{
  GoError, problem, pg, other, classify_pg, classify, Runner, internal_problem, constraint_problem,
  catalogue_problem, explain_class, explain,
}

abbrev pub is_delete : Option GoString → Bool
is_delete none = false
is_delete (some m) = str_eq m (lit "DELETE")

-- The status of what the database raised, by its SQLSTATE.
abbrev pub pg_status : Option GoString → GoString → GoString → ℕ
pg_status method state message =
    if str_eq state (lit "P0001")
    then (elim (parse_message message) [ some cut ↦ status_of_code cut.0 | none ↦ 400 ])
    else if has_prefix state (lit "23")
    then (if str_eq state (lit "23505") || str_eq state (lit "23503") && is_delete method
        then 409
        else 400)
    else if has_prefix state (lit "22")
    then 400
    else 500

-- The status of a failed request, by its error.
abbrev pub error_status : Option GoString → GoError → ℕ
error_status method (problem p) = p.status
error_status method (pg state message) = pg_status method state message
error_status method other = 500

-- A problem is answered with its own status; what the database raised with the status of its
-- catalogue code, 400 for another RAISE and for data it cannot read, 409 for a unique violation
-- and for a DELETE of what is still referenced, 400 for any other constraint; anything else is 500.
pub explain-status :
    (r : Runner) (looked : Map GoString) (method : Option GoString) (e : GoError)
    → (explain r looked method e).status ≡ error_status method e
unfolding explain classify explain_class classify_pg catalogue_problem constraint_problem
    internal_problem from_code new
explain-status r looked method (problem p) = refl
explain-status r looked method (pg state message) = ground arith
explain-status r looked method other = refl

-- An error that is neither a problem, nor a RAISE, nor of the classes 22 and 23 is answered by the
-- problem of any unknown error, whatever its message.
pub explain-internal :
    (r : Runner) (looked : Map GoString) (method : Option GoString) (state message : GoString)
    → str_eq state (lit "P0001") ≡ false
    → has_prefix state (lit "23") ≡ false
    → has_prefix state (lit "22") ≡ false
    → explain r looked method (pg state message) ≡ explain r looked method other
unfolding explain classify explain_class classify_pg
explain-internal r looked method state message h h23 h22 = ground arith
