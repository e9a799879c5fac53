-- ===== src/Pgtx/Explain/Cache.antt =====
-- The map `looked` of `catalogueTitle` in lib/pgtx/daemon.go.
use go_platform.Base.{
  GoString, Bool, true, false, not, [], Option, none, some, ◌≡◌, refl, arith, str_eq, str_eq_iff,
  lookup, insert, lookup-insert, if◌then◌else◌, Map, Bool-cases, inl, inr,
}
use go_platform.Pgtx.Explain.{
  Answer, failed, no_row, row, usable_answer, Runner, text_at, or_else, ask_title, catalogue_title,
}

-- What the catalogue's answer is remembered as: "" for no usable message.
abbrev pub answer_title : Answer → GoString
answer_title failed = []
answer_title no_row = []
answer_title (row msg) = usable_answer msg

-- Every remembered answer is the one that the catalogue gives.
pub record IsCache (r : Runner) (looked : Map GoString) : Type 0 where
  pub remembers :
      (code t : GoString) → lookup code looked ≡ some t → t ≡ answer_title (r.catalogue code)

lookup_nil : (code : GoString) → lookup {A = GoString} code [] ≡ none
unfolding lookup
lookup_nil code = refl

module _ (r : Runner) (looked : Map GoString) (v : IsCache r looked)
    (code fallback : GoString) where
  insert-IsCache :
      (t : GoString) → t ≡ answer_title (r.catalogue code) → IsCache r (insert code t looked)
  insert-IsCache t e = record {
    remembers =
        λ j u h. ground (arith, lookup-insert code j t looked, str_eq_iff code j, v.remembers j u);
  }

  ask_title-IsCache : IsCache r (ask_title r looked code fallback).1
  unfolding ask_title
  ask_title-IsCache = answer (r.catalogue code) refl
    where
      answer : (a : Answer) → r.catalogue code ≡ a → IsCache r (ask_title r looked code fallback).1
      answer failed e = rw (e, ask_title) v
      answer no_row e = rw (e, ask_title) (insert-IsCache [] (rw e refl))
      answer (row msg) e = rw (e, ask_title) (insert-IsCache (usable_answer msg) (rw e refl))

  ask_title-answer :
      (ask_title r looked code fallback).0 ≡ or_else (answer_title (r.catalogue code)) fallback
  unfolding ask_title or_else str_eq
  ask_title-answer = ground arith

IsCache-nil : (r : Runner) → IsCache r []
unfolding lookup
IsCache-nil r = record { remembers = λ code t h. absurd (cc) }

module _ (r : Runner) (looked : Map GoString) (code fallback : GoString)
    (v : IsCache r looked) where
  title-eq :
      (found : Option GoString)
      → lookup code looked ≡ found
      → (catalogue_title r looked code fallback).0 ≡ (catalogue_title r [] code fallback).0
  unfolding catalogue_title
  title-eq none e = ground (
    arith,
    lookup_nil code,
    ask_title-answer r looked v code fallback,
    ask_title-answer r [] (IsCache-nil r) code fallback,
  )
  title-eq (some t) e = ground (
    arith,
    lookup_nil code,
    ask_title-answer r [] (IsCache-nil r) code fallback,
    v.remembers code t e,
  )

  title-IsCache :
      (found : Option GoString)
      → lookup code looked ≡ found
      → IsCache r (catalogue_title r looked code fallback).1
  unfolding catalogue_title
  title-IsCache found e = elim (Bool-cases (str_eq (text_at r.titles code) [])) [
    | inr named ↦ rw named v
    | inl blank ↦ rw blank (pooled r.has_pool found e)
  ]
    where
      looked_up :
          (found : Option GoString)
          → lookup code looked ≡ found
          → IsCache r
              (elim (lookup code looked) as (λ x. GoString × Map GoString) [
                | some t ↦ (or_else t fallback, looked)
                | none ↦ ask_title r looked code fallback
              ]).1
      looked_up none e = rw e (ask_title-IsCache r looked v code fallback)
      looked_up (some t) e = rw e v

      pooled :
          (b : Bool) (found : Option GoString)
          → lookup code looked ≡ found
          → IsCache r
              (if not b
                then (fallback, looked)
                else elim (lookup code looked) as (λ x. GoString × Map GoString) [
                  | some t ↦ (or_else t fallback, looked)
                  | none ↦ ask_title r looked code fallback
                ]).1
      pooled false found e = v
      pooled true found e = looked_up found e

-- The title of a refusal does not depend on what was looked up before: with the answers of earlier
-- lookups remembered it is the title of a process that has looked nothing up, and what is
-- remembered afterwards is still what the catalogue says.
pub catalogue_title-IsCache :
    (r : Runner) (looked : Map GoString) (code fallback : GoString)
    → IsCache r looked
    → ((catalogue_title r looked code fallback).0 ≡ (catalogue_title r [] code fallback).0)
      × IsCache r (catalogue_title r looked code fallback).1
catalogue_title-IsCache r looked code fallback v =
    (title-eq r looked code fallback v _ refl, title-IsCache r looked code fallback v _ refl)
